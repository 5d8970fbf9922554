-- ===== src/Buffer/Threads/Taking.antt =====
-- The steps of `ipc_buffer_read`, `ipc_buffer_peek` and `ipc_buffer_skip` keep the invariant, and an entry
-- that is taken is the oldest one.
use libshmipc.Base.{
  ℕ, ◌+◌, ◌^◌, ◌<◌, ◌≡◌, ◌≢◌, ◌⊎◌, inl, inr, none, some, List, ◌∷◌, length, arith, sym, subst, ap,
  ◌∙◌, refl, true, false,
}
use libshmipc.Common.{ok, placeholder, is_ok, is_placeholder}
use libshmipc.Memory.{load_bytes}
use libshmipc.Utils.{relative}
use libshmipc.Buffer.State.{Shm, unlock}
use libshmipc.Buffer.Words.{unlock_even}
use libshmipc.Buffer.Head.{slot_status, slot_header}
use libshmipc.Buffer.Layout.{Slot, message, padding, full_size, payloads, SlotAt}
use libshmipc.Buffer.Threads.Point.{Pc, Event}
use libshmipc.Buffer.Threads.Reading.{
  header_at, bytes_at, ReadMove, begin_read, head_locked, other_offset, load_head, lock_head,
  head_moved, found_empty, found_busy, found_entry, unreadable, found_padding, too_small, copy,
  view, pass, unlock_head, unlock_fails, advance_padding, padding_fails, advance, advance_fails,
}
use libshmipc.Buffer.Threads.Invariant.{
  Ghost, Local, Inv, Reads, Past, Front, Copied, not_copied, copied,
}
use libshmipc.Buffer.Threads.LockWord.{unlock-word, no_holder}
use libshmipc.Buffer.Threads.Frame.{
  After, no_effect, removes, quietly, head_of, tail_of, head-Past, some_other, none_other,
}
use libshmipc.Buffer.Threads.Readers.{
  le, head_fits, index, First, First-slot, header_at-slot, locking, holding, releasing, passing,
}

slot_seq : {p : ℕ} (slot : Slot) → (slot_header p slot).seq ≡ p
slot_seq (message xs) = refl
slot_seq (padding n) = refl

slot_readable : (slot : Slot) → (slot_status slot ≡ ok) ⊎ (slot_status slot ≡ placeholder)
slot_readable (message xs) = inl refl
slot_readable (padding n) = inr refl

module _ {k : ℕ} {g : Ghost} {s : Shm} {pc : ℕ → Pc} (v : Inv k g s pc) (i : ℕ) where
  not_empty : (head : ℕ) → Reads g i head → unlock head ≢ unlock s.tail → g.head < g.tail
  not_empty head d h =
      let at : unlock head ≡ g.head =
        rw (d.at_head) (unlock_even g.head (omega (arith, v.valid.head_aligned)) (head_fits v i)) in
      let differ : g.head ≢ g.tail = λ e. h (at ∙ e ∙ sym (unlock-word g.writer (tail_of v))) in
      omega (arith, le v i, differ)

  found :
      (head : ℕ) (slot : Slot)
      → Reads g i head
      → SlotAt (2 ^ k) s.region g.head slot
      → header_at s head ≡ (slot_status slot, slot_header g.head slot)
  found head slot d a = rw (d.at_head) (header_at-slot v i slot a)

  -- With the status of a message, the first entry is one, and its header and bytes are those found.
  record Message (head : ℕ) : Type 0 where
    payload : List ℕ
    front : Front g (message payload)
    size : ((header_at s head).1).entry_size ≡ full_size (length payload)
    bytes : bytes_at s head ≡ payload

  first : g.head < g.tail → First (2 ^ k) s.region g.head g.slots
  first lt = First-slot (2 ^ k) s.region g.head g.slots g.tail v.valid.entries lt

  found-Message :
      (head : ℕ) (slot : Slot) (rest : List Slot)
      → g.slots ≡ slot ∷ rest
      → SlotAt (2 ^ k) s.region g.head slot
      → Reads g i head
      → is_ok (header_at s head).0 ≡ true
      → Message head
  found-Message head (padding n) rest split a d h =
      let e : false ≡ true = sym (ap (λ r. is_ok r.0) (found head (padding n) d a)) ∙ h in
      absurd (cc)
  found-Message head (message xs) rest split a d h =
      let e = found head (message xs) d a in
      record {
        payload = xs;
        front = record { behind = rest; front = split };
        size = ap (λ r. (r.1).entry_size) e;
        bytes =
            ap (λ r. load_bytes (r.1).payload_size (relative head s.data_size + 24) s.region) e
            ∙ (rw (d.at_head, index v i) a.bytes);
      }

  found_pad :
      (head : ℕ) (slot : Slot) (rest : List Slot)
      → g.slots ≡ slot ∷ rest
      → SlotAt (2 ^ k) s.region g.head slot
      → Reads g i head
      → is_placeholder (header_at s head).0 ≡ true
      → Front g (padding ((header_at s head).1).entry_size)
  found_pad head (message xs) rest split a d h =
      let e : false ≡ true = sym (ap (λ r. is_placeholder r.0) (found head (message xs) d a)) ∙ h in
      absurd (cc)
  found_pad head (padding n) rest split a d h =
      let e = found head (padding n) d a in
      record {
        behind = rest;
        front = split ∙ ap (λ x. padding x ∷ rest) (sym (ap (λ r. (r.1).entry_size) e));
      }

  alone : (head : ℕ) → Reads g i head → (j : ℕ) → j ≢ i → g.reader ≢ some j
  alone head d j other = some_other other d.reader

  -- Every step of these operations.
  pub ReadMove-After :
      {p : Pc} {e : Event} {s' : Shm} {p' : Pc}
      → ReadMove s p e s' p'
      → Local k g s.region i p
      → After k g pc i e s' p'
  ReadMove-After (begin_read {j} h) o = quietly v i (Pc.r_head j) o
  ReadMove-After (head_locked {j} h) o = quietly v i Pc.idle o
  ReadMove-After (other_offset {offset} h h') o = quietly v i Pc.idle o
  ReadMove-After (load_head {j} h h') o =
      let (free, same) = no_holder g.reader (head_of v) h in
      quietly v i (Pc.r_lock j s.head) (o, subst (λ x. Past g.head x) (sym same) (head-Past v))
  ReadMove-After (lock_head {j} {head} h) l = locking v i j head h l
  ReadMove-After (head_moved {j} {head} h) (o, p) = quietly v i (Pc.r_head j) o
  ReadMove-After (found_empty {j} {head} h) d = quietly v i (Pc.r_unlock head) d
  ReadMove-After (found_busy {j} {head} h h') d = quietly v i (Pc.r_unlock head) d
  ReadMove-After (found_entry {j} {head} h h') d =
      quietly v i (Pc.r_entry j head) (d, not_empty head d h)
  ReadMove-After (unreadable {j} {head} h h') (d, lt) = quietly v i (Pc.r_unlock head) d
  ReadMove-After (found_padding {j} {head} h) (d, lt) =
      let f = first lt in
      quietly v i (Pc.r_pad j head ((header_at s head).1).entry_size)
        (d, found_pad head f.slot f.rest f.split f.stands d h)
  ReadMove-After (too_small {size} {head} h h') (d, lt) = quietly v i (Pc.r_unlock head) d
  ReadMove-After (copy {size} {head} h h') (d, lt) =
      let f = first lt in
      let m = found-Message head f.slot f.rest f.split f.stands d h in
      quietly v i (Pc.r_take head ((header_at s head).1).entry_size (some (bytes_at s head))) (
        d,
        (m.payload, m.front, m.size, subst (λ b. Copied m.payload (some b)) (sym m.bytes) copied),
      )
  ReadMove-After (view {head} h) (d, lt) = quietly v i (Pc.r_unlock head) d
  ReadMove-After (pass {offset} {head} h) (d, lt) =
      let f = first lt in
      let m = found-Message head f.slot f.rest f.split f.stands d h in
      quietly v i (Pc.r_take head ((header_at s head).1).entry_size none)
        (d, (m.payload, m.front, m.size, not_copied))
  ReadMove-After (unlock_head {head} h) d = releasing v i head d
  ReadMove-After (unlock_fails {head} h) d = absurd (h (holding v i head d))
  ReadMove-After (advance_padding {j} {head} {entry_size = n} h) (d, f) =
      passing v i head n (padding n) f (Pc.r_head j) d.at_head refl (alone head d)
        (record { no_reader = none_other refl; no_writer = d.no_writer })
        (no_effect (sym (ap payloads f.front)))
  ReadMove-After (padding_fails {j} {head} {entry_size = n} h) (d, f) =
      absurd (h (holding v i head d))
  ReadMove-After (advance {head} {entry_size = n} {copied = out} h) (d, (xs, f, size, taken)) =
      passing v i head n (message xs) f Pc.idle d.at_head (sym size) (alone head d)
        (record { no_reader = none_other refl; no_writer = d.no_writer })
        (removes xs taken (ap payloads f.front))
  ReadMove-After (advance_fails {head} {entry_size = n} {copied = out} h)
        (d, (xs, f, size, taken)) =
      absurd (h (holding v i head d))

  -- The header that a reader finds is that of an entry.
  pub readable :
      (head : ℕ)
      → Reads g i head
      → g.head < g.tail
      → (((header_at s head).1).seq ≡ head)
        × (((header_at s head).0 ≡ ok) ⊎ ((header_at s head).0 ≡ placeholder))
  readable head d lt =
      let f = first lt in
      let e = found head f.slot d f.stands in
      (
        ap (λ r. (r.1).seq) e ∙ slot_seq f.slot ∙ sym d.at_head,
        elim (slot_readable f.slot) [
          | inl o ↦ inl (ap (λ r. r.0) e ∙ o)
          | inr p ↦ inr (ap (λ r. r.0) e ∙ p)
        ],
      )
