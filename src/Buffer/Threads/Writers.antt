-- ===== src/Buffer/Threads/Writers.antt =====
-- The steps of `ipc_buffer_write` keep the invariant, and a commit appends to the queue.
use libshmipc.Base.{
  true, false, append-nil, ℕ, ◌+◌, ◌-◌, ◌%◌, ◌^◌, ◌≤◌, ◌<◌, ◌≡◌, ◌≢◌, none, some, List, [], ◌∷◌,
  ◌++◌, length, arith, sym, subst, ap, ◌∙◌, refl, ltb, ltb→le,
}
use libshmipc.Base.Word.{add64-eq}
use libshmipc.Memory.{Memory, load_u64}
use libshmipc.Utils.{relative}
use libshmipc.Utils.Align.{relative-pow, two_pow_bounds}
use libshmipc.Buffer.State.{Shm, lock, unlock, read_head}
use libshmipc.Buffer.Words.{lock_even}
use libshmipc.Buffer.Layout.{Slot, message, padding, full_size, slot_size, payloads, SlotAt}
use libshmipc.Buffer.Layout.Chain.{payloads-append_message, payloads-append_padding}
use libshmipc.Buffer.Write.{fill_entry}
use libshmipc.Buffer.Write.Step.{head-le-tail}
use libshmipc.Buffer.Write.Valid.{commit-IsValid}
use libshmipc.Buffer.Threads.Point.{Pc, Event, quiet}
use libshmipc.Buffer.Threads.Writing.{
  full_entry_size, free_space_at, reservation_at, commit_word, WriteMove, begin_write, tail_locked,
  load_tail, no_space, has_space, lock_tail, tail_moved, fill, commit_message, commit_padding,
  commit_fails,
}
use libshmipc.Buffer.Threads.Invariant.{
  Ghost, Local, Inv, Rely, Outside, Writes, Past, Fits, Free, entry_at, Stored,
}
use libshmipc.Buffer.Threads.LockWord.{unlock-word, no_holder, no_holder_of_unlocked, held_word}
use libshmipc.Buffer.Threads.Frame.{
  After, Effect, no_effect, appends, moved, quietly, head_of, tail_of, tail-Past, some_other,
  none_other,
}
use libshmipc.Buffer.Threads.Store.{
  full_entry_size-eq, full-eq, reservation_of, reservation_at-eq, stores,
}

-- What the others see of a writer's step.
writer-Rely :
    {g g' : Ghost} {m m' : Memory} (j : ℕ) (more : List Slot)
    → g'.head ≡ g.head
    → g'.reader ≡ g.reader
    → g.tail ≤ g'.tail
    → g.writer ≢ some j
    → g'.writer ≢ some j
    → g'.slots ≡ g.slots ++ more
    → Rely j g m g' m'
writer-Rely j more head reader tails before after slots = record {
  heads = omega arith;
  tails = tails;
  outside = λ o. record { no_reader = λ e. o.no_reader (sym reader ∙ e); no_writer = after };
  reading = λ h d. record {
    reader = reader ∙ d.reader;
    no_writer = after;
    at_head = d.at_head ∙ sym head;
  };
  writing = λ t w. absurd (before w.writer);
  longer = λ e. (more, slots);
}

-- The size in the header of an entry.
pub entry_size-slot :
    (c : ℕ) (m : Memory) (p : ℕ) (slot : Slot)
    → SlotAt c m p slot
    → load_u64 (p % c + 16) m ≡ slot_size slot
entry_size-slot c m p (message xs) a = a.entry_size
entry_size-slot c m p (padding n) a = a.entry_size

module _ {k : ℕ} {g : Ghost} {s : Shm} {pc : ℕ → Pc} (v : Inv k g s pc) (i : ℕ) where
  le : g.head ≤ g.tail
  le = head-le-tail v.valid

  -- The free space, for a tail that is still the current one.
  free_space_at-eq : (tail : ℕ) → tail ≡ g.tail → free_space_at s tail ≡ 2 ^ k - (g.tail - g.head)
  unfolding read_head
  free_space_at-eq tail e =
      rw (unlock-word g.reader (head_of v), e)
        (omega (arith, le, v.valid.capacity, v.valid.fits, two_pow_bounds k v.valid.small))

  Free-of_test :
      (xs : List ℕ) (tail : ℕ)
      → Fits k xs
      → ltb (free_space_at s tail) (full_entry_size xs) ≡ false
      → tail ≡ g.tail
      → Free k g xs
  Free-of_test xs tail f test e = omega (
    arith,
    ltb→le (free_space_at s tail) (full_entry_size xs) test,
    free_space_at-eq tail e,
    full-eq k xs v.valid.small f,
  )

  written_message :
      (xs : List ℕ) (tail : ℕ)
      → Fits k xs
      → (reservation_at s.data_size xs tail).is_placeholder ≡ false
      → entry_at k xs tail ≡ message xs
  written_message xs tail f h =
      let test : (reservation_of k xs tail).is_placeholder ≡ false =
        ap (λ r. r.is_placeholder)
          (sym (reservation_at-eq k s.data_size xs tail v.valid.small f v.valid.capacity))
        ∙ h in
      rw test refl

  written_padding :
      (xs : List ℕ) (tail : ℕ)
      → Fits k xs
      → (reservation_at s.data_size xs tail).is_placeholder ≡ true
      → entry_at k xs tail ≡ padding (2 ^ k - tail % 2 ^ k)
  written_padding xs tail f h =
      let test : (reservation_of k xs tail).is_placeholder ≡ true =
        ap (λ r. r.is_placeholder)
          (sym (reservation_at-eq k s.data_size xs tail v.valid.small f v.valid.capacity))
        ∙ h in
      rw test refl

  abbrev locked : Ghost
  locked = record g { writer = some i }

  locking :
      (xs : List ℕ) (tail : ℕ)
      → s.tail ≡ unlock tail
      → Outside g i × Fits k xs × Past g.tail tail × (tail ≡ g.tail → Free k g xs)
      → After k g pc i quiet (record s { tail = lock tail }) (Pc.w_fill xs tail)
  locking xs tail e (o, f, p, free) =
      let (none_before, same) =
        no_holder_of_unlocked g.writer (tail_of v) tail p.even (omega (arith, p.past, v.valid.fits))
          e in
      moved v i locked (record s { tail = lock tail }) (Pc.w_fill xs tail) v.valid v.head_word
        (lock_even tail (omega (arith, p.even)) (omega (arith, p.past, v.valid.fits))
          ∙ ap (λ x. x + 1) same)
        (record { writer = refl; no_reader = o.no_reader; at_tail = same }, f, free same)
        (λ j other.
          writer-Rely j [] refl refl (omega arith) (none_other none_before) (some_other other refl)
            (sym (append-nil g.slots)))
        (no_effect refl)

  abbrev filled : List ℕ → ℕ → Memory
  filled xs tail =
      fill_entry (reservation_at s.data_size xs tail) (full_entry_size xs) (length xs) xs s.region

  filling :
      (xs : List ℕ) (tail : ℕ)
      → g.tail + 2 ^ k < 2 ^ 64
      → Writes g i tail × Fits k xs × Free k g xs
      → After k g pc i quiet (record s { region = filled xs tail }) (Pc.w_commit xs tail)
  filling xs tail no_wrap (w, f, free) =
      let made = stores v.valid xs f free no_wrap in
      let new : Memory =
        fill_entry (reservation_of k xs g.tail) (full_size (length xs)) (length xs) xs s.region in
      let same : filled xs tail ≡ new =
        rw
          (
            w.at_tail,
            reservation_at-eq k s.data_size xs g.tail v.valid.small f v.valid.capacity,
            full-eq k xs v.valid.small f,
          )
          refl in
      let stored : Stored k g new (entry_at k xs g.tail) = record {
        stored = made.stands;
        near = made.fits_free;
      } in
      subst (λ m. After k g pc i quiet (record s { region = m }) (Pc.w_commit xs tail)) (sym same)
        (moved v i g (record s { region = new }) (Pc.w_commit xs tail) made.kept v.head_word
          v.tail_word (w, f, subst (λ x. Stored k g new (entry_at k xs x)) (sym w.at_tail) stored)
          (λ j other.
            writer-Rely j [] refl refl (omega arith) (some_other other w.writer)
              (some_other other w.writer) (sym (append-nil g.slots)))
          (no_effect refl))

  abbrev behind : Slot → Ghost
  behind slot = record g {
    tail = g.tail + slot_size slot;
    slots = g.slots ++ (slot ∷ []);
    writer = none;
  }

  -- Where the commit moves the tail.
  pub commit_word-eq :
      (tail : ℕ) (slot : Slot)
      → g.tail + 2 ^ k < 2 ^ 64
      → Writes g i tail
      → Stored k g s.region slot
      → commit_word s tail ≡ g.tail + slot_size slot
  commit_word-eq tail slot no_wrap w st =
      let size : load_u64 (relative tail s.data_size + 16) s.region ≡ slot_size slot =
        rw (w.at_tail, v.valid.capacity, relative-pow g.tail k v.valid.small)
          (entry_size-slot (2 ^ k) s.region g.tail slot st.stored) in
      rw (size, w.at_tail) (add64-eq g.tail (slot_size slot) (omega (arith, st.near)))

  committing :
      {e : Event} (tail : ℕ) (slot : Slot) (p : Pc)
      → g.tail + 2 ^ k < 2 ^ 64
      → Writes g i tail
      → Stored k g s.region slot
      → Local k (behind slot) s.region i p
      → Effect (payloads g.slots) (payloads (g.slots ++ (slot ∷ []))) e
      → After k g pc i e (record s { tail = commit_word s tail }) p
  committing {e} tail slot p no_wrap w st own effect =
      subst (λ x. After k g pc i e (record s { tail = x }) p)
        (sym (commit_word-eq tail slot no_wrap w st))
        (moved v i (behind slot) (record s { tail = g.tail + slot_size slot }) p
          (commit-IsValid slot v.valid st.near no_wrap st.stored) v.head_word (omega arith) own
          (λ j other.
            writer-Rely j (slot ∷ []) refl refl (omega arith) (some_other other w.writer)
              (none_other refl) refl)
          effect)

  left : (slot : Slot) {tail : ℕ} → Writes g i tail → Outside (behind slot) i
  left slot w = record { no_reader = w.no_reader; no_writer = none_other refl }

  -- Every step of a write.
  pub WriteMove-After :
      {p : Pc} {e : Event} {s' : Shm} {p' : Pc}
      → WriteMove s p e s' p'
      → s.tail + 2 ^ k < 2 ^ 64
      → Local k g s.region i p
      → After k g pc i e s' p'
  WriteMove-After (begin_write {xs} some_bytes bounded test) near o = quietly v i (Pc.w_tail xs) (
    o,
    record {
      some_bytes = some_bytes;
      room = omega (
        arith,
        ltb→le s.data_size (full_entry_size xs) test,
        full_entry_size-eq xs bounded,
        v.valid.capacity,
      );
    },
  )
  WriteMove-After (tail_locked {xs} h) near (o, f) = quietly v i Pc.idle o
  WriteMove-After (load_tail {xs} h) near (o, f) =
      let (free, same) = no_holder g.writer (tail_of v) h in
      quietly v i (Pc.w_head xs s.tail) (o, f, subst (λ x. Past g.tail x) (sym same) (tail-Past v))
  WriteMove-After (no_space {xs} {tail} h) near (o, f, p) = quietly v i Pc.idle o
  WriteMove-After (has_space {xs} {tail} h) near (o, f, p) =
      quietly v i (Pc.w_lock xs tail) (o, f, p, Free-of_test xs tail f h)
  WriteMove-After (lock_tail {xs} {tail} h) near l = locking xs tail h l
  WriteMove-After (tail_moved {xs} {tail} h) near (o, f, p, free) =
      quietly v i (Pc.w_tail xs) (o, f)
  WriteMove-After (fill {xs} {tail}) near l = filling xs tail (omega (arith, near, v.tail_word)) l
  WriteMove-After (commit_message {xs} {tail} h long) near (w, f, st) =
      committing tail (message xs) Pc.idle (omega (arith, near, v.tail_word)) w
        (subst (λ slot. Stored k g s.region slot) (written_message xs tail f long) st)
        (left (message xs) w) (appends xs (payloads-append_message g.slots xs))
  WriteMove-After (commit_padding {xs} {tail} h short) near (w, f, st) =
      let n : ℕ = 2 ^ k - tail % 2 ^ k in
      committing tail (padding n) (Pc.w_tail xs) (omega (arith, near, v.tail_word)) w
        (subst (λ slot. Stored k g s.region slot) (written_padding xs tail f short) st)
        (left (padding n) w, f) (no_effect (payloads-append_padding g.slots n))
  WriteMove-After (commit_fails {xs} {tail} h) near (w, f, st) =
      absurd (h (held_word g.writer (tail_of v) w.writer ∙ ap lock (sym w.at_tail)))
