-- ===== src/Buffer/Threads/Readers.antt =====
-- What a reader finds at the head, and the three exchanges of the head: locking, unlocking, moving on.
use libshmipc.Base.{
  append-nil, ℕ, ◌+◌, ◌%◌, ◌^◌, ◌≤◌, ◌<◌, ◌≡◌, ◌≢◌, none, some, List, [], ◌∷◌, ◌++◌, arith, sym,
  subst, ap, ◌∙◌, refl,
}
use libshmipc.Base.Word.{add64, add64-eq}
use libshmipc.Memory.{Memory}
use libshmipc.Utils.{relative}
use libshmipc.Utils.Align.{relative-pow}
use libshmipc.Buffer.State.{check_entry_header, Shm, lock, unlock}
use libshmipc.Buffer.Words.{lock_even, unlock_even}
use libshmipc.Buffer.Head.{
  slot_status, slot_header, load_entry_header-slot, check_entry_header-slot, next_fits,
  advance-IsValid,
}
use libshmipc.Buffer.Layout.{Slot, slot_size, payloads, SlotAt, Entries, IsValid}
use libshmipc.Buffer.Layout.Chain.{SlotAt-header}
use libshmipc.Buffer.Write.Step.{head-le-tail}
use libshmipc.Buffer.Threads.Point.{Job, Pc, Event, quiet}
use libshmipc.Buffer.Threads.Reading.{header_at}
use libshmipc.Buffer.Threads.Invariant.{
  Ghost, at_rest, Local, Inv, Rely, Outside, Reads, Past, Front,
}
use libshmipc.Buffer.Threads.LockWord.{no_holder_of_unlocked, held_word}
use libshmipc.Buffer.Threads.Frame.{
  After, Effect, no_effect, moved, head_of, some_other, none_other,
}

-- What the others see of a reader's step.
pub reader-Rely :
    {g g' : Ghost} {m : Memory} (j : ℕ)
    → g'.tail ≡ g.tail
    → g'.writer ≡ g.writer
    → g.head ≤ g'.head
    → g.reader ≢ some j
    → g'.reader ≢ some j
    → (g.head ≡ g'.head → (more : List Slot) × (g'.slots ≡ g.slots ++ more))
    → Rely j g m g' m
reader-Rely j tail writer heads before after longer = record {
  heads = heads;
  tails = omega arith;
  outside = λ o. record { no_reader = after; no_writer = λ e. o.no_writer (sym writer ∙ e) };
  reading = λ h d. absurd (before d.reader);
  writing = λ t w. (
    record { writer = writer ∙ w.writer; no_reader = after; at_tail = w.at_tail ∙ sym tail },
    refl,
  );
  longer = longer;
}

-- Between two different positions stands an entry.
pub record First (c : ℕ) (m : Memory) (p : ℕ) (slots : List Slot) : Type 0 where
  pub slot : Slot
  pub rest : List Slot
  pub split : slots ≡ slot ∷ rest
  pub stands : SlotAt c m p slot

pub First-slot :
    (c : ℕ) (m : Memory) (p : ℕ) (slots : List Slot) (t : ℕ)
    → Entries c m p slots t
    → p < t
    → First c m p slots
First-slot c m p [] t e lt = absurd (omega arith)
First-slot c m p (slot ∷ rest) t (a, e) lt = record {
  slot = slot;
  rest = rest;
  split = refl;
  stands = a;
}

module _ {k : ℕ} {g : Ghost} {s : Shm} {pc : ℕ → Pc} (v : Inv k g s pc) (i : ℕ) where
  pub le : g.head ≤ g.tail
  le = head-le-tail v.valid

  pub head_fits : g.head < 2 ^ 64
  head_fits = omega (arith, le, v.valid.fits)

  pub index : relative g.head s.data_size ≡ g.head % 2 ^ k
  index = rw (v.valid.capacity) (relative-pow g.head k v.valid.small)

  -- The header that a reader finds.
  pub header_at-slot :
      (slot : Slot)
      → SlotAt (2 ^ k) s.region g.head slot
      → header_at s g.head ≡ (slot_status slot, slot_header g.head slot)
  header_at-slot slot a =
      rw (unlock_even g.head (omega (arith, v.valid.head_aligned)) head_fits, index)
        (ap (check_entry_header g.head) (load_entry_header-slot (2 ^ k) s.region g.head slot a)
          ∙ check_entry_header-slot (2 ^ k) s.region g.head slot a)

  abbrev locked : Ghost
  locked = record g { reader = some i }

  pub locking :
      (j : Job) (head : ℕ)
      → s.head ≡ unlock head
      → Outside g i × Past g.head head
      → After k g pc i quiet (record s { head = lock head }) (Pc.r_tail j head)
  locking job head e (o, p) =
      let (none_before, same) =
        no_holder_of_unlocked g.reader (head_of v) head p.even (omega (arith, p.past, head_fits))
          e in
      moved v i locked (record s { head = lock head }) (Pc.r_tail job head) v.valid
        (lock_even head (omega (arith, p.even)) (omega (arith, p.past, head_fits))
          ∙ ap (λ x. x + 1) same)
        v.tail_word (record { reader = refl; no_writer = o.no_writer; at_head = same })
        (λ j other.
          reader-Rely j refl refl (omega arith) (none_other none_before) (some_other other refl)
            (λ e. ([], sym (append-nil g.slots))))
        (no_effect refl)

  -- A reader that holds the lock finds its bit in the word.
  pub holding : (head : ℕ) → Reads g i head → s.head ≡ lock head
  holding head d = held_word g.reader (head_of v) d.reader ∙ ap lock (sym d.at_head)

  abbrev released : Ghost
  released = record g { reader = none }

  pub releasing :
      (head : ℕ) → Reads g i head → After k g pc i quiet (record s { head = unlock head }) Pc.idle
  releasing head d =
      moved v i released (record s { head = unlock head }) Pc.idle v.valid
        (rw (d.at_head)
          (omega (arith, unlock_even g.head (omega (arith, v.valid.head_aligned)) head_fits)))
        v.tail_word (record { no_reader = none_other refl; no_writer = d.no_writer })
        (λ j other.
          reader-Rely j refl refl (omega arith) (some_other other d.reader) (none_other refl)
            (λ e. ([], sym (append-nil g.slots))))
        (no_effect refl)

  abbrev pub passed : Slot → List Slot → Ghost
  passed slot rest = record g { head = g.head + slot_size slot; slots = rest; reader = none }

  -- The exchange that moves the head behind the first entry, by a thread that may have held its lock.
  pub passing :
      {e : Event} (head entry_size : ℕ) (slot : Slot) (f : Front g slot) (p : Pc)
      → head ≡ g.head
      → slot_size slot ≡ entry_size
      → ((j : ℕ) → j ≢ i → g.reader ≢ some j)
      → Local k (passed slot f.behind) s.region i p
      → Effect (payloads g.slots) (payloads f.behind) e
      → After k g pc i e (record s { head = add64 head entry_size }) p
  passing {e} head entry_size slot f p at_head size alone own effect =
      subst (λ x. After k g pc i e (record s { head = x }) p) (sym word)
        (moved v i (passed slot f.behind) (record s { head = g.head + slot_size slot }) p
          (advance-IsValid valid) (omega arith) v.tail_word own
          (λ j other.
            reader-Rely j refl refl (omega arith) (alone j other) (none_other refl)
              (λ e. absurd (omega (arith, e, longer))))
          effect)
    where
      valid : IsValid k (slot ∷ f.behind) (at_rest g s)
      valid = subst (λ l. IsValid k l (at_rest g s)) f.front v.valid

      longer : 24 ≤ slot_size slot
      longer = SlotAt-header (2 ^ k) s.region g.head slot valid.entries.0

      word : add64 head entry_size ≡ g.head + slot_size slot
      word = rw (at_head, sym size) (add64-eq g.head (slot_size slot) (next_fits valid))
