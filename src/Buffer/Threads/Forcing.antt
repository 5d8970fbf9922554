-- ===== src/Buffer/Threads/Forcing.antt =====
-- The steps of `ipc_buffer_skip_force` keep the invariant, and it drops at most the oldest entry.
use libshmipc.Base.{ℕ, ◌+◌, ◌^◌, ◌<◌, ◌≡◌, ◌≢◌, List, ◌∷◌, arith, sym, subst, ap, ◌∙◌, refl}
use libshmipc.Memory.{load_u64}
use libshmipc.Utils.{relative}
use libshmipc.Buffer.State.{Shm, unlock, read_head}
use libshmipc.Buffer.Words.{unlock_even}
use libshmipc.Buffer.Layout.{Slot, message, padding, slot_size, payloads}
use libshmipc.Buffer.Threads.Point.{Pc, Event, forces}
use libshmipc.Buffer.Threads.Reading.{
  ForceMove, begin_force, force_empty, force_entry, load_size, force, already_skipped,
}
use libshmipc.Buffer.Threads.Invariant.{Ghost, Local, Inv, Past, Front}
use libshmipc.Buffer.Threads.LockWord.{unlock-word, no_holder_of_unlocked}
use libshmipc.Buffer.Threads.Frame.{
  After, Effect, drops, drops_padding, quietly, head_of, tail_of, head-Past, none_other,
}
use libshmipc.Buffer.Threads.Writers.{entry_size-slot}
use libshmipc.Buffer.Threads.Readers.{le, head_fits, index, First-slot, passing}

dropping :
    {q q' : List Slot} (slot : Slot) → q ≡ slot ∷ q' → Effect (payloads q) (payloads q') forces
dropping (message xs) e = drops xs (ap payloads e)
dropping (padding n) e = drops_padding (ap payloads e)

module _ {k : ℕ} {g : Ghost} {s : Shm} {pc : ℕ → Pc} (v : Inv k g s pc) (i : ℕ) where
  Past-unlocked : (head : ℕ) → Past g.head head → unlock head ≡ head
  Past-unlocked head p =
      unlock_even head (omega (arith, p.even)) (omega (arith, p.past, head_fits v i))

  size_at :
      (head : ℕ)
      → head ≡ g.head
      → g.head < g.tail
      → (slot : Slot) × Front g slot
        × (slot_size slot ≡ load_u64 (relative (unlock head) s.data_size + 16) s.region)
  size_at head e lt =
      let f = First-slot (2 ^ k) s.region g.head g.slots g.tail v.valid.entries lt in
      (
        f.slot,
        record { behind = f.rest; front = f.split },
        rw (e, unlock_even g.head (omega (arith, v.valid.head_aligned)) (head_fits v i), index v i)
            (sym (entry_size-slot (2 ^ k) s.region g.head f.slot f.stands)),
      )

  -- Every step of this operation.
  pub ForceMove-After :
      {p : Pc} {e : Event} {s' : Shm} {p' : Pc}
      → ForceMove s p e s' p'
      → Local k g s.region i p
      → After k g pc i e s' p'
  unfolding read_head
  ForceMove-After begin_force o =
      quietly v i (Pc.f_tail (unlock s.head))
        (o, subst (λ x. Past g.head x) (sym (unlock-word g.reader (head_of v))) (head-Past v))
  ForceMove-After (force_empty {head} h) (o, p) = quietly v i Pc.idle o
  ForceMove-After (force_entry {head} h) (o, p) =
      let differ : head ≢ g.tail =
        λ e. h (Past-unlocked head p ∙ e ∙ sym (unlock-word g.writer (tail_of v))) in
      quietly v i (Pc.f_entry head) (o, p, (λ e. omega (arith, le v i, differ, e)))
  ForceMove-After (load_size {head}) (o, p, lt) =
      quietly v i (Pc.f_swap head (load_u64 (relative (unlock head) s.data_size + 16) s.region))
        (o, p, (λ e. size_at head e (lt e)))
  ForceMove-After (force {head} {entry_size} h) (o, p, front) =
      let (free, same) =
        no_holder_of_unlocked g.reader (head_of v) head p.even
          (omega (arith, p.past, head_fits v i)) (h ∙ sym (Past-unlocked head p)) in
      let (slot, f, size) = front same in
      passing v i head entry_size slot f Pc.idle same size (λ j other. none_other free)
        (record { no_reader = none_other refl; no_writer = o.no_writer }) (dropping slot f.front)
  ForceMove-After (already_skipped {head} {entry_size} h) (o, p, front) = quietly v i Pc.idle o
