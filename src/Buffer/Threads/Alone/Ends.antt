-- ===== src/Buffer/Threads/Alone/Ends.antt =====
-- A thread that runs alone from any reachable state comes to an end, wherever the others stand.
use libshmipc.Base.{
  ℕ, zero, suc, ℕ_discrete, ◌+◌, ◌*◌, ◌^◌, Option, none, some, ◌≤◌, ◌<◌, ◌≡◌, inl, inr, sym, subst,
  ap, ◌∙◌, Bool-cases, ltb, List, arith,
}
use libshmipc.Buffer.State.{Shm, unlock, lock, is_locked}
use libshmipc.Buffer.Layout.{Slot, slot_size}
use libshmipc.Buffer.Layout.Chain.{SlotAt-header}
use libshmipc.Buffer.Threads.Point.{Pc, Event, idle, w_tail, w_head, w_lock, w_fill, w_commit}
use libshmipc.Buffer.Threads.Writing.{
  full_entry_size, reservation_at, free_space_at, commit_word, tail_locked, load_tail, no_space,
  has_space, lock_tail, tail_moved, fill, commit_message, commit_padding,
}
use libshmipc.Buffer.Threads.System.{Move, writes, update}
use libshmipc.Buffer.Threads.Invariant.{Ghost, Local, Inv, lock_bit, entry_at}
use libshmipc.Buffer.Threads.Frame.{After, tail_of}
use libshmipc.Buffer.Threads.LockWord.{held_word, no_holder, unlock-word}
use libshmipc.Buffer.Threads.Writers.{commit_word-eq}
use libshmipc.Buffer.Threads.Safety.{Move-After}
use libshmipc.Buffer.Threads.Alone.{Alone, done, and_then, Alone-append}

-- Thread `i` stands at `p` in a state that keeps the invariant.
pub record At (k i : ℕ) (s : Shm) (p : Pc) : Type 0 where
  pub pc : ℕ → Pc
  pub ghost : Ghost
  pub inv : Inv k ghost s pc
  pub here : pc i ≡ p

update_here : {A : Type 0} (f : ℕ → A) (i : ℕ) (a : A) → update f i a i ≡ a
update_here f i a = ground arith

pub lock_bit-le : (o : Option ℕ) → lock_bit o ≤ 1
lock_bit-le none = omega arith
lock_bit-le (some i) = omega arith

-- A step of the thread.
pub step_to :
    {k i : ℕ} {s : Shm} {p : Pc} {e : Event} {s' : Shm} {p' : Pc}
    → At k i s p
    → s.tail + 2 ^ k < 2 ^ 64
    → Move s p e s' p'
    → At k i s' p'
step_to {k} {i} {s} {p} {e} {s'} {p'} a near mv =
    let after : After k a.ghost a.pc i e s' p' =
      Move-After a.inv near (subst (λ x. Move s x e s' p') (sym a.here) mv) in
    record {
      pc = update a.pc i p';
      ghost = after.ghost;
      inv = after.inv;
      here = update_here a.pc i p';
    }

-- The thread comes to an end from here.
abbrev pub Ends : Shm → Pc → Type 0
Ends s p = (s' : Shm) × Alone s p s' idle

pub Move-Ends :
    {s : Shm} {p : Pc} {e : Event} {s' : Shm} {p' : Pc} → Move s p e s' p' → Ends s' p' → Ends s p
Move-Ends mv (s'', run) = (s'', Alone-append (and_then done mv) run)

pub At-Local : {k i : ℕ} {s : Shm} {p : Pc} (a : At k i s p) → Local k a.ghost s.region i p
At-Local {k} {i} {s} {p} a = subst (λ x. Local k a.ghost s.region i x) a.here (a.inv.threads i)

-- The tail is behind the head by the capacity at most, up to the lock bits.
pub At-bound : {k i : ℕ} {s : Shm} {p : Pc} (a : At k i s p) → s.tail ≤ s.head + 2 ^ k + 1
At-bound a = omega (
  arith,
  a.inv.valid.used,
  a.inv.head_word,
  a.inv.tail_word,
  lock_bit-le a.ghost.reader,
  lock_bit-le a.ghost.writer,
)

-- A writer: the positions of the next round stay below 2^64.
module _ (k i : ℕ) (xs : List ℕ) (h : ℕ) (small : h + 2 * 2 ^ k + 1 < 2 ^ 64) where
  near_of : {s : Shm} {p : Pc} → At k i s p → s.head ≡ h → s.tail + 2 ^ k < 2 ^ 64
  near_of a e = omega (arith, At-bound a)

  abbrev Next : ℕ → Type 0
  Next tail = (s : Shm) → At k i s (w_tail xs) → s.head ≡ h → tail < s.tail → Ends s (w_tail xs)

  grows :
      {tail : ℕ} {s : Shm} (a : At k i s (w_commit xs tail))
      → s.tail + 2 ^ k < 2 ^ 64
      → tail < commit_word s tail
  grows {tail} {s} a near =
      let (w, f, st) = At-Local a in
      let slot : Slot = entry_at k xs tail in
      let word : commit_word s tail ≡ a.ghost.tail + slot_size slot =
        commit_word-eq a.inv i tail slot (omega (arith, near, a.inv.tail_word)) w st in
      omega (arith, word, w.at_tail, SlotAt-header (2 ^ k) s.region a.ghost.tail slot st.stored)

  commit-Ends :
      (tail : ℕ) (s : Shm)
      → At k i s (w_commit xs tail)
      → s.head ≡ h
      → Next tail
      → Ends s (w_commit xs tail)
  commit-Ends tail s a e next =
      let (w, f, st) = At-Local a in
      let near = near_of a e in
      let held = held_word a.ghost.writer (tail_of a.inv) w.writer ∙ ap lock (sym w.at_tail) in
      elim (Bool-cases (reservation_at s.data_size xs tail).is_placeholder) [
        | inr long ↦ Move-Ends (writes (commit_message held long)) (_, done)
        | inl pad ↦
            let mv = writes (commit_padding {xs = xs} held pad) in
            Move-Ends mv (next _ (step_to a near mv) e (grows a near))
      ]

  fill-Ends :
      (tail : ℕ) (s : Shm)
      → At k i s (w_fill xs tail)
      → s.head ≡ h
      → Next tail
      → Ends s (w_fill xs tail)
  fill-Ends tail s a e next =
      let mv = writes (fill {xs = xs} {tail = tail}) in
      Move-Ends mv (commit-Ends tail _ (step_to a (near_of a e) mv) e next)

  lock-Ends :
      (tail : ℕ) (s : Shm)
      → At k i s (w_lock xs tail)
      → s.head ≡ h
      → s.tail ≡ unlock tail
      → Next tail
      → Ends s (w_lock xs tail)
  lock-Ends tail s a e same next =
      let mv = writes (lock_tail {xs = xs} same) in
      Move-Ends mv (fill-Ends tail _ (step_to a (near_of a e) mv) e next)

  round-Ends : (s : Shm) → At k i s (w_tail xs) → s.head ≡ h → Next s.tail → Ends s (w_tail xs)
  round-Ends s a e next = elim (Bool-cases (is_locked s.tail)) [
    | inl taken ↦ Move-Ends (writes (tail_locked taken)) (_, done)
    | inr free ↦ elim (Bool-cases (ltb (free_space_at s s.tail) (full_entry_size xs))) [
      | inl few ↦ Move-Ends (writes (load_tail free)) (Move-Ends (writes (no_space few)) (_, done))
      | inr space ↦
          let load = writes (load_tail {xs = xs} free) in
          let test = writes (has_space {xs = xs} {tail = s.tail} space) in
          let near = near_of a e in
          let word = tail_of a.inv in
          let (none_before, at) = no_holder a.ghost.writer word free in
          let same : s.tail ≡ unlock s.tail = at ∙ sym (unlock-word a.ghost.writer word) in
          Move-Ends load (
            Move-Ends test
              (lock-Ends s.tail s (step_to (step_to a near load) near test) e same next))
    ]
  ]

  -- Each round moves the tail, which has a bound.
  pub tail-Ends :
      (rounds : ℕ) (s : Shm)
      → At k i s (w_tail xs)
      → s.head ≡ h
      → h + 2 ^ k + 1 ≤ s.tail + rounds
      → Ends s (w_tail xs)
  tail-Ends zero s a e bound =
      round-Ends s a e (λ s' a' e' more. absurd (omega (arith, At-bound a')))
  tail-Ends (suc rounds) s a e bound =
      round-Ends s a e (λ s' a' e' more. tail-Ends rounds s' a' e' (omega arith))

  pub w_tail-Ends : (s : Shm) → At k i s (w_tail xs) → s.head ≡ h → Ends s (w_tail xs)
  w_tail-Ends s a e = tail-Ends (h + 2 ^ k + 1) s a e (omega arith)

  pub w_lock-Ends :
      (tail : ℕ) (s : Shm) → At k i s (w_lock xs tail) → s.head ≡ h → Ends s (w_lock xs tail)
  w_lock-Ends tail s a e = elim (ℕ_discrete s.tail (unlock tail)) [
    | yes same ↦ lock-Ends tail s a e same (λ s' a' e' more. w_tail-Ends s' a' e')
    | no moved ↦
        let mv = writes (tail_moved {xs = xs} moved) in
        Move-Ends mv (w_tail-Ends s (step_to a (near_of a e) mv) e)
  ]

  pub w_head-Ends :
      (tail : ℕ) (s : Shm) → At k i s (w_head xs tail) → s.head ≡ h → Ends s (w_head xs tail)
  w_head-Ends tail s a e = elim (Bool-cases (ltb (free_space_at s tail) (full_entry_size xs))) [
    | inl few ↦ Move-Ends (writes (no_space few)) (_, done)
    | inr space ↦
        let mv = writes (has_space {xs = xs} {tail = tail} space) in
        Move-Ends mv (w_lock-Ends tail s (step_to a (near_of a e) mv) e)
  ]

  pub w_commit-Ends :
      (tail : ℕ) (s : Shm) → At k i s (w_commit xs tail) → s.head ≡ h → Ends s (w_commit xs tail)
  w_commit-Ends tail s a e = commit-Ends tail s a e (λ s' a' e' more. w_tail-Ends s' a' e')

  pub w_fill-Ends :
      (tail : ℕ) (s : Shm) → At k i s (w_fill xs tail) → s.head ≡ h → Ends s (w_fill xs tail)
  w_fill-Ends tail s a e = fill-Ends tail s a e (λ s' a' e' more. w_tail-Ends s' a' e')
