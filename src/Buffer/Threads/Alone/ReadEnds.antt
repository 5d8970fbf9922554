-- ===== src/Buffer/Threads/Alone/ReadEnds.antt =====
-- A reader that runs alone from any reachable state comes to an end.
use libshmipc.Base.{
  false, true, ℕ, zero, suc, ℕ_discrete, ◌+◌, ◌^◌, ◌≤◌, ◌<◌, ◌≡◌, inl, inr, sym, subst, ◌∙◌,
  Bool-cases, ltb, Option, List, ◌∷◌, arith,
}
use libshmipc.Base.Word.{add64, add64-eq}
use libshmipc.Common.{is_ok, is_placeholder}
use libshmipc.Buffer.State.{Shm, unlock, is_locked}
use libshmipc.Buffer.Layout.{padding, IsValid}
use libshmipc.Buffer.Layout.Chain.{SlotAt-header}
use libshmipc.Buffer.Write.Step.{head-le-tail}
use libshmipc.Buffer.Head.{next_fits}
use libshmipc.Buffer.Threads.Point.{
  Job, reading, peeking, skipping, Pc, r_head, r_lock, r_tail, r_entry, r_unlock, r_pad, r_take,
}
use libshmipc.Buffer.Threads.Reading.{
  header_at, head_locked, other_offset, load_head, lock_head, head_moved, found_empty, found_busy,
  found_entry, unreadable, found_padding, too_small, copy, view, pass, unlock_head, advance_padding,
  advance,
}
use libshmipc.Buffer.Threads.System.{reads}
use libshmipc.Buffer.Threads.Invariant.{at_rest}
use libshmipc.Buffer.Threads.LockWord.{no_holder, unlock-word}
use libshmipc.Buffer.Threads.Frame.{head_of}
use libshmipc.Buffer.Threads.Readers.{holding}
use libshmipc.Buffer.Threads.Alone.{done}
use libshmipc.Buffer.Threads.Alone.Ends.{At, At-Local, Ends, step_to, Move-Ends, lock_bit-le}

module _ (k i t : ℕ) (near : t + 2 ^ k < 2 ^ 64) where
  pub r_unlock-Ends : (head : ℕ) (s : Shm) → At k i s (r_unlock head) → Ends s (r_unlock head)
  r_unlock-Ends head s a =
      Move-Ends (reads (unlock_head (holding a.inv i head (At-Local a)))) (_, done)

  pub r_take-Ends :
      (head n : ℕ) (out : Option (List ℕ)) (s : Shm)
      → At k i s (r_take head n out)
      → Ends s (r_take head n out)
  r_take-Ends head n out s a =
      let (d, m) = At-Local a in Move-Ends (reads (advance (holding a.inv i head d))) (_, done)

  abbrev Next : Job → ℕ → Type 0
  Next j head = (s : Shm) → At k i s (r_head j) → s.tail ≡ t → head < s.head → Ends s (r_head j)

  grows : (j : Job) {head n : ℕ} {s : Shm} (a : At k i s (r_pad j head n)) → head < add64 head n
  grows j {head} {n} {s} a =
      let (d, f) = At-Local a in
      let valid : IsValid k (padding n ∷ f.behind) (at_rest a.ghost s) =
        subst (λ l. IsValid k l (at_rest a.ghost s)) f.front a.inv.valid in
      let long = SlotAt-header (2 ^ k) s.region a.ghost.head (padding n) valid.entries.0 in
      let word : add64 a.ghost.head n ≡ a.ghost.head + n =
        add64-eq a.ghost.head n (next_fits valid) in
      rw (d.at_head, word) (omega (arith, long))

  pub r_pad-Ends :
      (j : Job) (head n : ℕ) (s : Shm)
      → At k i s (r_pad j head n)
      → s.tail ≡ t
      → Next j head
      → Ends s (r_pad j head n)
  r_pad-Ends j head n s a e next =
      let (d, f) = At-Local a in
      let mv = reads (advance_padding {j = j} {entry_size = n} (holding a.inv i head d)) in
      Move-Ends mv (next _ (step_to a (omega arith) mv) e (grows j a))

  found-Ends :
      (j : Job) (head : ℕ) (s : Shm)
      → At k i s (r_entry j head)
      → s.tail ≡ t
      → is_ok (header_at s head).0 ≡ true
      → Ends s (r_entry j head)
  found-Ends (reading size) head s a e fine =
      elim (Bool-cases (ltb size ((header_at s head).1).payload_size)) [
        | inl small ↦
            let mv = reads (too_small fine small) in
            Move-Ends mv (r_unlock-Ends head s (step_to a (omega arith) mv))
        | inr large ↦
            let mv = reads (copy fine large) in
            Move-Ends mv (r_take-Ends head _ _ s (step_to a (omega arith) mv))
      ]
  found-Ends peeking head s a e fine =
      let mv = reads (view fine) in Move-Ends mv (r_unlock-Ends head s (step_to a (omega arith) mv))
  found-Ends (skipping offset) head s a e fine =
      let mv = reads (pass {offset = offset} fine) in
      Move-Ends mv (r_take-Ends head _ _ s (step_to a (omega arith) mv))

  pub r_entry-Ends :
      (j : Job) (head : ℕ) (s : Shm)
      → At k i s (r_entry j head)
      → s.tail ≡ t
      → Next j head
      → Ends s (r_entry j head)
  r_entry-Ends j head s a e next = elim (Bool-cases (is_placeholder (header_at s head).0)) [
    | inl pad ↦
        let mv = reads (found_padding {j = j} pad) in
        Move-Ends mv (r_pad-Ends j head _ s (step_to a (omega arith) mv) e next)
    | inr entry ↦ elim (Bool-cases (is_ok (header_at s head).0)) [
      | inl fine ↦ found-Ends j head s a e fine
      | inr bad ↦
          let mv = reads (unreadable {j = j} entry bad) in
          Move-Ends mv (r_unlock-Ends head s (step_to a (omega arith) mv))
    ]
  ]

  pub r_tail-Ends :
      (j : Job) (head : ℕ) (s : Shm)
      → At k i s (r_tail j head)
      → s.tail ≡ t
      → Next j head
      → Ends s (r_tail j head)
  r_tail-Ends j head s a e next = elim (ℕ_discrete (unlock head) (unlock s.tail)) [
    | yes same ↦
        let mv = reads (found_empty {j = j} same) in
        Move-Ends mv (r_unlock-Ends head s (step_to a (omega arith) mv))
    | no other ↦ elim (Bool-cases (is_locked s.tail)) [
      | inl taken ↦
          let mv = reads (found_busy {j = j} other taken) in
          Move-Ends mv (r_unlock-Ends head s (step_to a (omega arith) mv))
      | inr free ↦
          let mv = reads (found_entry {j = j} other free) in
          Move-Ends mv (r_entry-Ends j head s (step_to a (omega arith) mv) e next)
    ]
  ]

  -- The head has been loaded, and is still the current one.
  lock-Ends :
      (j : Job) (head : ℕ) (s : Shm)
      → At k i s (r_lock j head)
      → s.tail ≡ t
      → s.head ≡ unlock head
      → Next j head
      → Ends s (r_lock j head)
  lock-Ends j head s a e same next =
      let mv = reads (lock_head {j = j} same) in
      Move-Ends mv (r_tail-Ends j head _ (step_to a (omega arith) mv) e next)

  loaded-Ends :
      (j : Job) (s : Shm)
      → At k i s (r_lock j s.head)
      → s.tail ≡ t
      → is_locked s.head ≡ false
      → Next j s.head
      → Ends s (r_lock j s.head)
  loaded-Ends j s a e free next =
      let word = head_of a.inv in
      let (none_before, at) = no_holder a.ghost.reader word free in
      lock-Ends j s.head s a e (at ∙ sym (unlock-word a.ghost.reader word)) next

  round-Ends :
      (j : Job) (s : Shm) → At k i s (r_head j) → s.tail ≡ t → Next j s.head → Ends s (r_head j)
  round-Ends j s a e next = elim (Bool-cases (is_locked s.head)) [
    | inl taken ↦ Move-Ends (reads (head_locked taken)) (_, done)
    | inr free ↦ by_job j a free next
  ]
    where
      by_job :
          (j : Job)
          → At k i s (r_head j)
          → is_locked s.head ≡ false
          → Next j s.head
          → Ends s (r_head j)
      by_job (reading size) a free next =
          let mv = reads (load_head {j = reading size} free tt) in
          Move-Ends mv (loaded-Ends (reading size) s (step_to a (omega arith) mv) e free next)
      by_job peeking a free next =
          let mv = reads (load_head {j = peeking} free tt) in
          Move-Ends mv (loaded-Ends peeking s (step_to a (omega arith) mv) e free next)
      by_job (skipping offset) a free next = elim (ℕ_discrete (unlock s.head) offset) [
        | no other ↦ Move-Ends (reads (other_offset free other)) (_, done)
        | yes here ↦
            let mv = reads (load_head {j = skipping offset} free here) in
            Move-Ends mv (loaded-Ends (skipping offset) s (step_to a (omega arith) mv) e free next)
      ]

  -- The head is at most the tail, up to the lock bits.
  head_bound : {s : Shm} {p : Pc} (a : At k i s p) → s.head ≤ s.tail + 1
  head_bound a = omega (
    arith,
    head-le-tail a.inv.valid,
    a.inv.head_word,
    a.inv.tail_word,
    lock_bit-le a.ghost.reader,
  )

  -- Each round moves the head, which has a bound.
  head-Ends :
      (rounds : ℕ) (j : Job) (s : Shm)
      → At k i s (r_head j)
      → s.tail ≡ t
      → t + 1 ≤ s.head + rounds
      → Ends s (r_head j)
  head-Ends zero j s a e bound =
      round-Ends j s a e (λ s' a' e' more. absurd (omega (arith, head_bound a')))
  head-Ends (suc rounds) j s a e bound =
      round-Ends j s a e (λ s' a' e' more. head-Ends rounds j s' a' e' (omega arith))

  pub r_head-Ends : (j : Job) (s : Shm) → At k i s (r_head j) → s.tail ≡ t → Ends s (r_head j)
  r_head-Ends j s a e = head-Ends (t + 1) j s a e (omega arith)

  pub again : (j : Job) (head : ℕ) → Next j head
  again j head s a e more = r_head-Ends j s a e

  pub r_lock-Ends :
      (j : Job) (head : ℕ) (s : Shm)
      → At k i s (r_lock j head)
      → s.tail ≡ t
      → Ends s (r_lock j head)
  r_lock-Ends j head s a e = elim (ℕ_discrete s.head (unlock head)) [
    | yes same ↦ lock-Ends j head s a e same (again j head)
    | no moved ↦
        let mv = reads (head_moved {j = j} moved) in
        Move-Ends mv (r_head-Ends j s (step_to a (omega arith) mv) e)
  ]
