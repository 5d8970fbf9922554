-- ===== src/Buffer/Threads/Alone/Write.antt =====
-- `ipc_buffer_write` as a function, and its steps.
use libshmipc.Base.{
  ◌∙◌, ne→==, ℕ, zero, suc, ◌+◌, ◌^◌, ◌<◌, ◌≡◌, ◌⊎◌, inl, inr, refl, sym, subst, false, Bool-cases,
  Option, none, some, List, length, ltb, ◌==◌, arith,
}
use libshmipc.Common.{valid, Status, ipc_status}
use libshmipc.Buffer.State.{Shm, unlock, lock, is_locked, lock_ref}
use libshmipc.Buffer.Write.{
  IpcBufferWriteError, IpcBufferWriteResult, Reservation, Reserved, refused, reserved, reserve,
  fill_entry, commit_entry, write_entry, no_write_error, ipc_buffer_write,
}
use libshmipc.Buffer.Threads.Point.{idle, w_tail, w_fill, w_commit}
use libshmipc.Buffer.Threads.Writing.{
  full_entry_size, reservation_at, free_space_at, commit_word, begin_write, tail_locked, load_tail,
  no_space, has_space, lock_tail, fill, commit_message, commit_padding, commit_fails,
}
use libshmipc.Buffer.Threads.System.{writes}
use libshmipc.Buffer.Threads.Alone.{
  Alone, done, and_then, returned, Runs, Runs-later, eq_of_test, ne_of_test,
}

-- The loop ends with a return, or with the tail locked.
record Reserves (xs : List ℕ) (s : Shm) (r : Reservation) (s' : Shm) : Type 0 where
  run : Alone s (w_tail xs) s' (w_fill xs r.tail)
  same : r ≡ reservation_at s'.data_size xs r.tail
  size : s'.data_size ≡ s.data_size

abbrev ReserveRuns : List ℕ → Shm → Option (Reserved × Shm) → Type 0
ReserveRuns xs s none = Unit
ReserveRuns xs s (some (refused status e, s')) =
    Alone s (w_tail xs) s' idle × returned status ≡ idle
ReserveRuns xs s (some (reserved r, s')) = Reserves xs s r s'

reserve-Runs :
    (fuel : ℕ) (xs : List ℕ) (e : IpcBufferWriteError) (s : Shm)
    → ReserveRuns xs s (reserve fuel (full_entry_size xs) s.data_size e s)
unfolding reserve lock_ref
reserve-Runs zero xs e s = tt
reserve-Runs (suc fuel) xs e s = elim (Bool-cases (is_locked s.tail)) [
  | inl busy ↦ rw busy (and_then done (writes (tail_locked busy)), refl)
  | inr free ↦ elim (Bool-cases (ltb (free_space_at s s.tail) (full_entry_size xs))) [
    | inl small ↦
        rw (free, small)
          (and_then (and_then done (writes (load_tail free))) (writes (no_space small)), refl)
    | inr space ↦ elim (Bool-cases (s.tail == unlock s.tail)) [
      | inl same ↦
          rw (free, space, same)
            (record {
              run =
                  and_then
                    (and_then (and_then done (writes (load_tail free))) (writes (has_space space)))
                    (writes (lock_tail (eq_of_test s.tail (unlock s.tail) same)));
              same = refl;
              size = refl;
            })
      | inr moved ↦ rw (free, space, moved) (reserve-Runs fuel xs e s)
    ]
  ]
]

abbrev pub view : IpcBufferWriteResult × Shm → Status × Shm
view (r, s) = (ipc_status r, s)

-- The commit, behind the stores.
commit_entry-Runs :
    (again : Shm → Option (IpcBufferWriteResult × Shm)) (xs : List ℕ) (tail : ℕ)
    (e : IpcBufferWriteError) (s : Shm)
    → ((s' : Shm) → s'.data_size ≡ s.data_size → Runs view (w_tail xs) s' (again s'))
    → Runs view (w_commit xs tail) s (commit_entry again (reservation_at s.data_size xs tail) e s)
unfolding commit_entry
commit_entry-Runs again xs tail e s next = elim (Bool-cases (s.tail == lock tail)) [
  | inr moved ↦
      rw (moved) (and_then done (writes (commit_fails (ne_of_test s.tail (lock tail) moved))))
  | inl held ↦ elim (Bool-cases (reservation_at s.data_size xs tail).is_placeholder) [
    | inl pad ↦
        rw (held, pad)
          (Runs-later view (again (record s { tail = commit_word s tail }))
            (and_then done (writes (commit_padding (eq_of_test s.tail (lock tail) held) pad)))
            (next (record s { tail = commit_word s tail }) refl))
    | inr long ↦
        rw (held, long)
          (and_then done (writes (commit_message (eq_of_test s.tail (lock tail) held) long)))
  ]
]

reserve-cases :
    (o : Option (Reserved × Shm))
    → (o ≡ none)
      ⊎ ((r : Reservation) × (s' : Shm) × (o ≡ some (reserved r, s')))
      ⊎ ((status : Status) × (e : IpcBufferWriteError) × (s' : Shm) × (o
            ≡ some (refused status e, s')))
reserve-cases none = inl refl
reserve-cases (some (reserved r, s')) = inr (inl (r, s', refl))
reserve-cases (some (refused status e, s')) = inr (inr (status, e, s', refl))

module _ (xs : List ℕ) (some_bytes : 0 < length xs) where
  -- Behind the checks, which a restart passes again.
  write_entry-Runs :
      (fuel : ℕ) (again : Shm → Option (IpcBufferWriteResult × Shm)) (e : IpcBufferWriteError)
      (s : Shm)
      → ltb s.data_size (full_entry_size xs) ≡ false
      → ((s' : Shm) → s'.data_size ≡ s.data_size → Runs view (w_tail xs) s' (again s'))
      → Runs view (w_tail xs) s (write_entry fuel again xs (length xs) e s)
  unfolding write_entry
  write_entry-Runs fuel again e s test next =
      let runs = reserve-Runs fuel xs e s in
      elim (reserve-cases (reserve fuel (full_entry_size xs) s.data_size e s)) [
        | inl h ↦ rw (test, h) tt
        | inr (inr (status, e', s', h)) ↦
            let (run, back) = subst (ReserveRuns xs s) h runs in rw (test, h, back) run
        | inr (inl (r, s', h)) ↦
            let res : Reserves xs s r s' = subst (ReserveRuns xs s) h runs in
            rw (test, h)
              (subst
                (λ x. Runs view (w_tail xs) s (
                  commit_entry again x e (record s' {
                    region = fill_entry x (full_entry_size xs) (length xs) xs s'.region;
                  })))
                (sym res.same) (committed r.tail s' res.run res.size))
      ]
    where
      committed :
          (tail : ℕ) (s' : Shm)
          → Alone s (w_tail xs) s' (w_fill xs tail)
          → s'.data_size ≡ s.data_size
          → let r = reservation_at s'.data_size xs tail in
            Runs view (w_tail xs) s (
              commit_entry again r e
                (record s' { region = fill_entry r (full_entry_size xs) (length xs) xs s'.region }))
      committed tail s' run size =
          let r = reservation_at s'.data_size xs tail in
          let s'' : Shm = record s' {
            region = fill_entry r (full_entry_size xs) (length xs) xs s'.region;
          } in
          Runs-later view (commit_entry again r e s'') (and_then run (writes fill))
            (commit_entry-Runs again xs tail e s'' (λ t same. next t (same ∙ size)))

  nonzero : (length xs == 0) ≡ false
  nonzero = ne→== (length xs) 0 (omega arith)

  restart-Runs :
      (fuel : ℕ) (s : Shm)
      → ltb s.data_size (full_entry_size xs) ≡ false
      → Runs view (w_tail xs) s (ipc_buffer_write fuel valid (some xs) (length xs) s)
  unfolding ipc_buffer_write
  restart-Runs zero s test = tt
  restart-Runs (suc fuel) s test = rw nonzero (
      write_entry-Runs (suc fuel) (ipc_buffer_write fuel valid (some xs) (length xs))
        (no_write_error (length xs)) s test
        (λ s' same.
          restart-Runs fuel s' (subst (λ c. ltb c (full_entry_size xs) ≡ false) (sym same) test)))

  -- What `ipc_buffer_write` returns, and the memory that it leaves, the steps of a thread that runs
  -- alone reach as well, for any contents of the shared memory.
  pub write-Runs :
      (fuel : ℕ) (s : Shm)
      → length xs + 31 < 2 ^ 64
      → Runs view idle s (ipc_buffer_write fuel valid (some xs) (length xs) s)
  unfolding ipc_buffer_write write_entry
  write-Runs zero s bounded = tt
  write-Runs (suc fuel) s bounded = elim (Bool-cases (ltb s.data_size (full_entry_size xs))) [
    | inl large ↦ rw (nonzero, large) done
    | inr fits ↦
        Runs-later view (ipc_buffer_write (suc fuel) valid (some xs) (length xs) s)
          (and_then done (writes (begin_write some_bytes bounded fits)))
          (restart-Runs (suc fuel) s fits)
  ]
