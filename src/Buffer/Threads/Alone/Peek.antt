-- ===== src/Buffer/Threads/Alone/Peek.antt =====
-- `ipc_buffer_peek` as a function, and its steps.
use libshmipc.Base.{ℕ, if◌then◌else◌, zero, suc, ◌≡◌, inl, inr, refl, subst, Option, some}
use libshmipc.Base.Word.{add64}
use libshmipc.Common.{
  Status, success, error_body, is_empty, ok, empty, err_not_ready, err_locked, ipc_status, IpcEntry,
  valid,
}
use libshmipc.Buffer.State.{Shm, EntryHeader, lock_head as lock_head_loop}
use libshmipc.Buffer.Peek.{
  IpcBufferPeekResult, PeekOutcome, give_up, view_entry, peek_locked, peek_entry, ipc_buffer_peek,
}
use libshmipc.Buffer.Threads.Point.{peeking, idle, r_head, r_tail, r_unlock}
use libshmipc.Buffer.Threads.Reading.{
  header_at, begin_read, unreadable, found_padding, view, unlock_head, unlock_fails,
  advance_padding, padding_fails,
}
use libshmipc.Buffer.Threads.System.{reads}
use libshmipc.Buffer.Threads.Alone.{Alone, done, and_then, returned, Runs, Runs-later}
use libshmipc.Buffer.Threads.Alone.Head.{
  LockRuns, lock-cases, lock_head-Runs, header-Runs, Header-cases, entry_status, release_cases,
  advance_cases,
}

abbrev pub seen : PeekOutcome → Status × Shm
seen (r, dest, s) = (ipc_status r, s)

module _ (again : IpcEntry → Shm → Option PeekOutcome) (head : ℕ) (dest : IpcEntry) (s : Shm)
    (next : (s' : Shm) → Runs seen (r_head peeking) s' (again dest s')) where
  leaving :
      (result : IpcBufferPeekResult) (to : IpcEntry)
      → returned (ipc_status result) ≡ idle
      → Alone s (r_tail peeking head) s (r_unlock head)
      → Runs seen (r_tail peeking head) s (some (give_up head result to s))
  unfolding give_up
  leaving result to back run = elim (release_cases head s) [
    | inl (e, same) ↦ rw (e, back) (and_then run (reads (unlock_head same)))
    | inr (e, other) ↦ rw e (and_then run (reads (unlock_fails other)))
  ]

  -- What a status that is neither `ok` nor `placeholder` returns.
  abbrev refusal : Status → IpcBufferPeekResult
  refusal status =
      if is_empty status then success empty tt else error_body status (record { offset = head })

  abbrev h : EntryHeader
  h = (header_at s head).1

  peek_locked-Runs : Runs seen (r_tail peeking head) s (peek_locked again head dest s)
  unfolding peek_locked
  peek_locked-Runs = elim (Header-cases (header-Runs peeking head s)) [
    | inl (e, run) ↦ rw e (leaving (refusal empty) dest refl run)
    | inr (inl (e, run)) ↦ rw e (leaving (refusal err_not_ready) dest refl run)
    | inr (inr (e, run)) ↦ elim (entry_status head s) [
      | inl st ↦
          rw (e, st)
            (leaving (success ok tt) (view_entry head h s) refl
              (and_then run (reads (view (rw st refl)))))
      | inr (inl st) ↦ elim (advance_cases head h.entry_size s) [
        | inl (moved, same) ↦
            let s' : Shm = record s { head = add64 head h.entry_size } in
            rw (e, st, moved)
              (Runs-later seen (again dest s')
                (and_then (and_then run (reads (found_padding (rw st refl))))
                  (reads (advance_padding same)))
                (next s'))
        | inr (stays, other) ↦
            rw (e, st, stays)
              (and_then (and_then run (reads (found_padding (rw st refl))))
                (reads (padding_fails other)))
      ]
      | inr (inr (inl st)) ↦
          rw (e, st)
            (leaving (refusal err_locked) dest refl
              (and_then run (reads (unreadable (rw st refl) (rw st refl)))))
      | inr (inr (inr st)) ↦
          rw (e, st)
            (leaving (refusal err_not_ready) dest refl
              (and_then run (reads (unreadable (rw st refl) (rw st refl)))))
    ]
  ]

peek_entry-Runs :
    (fuel : ℕ) (again : IpcEntry → Shm → Option PeekOutcome) (dest : IpcEntry) (s : Shm)
    → ((s' : Shm) → Runs seen (r_head peeking) s' (again dest s'))
    → Runs seen (r_head peeking) s (peek_entry fuel again dest s)
unfolding peek_entry
peek_entry-Runs fuel again dest s next =
    let runs = lock_head-Runs peeking (λ h. tt) fuel s in
    elim (lock-cases (lock_head_loop fuel s)) [
      | inl e ↦ rw (peek_entry, e) tt
      | inr (inr (status, at, s', e)) ↦
          let (run, back) = subst (LockRuns peeking s) e runs in rw (peek_entry, e, back) run
      | inr (inl (head, s', e)) ↦
          rw (peek_entry, e)
            (Runs-later seen (peek_locked again head dest s') (subst (LockRuns peeking s) e runs)
              (peek_locked-Runs again head dest s' next))
    ]

-- Behind the checks, which a restart passes again.
restart-Runs :
    (fuel : ℕ) (dest : IpcEntry) (s : Shm)
    → Runs seen (r_head peeking) s (ipc_buffer_peek fuel valid valid dest s)
unfolding ipc_buffer_peek
restart-Runs zero dest s = tt
restart-Runs (suc fuel) dest s =
    peek_entry-Runs (suc fuel) (ipc_buffer_peek fuel valid valid) dest s
      (λ t. restart-Runs fuel dest t)

-- What `ipc_buffer_peek` returns, and the memory that it leaves, the steps of a thread that runs alone
-- reach as well, for any contents of the shared memory.
pub peek-Runs :
    (fuel : ℕ) (dest : IpcEntry) (s : Shm)
    → Runs seen idle s (ipc_buffer_peek fuel valid valid dest s)
peek-Runs fuel dest s =
    Runs-later seen (ipc_buffer_peek fuel valid valid dest s)
      (and_then done (reads (begin_read tt))) (restart-Runs fuel dest s)
