-- ===== src/Buffer/Threads/Alone/Read.antt =====
-- `ipc_buffer_read` as a function, and its steps.
use libshmipc.Base.{
  if◌then◌else◌, List, ℕ, zero, suc, ◌≡◌, inl, inr, refl, subst, true, false, Bool-cases, Option,
  some, ltb,
}
use libshmipc.Base.Word.{add64}
use libshmipc.Common.{
  Status, success, error_body, err_too_small, is_empty, ok, empty, err_not_ready, err_locked,
  ipc_status, IpcEntry, valid,
}
use libshmipc.Buffer.State.{Shm, EntryHeader, lock_head as lock_head_loop, read_entry_header}
use libshmipc.Buffer.Read.{
  IpcBufferReadError, IpcBufferReadResult, ReadOutcome, no_read_error, give_up, copy_entry,
  finish_read, read_locked, read_entry, ipc_buffer_read,
}
use libshmipc.Buffer.Threads.Point.{
  Job, reading, idle, r_head, r_tail, r_entry, r_unlock, r_pad, r_take,
}
use libshmipc.Buffer.Threads.Reading.{
  header_at, bytes_at, begin_read, unreadable, found_padding, too_small, copy, unlock_head,
  unlock_fails, advance_padding, padding_fails, advance, advance_fails,
}
use libshmipc.Buffer.Threads.System.{reads}
use libshmipc.Buffer.Threads.Alone.{Alone, done, and_then, returned, Runs, Runs-later}
use libshmipc.Buffer.Threads.Alone.Head.{
  LockRuns, lock-cases, lock_head-Runs, header-Runs, Header-cases, entry_status, release_cases,
  advance_cases,
}

abbrev pub view : ReadOutcome → Status × Shm
view (r, dest, s) = (ipc_status r, s)

give_up-Runs :
    (head : ℕ) (e : IpcBufferReadError) (result : IpcBufferReadResult) (dest : IpcEntry) (s : Shm)
    → returned (ipc_status result) ≡ idle
    → Runs view (r_unlock head) s (some (give_up head e result dest s))
unfolding give_up
give_up-Runs head e result dest s back = elim (release_cases head s) [
  | inl (h, same) ↦ rw (h, back) (and_then done (reads (unlock_head same)))
  | inr (h, other) ↦ rw (h) (and_then done (reads (unlock_fails other)))
]

finish_padding-Runs :
    (j : Job) (again : IpcEntry → Shm → Option ReadOutcome) (head : ℕ) (h : EntryHeader)
    (dest : IpcEntry) (s : Shm)
    → ((s' : Shm) → Runs view (r_head j) s' (again dest s'))
    → Runs view (r_pad j head h.entry_size) s (finish_read again true head h dest s)
unfolding finish_read
finish_padding-Runs j again head h dest s next = elim (advance_cases head h.entry_size s) [
  | inl (e, same) ↦ rw e (
      Runs-later view (again dest (record s { head = add64 head h.entry_size }))
        (and_then done (reads (advance_padding same)))
        (next (record s { head = add64 head h.entry_size })))
  | inr (e, other) ↦ rw e (and_then done (reads (padding_fails other)))
]

finish_entry-Runs :
    (again : IpcEntry → Shm → Option ReadOutcome) (head : ℕ) (h : EntryHeader) (dest : IpcEntry)
    (s : Shm) (copied : Option (List ℕ))
    → Runs view (r_take head h.entry_size copied) s (finish_read again false head h dest s)
unfolding finish_read
finish_entry-Runs again head h dest s copied = elim (advance_cases head h.entry_size s) [
  | inl (e, same) ↦ rw e (and_then done (reads (advance same)))
  | inr (e, other) ↦ rw e (and_then done (reads (advance_fails other)))
]

-- Once the head is locked.
module _ (again : IpcEntry → Shm → Option ReadOutcome) (head : ℕ) (dest : IpcEntry) (s : Shm)
    (next : (s' : Shm) → Runs view (r_head (reading dest.size)) s' (again dest s')) where
  abbrev job : Job
  job = reading dest.size

  -- What a status that is neither `ok` nor `placeholder` returns.
  abbrev refusal : Status → IpcBufferReadResult
  refusal status =
      if is_empty status
      then success empty tt
      else error_body status (record no_read_error { offset = head })

  leaving :
      (e : IpcBufferReadError) (result : IpcBufferReadResult)
      → returned (ipc_status result) ≡ idle
      → Alone s (r_tail job head) s (r_unlock head)
      → Runs view (r_tail job head) s (some (give_up head e result dest s))
  leaving e result back run =
      Runs-later view (some (give_up head e result dest s)) run
        (give_up-Runs head e result dest s back)

  abbrev h : EntryHeader
  h = (header_at s head).1

  abbrev too_small_error : IpcBufferReadError
  too_small_error = record { offset = head; required_size = h.payload_size }

  message-Runs :
      Alone s (r_tail job head) s (r_entry job head)
      → (header_at s head).0 ≡ ok
      → read_entry_header s head ≡ header_at s head
      → Runs view (r_tail job head) s (read_locked again head dest s)
  unfolding read_locked
  message-Runs run st e = elim (Bool-cases (ltb dest.size h.payload_size)) [
    | inl small ↦
        rw (e, st, small)
          (leaving too_small_error (error_body err_too_small too_small_error) refl
            (and_then run (reads (too_small (rw st refl) small))))
    | inr large ↦
        let copied = copy_entry head h dest s in
        rw (e, st, large)
          (Runs-later view (finish_read again false head h copied s)
            (and_then run (reads (copy (rw st refl) large)))
            (finish_entry-Runs again head h copied s (some (bytes_at s head))))
  ]

  read_locked-Runs : Runs view (r_tail job head) s (read_locked again head dest s)
  unfolding read_locked
  read_locked-Runs = elim (Header-cases (header-Runs job head s)) [
    | inl (e, run) ↦ rw e (leaving no_read_error (refusal empty) refl run)
    | inr (inl (e, run)) ↦ rw e (leaving no_read_error (refusal err_not_ready) refl run)
    | inr (inr (e, run)) ↦ elim (entry_status head s) [
      | inl st ↦ message-Runs run st e
      | inr (inl st) ↦
          rw (e, st)
            (Runs-later view (finish_read again true head h dest s)
              (and_then run (reads (found_padding (rw st refl))))
              (finish_padding-Runs job again head h dest s next))
      | inr (inr (inl st)) ↦
          rw (e, st)
            (leaving no_read_error (refusal err_locked) refl
              (and_then run (reads (unreadable (rw st refl) (rw st refl)))))
      | inr (inr (inr st)) ↦
          rw (e, st)
            (leaving no_read_error (refusal err_not_ready) refl
              (and_then run (reads (unreadable (rw st refl) (rw st refl)))))
    ]
  ]

read_entry-Runs :
    (fuel : ℕ) (again : IpcEntry → Shm → Option ReadOutcome) (dest : IpcEntry) (s : Shm)
    → ((s' : Shm) → Runs view (r_head (reading dest.size)) s' (again dest s'))
    → Runs view (r_head (reading dest.size)) s (read_entry fuel again dest s)
unfolding read_entry
read_entry-Runs fuel again dest s next =
    let j : Job = reading dest.size in
    let runs = lock_head-Runs j (λ h. tt) fuel s in
    elim (lock-cases (lock_head_loop fuel s)) [
      | inl e ↦ rw (read_entry, e) tt
      | inr (inr (status, at, s', e)) ↦
          let (run, back) = subst (LockRuns j s) e runs in rw (read_entry, e, back) run
      | inr (inl (head, s', e)) ↦
          rw (read_entry, e)
            (Runs-later view (read_locked again head dest s') (subst (LockRuns j s) e runs)
              (read_locked-Runs again head dest s' next))
    ]

-- Behind the checks, which a restart passes again.
restart-Runs :
    (fuel : ℕ) (dest : IpcEntry) (s : Shm)
    → Runs view (r_head (reading dest.size)) s (ipc_buffer_read fuel valid valid dest s)
unfolding ipc_buffer_read
restart-Runs zero dest s = tt
restart-Runs (suc fuel) dest s =
    read_entry-Runs (suc fuel) (ipc_buffer_read fuel valid valid) dest s
      (λ t. restart-Runs fuel dest t)

-- What `ipc_buffer_read` returns, and the memory that it leaves, the steps of a thread that runs alone
-- reach as well, for any contents of the shared memory.
pub read-Runs :
    (fuel : ℕ) (dest : IpcEntry) (s : Shm)
    → Runs view idle s (ipc_buffer_read fuel valid valid dest s)
read-Runs fuel dest s =
    Runs-later view (ipc_buffer_read fuel valid valid dest s)
      (and_then done (reads (begin_read tt))) (restart-Runs fuel dest s)
