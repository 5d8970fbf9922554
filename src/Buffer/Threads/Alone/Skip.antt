-- ===== src/Buffer/Threads/Alone/Skip.antt =====
-- `ipc_buffer_skip` and `ipc_buffer_skip_force` as functions, and their steps.
use libshmipc.Base.{
  ◌≢◌, eq→==, ne→==, ne→==, ◌+◌, eq→==, ℕ, if◌then◌else◌, zero, suc, ◌≡◌, ◌⊎◌, inl, inr, refl,
  subst, ◌==◌, true, Bool-cases, Option, some,
}
use libshmipc.Base.Word.{add64}
use libshmipc.Memory.{load_u64}
use libshmipc.Utils.{relative}
use libshmipc.Common.{
  Status, success, error_body, is_empty, empty, err_not_ready, err_locked, ipc_status, valid,
}
use libshmipc.Buffer.State.{
  Shm, EntryHeader, unlock, is_locked, is_aligned, lock_ref, read_head, read_entry_header_unsafe,
}
use libshmipc.Buffer.Skip.{
  IpcBufferSkipResult, SkipOutcome, lock_head_at, give_up, skip_locked, skip_entry, ipc_buffer_skip,
  ipc_buffer_skip_force,
}
use libshmipc.Buffer.Threads.Point.{Job, skipping, idle, r_head, r_tail, r_unlock, f_tail, f_entry}
use libshmipc.Buffer.Threads.Reading.{
  header_at, begin_read, head_locked, other_offset, load_head, lock_head, unreadable, found_padding,
  pass, unlock_head, unlock_fails, advance_padding, padding_fails, advance, advance_fails,
  begin_force, force_empty, force_entry, load_size, force, already_skipped,
}
use libshmipc.Buffer.Threads.System.{reads, forced}
use libshmipc.Buffer.Threads.Alone.{
  Alone, done, and_then, returned, Runs, Runs-later, eq_of_test, ne_of_test,
}
use libshmipc.Buffer.Threads.Alone.Head.{
  LockRuns, lock-cases, header-Runs, Header-cases, entry_status, release_cases, advance_cases,
}

abbrev pub skipped : SkipOutcome → Status × Shm
skipped (r, s) = (ipc_status r, s)

module _ (offset : ℕ) where
  abbrev job : Job
  job = skipping offset

  lock_head_at-Runs : (fuel : ℕ) (s : Shm) → LockRuns job s (lock_head_at fuel offset s)
  unfolding lock_head_at lock_ref read_head
  lock_head_at-Runs zero s = tt
  lock_head_at-Runs (suc fuel) s = elim (Bool-cases (is_locked s.head)) [
    | inl taken ↦ rw taken (and_then done (reads (head_locked taken)), refl)
    | inr free ↦ elim (Bool-cases (unlock s.head == offset)) [
      | inr other ↦
          rw (free, other)
            (
              and_then done (reads (other_offset free (ne_of_test (unlock s.head) offset other))),
              refl,
            )
      | inl here ↦ elim (Bool-cases (s.head == unlock s.head)) [
        | inl same ↦
            rw (free, here, same)
              (and_then
                (and_then done (reads (load_head free (eq_of_test (unlock s.head) offset here))))
                (reads (lock_head (eq_of_test s.head (unlock s.head) same))))
        | inr moved ↦ rw (free, here, moved) (lock_head_at-Runs fuel s)
      ]
    ]
  ]

  module _ (again : Shm → Option SkipOutcome) (head : ℕ) (s : Shm)
      (next : (s' : Shm) → Runs skipped (r_head job) s' (again s')) where
    leaving :
        (result : IpcBufferSkipResult)
        → returned (ipc_status result) ≡ idle
        → Alone s (r_tail job head) s (r_unlock head)
        → Runs skipped (r_tail job head) s (some (give_up offset head result s))
    unfolding give_up
    leaving result back run = elim (release_cases head s) [
      | inl (e, same) ↦ rw (e, back) (and_then run (reads (unlock_head same)))
      | inr (e, other) ↦ rw e (and_then run (reads (unlock_fails other)))
    ]

    -- What a status that is neither `ok` nor `placeholder` returns.
    abbrev refusal : Status → IpcBufferSkipResult
    refusal status =
        if is_empty status then success empty head else error_body status (record { offset = head })

    abbrev h : EntryHeader
    h = (header_at s head).1

    skip_locked-Runs : Runs skipped (r_tail job head) s (skip_locked again offset head s)
    unfolding skip_locked
    skip_locked-Runs = elim (Header-cases (header-Runs job head s)) [
      | inl (e, run) ↦ rw e (leaving (refusal empty) refl run)
      | inr (inl (e, run)) ↦ rw e (leaving (refusal err_not_ready) refl run)
      | inr (inr (e, run)) ↦ elim (entry_status head s) [
        | inl st ↦
            let found = and_then run (reads (pass (rw st refl))) in
            elim (advance_cases head h.entry_size s) [
              | inl (moved, same) ↦ rw (e, st, moved) (and_then found (reads (advance same)))
              | inr (stays, other) ↦
                  rw (e, st, stays) (and_then found (reads (advance_fails other)))
            ]
        | inr (inl st) ↦
            let found = and_then run (reads (found_padding (rw st refl))) in
            elim (advance_cases head h.entry_size s) [
              | inl (moved, same) ↦
                  let s' : Shm = record s { head = add64 head h.entry_size } in
                  rw (e, st, moved)
                    (Runs-later skipped (again s') (and_then found (reads (advance_padding same)))
                      (next s'))
              | inr (stays, other) ↦
                  rw (e, st, stays) (and_then found (reads (padding_fails other)))
            ]
        | inr (inr (inl st)) ↦
            rw (e, st)
              (leaving (refusal err_locked) refl
                (and_then run (reads (unreadable (rw st refl) (rw st refl)))))
        | inr (inr (inr st)) ↦
            rw (e, st)
              (leaving (refusal err_not_ready) refl
                (and_then run (reads (unreadable (rw st refl) (rw st refl)))))
      ]
    ]

  -- With an offset that is a multiple of 8.
  module _ (aligned : is_aligned offset ≡ true) where
    skip_entry-Runs :
        (fuel : ℕ) (again : Shm → Option SkipOutcome) (s : Shm)
        → ((s' : Shm) → Runs skipped (r_head job) s' (again s'))
        → Runs skipped (r_head job) s (skip_entry fuel again offset s)
    unfolding skip_entry
    skip_entry-Runs fuel again s next =
        let runs = lock_head_at-Runs fuel s in
        elim (lock-cases (lock_head_at fuel offset s)) [
          | inl e ↦ rw (aligned, e) tt
          | inr (inr (status, at, s', e)) ↦
              let (run, back) = subst (LockRuns job s) e runs in rw (aligned, e, back) run
          | inr (inl (head, s', e)) ↦
              rw (aligned, e)
                (Runs-later skipped (skip_locked again offset head s')
                  (subst (LockRuns job s) e runs) (skip_locked-Runs again head s' next))
        ]

    -- Behind the checks, which a restart passes again.
    restart-Runs :
        (fuel : ℕ) (s : Shm) → Runs skipped (r_head job) s (ipc_buffer_skip fuel valid offset s)
    unfolding ipc_buffer_skip
    restart-Runs zero s = tt
    restart-Runs (suc fuel) s =
        skip_entry-Runs (suc fuel) (ipc_buffer_skip fuel valid offset) s (λ t. restart-Runs fuel t)

-- What `ipc_buffer_skip` returns, and the memory that it leaves, the steps of a thread that runs alone
-- reach as well, for any contents of the shared memory.
pub skip-Runs :
    (fuel offset : ℕ) (s : Shm) → Runs skipped idle s (ipc_buffer_skip fuel valid offset s)
unfolding ipc_buffer_skip skip_entry
skip-Runs zero offset s = tt
skip-Runs (suc fuel) offset s = elim (Bool-cases (is_aligned offset)) [
  | inr odd ↦ rw odd done
  | inl aligned ↦
      Runs-later skipped (ipc_buffer_skip (suc fuel) valid offset s)
        (and_then done (reads (begin_read aligned))) (restart-Runs offset aligned (suc fuel) s)
]

-- The same for `ipc_buffer_skip_force`, which always returns.
module _ (s : Shm) where
  abbrev position : ℕ
  position = unlock s.head

  abbrev exchanged : ℕ
  exchanged = add64 position (load_u64 (relative (unlock position) s.data_size + 16) s.region)

  swap_alone :
      Alone s idle s (f_entry position)
      → (s.head ≡ position) × Alone s idle (record s { head = exchanged }) idle
        ⊎ (s.head ≢ position) × Alone s idle s idle
  swap_alone found = elim (Bool-cases (s.head == position)) [
    | inl e ↦
        let same = eq_of_test s.head position e in
        inl (same, and_then (and_then found (forced load_size)) (forced (force same)))
    | inr e ↦
        let other = ne_of_test s.head position e in
        inr (other, and_then (and_then found (forced load_size)) (forced (already_skipped other)))
  ]

  pub skip_force_alone :
      let (r, s') = ipc_buffer_skip_force valid s in Alone s idle s' (returned (ipc_status r))
  unfolding ipc_buffer_skip_force read_entry_header_unsafe read_head
  skip_force_alone =
      let began : Alone s idle s (f_tail position) = and_then done (forced begin_force) in
      elim (Bool-cases (unlock position == unlock s.tail)) [
        | inl nothing ↦
            let at = eq_of_test (unlock position) (unlock s.tail) nothing in
            rw nothing (and_then began (forced (force_empty at)))
        | inr entry ↦
            let at = ne_of_test (unlock position) (unlock s.tail) entry in
            elim (swap_alone (and_then began (forced (force_entry at)))) [
              | inl (same, run) ↦ elim (Bool-cases (is_locked s.tail)) [
                | inl t ↦ rw (entry, t, eq→== s.head position same) run
                | inr t ↦ rw (entry, t, eq→== s.head position same) run
              ]
              | inr (other, run) ↦ elim (Bool-cases (is_locked s.tail)) [
                | inl t ↦ rw (entry, t, ne→== s.head position other) run
                | inr t ↦ rw (entry, t, ne→== s.head position other) run
              ]
            ]
      ]
