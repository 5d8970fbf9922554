-- ===== src/Buffer/Skip.antt =====
-- core/src/ipc_buffer.c: `ipc_buffer_skip` and `ipc_buffer_skip_force`.
pub mod Refine
pub mod Step
use libshmipc.Base.{ℕ, zero, suc, ◌+◌, not, ◌||◌, Option, none, some, ◌==◌, if◌then◌else◌}
use libshmipc.Base.Word.{add64}
use libshmipc.Common.{
  Result, success, error_body, ok, empty, already_skipped, err_invalid_argument, err_illegal_state,
  err_locked, err_offset_mismatch, is_ok, is_empty, is_placeholder, Pointer, null, valid,
}
use libshmipc.Memory.{load_u64}
use libshmipc.Buffer.State.{
  Shm, unlock, compare_exchange, read_head, is_aligned, is_locked, lock_ref,
  read_entry_header_unsafe, read_entry_header, HeadLock, busy, held, release_head, advance_head,
}

-- `IpcBufferSkipError`
pub record IpcBufferSkipError : Type 0 where
  pub offset : ℕ

abbrev pub IpcBufferSkipResult : Type 0
IpcBufferSkipResult = Result ℕ IpcBufferSkipError

abbrev pub SkipOutcome : Type 0
SkipOutcome = IpcBufferSkipResult × Shm

-- The loop of `ipc_buffer_skip`, which also compares the head with the caller's offset; `none` when
-- it is still running after `fuel` rounds.
unfoldable pub lock_head_at : ℕ → ℕ → Shm → Option (HeadLock × Shm)
lock_head_at zero offset s = none
lock_head_at (suc fuel) offset s =
    let retry = lock_head_at fuel offset s in
    let head = read_head s in
    if is_locked head
    then some (busy err_locked (unlock head), s)
    else if not (unlock head == offset)
    then some (busy err_offset_mismatch (unlock head), s)
    else (let (locked, word) = lock_ref s.head head in
        if locked then some (held head, record s { head = word }) else retry)

-- A `return` that first unlocks the head.
unfoldable pub give_up : ℕ → ℕ → IpcBufferSkipResult → Shm → SkipOutcome
give_up offset head result s =
    let (unlocked, s') = release_head head s in
    (if unlocked then result else error_body err_illegal_state (record { offset = offset }), s')

-- What follows once the head is locked.
unfoldable pub skip_locked : (Shm → Option SkipOutcome) → ℕ → ℕ → Shm → Option SkipOutcome
skip_locked again offset head s =
    let (status, h) = read_entry_header s head in
    if is_placeholder status || is_ok status
    then (let (swapped, s') = advance_head head h.entry_size s in
        if swapped
        then (if is_placeholder status then again s' else some (success ok offset, s'))
        else some (error_body err_illegal_state (record { offset = offset }), s'))
    else some (
        give_up offset head
          (if is_empty status
            then success empty head
            else error_body status (record { offset = head }))
          s)

-- What follows the check of the handle; `again` is the call behind a placeholder.
unfoldable pub skip_entry : ℕ → (Shm → Option SkipOutcome) → ℕ → Shm → Option SkipOutcome
skip_entry fuel again offset s =
    if not (is_aligned offset)
    then some (error_body err_invalid_argument (record { offset = offset }), s)
    else elim (lock_head_at fuel offset s) [
      | none ↦ none
      | some (busy status at, s') ↦ some (error_body status (record { offset = at }), s')
      | some (held head, s') ↦ skip_locked again offset head s'
    ]

-- The fuel bounds the restarts behind a placeholder and the rounds of the loop.
unfoldable pub ipc_buffer_skip : ℕ → Pointer → ℕ → Shm → Option SkipOutcome
ipc_buffer_skip zero buffer offset s = none
ipc_buffer_skip (suc fuel) null offset s =
    some (error_body err_invalid_argument (record { offset = offset }), s)
ipc_buffer_skip (suc fuel) valid offset s =
    skip_entry (suc fuel) (ipc_buffer_skip fuel valid offset) offset s

-- `IpcBufferSkipForceError` holds a dummy.
abbrev pub IpcBufferSkipForceResult : Type 0
IpcBufferSkipForceResult = Result ℕ (Unit {0})

-- A failed exchange stores the head that it found in the local variable `head`, which is returned.
unfoldable pub ipc_buffer_skip_force : Pointer → Shm → IpcBufferSkipForceResult × Shm
ipc_buffer_skip_force null s = (error_body err_invalid_argument tt, s)
ipc_buffer_skip_force valid s =
    let head = unlock (read_head s) in
    let (status, rel) = read_entry_header_unsafe s head in
    let entry_size = load_u64 (rel + 16) s.region in
    let (swapped, word) = compare_exchange s.head head (add64 head entry_size) in
    if is_empty status then (success empty head, s) else (
      (if swapped then success ok head else success already_skipped s.head),
      record s { head = word },
    )
