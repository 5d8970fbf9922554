-- ===== src/Buffer/Peek.antt =====
-- core/src/ipc_buffer.c: `ipc_buffer_peek`.
pub mod Refine
use libshmipc.Base.{ℕ, zero, suc, ◌+◌, Option, none, some, if◌then◌else◌}
use libshmipc.Common.{
  Result, success, error_body, ok, empty, err_invalid_argument, err_illegal_state, is_ok, is_empty,
  is_placeholder, Pointer, null, valid, shared, IpcEntry,
}
use libshmipc.Utils.{relative}
use libshmipc.Buffer.State.{
  Shm, EntryHeader, entry_header_size, read_entry_header, busy, held, lock_head, release_head,
  advance_head,
}

-- `IpcBufferPeekError`
pub record IpcBufferPeekError : Type 0 where
  pub offset : ℕ

abbrev pub IpcBufferPeekResult : Type 0
IpcBufferPeekResult = Result (Unit {0}) IpcBufferPeekError

-- The result, `*dest` and the shared memory afterwards.
abbrev pub PeekOutcome : Type 0
PeekOutcome = IpcBufferPeekResult × IpcEntry × Shm

abbrev pub no_peek_error : IpcBufferPeekError
no_peek_error = record { offset = 0 }

-- A `return` that first unlocks the head.
unfoldable pub give_up : ℕ → IpcBufferPeekResult → IpcEntry → Shm → PeekOutcome
give_up head result dest s =
    let (unlocked, s') = release_head head s in
    (if unlocked then result else error_body err_illegal_state no_peek_error, dest, s')

-- `*dest` for the entry at the head: a pointer into the data region.
unfoldable pub view_entry : ℕ → EntryHeader → Shm → IpcEntry
view_entry head h s = record {
  offset = head;
  payload = shared (relative head s.data_size + entry_header_size);
  size = h.payload_size;
}

-- What follows once the head is locked.
unfoldable pub peek_locked :
    (IpcEntry → Shm → Option PeekOutcome) → ℕ → IpcEntry → Shm → Option PeekOutcome
peek_locked again head dest s =
    let (status, h) = read_entry_header s head in
    if is_placeholder status
    then (let (swapped, s') = advance_head head h.entry_size s in
        if swapped
        then again dest s'
        else some (error_body err_illegal_state no_peek_error, dest, s'))
    else if is_ok status
    then some (give_up head (success ok tt) (view_entry head h s) s)
    else some (
        give_up head
          (if is_empty status
            then success empty tt
            else error_body status (record { offset = head }))
          dest s)

-- What follows the checks of the arguments; `again` is the call behind a placeholder.
unfoldable pub peek_entry :
    ℕ → (IpcEntry → Shm → Option PeekOutcome) → IpcEntry → Shm → Option PeekOutcome
peek_entry fuel again dest s = elim (lock_head fuel s) [
  | none ↦ none
  | some (busy status offset, s') ↦ some (error_body status (record { offset = offset }), dest, s')
  | some (held head, s') ↦ peek_locked again head dest s'
]

-- `buffer` and `to` are the two pointers, `dest` is the entry behind `to`. The fuel bounds the
-- restarts behind a placeholder and the rounds of the loop.
unfoldable pub ipc_buffer_peek : ℕ → Pointer → Pointer → IpcEntry → Shm → Option PeekOutcome
ipc_buffer_peek zero buffer to dest s = none
ipc_buffer_peek (suc fuel) null to dest s =
    some (error_body err_invalid_argument no_peek_error, dest, s)
ipc_buffer_peek (suc fuel) valid null dest s =
    some (error_body err_invalid_argument no_peek_error, dest, s)
ipc_buffer_peek (suc fuel) valid valid dest s =
    peek_entry (suc fuel) (ipc_buffer_peek fuel valid valid) dest s
