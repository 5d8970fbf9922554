-- ===== src/Buffer/Read.antt =====
-- core/src/ipc_buffer.c: `ipc_buffer_read`.
pub mod Refine
pub mod Step
use libshmipc.Base.{
  ℕ, zero, suc, ◌+◌, Bool, true, false, List, ◌++◌, Option, none, some, ltb, if◌then◌else◌, drop,
}
use libshmipc.Common.{
  Result, success, error_body, ok, empty, err_invalid_argument, err_too_small, err_illegal_state,
  is_ok, is_empty, is_placeholder, Pointer, null, valid, Payload, owned, IpcEntry,
}
use libshmipc.Memory.{load_bytes}
use libshmipc.Utils.{relative}
use libshmipc.Buffer.State.{
  Shm, EntryHeader, entry_header_size, read_entry_header, busy, held, lock_head, release_head,
  advance_head,
}

-- `IpcBufferReadError`
pub record IpcBufferReadError : Type 0 where
  pub offset : ℕ
  pub required_size : ℕ

abbrev pub IpcBufferReadResult : Type 0
IpcBufferReadResult = Result (Unit {0}) IpcBufferReadError

-- The result, `*dest` and the shared memory afterwards.
abbrev pub ReadOutcome : Type 0
ReadOutcome = IpcBufferReadResult × IpcEntry × Shm

abbrev pub no_read_error : IpcBufferReadError
no_read_error = record { offset = 0; required_size = 0 }

-- `memcpy` to the caller's memory: the bytes go over the first ones that stand there. A copy to
-- NULL, or into the buffer itself, is undefined in C; here it changes nothing.
abbrev pub copy_to : Payload → List ℕ → ℕ → Payload
copy_to (owned old) bytes n = owned (bytes ++ drop n old)
copy_to p bytes n = p

-- A `return` of `result` that first unlocks the head; `error` goes out when that fails.
unfoldable pub give_up : ℕ → IpcBufferReadError → IpcBufferReadResult → IpcEntry → Shm → ReadOutcome
give_up head error result dest s =
    let (unlocked, s') = release_head head s in
    (if unlocked then result else error_body err_illegal_state error, dest, s')

-- The copy to `*dest` of an entry that is no placeholder.
unfoldable pub copy_entry : ℕ → EntryHeader → IpcEntry → Shm → IpcEntry
copy_entry head h dest s =
    let rel_offset = relative head s.data_size in
    record {
      offset = head;
      payload =
          copy_to dest.payload (load_bytes h.payload_size (rel_offset + entry_header_size) s.region)
            h.payload_size;
      size = h.payload_size;
    }

-- The exchange that moves the head; behind a placeholder the read starts again.
unfoldable pub finish_read :
    (IpcEntry → Shm → Option ReadOutcome)
    → Bool
    → ℕ
    → EntryHeader
    → IpcEntry
    → Shm
    → Option ReadOutcome
finish_read again is_pad head h dest s =
    let (swapped, s') = advance_head head h.entry_size s in
    if swapped
    then (if is_pad then again dest s' else some (success ok tt, dest, s'))
    else some (error_body err_illegal_state no_read_error, dest, s')

-- What follows once the head is locked.
unfoldable pub read_locked :
    (IpcEntry → Shm → Option ReadOutcome) → ℕ → IpcEntry → Shm → Option ReadOutcome
read_locked again head dest s =
    let (status, h) = read_entry_header s head in
    let too_small : IpcBufferReadError = record { offset = head; required_size = h.payload_size } in
    if is_placeholder status
    then finish_read again true head h dest s
    else if is_ok status
    then (if ltb dest.size h.payload_size
        then some (give_up head too_small (error_body err_too_small too_small) dest s)
        else finish_read again false head h (copy_entry head h dest s) s)
    else some (
        give_up head no_read_error
          (if is_empty status
            then success empty tt
            else error_body status (record no_read_error { offset = head }))
          dest s)

-- What follows the checks of the arguments; `again` is the call behind a placeholder.
unfoldable pub read_entry :
    ℕ → (IpcEntry → Shm → Option ReadOutcome) → IpcEntry → Shm → Option ReadOutcome
read_entry fuel again dest s = elim (lock_head fuel s) [
  | none ↦ none
  | some (busy status offset, s') ↦
      some (error_body status (record no_read_error { offset = offset }), dest, s')
  | some (held head, s') ↦ read_locked again head dest s'
]

-- `buffer` and `to` are the two pointers, `dest` is the entry behind `to`. The fuel bounds the
-- restarts behind a placeholder and the rounds of the loop.
unfoldable pub ipc_buffer_read : ℕ → Pointer → Pointer → IpcEntry → Shm → Option ReadOutcome
ipc_buffer_read zero buffer to dest s = none
ipc_buffer_read (suc fuel) null to dest s =
    some (error_body err_invalid_argument no_read_error, dest, s)
ipc_buffer_read (suc fuel) valid null dest s =
    some (error_body err_invalid_argument no_read_error, dest, s)
ipc_buffer_read (suc fuel) valid valid dest s =
    read_entry (suc fuel) (ipc_buffer_read fuel valid valid) dest s
