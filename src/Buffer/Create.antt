-- ===== src/Buffer/Create.antt =====
-- core/src/ipc_buffer.c: `ipc_buffer_create` and `ipc_buffer_attach`.
pub mod Outcome
use libshmipc.Base.{ℕ, ◌+◌, ◌-◌, Option, none, some, ltb, ◌==◌, if◌then◌else◌}
use libshmipc.Common.{
  Result, success, error_body, ok, err_invalid_argument, err_system, Allocation, allocated, failed,
}
use libshmipc.Utils.{is_power_of_2}
use libshmipc.Buffer.State.{IpcBuffer, Shm, buffer_header_size_aligned}

-- `IpcBufferCreateError`
pub record IpcBufferCreateError : Type 0 where
  pub requested_size : ℕ
  pub min_size : ℕ
  pub sys_errno : ℕ

abbrev pub IpcBufferCreateResult : Type 0
IpcBufferCreateResult = Result IpcBuffer IpcBufferCreateError

abbrev pub no_create_error : ℕ → IpcBufferCreateError
no_create_error size = record {
  requested_size = size;
  min_size = buffer_header_size_aligned;
  sys_errno = 0;
}

-- The handle that both functions fill in for the memory at the address `mem`.
abbrev pub handle_at : ℕ → IpcBuffer
handle_at mem = record { header = mem; region = mem + buffer_header_size_aligned }

-- The part behind the checks: `malloc`, the handle, and `atomic_init` of the header.
unfoldable pub build_buffer :
    Allocation → ℕ → ℕ → IpcBufferCreateError → Shm → IpcBufferCreateResult × Shm
build_buffer (failed errno) mem data_capacity error s =
    (error_body err_system (record error { sys_errno = errno }), s)
build_buffer allocated mem data_capacity error s =
    (success ok (handle_at mem), record s { data_size = data_capacity; head = 0; tail = 0 })

-- `mem` is an address, 0 for NULL; `s` is the memory there; `malloc` answers as `alloc` says.
-- `none` when the test for a power of two is still running after `fuel` rounds.
unfoldable pub ipc_buffer_create :
    ℕ → ℕ → ℕ → Allocation → Shm → Option (IpcBufferCreateResult × Shm)
ipc_buffer_create fuel mem size alloc s =
    let error = no_create_error size in
    let data_capacity = size - buffer_header_size_aligned in
    if mem == 0
    then some (error_body err_invalid_argument error, s)
    else if ltb size buffer_header_size_aligned
    then some (error_body err_invalid_argument error, s)
    else elim (is_power_of_2 fuel data_capacity) [
      | none ↦ none
      | some power ↦ some (
          if power
          then build_buffer alloc mem data_capacity error s
          else (error_body err_invalid_argument error, s))
    ]

-- `IpcBufferAttachError`
pub record IpcBufferAttachError : Type 0 where
  pub min_size : ℕ
  pub sys_errno : ℕ

abbrev pub IpcBufferAttachResult : Type 0
IpcBufferAttachResult = Result IpcBuffer IpcBufferAttachError

-- Attaching changes nothing in the shared memory.
unfoldable pub ipc_buffer_attach : ℕ → Allocation → IpcBufferAttachResult
ipc_buffer_attach mem alloc =
    let error : IpcBufferAttachError = record {
      min_size = buffer_header_size_aligned;
      sys_errno = 0;
    } in
    if mem == 0 then error_body err_invalid_argument error else elim alloc [
      | failed errno ↦ error_body err_system (record error { sys_errno = errno })
      | allocated ↦ success ok (handle_at mem)
    ]
