-- ===== src/Channel/Open.antt =====
-- core/src/ipc_channel.c: `ipc_channel_create`, `ipc_channel_connect`, `ipc_channel_destroy` and the
-- sizes.
pub mod Outcome
pub mod Suggest
pub mod Fresh
use libshmipc.Base.{ℕ, ◌+◌, Option, none, some, ltb, ◌==◌, if◌then◌else◌}
use libshmipc.Base.Word.{add64, sub64}
use libshmipc.Common.{
  Result, success, error, error_body, is_negative, ok, err_invalid_argument, err_system, Allocation,
  allocated, failed, Status,
}
use libshmipc.Utils.{find_next_power_of_2}
use libshmipc.Buffer.State.{IpcBuffer, Shm}
use libshmipc.Buffer.Size.{ipc_buffer_get_memory_overhead, ipc_buffer_get_min_size}
use libshmipc.Buffer.Create.{
  IpcBufferCreateResult, IpcBufferCreateError, ipc_buffer_create, ipc_buffer_attach,
}
use libshmipc.Channel.State.{IpcChannel, ChannelShm, channel_header_size_aligned, guarded}
use mathlib.Core.Option

abbrev pub ipc_channel_get_memory_overhead : ℕ
ipc_channel_get_memory_overhead = channel_header_size_aligned + ipc_buffer_get_memory_overhead

abbrev pub ipc_channel_get_min_size : ℕ
ipc_channel_get_min_size = channel_header_size_aligned + ipc_buffer_get_min_size

-- `none` when the search for the power of two is still running after `fuel` tests.
unfoldable pub ipc_channel_suggest_size : ℕ → ℕ → Option ℕ
ipc_channel_suggest_size fuel desired_capacity =
    if ltb (add64 desired_capacity ipc_channel_get_memory_overhead) ipc_channel_get_min_size
    then some ipc_channel_get_min_size
    else Option.map (λ aligned. add64 aligned ipc_channel_get_memory_overhead)
        (find_next_power_of_2 fuel desired_capacity)

-- `IpcChannelOpenError`
pub record IpcChannelOpenError : Type 0 where
  pub requested_size : ℕ
  pub min_size : ℕ
  pub sys_errno : ℕ

abbrev pub IpcChannelOpenResult : Type 0
IpcChannelOpenResult = Result IpcChannel IpcChannelOpenError

abbrev pub no_open_error : ℕ → IpcChannelOpenError
no_open_error size = record {
  requested_size = size;
  min_size = ipc_channel_get_memory_overhead;
  sys_errno = 0;
}

-- The handle for the memory at the address `mem`.
abbrev pub channel_at : ℕ → IpcBuffer → IpcChannel
channel_at mem buffer = record { header = mem; buffer = some buffer }

-- The result once the second `malloc` has answered, which `channel->header` and the counter follow.
unfoldable pub build_channel :
    Allocation
    → ℕ
    → IpcChannelOpenError
    → IpcBuffer
    → ChannelShm
    → IpcChannelOpenResult × ChannelShm
build_channel (failed errno) mem e buffer c =
    (error_body err_system (record e { sys_errno = errno }), c)
build_channel allocated mem e buffer c =
    (success ok (channel_at mem buffer), record c { notify = 0 })

-- What follows `ipc_buffer_create`, with its result and the memory afterwards; every error of
-- `ipc_buffer_create` has a body.
unfoldable pub open_channel :
    Allocation
    → ℕ
    → IpcChannelOpenError
    → IpcBufferCreateResult
    → ChannelShm
    → IpcChannelOpenResult × ChannelShm
open_channel alloc mem e (error_body status b) c =
    (error_body status (record e { sys_errno = b.sys_errno }), c)
open_channel alloc mem e (error status) c = (error_body status e, c)
open_channel alloc mem e (success status buffer) c =
    if is_negative status then (error_body status e, c) else build_channel alloc mem e buffer c

-- `mem` is an address, 0 for NULL; `c` is the memory there. `malloc` answers as `buffer_alloc` says
-- in `ipc_buffer_create`, and then as `alloc` says.
unfoldable pub ipc_channel_create :
    ℕ → ℕ → ℕ → Allocation → Allocation → ChannelShm → Option (IpcChannelOpenResult × ChannelShm)
ipc_channel_create fuel mem size buffer_alloc alloc c =
    let e = no_open_error size in
    if mem == 0
    then some (error_body err_invalid_argument e, c)
    else if size == 0
    then some (error_body err_invalid_argument e, c)
    else elim (ipc_buffer_create fuel (mem + channel_header_size_aligned)
        (sub64 size channel_header_size_aligned) buffer_alloc c.buffer) [
          | none ↦ none
          | some (r, s) ↦ some (open_channel alloc mem e r (record c { buffer = s }))
        ]

-- `IpcChannelConnectError`
pub record IpcChannelConnectError : Type 0 where
  pub sys_errno : ℕ
  pub min_size : ℕ

abbrev pub IpcChannelConnectResult : Type 0
IpcChannelConnectResult = Result IpcChannel IpcChannelConnectError

-- `malloc` answers as `alloc` says, and then as `buffer_alloc` says in `ipc_buffer_attach`.
-- Connecting changes nothing in the shared memory.
unfoldable pub ipc_channel_connect : ℕ → Allocation → Allocation → IpcChannelConnectResult
ipc_channel_connect mem alloc buffer_alloc =
    let e : IpcChannelConnectError = record {
      sys_errno = 0;
      min_size = ipc_channel_get_memory_overhead;
    } in
    if mem == 0 then error_body err_invalid_argument e else elim alloc [
      | failed errno ↦ error_body err_system (record e { sys_errno = errno })
      | allocated ↦ elim (ipc_buffer_attach (mem + channel_header_size_aligned) buffer_alloc) [
        | success status buffer ↦ success ok (channel_at mem buffer)
        | error status ↦ error_body status e
        | error_body status b ↦ error_body status e
      ]
    ]

-- `IpcChannelDestroyError` holds a dummy.
abbrev pub IpcChannelDestroyError : Type 0
IpcChannelDestroyError = Unit {0}

abbrev pub IpcChannelDestroyResult : Type 0
IpcChannelDestroyResult = Result (Unit {0}) IpcChannelDestroyError

-- `free` does not touch the shared memory.
unfoldable pub ipc_channel_destroy : Option IpcChannel → IpcChannelDestroyResult
ipc_channel_destroy channel = guarded channel (λ status. error_body status tt) (success ok tt)
