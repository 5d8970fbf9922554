-- ===== src/Init.antt =====
-- core/src/ipc_init.c: a buffer or a channel in a named memory segment.
pub mod Outcome
pub mod Suggest
use libshmipc.Base.{List, ℕ, Bool, Option, none, some, ltb, ◌==◌, if◌then◌else◌}
use libshmipc.Base.Word.{add64, sub64}
use libshmipc.Common.{
  Result, success, error, error_body, Status, ok, err_invalid_argument, ipc_status, is_negative,
  is_ok, Allocation,
}
use libshmipc.Utils.{double_until, is_power_of_2}
use libshmipc.Mmap.{Calls, Process, ipc_mmap}
use libshmipc.Buffer.State.{IpcBuffer, Shm}
use libshmipc.Buffer.Size.{ipc_buffer_get_memory_overhead, ipc_buffer_get_min_size}
use libshmipc.Buffer.Create.{ipc_buffer_create, ipc_buffer_attach}
use libshmipc.Channel.State.{IpcChannel, ChannelShm}
use libshmipc.Channel.Open.{
  ipc_channel_get_memory_overhead, ipc_channel_get_min_size, ipc_channel_create,
  ipc_channel_connect,
}
use mathlib.Core.Option

-- `ValidationResult`, without the message.
pub record ValidationResult : Type 0 where
  pub status : Status
  pub overhead : ℕ
  pub min_size : ℕ

-- `none` when the test for a power of two is still running after `fuel` rounds.
unfoldable pub validate_size : ℕ → ℕ → ℕ → ℕ → Option ValidationResult
validate_size fuel requested_size min_size overhead =
    if ltb requested_size min_size
    then some (record { status = err_invalid_argument; overhead = 0; min_size = min_size })
    else Option.map
        (λ power.
          if power
          then record { status = ok; overhead = 0; min_size = 0 }
          else record { status = err_invalid_argument; overhead = overhead; min_size = 0 })
        (is_power_of_2 fuel (sub64 requested_size overhead))

-- `IpcInitBufferCreateError`; the error structures of the four functions have the same fields.
pub record IpcInitError : Type 0 where
  pub requested_size : ℕ
  pub overhead : ℕ
  pub min_size : ℕ
  pub sys_errno : ℕ

abbrev pub IpcInitBufferCreateResult : Type 0
IpcInitBufferCreateResult = Result IpcBuffer IpcInitError

abbrev pub IpcInitBufferAttachError : Type 0
IpcInitBufferAttachError = IpcInitError

abbrev pub IpcInitBufferAttachResult : Type 0
IpcInitBufferAttachResult = Result IpcBuffer IpcInitBufferAttachError

abbrev pub IpcInitChannelOpenError : Type 0
IpcInitChannelOpenError = IpcInitError

abbrev pub IpcInitChannelOpenResult : Type 0
IpcInitChannelOpenResult = Result IpcChannel IpcInitChannelOpenError

abbrev pub IpcInitChannelConnectError : Type 0
IpcInitChannelConnectError = IpcInitError

abbrev pub IpcInitChannelConnectResult : Type 0
IpcInitChannelConnectResult = Result IpcChannel IpcInitChannelConnectError

abbrev pub no_init_error : ℕ → IpcInitError
no_init_error size = record { requested_size = size; overhead = 0; min_size = 0; sys_errno = 0 }

-- The functions' result from that of the function that they call, whose error has a body with the
-- number `errno_of`.
unfoldable pub pass_on : {A E : Type 0} → (E → ℕ) → ℕ → Result A E → Result A IpcInitError
pass_on errno_of size (success status v) =
    if is_negative status then error_body status (no_init_error size) else success ok v
pass_on errno_of size (error status) = error_body status (no_init_error size)
pass_on errno_of size (error_body status b) =
    error_body status (record (no_init_error size) { sys_errno = errno_of b })

-- The two steps that all four functions start with: the validation of the size, and `ipc_mmap`. `opened`
-- has what follows for the pointer `mmap.result`, which points to the segment structure. `s` is the
-- memory at this structure.
unfoldable pub in_segment :
    {A S : Type 0}
    → ℕ
    → ℕ
    → ℕ
    → ℕ
    → Calls
    → Option (List ℕ)
    → (ℕ → Option (Result A IpcInitError × S))
    → S
    → Process
    → Option (Result A IpcInitError × S × Process)
in_segment fuel size min_size overhead calls path opened s p =
    elim (validate_size fuel size min_size overhead) [
      | none ↦ none
      | some v ↦
          if is_ok v.status
          then (let (mapped, p') = ipc_mmap calls path size p in
              elim mapped [
                | error status ↦ some (error_body status (no_init_error size), s, p')
                | error_body status b ↦ some (
                  error_body status (record (no_init_error size) { sys_errno = b.sys_errno }),
                  s,
                  p',
                )
                | success status segment ↦
                    if is_negative status
                    then some (error_body status (no_init_error size), s, p')
                    else Option.map (λ (r, s'). (r, s', p')) (opened segment.address)
              ])
          else some (
            error_body v.status
                (record (no_init_error size) { min_size = v.min_size; overhead = v.overhead }),
            s,
            p,
          )
    ]

unfoldable pub ipc_init_buffer_create :
    ℕ
    → Calls
    → Option (List ℕ)
    → ℕ
    → Allocation
    → Shm
    → Process
    → Option (IpcInitBufferCreateResult × Shm × Process)
ipc_init_buffer_create fuel calls path size alloc s p =
    in_segment fuel size ipc_buffer_get_min_size ipc_buffer_get_memory_overhead calls path
      (λ result. elim (ipc_buffer_create fuel result size alloc s) [
        | none ↦ none
        | some (r, s') ↦ some (pass_on (λ b. b.sys_errno) size r, s')
      ])
      s p

unfoldable pub ipc_init_buffer_attach :
    ℕ
    → Calls
    → Option (List ℕ)
    → ℕ
    → Allocation
    → Shm
    → Process
    → Option (IpcInitBufferAttachResult × Shm × Process)
ipc_init_buffer_attach fuel calls path size alloc s p =
    in_segment fuel size ipc_buffer_get_min_size ipc_buffer_get_memory_overhead calls path
      (λ result. some (pass_on (λ b. 0) size (ipc_buffer_attach result alloc), s)) s p

unfoldable pub ipc_init_channel_create :
    ℕ
    → Calls
    → Option (List ℕ)
    → ℕ
    → Allocation
    → Allocation
    → ChannelShm
    → Process
    → Option (IpcInitChannelOpenResult × ChannelShm × Process)
ipc_init_channel_create fuel calls path size buffer_alloc alloc c p =
    in_segment fuel size ipc_channel_get_min_size ipc_channel_get_memory_overhead calls path
      (λ result. elim (ipc_channel_create fuel result size buffer_alloc alloc c) [
        | none ↦ none
        | some (r, c') ↦ some (pass_on (λ b. b.sys_errno) size r, c')
      ])
      c p

unfoldable pub ipc_init_channel_connect :
    ℕ
    → Calls
    → Option (List ℕ)
    → ℕ
    → Allocation
    → Allocation
    → ChannelShm
    → Process
    → Option (IpcInitChannelConnectResult × ChannelShm × Process)
ipc_init_channel_connect fuel calls path size alloc buffer_alloc c p =
    in_segment fuel size ipc_channel_get_min_size ipc_channel_get_memory_overhead calls path
      (λ result. some (pass_on (λ b. 0) size (ipc_channel_connect result alloc buffer_alloc), c)) c
      p

-- `_find_next_power_of_2`; `none` when the loop is still running after `fuel` tests.
unfoldable pub find_next_power_of_2 : ℕ → ℕ → Option ℕ
find_next_power_of_2 fuel n = if n == 0 then some 1 else double_until fuel n 1

unfoldable pub ipc_init_suggest_buffer_size : ℕ → ℕ → Option ℕ
ipc_init_suggest_buffer_size fuel desired_capacity =
    if ltb (add64 desired_capacity ipc_buffer_get_memory_overhead) ipc_buffer_get_min_size
    then some ipc_buffer_get_min_size
    else Option.map (λ aligned_capacity. add64 aligned_capacity ipc_buffer_get_memory_overhead)
        (find_next_power_of_2 fuel desired_capacity)

unfoldable pub ipc_init_suggest_channel_size : ℕ → ℕ → Option ℕ
ipc_init_suggest_channel_size fuel desired_capacity =
    if ltb (add64 desired_capacity ipc_channel_get_memory_overhead) ipc_channel_get_min_size
    then some ipc_channel_get_min_size
    else Option.map (λ aligned_capacity. add64 aligned_capacity ipc_channel_get_memory_overhead)
        (find_next_power_of_2 fuel desired_capacity)
