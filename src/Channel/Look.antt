-- ===== src/Channel/Look.antt =====
-- core/src/ipc_channel.c: `ipc_channel_peek`, `ipc_channel_skip` and `ipc_channel_skip_force`.
pub mod Refine
use libshmipc.Base.{ℕ, Option, none, some, if◌then◌else◌}
use libshmipc.Common.{
  Result, success, error_body, ipc_status, is_error, err_invalid_argument, Pointer, null, valid,
  IpcEntry,
}
use libshmipc.Buffer.Peek.{IpcBufferPeekResult, ipc_buffer_peek}
use libshmipc.Buffer.Skip.{
  IpcBufferSkipResult, IpcBufferSkipForceResult, ipc_buffer_skip, ipc_buffer_skip_force,
}
use libshmipc.Channel.State.{IpcChannel, ChannelShm, guarded}

-- `IpcChannelPeekError`
pub record IpcChannelPeekError : Type 0 where
  pub offset : ℕ

abbrev pub IpcChannelPeekResult : Type 0
IpcChannelPeekResult = Result (Unit {0}) IpcChannelPeekError

abbrev pub no_peek_error : IpcChannelPeekError
no_peek_error = record { offset = 0 }

-- The body of the buffer's error; every error of `ipc_buffer_peek` has one.
abbrev peek_error : IpcBufferPeekResult → IpcChannelPeekError
peek_error (error_body status b) = record { offset = b.offset }
peek_error _ = no_peek_error

unfoldable pub peek_result : IpcBufferPeekResult → IpcChannelPeekResult
peek_result r =
    if is_error r then error_body (ipc_status r) (peek_error r) else success (ipc_status r) tt

-- `to` is the pointer, `dest` the entry behind it.
unfoldable pub ipc_channel_peek :
    ℕ
    → Option IpcChannel
    → Pointer
    → IpcEntry
    → ChannelShm
    → Option (IpcChannelPeekResult × IpcEntry × ChannelShm)
ipc_channel_peek fuel channel to dest c =
    guarded channel (λ status. some (error_body status no_peek_error, dest, c))
      (elim to [
        | null ↦ some (error_body err_invalid_argument no_peek_error, dest, c)
        | valid ↦ elim (ipc_buffer_peek fuel valid valid dest c.buffer) [
          | none ↦ none
          | some (r, dest', s) ↦ some (peek_result r, dest', record c { buffer = s })
        ]
      ])

-- `IpcChannelSkipError`
pub record IpcChannelSkipError : Type 0 where
  pub offset : ℕ

abbrev pub IpcChannelSkipResult : Type 0
IpcChannelSkipResult = Result ℕ IpcChannelSkipError

-- The body of the buffer's error; every error of `ipc_buffer_skip` has one.
abbrev skip_error : ℕ → IpcBufferSkipResult → IpcChannelSkipError
skip_error offset (error_body status b) = record { offset = b.offset }
skip_error offset _ = record { offset = offset }

-- `NAME.result`, which an error does not have.
abbrev value : {E : Type 0} → Result ℕ E → ℕ
value (success status v) = v
value _ = 0

unfoldable pub skip_result : ℕ → IpcBufferSkipResult → IpcChannelSkipResult
skip_result offset r =
    if is_error r
    then error_body (ipc_status r) (skip_error offset r)
    else success (ipc_status r) (value r)

unfoldable pub ipc_channel_skip :
    ℕ → Option IpcChannel → ℕ → ChannelShm → Option (IpcChannelSkipResult × ChannelShm)
ipc_channel_skip fuel channel offset c =
    guarded channel (λ status. some (error_body status (record { offset = offset }), c))
      (elim (ipc_buffer_skip fuel valid offset c.buffer) [
        | none ↦ none
        | some (r, s) ↦ some (skip_result offset r, record c { buffer = s })
      ])

-- `IpcChannelSkipForceError` holds a dummy.
abbrev pub IpcChannelSkipForceError : Type 0
IpcChannelSkipForceError = Unit {0}

abbrev pub IpcChannelSkipForceResult : Type 0
IpcChannelSkipForceResult = Result ℕ IpcChannelSkipForceError

unfoldable pub skip_force_result : IpcBufferSkipForceResult → IpcChannelSkipForceResult
skip_force_result r =
    if is_error r then error_body (ipc_status r) tt else success (ipc_status r) (value r)

unfoldable pub ipc_channel_skip_force :
    Option IpcChannel → ChannelShm → IpcChannelSkipForceResult × ChannelShm
ipc_channel_skip_force channel c =
    let (r, s) = ipc_buffer_skip_force valid c.buffer in
    guarded channel (λ status. (error_body status tt, c))
      (skip_force_result r, record c { buffer = s })
