-- ===== src/Channel/Write.antt =====
-- core/src/ipc_channel.c: `ipc_channel_write`.
pub mod Refine
use libshmipc.Base.{ℕ, List, Option, none, some, if◌then◌else◌}
use libshmipc.Common.{
  Result, success, error, error_body, ipc_status, is_error, is_no_space_contiguous, valid,
}
use libshmipc.Buffer.Write.{IpcBufferWriteResult, ipc_buffer_write}
use libshmipc.Channel.State.{IpcChannel, ChannelShm, notify_all, guarded}

-- `IpcChannelWriteError`
pub record IpcChannelWriteError : Type 0 where
  pub offset : ℕ
  pub requested_size : ℕ
  pub available_contiguous : ℕ
  pub buffer_size : ℕ

abbrev pub IpcChannelWriteResult : Type 0
IpcChannelWriteResult = Result (Unit {0}) IpcChannelWriteError

abbrev pub no_write_error : ℕ → IpcChannelWriteError
no_write_error size = record {
  offset = 0;
  requested_size = size;
  available_contiguous = 0;
  buffer_size = 0;
}

-- The error's fields, from the buffer's error if that has a body.
unfoldable pub write_error : IpcBufferWriteResult → IpcChannelWriteError → IpcChannelWriteError
write_error (error_body status b) e = record {
  offset = b.offset;
  requested_size = b.requested_size;
  available_contiguous = b.available_contiguous;
  buffer_size = b.buffer_size;
}
write_error (success status v) e = e
write_error (error status) e = e

-- What follows `ipc_buffer_write`. Readers are woken after a success, and when there is no space.
unfoldable pub finish_write :
    ℕ → IpcBufferWriteResult → ChannelShm → IpcChannelWriteResult × ChannelShm
finish_write size r c =
    if is_error r
    then (
      error_body (ipc_status r) (write_error r (no_write_error size)),
      if is_no_space_contiguous (ipc_status r) then notify_all c else c,
    )
    else (success (ipc_status r) tt, notify_all c)

-- `payload` is the memory at `data`, `none` for NULL. The fuel is that of `ipc_buffer_write`.
unfoldable pub ipc_channel_write :
    ℕ
    → Option IpcChannel
    → Option (List ℕ)
    → ℕ
    → ChannelShm
    → Option (IpcChannelWriteResult × ChannelShm)
ipc_channel_write fuel channel payload size c =
    guarded channel (λ status. some (error_body status (no_write_error size), c))
      (elim (ipc_buffer_write fuel valid payload size c.buffer) [
        | none ↦ none
        | some (r, s) ↦ some (finish_write size r (record c { buffer = s }))
      ])
