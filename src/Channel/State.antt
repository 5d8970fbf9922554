-- ===== src/Channel/State.antt =====
-- core/src/ipc_channel.c: the handle, the shared memory, and the guards of every operation.
use libshmipc.Base.{ℕ, Option, none, some, ◌+◌, ◌%◌, ◌^◌}
use libshmipc.Common.{Status, err_invalid_argument, err_illegal_state}
use libshmipc.Buffer.State.{IpcBuffer, Shm}

-- `CHANNEL_HEADER_SIZE_ALIGNED`
abbrev pub channel_header_size_aligned : ℕ
channel_header_size_aligned = 64

-- `struct IpcChannel`: the address of the header, and the handle of the buffer, `none` for NULL.
pub record IpcChannel : Type 0 where
  pub header : ℕ
  pub buffer : Option IpcBuffer

-- The shared memory behind a handle: the counter `notify` of `IpcChannelHeader`, and the buffer.
-- `wakes` counts the calls of `ipc_futex_wake_all`, which change nothing there.
pub record ChannelShm : Type 0 where
  pub notify : ℕ
  pub wakes : ℕ
  pub buffer : Shm

-- `atomic_fetch_add(&channel->header->notify, 1)` and `ipc_futex_wake_all(&channel->header->notify)`
unfoldable pub notify_all : ChannelShm → ChannelShm
notify_all c = record c { notify = (c.notify + 1) % 2 ^ 32; wakes = c.wakes + 1 }

-- The two guards at the start of an operation: a channel that is NULL, and one without a buffer.
unfoldable pub guarded : {A : Type 0} → Option IpcChannel → (Status → A) → A → A
guarded none refuse go = refuse err_invalid_argument
guarded (some channel) refuse go = elim channel.buffer [
  | none ↦ refuse err_illegal_state
  | some buffer ↦ go
]
