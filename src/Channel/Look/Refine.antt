-- ===== src/Channel/Look/Refine.antt =====
-- `ipc_channel_peek` followed by `ipc_channel_skip`.
use libshmipc.Base.{ℕ, suc, ◌+◌, ◌^◌, ◌<◌, ◌≡◌, List, ◌∷◌, some, length}
use libshmipc.Common.{success, ok, valid, IpcEntry}
use libshmipc.Buffer.State.{IpcBuffer}
use libshmipc.Buffer.Layout.{Holds}
use libshmipc.Buffer.Skip.Refine.{peek_then_skip}
use libshmipc.Channel.State.{ChannelShm, guarded}
use libshmipc.Channel.Look.{peek_result, ipc_channel_peek, skip_result, ipc_channel_skip}

-- On a channel whose buffer is at rest and holds a queue that is not empty, a peek returns `ok` with
-- the size of the oldest payload, and a skip of the offset that it gives then returns `ok` and takes
-- exactly that payload out, if no one else acts in between and the positions stay below 2^64.
pub channel_peek_then_skip :
    {k : ℕ} {xs : List ℕ} {q : List (List ℕ)} (c : ChannelShm) (fuel header : ℕ) (b : IpcBuffer)
    (dest : IpcEntry)
    → Holds k (xs ∷ q) c.buffer
    → c.buffer.tail + 7 < 2 ^ 64
    → (seen : IpcEntry) × (c' : ChannelShm) × (c'' : ChannelShm) × (ipc_channel_peek
          (suc (suc fuel))
          (some (record { header = header; buffer = some b }))
          valid
          dest
          c
        ≡ some (success ok tt, seen, c'))
      × (seen.size ≡ length xs)
      × (ipc_channel_skip
            (suc fuel)
            (some (record { header = header; buffer = some b }))
            seen.offset
            c'
          ≡ some (success ok seen.offset, c''))
      × Holds k q c''.buffer
unfolding guarded peek_result skip_result ipc_channel_peek ipc_channel_skip
channel_peek_then_skip c fuel header b dest h fits =
    let (seen, s, s', peeked, size, skipped, holds) = peek_then_skip fuel dest h fits in
    (
      seen,
      record c { buffer = s },
      record c { buffer = s' },
      rw (ipc_channel_peek, guarded, peeked),
      size,
      rw (ipc_channel_skip, guarded, skipped),
      holds,
    )
