-- ===== src/Jni/Conversation/Steps.antt =====
-- One `write` of a conversation.
use libshmipc.Base.{
  ℕ, suc, ◌+◌, ◌*◌, ◌^◌, ◌<◌, ◌≤◌, ◌≡◌, ◌⊎◌, inl, inr, ap, List, [], ◌∷◌, ◌++◌, some, length, arith,
  ne→==,
}
use libshmipc.Base.Word.{ℤ}
use libshmipc.Buffer.State.{IpcBuffer}
use libshmipc.Buffer.Layout.{Holds, full_size}
use libshmipc.Buffer.Write.Outcome.{CanWrite}
use libshmipc.Buffer.Write.{IpcBufferWriteResult}
use libshmipc.Buffer.Trace.{write_step}
use libshmipc.Channel.State.{ChannelShm, notify_all, guarded}
use libshmipc.Channel.Write.{finish_write, ipc_channel_write}
use libshmipc.Jni.State.{Native, get_channel}
use libshmipc.Jni.Transfer.{write}
use libshmipc.Jni.Transfer.Refine.{Connected, unpinned}

finish_write-buffer :
    (size : ℕ) (r : IpcBufferWriteResult) (c : ChannelShm)
    → (finish_write size r c).1.buffer ≡ c.buffer
unfolding finish_write notify_all
finish_write-buffer size r c = ground arith

-- A `write` appends, or leaves the queue.
pub java_write_step :
    {k : ℕ} {q : List (List ℕ)} (n : Native) (xs : List ℕ) (fuel : ℕ) (field : ℤ) (header : ℕ)
    (b : IpcBuffer)
    → Connected field header b n
    → Holds k q n.shm.buffer
    → 0 < length xs
    → length xs + 31 < 2 ^ 64
    → n.shm.buffer.tail + 2 * 2 ^ k < 2 ^ 64
    → (c' : ChannelShm) × (q' : List (List ℕ)) × (write
          (suc (suc fuel))
          (some xs)
          (length xs)
          field
          n
        ≡ some (record n { shm = c' }))
      × (c'.buffer.tail ≤ n.shm.buffer.tail + 2 ^ k)
      × Holds k q' c'.buffer
      × (CanWrite k (full_size (length xs)) n.shm.buffer × (q' ≡ q ++ (xs ∷ []))
          ⊎ ¬ CanWrite k (full_size (length xs)) n.shm.buffer × (q' ≡ q))
unfolding write ipc_channel_write guarded
java_write_step {k} {q} n xs fuel field header b there h some_bytes bounded no_wrap =
    let (r, s', q', e, bound, holds, how) = write_step xs fuel h some_bytes bounded no_wrap in
    let done : ChannelShm = (finish_write (length xs) r (record n.shm { buffer = s' })).1 in
    let same : done.buffer ≡ s' =
      finish_write-buffer (length xs) r (record n.shm { buffer = s' }) in
    (
      done,
      q',
      rw
          (
            write,
            ne→== (get_channel field) 0 there.not_null,
            there.stands,
            ipc_channel_write,
            guarded,
            e,
          )
          (ap some (unpinned n xs done)),
      rw same bound,
      rw same holds,
      elim how [
        | inl (a, can, appended) ↦ inl (can, appended)
        | inr (a, cannot, kept) ↦ inr (cannot, kept)
      ],
    )
