-- ===== src/Channel/Write/Refine.antt =====
-- `ipc_channel_write` as a call on a queue, and the signal that it gives to readers.
use libshmipc.Base.{
  ℕ, suc, ◌+◌, ◌*◌, ◌%◌, ◌^◌, ◌<◌, ◌≡◌, ◌⊎◌, inl, inr, refl, ap, List, [], ◌∷◌, ◌++◌, some, length,
}
use libshmipc.Common.{success, ipc_status, ok, err_no_space_contiguous, err_entry_too_large}
use libshmipc.Buffer.State.{IpcBuffer, Shm}
use libshmipc.Buffer.Layout.{Holds, full_size}
use libshmipc.Buffer.Write.{IpcBufferWriteResult}
use libshmipc.Buffer.Write.Outcome.{CanWrite, Wrote}
use libshmipc.Buffer.Write.Refine.{write_refines}
use libshmipc.Channel.State.{ChannelShm, notify_all, guarded}
use libshmipc.Channel.Write.{IpcChannelWriteResult, finish_write, ipc_channel_write}

-- The signal: the counter is one higher, modulo 2^32, and all waiters have been woken.
abbrev pub Signalled : ChannelShm → ChannelShm → Type 0
Signalled c c' = (c'.notify ≡ (c.notify + 1) % 2 ^ 32) × (c'.wakes ≡ c.wakes + 1)

-- What a write may do to a channel that holds the queue `q`.
abbrev pub ChannelWrote :
    ℕ → List (List ℕ) → List ℕ → ChannelShm → IpcChannelWriteResult → ChannelShm → Type 0
ChannelWrote k q xs c r c' =
    (r ≡ success ok tt)
      × CanWrite k (full_size (length xs)) c.buffer
      × Holds k (q ++ (xs ∷ [])) c'.buffer
      × Signalled c c'
    ⊎ (ipc_status r ≡ err_no_space_contiguous)
      × ¬ CanWrite k (full_size (length xs)) c.buffer
      × Holds k q c'.buffer
      × Signalled c c'
    ⊎ (ipc_status r ≡ err_entry_too_large) × (2 ^ k < full_size (length xs)) × (c' ≡ c)

finished :
    {k : ℕ} {q : List (List ℕ)} (xs : List ℕ) (c : ChannelShm) (r : IpcBufferWriteResult) (s : Shm)
    → Wrote k q xs c.buffer r s
    → let (r', c') = finish_write (length xs) r (record c { buffer = s }) in
      ChannelWrote k q xs c r' c'
unfolding finish_write notify_all
finished xs c r s (inl (a, can, h)) = rw a (inl (refl, can, h, (refl, refl)))
finished xs c r s (inr (inl (a, fits, cannot, h))) =
    rw a (inr (inl (refl, cannot, h, (refl, refl))))
finished xs c r s (inr (inr (a, large, same))) =
    rw a (inr (inr (refl, large, ap (λ s. record c { buffer = s }) same)))

-- On a channel whose buffer is at rest and holds the queue `q`, a write of the bytes `xs`, not empty
-- and with less than 2^64 bytes for the entry, returns if there is fuel for one restart and the
-- positions stay below 2^64. If the entry fits, the result is `ok`, `xs` is appended, and readers
-- are signalled; if there is no space now, the result is `err_no_space_contiguous`, the queue is
-- kept, and readers are signalled, too; for an entry larger than the region it is
-- `err_entry_too_large` and nothing changes.
pub channel_write_refines :
    {k : ℕ} {q : List (List ℕ)} {c : ChannelShm} (xs : List ℕ) (fuel header : ℕ) (b : IpcBuffer)
    → Holds k q c.buffer
    → 0 < length xs
    → length xs + 31 < 2 ^ 64
    → c.buffer.tail + 2 * 2 ^ k < 2 ^ 64
    → (r : IpcChannelWriteResult) × (c' : ChannelShm) × (ipc_channel_write
          (suc (suc fuel))
          (some (record { header = header; buffer = some b }))
          (some xs)
          (length xs)
          c
        ≡ some (r, c'))
      × ChannelWrote k q xs c r c'
unfolding guarded ipc_channel_write
channel_write_refines {c = c} xs fuel header b h some_bytes bounded no_wrap =
    let (r, s, e, w) = write_refines xs fuel h some_bytes bounded no_wrap in
    (_, _, rw (ipc_channel_write, guarded, e), finished xs c r s w)
