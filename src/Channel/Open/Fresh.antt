-- ===== src/Channel/Open/Fresh.antt =====
-- Where the positions stand after `ipc_channel_create`.
use libshmipc.Base.{ℕ, ◌+◌, ◌≡◌, ◌⊎◌, inl, inr, refl, Option, some, none, false, arith}
use libshmipc.Base.Word.{sub64}
use libshmipc.Common.{is_error, Allocation, allocated, failed}
use libshmipc.Buffer.State.{Shm}
use libshmipc.Buffer.Create.{
  IpcBufferCreateResult, IpcBufferCreateError, build_buffer, ipc_buffer_create,
}
use libshmipc.Channel.State.{ChannelShm}
use libshmipc.Channel.Open.{IpcChannelOpenResult, build_channel, open_channel, ipc_channel_create}

-- Both positions are 0 after a success.
abbrev pub AtStart : Shm → Type 0
AtStart s = (s.head ≡ 0) × (s.tail ≡ 0)

build_buffer-AtStart :
    (alloc : Allocation) (mem capacity : ℕ) (e : IpcBufferCreateError) (s : Shm)
    → is_error (build_buffer alloc mem capacity e s).0 ≡ false
    → AtStart (build_buffer alloc mem capacity e s).1
unfolding build_buffer
build_buffer-AtStart allocated mem capacity e s fine = (refl, refl)
build_buffer-AtStart (failed errno) mem capacity e s fine = cc

buffer_create-AtStart :
    (fuel mem size : ℕ) (alloc : Allocation) (s s' : Shm) (r : IpcBufferCreateResult)
    → ipc_buffer_create fuel mem size alloc s ≡ some (r, s')
    → is_error r ≡ false
    → AtStart s'
unfolding ipc_buffer_create build_buffer
buffer_create-AtStart fuel mem size alloc s s' r e fine = ground arith

pub channel_create-AtStart :
    (fuel mem size : ℕ) (buffer_alloc alloc : Allocation) (c c' : ChannelShm)
    (r : IpcChannelOpenResult)
    → ipc_channel_create fuel mem size buffer_alloc alloc c ≡ some (r, c')
    → is_error r ≡ false
    → AtStart c'.buffer
unfolding ipc_channel_create open_channel build_channel
channel_create-AtStart fuel mem size buffer_alloc alloc c c' r e fine =
    elim (made (ipc_buffer_create fuel (mem + 64) (sub64 size 64) buffer_alloc c.buffer)) [
      | inl stuck ↦ ground arith
      | inr ((r0, s0), done) ↦ ground (
        arith,
        buffer_create-AtStart fuel (mem + 64) (sub64 size 64) buffer_alloc c.buffer s0 r0 done,
      )
    ]
  where
    made : {A : Type 0} (o : Option A) → (o ≡ none) ⊎ ((a : A) × (o ≡ some a))
    made none = inl refl
    made (some a) = inr (a, refl)
