-- ===== src/Jni/Init/Opens.antt =====
-- The channel in a segment that is mapped: created by a producer, connected to by a consumer.
use libshmipc.Base.{
  ◌*◌, ℕ, ◌+◌, ◌^◌, ◌≤◌, ◌≡◌, ◌≢◌, ◌⊎◌, inl, inr, refl, ap, [], Option, none, some, Bool, true,
  false, arith, ne→==,
}
use libshmipc.Common.{
  Result, success, error, error_body, is_error, is_negative, failed, allocated, Allocation,
}
use libshmipc.Utils.Align.{two_pow_bounds}
use libshmipc.Buffer.Layout.{Holds}
use libshmipc.Buffer.Create.{handle_at, ipc_buffer_attach}
use libshmipc.Mmap.{IpcMemorySegment}
use libshmipc.Channel.State.{IpcChannel, ChannelShm}
use libshmipc.Channel.Open.{channel_at, ipc_channel_connect}
use libshmipc.Channel.Open.Fresh.{AtStart, channel_create-AtStart}
use libshmipc.Channel.Open.Outcome.{channel_create_refines}
use libshmipc.Jni.Init.{InitCalls, opened_channel, open_segment}

-- The memory behind a new object: a producer finds it empty, with room for `m` bytes, whatever was
-- there before; a consumer leaves it.
abbrev pub Prepared : Bool → ℕ → ChannelShm → ChannelShm → Type 0
Prepared true m c c' =
    (c'.notify ≡ 0)
    × ((j : ℕ) × (m ≤ 2 ^ j) × (2 ^ j ≤ 2 * m + 8) × Holds j [] c'.buffer × AtStart c'.buffer)
Prepared false m c c' = c' ≡ c

-- An allocation has failed.
abbrev pub OutOfMemory : InitCalls → Type 0
OutOfMemory k = (errno : ℕ) × ((k.buffer_alloc ≡ failed errno) ⊎ (k.channel_alloc ≡ failed errno))

Allocation-cases : (a : Allocation) → (a ≡ allocated) ⊎ ((errno : ℕ) × (a ≡ failed errno))
Allocation-cases allocated = inl refl
Allocation-cases (failed errno) = inr (errno, refl)

-- The channel in the memory of the segment.
abbrev pub channel_in : IpcMemorySegment → IpcChannel
channel_in segment = channel_at segment.memory (handle_at (segment.memory + 64))

abbrev pub Opens :
    Bool
    → ℕ
    → InitCalls
    → IpcMemorySegment
    → ChannelShm
    → Option (Option IpcChannel × ChannelShm)
    → Type 0
Opens create m k segment c out =
    (channel : Option IpcChannel) × (c' : ChannelShm) × (out ≡ some (channel, c'))
    × ((channel ≡ some (channel_in segment)) × Prepared create m c c'
        ⊎ (channel ≡ none) × OutOfMemory k)

refused : {E : Type 0} (r : Result IpcChannel E) → is_error r ≡ true → opened_channel r ≡ none
refused (success status channel) n = rw n
refused (error status) n = refl
refused (error_body status e) n = refl

module _ (fuel m j : ℕ) (k : InitCalls) (segment : IpcMemorySegment) (c : ChannelShm)
    (enough : 64 ≤ fuel) (room : m ≤ 2 ^ j) (tight : 2 ^ j ≤ 2 * m + 8) (small : j ≤ 63)
    (memory : segment.memory ≢ 0) (size : segment.size ≡ 192 + 2 ^ j) where
  creates : Opens true m k segment c (open_segment fuel k true segment c)
  unfolding open_segment
  creates =
      let (r, c', e, w) =
        channel_create_refines fuel segment.memory segment.size k.buffer_alloc k.channel_alloc c
          enough (omega arith) (omega (arith, two_pow_bounds j small)) in
      elim w [
        | inl (a, n, given, z, (i, le, at, h)) ↦ (
          some (channel_in segment),
          c',
          rw (open_segment, e, a),
          inl (
            refl,
            (
              z,
              (
                i,
                omega arith,
                omega arith,
                h,
                channel_create-AtStart fuel segment.memory segment.size k.buffer_alloc
                    k.channel_alloc c c' r e (rw a),
              ),
            ),
          ),
        )
        | inr (inl (a, inl null, same)) ↦ absurd (memory null)
        | inr (inl (a, inr no_power, same)) ↦ absurd (no_power (j, size))
        | inr (inr (a, why)) ↦
            (opened_channel r, c', rw (open_segment, e), inr (refused r (ap is_negative a), why))
      ]

  connects : Opens false m k segment c (open_segment fuel k false segment c)
  unfolding open_segment ipc_channel_connect ipc_buffer_attach
  connects = elim (Allocation-cases k.channel_alloc) [
    | inr (errno, e) ↦ (
      none,
      c,
      rw (ipc_channel_connect, ne→== segment.memory 0 memory, e),
      inr (refl, (errno, inr e)),
    )
    | inl e ↦ elim (Allocation-cases k.buffer_alloc) [
      | inr (errno, f) ↦ (
        none,
        c,
        rw (
          ipc_channel_connect,
          ne→== segment.memory 0 memory,
          e,
          ipc_buffer_attach,
          ne→== (segment.memory + 64) 0 (omega arith),
          f,
        ),
        inr (refl, (errno, inl f)),
      )
      | inl f ↦ (
        some (channel_in segment),
        c,
        rw (
          ipc_channel_connect,
          ne→== segment.memory 0 memory,
          e,
          ipc_buffer_attach,
          ne→== (segment.memory + 64) 0 (omega arith),
          f,
        ),
        inl (refl, refl),
      )
    ]
  ]

  pub opens : (create : Bool) → Opens create m k segment c (open_segment fuel k create segment c)
  opens true = creates
  opens false = connects
