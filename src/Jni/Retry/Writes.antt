-- ===== src/Jni/Retry/Writes.antt =====
-- The loop of `write`: when it ends, and when it does not.
use libshmipc.Base.{
  ℕ, suc, ◌+◌, ◌*◌, ◌^◌, ◌<◌, ◌≤◌, ◌≡◌, ◌≢◌, ◌⊎◌, inl, inr, refl, ap, List, [], ◌∷◌, ◌++◌, some,
  none, length, arith, ne→==,
}
use libshmipc.Base.Word.{ℤ}
use libshmipc.Buffer.State.{IpcBuffer}
use libshmipc.Buffer.Layout.{Holds, full_size}
use libshmipc.Buffer.Write.Outcome.{CanWrite}
use libshmipc.Buffer.Write.Refine.{never_CanWrite}
use libshmipc.Channel.State.{IpcChannel, ChannelShm}
use libshmipc.Channel.Write.{IpcChannelWriteResult, ipc_channel_write}
use libshmipc.Channel.Write.Refine.{channel_write_refines}
use libshmipc.Jni.State.{Native}
use libshmipc.Jni.Transfer.Refine.{unpinned}
use libshmipc.Jni.Retry.{write_until_room, write, get_channel}

-- Other threads leave the buffer at rest before each call, with a tail that stays below 2^64, and make
-- room for `xs` before one of them.
abbrev pub RoomComes :
    ℕ → ℕ → List ℕ → IpcChannel → List (ChannelShm → ChannelShm) → ChannelShm → Type 0
RoomComes k fuel xs channel [] c = ⊥
RoomComes k fuel xs channel (before ∷ rest) c =
    (q : List (List ℕ)) × Holds k q (before c).buffer
    × ((before c).buffer.tail + 2 * 2 ^ k < 2 ^ 64)
    × (CanWrite k (full_size (length xs)) (before c).buffer
        ⊎ ((r : IpcChannelWriteResult) (c' : ChannelShm)
            → ipc_channel_write fuel (some channel) (some xs) (length xs) (before c) ≡ some (r, c')
            → Holds k q c'.buffer
            → RoomComes k fuel xs channel rest c'))

-- What the calls of the loop have done, up to the memory `c'`: each of them has met a buffer at rest; if
-- the entry fits, the payload is then behind the queue that was there, and the loop has ended; if not,
-- the queue is kept, and the loop has gone on.
abbrev pub WrittenOnce :
    ℕ → ℕ → List ℕ → IpcChannel → List (ChannelShm → ChannelShm) → ChannelShm → ChannelShm → Type 0
WrittenOnce k fuel xs channel [] c c' = ⊥
WrittenOnce k fuel xs channel (before ∷ rest) c c' =
    (q : List (List ℕ)) × (r : IpcChannelWriteResult) × (next : ChannelShm) × Holds k q
      (before c).buffer
    × (ipc_channel_write fuel (some channel) (some xs) (length xs) (before c) ≡ some (r, next))
    × (CanWrite k (full_size (length xs)) (before c).buffer
          × Holds k (q ++ (xs ∷ [])) next.buffer
          × (c' ≡ next)
        ⊎ ¬ CanWrite k (full_size (length xs)) (before c).buffer
          × Holds k q next.buffer
          × WrittenOnce k fuel xs channel rest next c')

-- They leave it so before every call.
abbrev pub AtRestAlways :
    ℕ → ℕ → List ℕ → IpcChannel → List (ChannelShm → ChannelShm) → ChannelShm → Type 0
AtRestAlways k fuel xs channel [] c = Unit {0}
AtRestAlways k fuel xs channel (before ∷ rest) c =
    (q : List (List ℕ)) × Holds k q (before c).buffer
    × ((before c).buffer.tail + 2 * 2 ^ k < 2 ^ 64)
    × ((r : IpcChannelWriteResult) (c' : ChannelShm)
        → ipc_channel_write fuel (some channel) (some xs) (length xs) (before c) ≡ some (r, c')
        → Holds k q c'.buffer
        → AtRestAlways k fuel xs channel rest c')

module _ (k fuel header : ℕ) (b : IpcBuffer) (xs : List ℕ) (some_bytes : 0 < length xs)
    (bounded : length xs + 31 < 2 ^ 64) where
  abbrev handle : IpcChannel
  handle = record { header = header; buffer = some b }

  -- A loop that meets room ends there, with the payload behind the queue.
  room_ends :
      (rounds : List (ChannelShm → ChannelShm)) (c : ChannelShm)
      → full_size (length xs) ≤ 2 ^ k
      → RoomComes k (suc (suc fuel)) xs handle rounds c
      → (c' : ChannelShm) × (write_until_room (suc (suc fuel)) rounds handle (some xs) (length xs) c
          ≡ some c')
        × WrittenOnce k (suc (suc fuel)) xs handle rounds c c'
  unfolding write_until_room
  room_ends [] c fits comes = absurd comes
  room_ends (before ∷ rest) c fits (q, h, no_wrap, next) =
      let (r, c', e, w) =
        channel_write_refines {c = before c} xs fuel header b h some_bytes bounded no_wrap in
      elim w [
        | inl (done, can, held, s) ↦
            (c', rw (write_until_room, e, done), (q, r, c', h, e, inl (can, held, refl)))
        | inr (inl (refused, cannot, kept, s)) ↦ elim next [
          | inl can ↦ absurd (cannot can)
          | inr later ↦
              let (c'', e', others) = room_ends rest c' fits (later r c' e kept) in
              (
                c'',
                rw (write_until_room, e, refused) e',
                (q, r, c', h, e, inr (cannot, kept, others)),
              )
        ]
        | inr (inr (z, large, same)) ↦ absurd (omega arith)
      ]

  -- A loop that never meets room never ends.
  no_room_goes_on :
      (rounds : List (ChannelShm → ChannelShm)) (c : ChannelShm)
      → full_size (length xs) ≤ 2 ^ k
      → 2 ^ k < full_size (length xs) + 24
      → AtRestAlways k (suc (suc fuel)) xs handle rounds c
      → write_until_room (suc (suc fuel)) rounds handle (some xs) (length xs) c ≡ none
  unfolding write_until_room
  no_room_goes_on [] c fits tight always = refl
  no_room_goes_on (before ∷ rest) c fits tight (q, h, no_wrap, later) =
      let (r, c', e, w) =
        channel_write_refines {c = before c} xs fuel header b h some_bytes bounded no_wrap in
      elim w [
        | inl (done, can, held, s) ↦ absurd (never_CanWrite (length xs) h fits tight can)
        | inr (inl (refused, cannot, kept, s)) ↦
            rw (write_until_room, e, refused)
              (no_room_goes_on rest c' fits tight (later r c' e kept))
        | inr (inr (z, large, same)) ↦ absurd (omega arith)
      ]

-- The object's field has the address at which the structure of the channel stands.
abbrev pub PointsTo : ℤ → ℕ → IpcBuffer → Native → Type 0
PointsTo field header b n =
    (get_channel field ≢ 0)
    × (n.heap (get_channel field) ≡ record { header = header; buffer = some b })

-- The method `write`, for an entry that is not larger than the region, returns as soon as other threads
-- have made room for it before one of its calls, if they leave the buffer at rest before each of them
-- with a tail that stays below 2^64, and there is fuel for one restart. In each call, if the entry fits
-- the buffer as the call meets it, the payload `xs`, not empty, is put behind the queue that is there
-- then, and the loop ends; if not, that queue is kept, and the loop goes on. The array is back with the
-- JVM, and nothing but the shared memory has changed.
pub retry_write_waits :
    (k fuel header : ℕ) (b : IpcBuffer) (xs : List ℕ) (rounds : List (ChannelShm → ChannelShm))
    (field : ℤ) (n : Native)
    → PointsTo field header b n
    → 0 < length xs
    → length xs + 31 < 2 ^ 64
    → full_size (length xs) ≤ 2 ^ k
    → RoomComes k (suc (suc fuel)) xs (record { header = header; buffer = some b }) rounds n.shm
    → (c' : ChannelShm) × (write (suc (suc fuel)) rounds (some xs) (length xs) field n
        ≡ some (record n { shm = c' }))
      × WrittenOnce k
          (suc (suc fuel))
          xs
          (record { header = header; buffer = some b })
          rounds
          n.shm
          c'
unfolding write
retry_write_waits k fuel header b xs rounds field n (at, there) some_bytes bounded fits comes =
    let (c', e, calls) = room_ends k fuel header b xs some_bytes bounded rounds n.shm fits comes in
    (c', rw (write, ne→== (get_channel field) 0 at, there, e) (ap some (unpinned n xs c')), calls)

-- For an entry that fits the region, but leaves no room for a header behind it, the method `write`
-- never returns, however many calls it makes and whatever other threads do between them, if they leave
-- the buffer at rest before each call with a tail that stays below 2^64.
pub retry_write_never_returns :
    (k fuel header : ℕ) (b : IpcBuffer) (xs : List ℕ) (rounds : List (ChannelShm → ChannelShm))
    (field : ℤ) (n : Native)
    → PointsTo field header b n
    → 0 < length xs
    → length xs + 31 < 2 ^ 64
    → full_size (length xs) ≤ 2 ^ k
    → 2 ^ k < full_size (length xs) + 24
    → AtRestAlways k (suc (suc fuel)) xs (record { header = header; buffer = some b }) rounds n.shm
    → write (suc (suc fuel)) rounds (some xs) (length xs) field n ≡ none
unfolding write
retry_write_never_returns k fuel header b xs rounds field n (at, there) some_bytes bounded fits
      tight always =
    rw (
      write,
      ne→== (get_channel field) 0 at,
      there,
      no_room_goes_on k fuel header b xs some_bytes bounded rounds n.shm fits tight always,
    )
