-- ===== src/Jni/Conversation.antt =====
-- Any sequence of `write` and `read` by two processes that have one channel.
pub mod Queues
pub mod Steps
pub mod Order
use libshmipc.Base.{
  ℕ, suc, ◌+◌, ◌*◌, ◌^◌, ◌<◌, ◌≤◌, ◌≡◌, ◌≢◌, ◌⊎◌, inl, inr, refl, sym, ap, subst, ◌∙◌, List, [],
  ◌∷◌, ◌++◌, Option, none, some, length, arith, true, false, ne→==, append-nil, append_assoc,
}
use mathlib.Core.List.{Sublistᴰ}
use libshmipc.Base.Word.{ℤ}
use libshmipc.Common.{IpcEntry, Allocation, allocated, ipc_status, is_ok, is_error}
use libshmipc.Memory.{Memory}
use libshmipc.Utils.{Timespec}
use libshmipc.Buffer.State.{IpcBuffer, Shm}
use libshmipc.Buffer.Layout.{Holds, full_size}
use libshmipc.Buffer.Write.Outcome.{CanWrite}
use libshmipc.Buffer.Write.{IpcBufferWriteResult}
use libshmipc.Buffer.Trace.{write_step}
use libshmipc.Channel.State.{ChannelShm, notify_all, guarded}
use libshmipc.Channel.Write.{finish_write, ipc_channel_write}
use libshmipc.Channel.Read.{Wait, Clock, at_time}
use libshmipc.Channel.Read.Refine.{quiet_wait, elapsed}
use libshmipc.Jni.State.{Native, get_channel, JArray, no_array, array, fault}
use libshmipc.Jni.Transfer.{write, read}
use libshmipc.Jni.Transfer.Refine.{JavaRead, Connected, JavaReadSpec, unpinned, java_read_refines}

-- The writer says something, or the reader listens.
pub data Turn : Type 0 where
  says : List ℕ → Turn
  listens : Turn

-- The calls of the two objects, on the memory that both processes share: what the reader has got, and
-- the memory in the end.
unfoldable pub converse :
    ℕ
    → List Wait
    → Clock
    → IpcEntry
    → Native
    → ℤ
    → Native
    → ℤ
    → List Turn
    → ChannelShm
    → Option (List JArray × ChannelShm)
converse fuel waits start entry writer field reader field' [] c = some ([], c)
converse fuel waits start entry writer field reader field' (says xs ∷ turns) c =
    elim (write fuel (some xs) (length xs) field (record writer { shm = c })) [
      | none ↦ none
      | some n ↦ converse fuel waits start entry writer field reader field' turns n.shm
    ]
converse fuel waits start entry writer field reader field' (listens ∷ turns) c =
    elim (read fuel waits start entry allocated field' (record reader { shm = c })) [
      | none ↦ none
      | some (a, n) ↦
          elim (converse fuel waits start entry writer field reader field' turns n.shm) [
            | none ↦ none
            | some (heard, c') ↦ some (a ∷ heard, c')
          ]
    ]

-- What was said, in order.
abbrev pub said : List Turn → List (List ℕ)
said [] = []
said (says xs ∷ turns) = xs ∷ said turns
said (listens ∷ turns) = said turns

-- The arrays, in order; a fault makes what was got no list of messages.
abbrev pub messages : List JArray → Option (List (List ℕ))
messages [] = some []
messages (no_array ∷ heard) = messages heard
messages (array xs ∷ heard) = elim (messages heard) [ none ↦ none | some q ↦ some (xs ∷ q) ]
messages (fault ∷ heard) = none

-- Every payload of a queue fits an array of Java.
abbrev pub AllSmall : List (List ℕ) → Type 0
AllSmall [] = Unit {0}
AllSmall (xs ∷ q) = (0 < length xs) × (length xs < 2 ^ 31) × AllSmall q

-- How far the tail may get: the capacity once for each turn, and once more.
abbrev pub reach : ℕ → List Turn → ℕ
reach k [] = 2 ^ k
reach k (turn ∷ turns) = 2 ^ k + reach k turns

-- The calls of a conversation, with the arguments of `converse`, on a buffer with `2 ^ k` bytes.
module _ (k fuel : ℕ) (waits : List Wait) (start : Clock) (entry : IpcEntry) (writer : Native)
    (field : ℤ) (reader : Native) (field' : ℤ) where
  -- What each call does to the queue `q` in the memory `c`: a message is accepted, and is the last of the
  -- queue, if its entry fits then, and is refused, and the queue is kept, if not; the reader gets NULL
  -- if the queue is empty, and else the oldest message, which is then out of the queue. `rest` is in
  -- the memory `c'` in the end.
  abbrev pub Follows :
      List Turn
      → List (List ℕ)
      → ChannelShm
      → List JArray
      → List (List ℕ)
      → List (List ℕ)
      → ChannelShm
      → Type 0
  Follows [] q c heard accepted rest c' =
      (heard ≡ []) × (accepted ≡ []) × (rest ≡ q) × (c' ≡ c) × Holds k rest c'.buffer
  Follows (says xs ∷ turns) q c heard accepted rest c' =
      (next : ChannelShm) × (write fuel (some xs) (length xs) field (record writer { shm = c })
        ≡ some (record writer { shm = next }))
      × (CanWrite k (full_size (length xs)) c.buffer
            × Holds k (q ++ (xs ∷ [])) next.buffer
            × ((others : List (List ℕ)) × (accepted ≡ xs ∷ others)
                × Follows turns (q ++ (xs ∷ [])) next heard others rest c')
          ⊎ ¬ CanWrite k (full_size (length xs)) c.buffer
            × Holds k q next.buffer
            × Follows turns q next heard accepted rest c')
  Follows (listens ∷ turns) q c heard accepted rest c' =
      (a : JArray) × (next : ChannelShm) × (later : List JArray) × (heard ≡ a ∷ later)
      × (read fuel waits start entry allocated field' (record reader { shm = c })
          ≡ some (a, record reader { shm = next }))
      × ((q ≡ [])
            × (a ≡ no_array)
            × Holds k [] next.buffer
            × Follows turns [] next later accepted rest c'
          ⊎ ((xs : List ℕ) × (others : List (List ℕ)) × (q ≡ xs ∷ others)
              × (a ≡ array xs)
              × Holds k others next.buffer
              × Follows turns others next later accepted rest c'))

  -- The turns have happened, one by one, and what was in the queue, followed by what was accepted of
  -- what the writer has said, is what the reader has got, followed by what is still in the queue.
  abbrev pub InOrder : List (List ℕ) → List Turn → ChannelShm → Type 0
  InOrder q turns c =
      (heard : List JArray) × (c' : ChannelShm) × (got rest accepted : List (List ℕ)) × (converse
          fuel waits start entry writer field reader field' turns c
        ≡ some (heard, c'))
      × (messages heard ≡ some got)
      × Holds k rest c'.buffer
      × Sublistᴰ accepted (said turns)
      × Follows turns q c heard accepted rest c'
      × (q ++ accepted ≡ got ++ rest)
