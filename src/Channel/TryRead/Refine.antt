-- ===== src/Channel/TryRead/Refine.antt =====
-- `ipc_channel_try_read` on the queue of payloads, alone and with other threads.
use libshmipc.Base.{
  append-nil, ℕ, zero, suc, ◌+◌, ◌≤◌, ◌≡◌, inl, inr, refl, ap, ◌∙◌, List, [], ◌∷◌, ◌++◌, Option,
  some, arith, length, drop,
}
use libshmipc.Common.{success, ok, empty, valid, owned, IpcEntry, allocated}
use libshmipc.Memory.{Memory, load_bytes, length-load_bytes}
use libshmipc.Buffer.State.{IpcBuffer, Shm}
use libshmipc.Buffer.Layout.{Holds, full_size}
use libshmipc.Buffer.Peek.Refine.{peek_refines}
use libshmipc.Buffer.Read.Refine.{read_refines}
use libshmipc.Channel.State.{ChannelShm, guarded}
use libshmipc.Channel.TryRead.{
  IpcChannelTryReadResult, TryReadOutcome, Turn, make_room, after_read, after_peek, try_read_rounds,
  try_read, no_entry, finish_try_read, ipc_channel_try_read,
}

drop-all : {A : Type 0} (n : ℕ) (xs : List A) → length xs ≤ n → drop n xs ≡ []
drop-all zero [] h = refl
drop-all zero (x ∷ xs) h = absurd (omega arith)
drop-all (suc n) [] h = refl
drop-all (suc n) (x ∷ xs) h = drop-all n xs (omega arith)

-- A turn in which no other thread does anything, and the allocation succeeds.
abbrev pub quiet : Memory → IpcEntry → Turn
quiet memory garbage = record {
  before_peek = λ c. c;
  before_read = λ c. c;
  alloc = allocated;
  memory = memory;
  peek_entry = garbage;
}

-- What a channel that is read by one thread hands out: the oldest payload, or nothing.
abbrev pub TookOldest :
    ℕ
    → List (List ℕ)
    → IpcEntry
    → ChannelShm
    → IpcChannelTryReadResult
    → IpcEntry
    → ChannelShm
    → Type 0
TookOldest k [] dest c r dest' c' = (r ≡ success empty tt) × (dest' ≡ dest) × Holds k [] c'.buffer
TookOldest k (xs ∷ q) dest c r dest' c' =
    (r ≡ success ok tt)
    × (dest'.payload ≡ owned xs)
    × (dest'.size ≡ length xs)
    × (c'.buffer.head ≡ dest'.offset + full_size (length xs))
    × Holds k q c'.buffer

abbrev pub TryReadSpec : ℕ → List (List ℕ) → IpcEntry → ChannelShm → Option TryReadOutcome → Type 0
TryReadSpec k q dest c out =
    (r : IpcChannelTryReadResult) × (dest' : IpcEntry) × (c' : ChannelShm) × (out
      ≡ some (r, dest', c'))
    × (c'.notify ≡ c.notify)
    × TookOldest k q dest c r dest' c'

abbrev room : Memory → ℕ → IpcEntry
room memory n = record { offset = 0; payload = owned (load_bytes n 0 memory); size = n }

exact_copy :
    (xs : List ℕ) (memory : Memory) (n : ℕ)
    → n ≡ length xs
    → xs ++ drop (length xs) (load_bytes n 0 memory) ≡ xs
exact_copy xs memory n e =
    ap (λ r. xs ++ r)
      (drop-all (length xs) (load_bytes n 0 memory) (omega (arith, length-load_bytes n 0 memory)))
    ∙ append-nil xs

module _ (fuel : ℕ) (memory : Memory) (garbage : IpcEntry) (turns : List Turn) where
  pub rounds_empty :
      {k : ℕ} (c : ChannelShm)
      → Holds k [] c.buffer
      → (s : Shm) × (try_read_rounds (suc (suc fuel)) (quiet memory garbage ∷ turns) no_entry c
          ≡ some (success empty tt, no_entry, record c { buffer = s }))
        × Holds k [] s
  unfolding try_read_rounds after_peek
  rounds_empty c h =
      let (r, seen, s, e, moves, holds, (done, same)) = peek_refines fuel garbage h in
      (s, rw (try_read_rounds, e, done), holds)

  pub rounds_message :
      {k : ℕ} {xs : List ℕ} {q : List (List ℕ)} (c : ChannelShm)
      → Holds k (xs ∷ q) c.buffer
      → (found : IpcEntry) × (s : Shm) × (try_read_rounds
            (suc (suc fuel))
            (quiet memory garbage ∷ turns)
            no_entry
            c
          ≡ some (success ok tt, found, record c { buffer = s }))
        × (found.payload ≡ owned xs)
        × (found.size ≡ length xs)
        × (s.head ≡ found.offset + full_size (length xs))
        × Holds k q s
        × (s.tail ≡ c.buffer.tail)
  unfolding try_read_rounds after_peek after_read make_room
  rounds_message {xs = xs} c h =
      let (r, seen, s, e, moves, holds, (done, at, size, place)) = peek_refines fuel garbage h in
      let (r', dest', s', e', moves', w) = read_refines fuel (room memory seen.size) holds in
      elim w [
        | inl (small, a, b, d) ↦ absurd (omega arith)
        | inr (fits, got, (p, is, next), after) ↦ (
          dest',
          s',
          rw (try_read_rounds, e, done, e', got),
          rw is (ap owned (exact_copy xs memory seen.size size)),
          rw is refl,
          rw is next,
          after,
          rw moves'.1 (rw moves.1 refl),
        )
      ]

  try_read_outcome :
      {k : ℕ} (q : List (List ℕ)) (c : ChannelShm) (dest : IpcEntry) (header : ℕ) (b : IpcBuffer)
      → Holds k q c.buffer
      → TryReadSpec k q dest c (
          ipc_channel_try_read
            (suc (suc fuel))
            (quiet memory garbage ∷ turns)
            (some (record { header = header; buffer = some b }))
            valid
            dest
            c)
  unfolding guarded ipc_channel_try_read try_read finish_try_read
  try_read_outcome [] c dest header b h =
      let (s, e, holds) = rounds_empty c h in
      (
        _,
        _,
        record c { buffer = s },
        rw (ipc_channel_try_read, guarded, try_read, e),
        refl,
        (refl, refl, holds),
      )
  try_read_outcome (xs ∷ q) c dest header b h =
      let (found, s, e, payload, size, next, holds, tail) = rounds_message c h in
      (
        _,
        found,
        record c { buffer = s },
        rw (ipc_channel_try_read, guarded, try_read, e),
        refl,
        (refl, payload, size, next, holds),
      )

-- On a channel whose buffer is at rest and holds the queue `q`, while no other thread does anything
-- and memory is given, `ipc_channel_try_read` returns in the first round if there is fuel for one
-- restart. On the empty queue the result is `empty` and the destination is left. Otherwise it is
-- `ok`, the destination has new memory with exactly the bytes of the oldest payload, their number
-- and their position, whatever it was before, and that payload is out of the queue. The counter is
-- kept.
pub try_read_refines :
    {k : ℕ} {q : List (List ℕ)} (c : ChannelShm) (fuel : ℕ) (memory : Memory) (garbage : IpcEntry)
    (turns : List Turn) (dest : IpcEntry) (header : ℕ) (b : IpcBuffer)
    → Holds k q c.buffer
    → TryReadSpec k q dest c (
        ipc_channel_try_read
          (suc (suc fuel))
          (quiet memory garbage ∷ turns)
          (some (record { header = header; buffer = some b }))
          valid
          dest
          c)
try_read_refines {q = q} c fuel memory garbage turns dest header b h =
    try_read_outcome fuel memory garbage turns q c dest header b h
