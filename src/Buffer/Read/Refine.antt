-- ===== src/Buffer/Read/Refine.antt =====
-- `ipc_buffer_read` as a call on the queue of payloads that the buffer holds.
use libshmipc.Base.{
  ℕ, suc, ◌+◌, ◌≤◌, ◌<◌, ◌≡◌, ◌⊎◌, inl, inr, refl, subst, ◌∙◌, List, [], ◌∷◌, Option, some, arith,
  length, dec_lt,
}
use libshmipc.Common.{success, error_body, ok, empty, err_too_small, valid, IpcEntry}
use libshmipc.Buffer.State.{Shm}
use libshmipc.Buffer.Layout.{full_size, Slot, message, padding, payloads, IsValid, Holds}
use libshmipc.Buffer.Head.{NotPadding, NotPadding-next, advance-IsValid}
use libshmipc.Buffer.Read.{IpcBufferReadResult, ReadOutcome, ipc_buffer_read}
use libshmipc.Buffer.Read.Step.{received, read_empty, read_too_small, read_message, read_padding}

-- What a read may do to a buffer that holds the queue: report that it is empty; refuse a destination
-- that is too small and say what it needs; or take the oldest payload out and copy it.
abbrev pub Received : ℕ → List (List ℕ) → IpcEntry → IpcBufferReadResult → IpcEntry → Shm → Type 0
Received k [] dest r dest' s' = (r ≡ success empty tt) × (dest' ≡ dest) × Holds k [] s'
Received k (xs ∷ q) dest r dest' s' =
    (dest.size < length xs)
      × (r ≡ error_body err_too_small (record { offset = s'.head; required_size = length xs }))
      × (dest' ≡ dest)
      × Holds k (xs ∷ q) s'
    ⊎ (length xs ≤ dest.size)
      × (r ≡ success ok tt)
      × ((p : ℕ) × (dest' ≡ received p xs dest) × (s'.head ≡ p + full_size (length xs)))
      × Holds k q s'

-- Only the head moves.
abbrev pub HeadMoves : Shm → Shm → Type 0
HeadMoves s s' = (s.head ≤ s'.head) × (s' ≡ record s { head = s'.head })

abbrev pub ReadSpec : ℕ → List (List ℕ) → IpcEntry → Shm → Option ReadOutcome → Type 0
ReadSpec k q dest s out =
    (r : IpcBufferReadResult) × (dest' : IpcEntry) × (s' : Shm) × (out ≡ some (r, dest', s'))
    × HeadMoves s s'
    × Received k q dest r dest' s'

read_slots :
    {k : ℕ} (slots : List Slot) {s : Shm} (v : IsValid k slots s) (fuel : ℕ) (dest : IpcEntry)
    → NotPadding slots
    → ReadSpec k (payloads slots) dest s (ipc_buffer_read (suc fuel) valid valid dest s)
read_slots [] {s} v fuel dest n = (
  _,
  dest,
  s,
  read_empty v fuel dest,
  (omega arith, refl),
  (refl, refl, record { slots = []; valid = v; contents = refl }),
)
read_slots (message xs ∷ slots) {s} v fuel dest n = elim (dec_lt dest.size (length xs)) [
  | yes small ↦ (
    _,
    dest,
    s,
    read_too_small v fuel dest small,
    (omega arith, refl),
    inl (small, refl, refl, record { slots = message xs ∷ slots; valid = v; contents = refl }),
  )
  | no fits ↦ (
    _,
    _,
    _,
    read_message v fuel dest (omega arith),
    (omega arith, refl),
    inr (
      omega arith,
      refl,
      (s.head, refl, refl),
      record { slots = slots; valid = advance-IsValid v; contents = refl },
    ),
  )
]
read_slots (padding n ∷ slots) v fuel dest h = absurd h

read_outcome :
    {k : ℕ} (slots : List Slot) {s : Shm} (v : IsValid k slots s) (fuel : ℕ) (dest : IpcEntry)
    → ReadSpec k (payloads slots) dest s (ipc_buffer_read (suc (suc fuel)) valid valid dest s)
read_outcome [] v fuel dest = read_slots [] v (suc fuel) dest tt
read_outcome (message xs ∷ slots) v fuel dest = read_slots (message xs ∷ slots) v (suc fuel) dest tt
read_outcome (padding n ∷ slots) {s} v fuel dest =
    let (r, dest', s', e, (le, only), w) =
      read_slots slots (advance-IsValid v) fuel dest (NotPadding-next slots v) in
    (r, dest', s', read_padding v (suc fuel) dest ∙ e, (omega arith, only), w)

-- On a buffer at rest that holds the queue `q`, a read returns if there is fuel for one restart, and
-- only the head moves. On the empty queue it returns `empty`. Otherwise, if the destination is
-- smaller than the oldest payload, it returns `err_too_small` with the size that is needed and keeps
-- queue and destination; if not, it returns `ok`, the payload with its position and size stands in
-- the destination, and the payload is out of the queue.
pub read_refines :
    {k : ℕ} {q : List (List ℕ)} {s : Shm} (fuel : ℕ) (dest : IpcEntry)
    → Holds k q s
    → ReadSpec k q dest s (ipc_buffer_read (suc (suc fuel)) valid valid dest s)
read_refines {k} {s} fuel dest h =
    subst (λ q. ReadSpec k q dest s (ipc_buffer_read (suc (suc fuel)) valid valid dest s))
      h.contents (read_outcome h.slots h.valid fuel dest)
