-- ===== src/Buffer/Skip/Refine.antt =====
-- `ipc_buffer_skip` and `ipc_buffer_skip_force` as calls on the queue of payloads.
use libshmipc.Base.{
  ap, ℕ, suc, ◌+◌, ◌%◌, ◌^◌, ◌<◌, ◌≡◌, ◌≢◌, ◌⊎◌, inl, inr, refl, sym, subst, ◌∙◌, List, [], ◌∷◌,
  Option, some, arith, length, ℕ_discrete,
}
use libshmipc.Common.{success, error_body, ok, empty, err_offset_mismatch, valid, IpcEntry}
use libshmipc.Memory.{load_u64}
use libshmipc.Buffer.State.{Shm}
use libshmipc.Buffer.Layout.{full_size, Slot, message, padding, payloads, IsValid, Holds}
use libshmipc.Buffer.Head.{NotPadding-next, advance-IsValid, head-lt-tail}
use libshmipc.Buffer.Read.Refine.{HeadMoves}
use libshmipc.Buffer.Peek.{ipc_buffer_peek}
use libshmipc.Buffer.Peek.Refine.{view, peek_message, peek_padding}
use libshmipc.Buffer.Skip.{
  IpcBufferSkipResult, IpcBufferSkipForceResult, SkipOutcome, ipc_buffer_skip,
  ipc_buffer_skip_force,
}
use libshmipc.Buffer.Skip.Step.{
  skip_elsewhere, skip_empty, skip_message, skip_padding, skip_force_empty, skip_force_slot,
}

-- What a skip of `offset` may do: find another head, and name it; find nothing; or take the oldest
-- payload out.
abbrev pub Skipped : ℕ → List (List ℕ) → ℕ → Shm → IpcBufferSkipResult → Shm → Type 0
Skipped k q offset s r s' =
    (r ≡ error_body err_offset_mismatch (record { offset = s'.head }))
      × (offset ≢ s'.head)
      × Holds k q s'
    ⊎ (r ≡ success empty offset) × (offset ≡ s.head) × (q ≡ []) × Holds k q s'
    ⊎ (r ≡ success ok offset)
      × (offset ≡ s.head)
      × ((xs : List ℕ) × (rest : List (List ℕ)) × (q ≡ xs ∷ rest) × Holds k rest s')

abbrev pub SkipSpec : ℕ → List (List ℕ) → ℕ → Shm → Option SkipOutcome → Type 0
SkipSpec k q offset s out =
    (r : IpcBufferSkipResult) × (s' : Shm) × (out ≡ some (r, s'))
    × HeadMoves s s'
    × Skipped k q offset s r s'

module _ {k : ℕ} (fuel : ℕ) where
  skip_other :
      (slots : List Slot) {s : Shm} (v : IsValid k slots s) (offset : ℕ)
      → offset + 7 < 2 ^ 64
      → offset % 8 ≡ 0
      → s.head ≢ offset
      → SkipSpec k (payloads slots) offset s (ipc_buffer_skip (suc fuel) valid offset s)
  skip_other slots {s} v offset h e n = (
    _,
    s,
    skip_elsewhere v fuel offset h e n,
    (omega arith, refl),
    inl (refl, λ p. n (sym p), record { slots = slots; valid = v; contents = refl }),
  )

  skip_here :
      (slots : List Slot) {s : Shm} (v : IsValid k slots s)
      → s.head + 7 < 2 ^ 64
      → SkipSpec k (payloads slots) s.head s (ipc_buffer_skip (suc (suc fuel)) valid s.head s)
  skip_here [] {s} v h = (
    _,
    s,
    skip_empty v (suc fuel) h,
    (omega arith, refl),
    inr (inl (refl, refl, refl, record { slots = []; valid = v; contents = refl })),
  )
  skip_here (message xs ∷ slots) {s} v h = (
    _,
    _,
    skip_message v (suc fuel) h,
    (omega arith, refl),
    inr (
        inr (
          refl,
          refl,
          (
            xs,
            payloads slots,
            refl,
            record { slots = slots; valid = advance-IsValid v; contents = refl },
          ),
        )),
  )
  skip_here (padding n ∷ slots) {s} v h =
      let (r, s', e, (le, only), w) =
        skip_other slots (advance-IsValid v) s.head h v.head_aligned
          (omega (arith, v.entries.0.header_fits)) in
      (
        r,
        s',
        skip_padding v (suc fuel) h ∙ e,
        (omega arith, only),
        elim w [
          | inl a ↦ inl a
          | inr (inl (a, at, b, c)) ↦ absurd (omega (arith, v.entries.0.header_fits))
          | inr (inr (a, at, b)) ↦ absurd (omega (arith, v.entries.0.header_fits))
        ],
      )

-- On a buffer at rest that holds the queue `q`, a skip of an aligned offset returns if there is fuel
-- for one restart, and only the head moves. If the offset is the head and an entry with a payload
-- stands there, the oldest payload is taken out and the result is `ok` with the offset; if it is the
-- head of an empty buffer, the result is `empty`; otherwise (also when the offset is that of a
-- placeholder) the queue is kept and the result is `err_offset_mismatch` with the head.
pub skip_refines :
    {k : ℕ} {q : List (List ℕ)} {s : Shm} (fuel offset : ℕ)
    → Holds k q s
    → offset + 7 < 2 ^ 64
    → offset % 8 ≡ 0
    → SkipSpec k q offset s (ipc_buffer_skip (suc (suc fuel)) valid offset s)
skip_refines {k} {s} fuel offset h fits aligned =
    subst (λ q. SkipSpec k q offset s (ipc_buffer_skip (suc (suc fuel)) valid offset s)) h.contents
      (elim (ℕ_discrete s.head offset) [
        | yes e ↦
            subst
              (λ o. SkipSpec k (payloads h.slots) o s (ipc_buffer_skip (suc (suc fuel)) valid o s))
              e (skip_here fuel h.slots h.valid (omega arith))
        | no n ↦ skip_other (suc fuel) h.slots h.valid offset fits aligned n
      ])

-- What a forced skip may do: find nothing; or move the head by the size of the entry that stands
-- there, a placeholder or the one of the oldest payload.
abbrev pub ForceSkipped : ℕ → List (List ℕ) → Shm → IpcBufferSkipForceResult → Shm → Type 0
ForceSkipped k q s r s' =
    (r ≡ success empty s.head) × (q ≡ []) × (s' ≡ s)
    ⊎ (r ≡ success ok s.head)
      × (s' ≡ record s { head = s.head + load_u64 (s.head % 2 ^ k + 16) s.region })
      × ((load_u64 (s.head % 2 ^ k + 8) s.region ≡ 0) × (s.head < s'.head) × Holds k q s'
          ⊎ ((xs : List ℕ) × (rest : List (List ℕ)) × (q ≡ xs ∷ rest)
              × (s'.head ≡ s.head + full_size (length xs))
              × Holds k rest s'))

force_slots :
    {k : ℕ} (slots : List Slot) {s : Shm} (v : IsValid k slots s)
    → ForceSkipped k
        (payloads slots)
        s
        (ipc_buffer_skip_force valid s).0
        (ipc_buffer_skip_force valid s).1
force_slots [] {s} v = rw (skip_force_empty v) (inl (refl, refl, refl))
force_slots (message xs ∷ slots) {s} v = rw (skip_force_slot v) (
    inr (
      refl,
      ap (λ n. record s { head = s.head + n }) (sym v.entries.0.entry_size),
      inr (
        xs,
        payloads slots,
        refl,
        refl,
        record { slots = slots; valid = advance-IsValid v; contents = refl },
      ),
    ))
force_slots (padding n ∷ slots) {s} v = rw (skip_force_slot v) (
    inr (
      refl,
      ap (λ n. record s { head = s.head + n }) (sym v.entries.0.entry_size),
      inl (
        v.entries.0.payload_size,
        omega (arith, v.entries.0.header_fits),
        record { slots = slots; valid = advance-IsValid v; contents = refl },
      ),
    ))

-- On a buffer at rest that holds the queue `q`, a forced skip reports an empty buffer and changes
-- nothing, or returns `ok` with the old head and moves the head, and nothing else, by the size in the
-- header that stands there: over one placeholder, whose payload has the size 0, which keeps the queue,
-- or over the entry of the oldest payload, which takes it out.
pub skip_force_refines :
    {k : ℕ} {q : List (List ℕ)} {s : Shm}
    → Holds k q s
    → let (r, s') = ipc_buffer_skip_force valid s in ForceSkipped k q s r s'
skip_force_refines {k} {s} h =
    subst
      (λ q. ForceSkipped k q s (ipc_buffer_skip_force valid s).0 (ipc_buffer_skip_force valid s).1)
      h.contents (force_slots h.slots h.valid)

-- A peek, and a skip of what it has seen.
abbrev pub PeekThenSkip : ℕ → List ℕ → List (List ℕ) → ℕ → ℕ → IpcEntry → Shm → Type 0
PeekThenSkip k xs q peek_fuel skip_fuel dest s =
    (seen : IpcEntry) × (s' : Shm) × (s'' : Shm) × (ipc_buffer_peek peek_fuel valid valid dest s
      ≡ some (success ok tt, seen, s'))
    × (seen.size ≡ length xs)
    × (ipc_buffer_skip skip_fuel valid seen.offset s' ≡ some (success ok seen.offset, s''))
    × Holds k q s''

PeekThenSkip-message :
    {k : ℕ} {ys : List ℕ} {slots : List Slot} {s : Shm} (v : IsValid k (message ys ∷ slots) s)
    (xs : List ℕ) (q : List (List ℕ)) (peek_fuel skip_fuel : ℕ) (dest : IpcEntry)
    → ys ∷ payloads slots ≡ xs ∷ q
    → s.head + 7 < 2 ^ 64
    → PeekThenSkip k xs q (suc peek_fuel) (suc skip_fuel) dest s
PeekThenSkip-message {k} {ys} {slots} {s} v xs q peek_fuel skip_fuel dest e h =
    let same : ys ≡ xs = cc in
    let others : payloads slots ≡ q = cc in
    (
      view k s.head ys,
      s,
      record s { head = s.head + full_size (length ys) },
      peek_message v peek_fuel dest,
      ap length same,
      skip_message v skip_fuel h,
      record { slots = slots; valid = advance-IsValid v; contents = others },
    )

PeekThenSkip-slots :
    {k : ℕ} (slots : List Slot) {s : Shm} (v : IsValid k slots s) (xs : List ℕ) (q : List (List ℕ))
    (fuel : ℕ) (dest : IpcEntry)
    → payloads slots ≡ xs ∷ q
    → s.tail + 7 < 2 ^ 64
    → PeekThenSkip k xs q (suc (suc fuel)) (suc fuel) dest s
PeekThenSkip-slots [] v xs q fuel dest e h = cc
PeekThenSkip-slots (message ys ∷ slots) v xs q fuel dest e h =
    PeekThenSkip-message v xs q (suc fuel) fuel dest e (omega (arith, head-lt-tail v))
PeekThenSkip-slots (padding n ∷ []) v xs q fuel dest e h = cc
PeekThenSkip-slots (padding n ∷ padding j ∷ slots) v xs q fuel dest e h =
    absurd (NotPadding-next (padding j ∷ slots) v)
PeekThenSkip-slots (padding n ∷ message ys ∷ slots) v xs q fuel dest e h =
    let next : IsValid _ (message ys ∷ slots) _ = advance-IsValid v in
    let (seen, s', s'', peeked, size, skipped, holds) =
      PeekThenSkip-message next xs q fuel fuel dest e (omega (arith, head-lt-tail next)) in
    (seen, s', s'', peek_padding v (suc fuel) dest ∙ peeked, size, skipped, holds)

-- A peek of a queue that is not empty returns `ok` with the size of the oldest payload, and a skip of
-- the offset that it gives then returns `ok` and takes exactly that payload out, if no one else
-- moves the head in between and the positions stay below 2^64.
pub peek_then_skip :
    {k : ℕ} {xs : List ℕ} {q : List (List ℕ)} {s : Shm} (fuel : ℕ) (dest : IpcEntry)
    → Holds k (xs ∷ q) s
    → s.tail + 7 < 2 ^ 64
    → PeekThenSkip k xs q (suc (suc fuel)) (suc fuel) dest s
peek_then_skip {xs = xs} {q = q} fuel dest h fits =
    PeekThenSkip-slots h.slots h.valid xs q fuel dest h.contents fits
