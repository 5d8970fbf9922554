-- ===== src/Jni/Transfer/Arrays.antt =====
-- The array that goes to Java for an entry.
use libshmipc.Base.{
  ℕ, ◌+◌, ◌%◌, ◌^◌, ◌<◌, ◌≤◌, ◌≡◌, ◌⊎◌, inl, inr, refl, subst, List, [], ◌∷◌, length, take,
  take-length, arith, ne→==, eq→==, lt→ltb, le→ltb, dec_lt, ℕ_discrete,
}
use libshmipc.Base.Word.{pos}
use libshmipc.Common.{nothing, owned, IpcEntry, allocated}
use libshmipc.Memory.{Memory}
use libshmipc.Buffer.State.{Shm}
use libshmipc.Buffer.Layout.{Holds, Entries, payloads, Slot, message, padding}
use libshmipc.Jni.State.{JArray, no_array, array, fault, to_array, copy_region, to_i32}

-- What goes to Java when the number of bytes does not fit a jsize: NULL if the low 32 bits of the number
-- are 0 or no positive jsize, else an array of as many bytes as they say, from the start.
abbrev pub TooLong : List ℕ → JArray → Type 0
TooLong xs out =
    ((length xs % 2 ^ 32 ≡ 0) ⊎ (2 ^ 31 ≤ length xs % 2 ^ 32)) × (out ≡ no_array)
    ⊎ (0 < length xs % 2 ^ 32)
      × (length xs % 2 ^ 32 < 2 ^ 31)
      × (out ≡ array (take (length xs % 2 ^ 32) xs))

-- What goes to Java of the payload `xs`: an array of its bytes if their number fits a jsize.
abbrev pub InJava : List ℕ → JArray → Type 0
InJava xs out = (length xs < 2 ^ 31) × (out ≡ array xs) ⊎ (2 ^ 31 ≤ length xs) × TooLong xs out

pub to_i32-small : (n : ℕ) → n < 2 ^ 31 → to_i32 n ≡ pos n
unfolding to_i32
to_i32-small n h = ground arith

pub to_array-small :
    (xs : List ℕ) (entry : IpcEntry) (region : Memory)
    → 0 < length xs
    → length xs < 2 ^ 31
    → entry.payload ≡ owned xs
    → entry.size ≡ length xs
    → to_array allocated entry region ≡ array xs
unfolding to_array copy_region
to_array-small xs entry region some_bytes fits payload size = rw (
  to_array,
  size,
  to_i32-small (length xs) fits,
  ne→== (length xs) 0 (omega arith),
  payload,
  le→ltb (length xs) (length xs) (omega arith),
  take-length xs,
)

-- An array of what stands in an entry that nobody has set.
pub unset_payload_faults :
    (entry : IpcEntry) (region : Memory)
    → entry.payload ≡ nothing
    → 0 < entry.size
    → entry.size < 2 ^ 31
    → to_array allocated entry region ≡ fault
unfolding to_array copy_region
unset_payload_faults entry region null some_bytes small =
    rw (to_array, to_i32-small entry.size small, ne→== entry.size 0 (omega arith), null)

-- Every payload of a queue has a byte.
pub oldest_has_bytes :
    {k : ℕ} {xs : List ℕ} {q : List (List ℕ)} {s : Shm} → Holds k (xs ∷ q) s → 0 < length xs
oldest_has_bytes {k} {xs} {q} {s} h = first_bytes h.slots s.head h.valid.entries h.contents
  where
    first_bytes :
        (slots : List Slot) (p : ℕ)
        → Entries (2 ^ k) s.region p slots s.tail
        → payloads slots ≡ xs ∷ q
        → 0 < length xs
    first_bytes [] p e c = cc
    first_bytes (message ys ∷ slots) p (at, e) c =
        let same : ys ≡ xs = cc in subst (λ zs. 0 < length zs) same at.some_bytes
    first_bytes (padding n ∷ slots) p (at, e) c = first_bytes slots (p + n) e c

copied :
    (len : ℕ) (xs : List ℕ) (region : Memory)
    → len < length xs
    → copy_region len (owned xs) region ≡ array (take len xs)
unfolding copy_region
copied len xs region less = rw (copy_region, le→ltb (length xs) len (omega arith))

to_array-large :
    (xs : List ℕ) (entry : IpcEntry) (region : Memory)
    → 2 ^ 31 ≤ length xs
    → entry.payload ≡ owned xs
    → entry.size ≡ length xs
    → TooLong xs (to_array allocated entry region)
unfolding to_array to_i32
to_array-large xs entry region large payload size =
    let low : ℕ = length xs % 2 ^ 32 in
    elim (dec_lt low (2 ^ 31)) [
      | no big ↦
          inl
            (inr (omega arith), rw (to_array, size, to_i32, le→ltb low (2 ^ 31) (omega arith)) refl)
      | yes small ↦ elim (ℕ_discrete low 0) [
        | yes none_left ↦ inl (
          inl none_left,
          rw (to_array, size, to_i32, lt→ltb low (2 ^ 31) small, eq→== low 0 none_left) refl,
        )
        | no some_left ↦ inr (
          omega arith,
          small,
          rw
              (
                to_array,
                size,
                to_i32,
                lt→ltb low (2 ^ 31) small,
                ne→== low 0 some_left,
                payload,
                copied low xs region (omega arith),
              )
              refl,
        )
      ]
    ]

pub to_array-InJava :
    (xs : List ℕ) (entry : IpcEntry) (region : Memory)
    → 0 < length xs
    → entry.payload ≡ owned xs
    → entry.size ≡ length xs
    → InJava xs (to_array allocated entry region)
to_array-InJava xs entry region some_bytes payload size = elim (dec_lt (length xs) (2 ^ 31)) [
  | yes fits ↦ inl (fits, to_array-small xs entry region some_bytes fits payload size)
  | no large ↦ inr (omega arith, to_array-large xs entry region (omega arith) payload size)
]
