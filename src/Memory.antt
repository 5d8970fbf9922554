-- ===== src/Memory.antt =====
-- The data region of a buffer: bytes by index, `memcpy`, and the `uint64_t` fields of an entry's
-- header, little-endian as on the platforms that the library is built for (x86-64, arm64).
use native.Mathlib.Nat.{pow-suc}
use libshmipc.Base.{
  ℕ, zero, suc, ◌+◌, ◌*◌, ◌/◌, ◌%◌, ◌^◌, ◌≤◌, ◌<◌, ◌≡◌, ◌⊎◌, inl, inr, refl, ap, ◌∙◌, List, [], ◌∷◌,
  arith, length, ◌==◌, if◌then◌else◌,
}

abbrev pub Memory : Type 0
Memory = ℕ → ℕ

-- `memcpy` into the region, from index `p` on.
unfoldable pub store_bytes : ℕ → List ℕ → Memory → Memory
store_bytes p [] m i = m i
store_bytes p (x ∷ xs) m i = if i == p then x else store_bytes (p + 1) xs m i

-- `memcpy` out of the region.
unfoldable pub load_bytes : ℕ → ℕ → Memory → List ℕ
load_bytes zero p m = []
load_bytes (suc n) p m = m p ∷ load_bytes n (p + 1) m

-- The `n` bytes of a number, lowest first, and back.
unfoldable pub to_bytes : ℕ → ℕ → List ℕ
to_bytes zero v = []
to_bytes (suc n) v = v % 256 ∷ to_bytes n (v / 256)

unfoldable pub from_bytes : List ℕ → ℕ
from_bytes [] = 0
from_bytes (x ∷ xs) = x + 256 * from_bytes xs

unfoldable pub store_u64 : ℕ → ℕ → Memory → Memory
store_u64 p v m = store_bytes p (to_bytes 8 v) m

unfoldable pub load_u64 : ℕ → Memory → ℕ
load_u64 p m = from_bytes (load_bytes 8 p m)

pub store_bytes-outside :
    (p : ℕ) (xs : List ℕ) (m : Memory) (i : ℕ)
    → (i < p) ⊎ (p + length xs ≤ i)
    → store_bytes p xs m i ≡ m i
unfolding store_bytes
store_bytes-outside p [] m i h = refl
store_bytes-outside p (x ∷ xs) m i (inl h) =
    ground (arith, store_bytes-outside (p + 1) xs m i (inl (omega arith)))
store_bytes-outside p (x ∷ xs) m i (inr h) =
    ground (arith, store_bytes-outside (p + 1) xs m i (inr (omega arith)))

-- What is loaded depends only on the bytes of the range.
pub load_bytes-frame :
    (n p : ℕ) (m m' : Memory)
    → ((i : ℕ) → p ≤ i → i < p + n → m' i ≡ m i)
    → load_bytes n p m' ≡ load_bytes n p m
unfolding load_bytes
load_bytes-frame zero p m m' h = refl
load_bytes-frame (suc n) p m m' h = ground (
  arith,
  h p (omega arith) (omega arith),
  load_bytes-frame n (p + 1) m m' (λ i a b. h i (omega arith) (omega arith)),
)

pub load_bytes-store_bytes :
    (p : ℕ) (xs : List ℕ) (m : Memory) → load_bytes (length xs) p (store_bytes p xs m) ≡ xs
unfolding load_bytes store_bytes
load_bytes-store_bytes p [] m = refl
load_bytes-store_bytes p (x ∷ xs) m = ground (
  arith,
  load_bytes-frame (length xs) (p + 1) (store_bytes (p + 1) xs m) (store_bytes p (x ∷ xs) m)
      (λ i a b. ground arith),
  load_bytes-store_bytes (p + 1) xs m,
)

pub length-load_bytes : (n p : ℕ) (m : Memory) → length (load_bytes n p m) ≡ n
unfolding load_bytes
length-load_bytes zero p m = refl
length-load_bytes (suc n) p m = ap suc (length-load_bytes n (p + 1) m)

length-to_bytes : (n v : ℕ) → length (to_bytes n v) ≡ n
unfolding to_bytes
length-to_bytes zero v = refl
length-to_bytes (suc n) v = ap suc (length-to_bytes n (v / 256))

from_bytes-to_bytes : (n v : ℕ) → v < 256 ^ n → from_bytes (to_bytes n v) ≡ v
unfolding from_bytes to_bytes
from_bytes-to_bytes zero v h = omega arith
from_bytes-to_bytes (suc n) v h =
    omega (arith, from_bytes-to_bytes n (v / 256) (omega (arith, pow-suc 256 n)))

module _ (p v : ℕ) (m : Memory) where
  pub store_u64-outside : (i : ℕ) → (i < p) ⊎ (p + 8 ≤ i) → store_u64 p v m i ≡ m i
  unfolding store_u64
  store_u64-outside i h = store_bytes-outside p (to_bytes 8 v) m i (rw (length-to_bytes 8 v) h)

  pub load_u64-store_u64 : v < 2 ^ 64 → load_u64 p (store_u64 p v m) ≡ v
  unfolding store_u64 load_u64
  load_u64-store_u64 h =
      let back : load_bytes 8 p (store_bytes p (to_bytes 8 v) m) ≡ to_bytes 8 v =
        rw (length-to_bytes 8 v) at (load_bytes-store_bytes p (to_bytes 8 v) m) in
      ap from_bytes back ∙ from_bytes-to_bytes 8 v h

pub load_u64-frame :
    (p : ℕ) (m m' : Memory)
    → ((i : ℕ) → p ≤ i → i < p + 8 → m' i ≡ m i)
    → load_u64 p m' ≡ load_u64 p m
unfolding load_u64
load_u64-frame p m m' h = ap from_bytes (load_bytes-frame 8 p m m' h)

-- A store next to what is loaded.
module _ (p v : ℕ) (m : Memory) where
  pub load_u64-store_u64_apart :
      (q : ℕ) → (q + 8 ≤ p) ⊎ (p + 8 ≤ q) → load_u64 q (store_u64 p v m) ≡ load_u64 q m
  load_u64-store_u64_apart q (inl h) =
      load_u64-frame q m (store_u64 p v m) (λ i a b. store_u64-outside p v m i (inl (omega arith)))
  load_u64-store_u64_apart q (inr h) =
      load_u64-frame q m (store_u64 p v m) (λ i a b. store_u64-outside p v m i (inr (omega arith)))

  pub load_bytes-store_u64_apart :
      (n q : ℕ) → p + 8 ≤ q → load_bytes n q (store_u64 p v m) ≡ load_bytes n q m
  load_bytes-store_u64_apart n q h =
      load_bytes-frame n q m (store_u64 p v m)
        (λ i a b. store_u64-outside p v m i (inr (omega arith)))
