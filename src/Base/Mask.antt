-- ===== src/Base/Mask.antt =====
-- `&` and `|` with the masks that the library uses, as arithmetic.
use Prim.Native.Nat.{ℕ, zero, suc, ◌+◌, ◌-◌, ◌*◌, ◌/◌, ◌%◌, ◌^◌, ◌≤◌, ◌<◌, min, max}
use Prim.Native.Nat.{bit_and, bit_or, digits, bit_and-bitwise, bit_or-bitwise}
use mathlib.Core.Path.{◌≡◌, refl, ap, ◌∙◌}
use native.Mathlib.Nat.{
  pow-suc, one-le-pow, div-add-mod, mod-lt, add-mul-mod_self_left, mod-eq_of_lt,
}
use native.Mathlib.Omega.{arith}

-- The digit recursion of `digits` does not depend on fuel that is large enough.
module _ (f : ℕ → ℕ) (g : ℕ → ℕ → ℕ) where
  abbrev fueled : ℕ → ℕ → ℕ → ℕ
  fueled = digits f g

  digits-fuel : (n m a b : ℕ) → a ≤ n → a ≤ m → fueled n a b ≡ fueled m a b
  digits-fuel zero zero a b p q = refl
  digits-fuel zero (suc m) zero b p q = refl
  digits-fuel zero (suc m) (suc a) b p q = absurd (omega arith)
  digits-fuel (suc n) zero zero b p q = refl
  digits-fuel (suc n) zero (suc a) b p q = absurd (omega arith)
  digits-fuel (suc n) (suc m) zero b p q = refl
  digits-fuel (suc n) (suc m) (suc a) b p q =
      omega (arith, digits-fuel n m (suc a / 2) (b / 2) (omega arith) (omega arith))

-- One equation for the lowest digit, with no fuel.
and_step : (a b : ℕ) → bit_and a b ≡ bit_and (a / 2) (b / 2) * 2 + min (a % 2) (b % 2)
and_step zero b = omega (arith, bit_and-bitwise 0 b, bit_and-bitwise 0 (b / 2))
and_step (suc a) b = omega (
  arith,
  bit_and-bitwise (suc a) b,
  bit_and-bitwise (suc a / 2) (b / 2),
  digits-fuel (λ y. 0) min a (suc a / 2) (suc a / 2) (b / 2) (omega arith) (omega arith),
)

or_step : (a b : ℕ) → bit_or a b ≡ bit_or (a / 2) (b / 2) * 2 + max (a % 2) (b % 2)
or_step zero b = omega (arith, bit_or-bitwise 0 b, bit_or-bitwise 0 (b / 2))
or_step (suc a) b = omega (
  arith,
  bit_or-bitwise (suc a) b,
  bit_or-bitwise (suc a / 2) (b / 2),
  digits-fuel (λ y. y) max a (suc a / 2) (suc a / 2) (b / 2) (omega arith) (omega arith),
)

and-zero_below : (n a : ℕ) → a ≤ n → bit_and a 0 ≡ 0
and-zero_below n zero h = refl
and-zero_below zero (suc a) h = absurd (omega arith)
and-zero_below (suc n) (suc a) h =
    omega (arith, and_step (suc a) 0, and-zero_below n (suc a / 2) (omega arith))

or-zero_below : (n a : ℕ) → a ≤ n → bit_or a 0 ≡ a
or-zero_below n zero h = refl
or-zero_below zero (suc a) h = absurd (omega arith)
or-zero_below (suc n) (suc a) h =
    omega (arith, or_step (suc a) 0, or-zero_below n (suc a / 2) (omega arith))

-- The remainder by twice a modulus, from the remainder of the half.
mod-twice : (a m : ℕ) → 0 < m → a % (m * 2) ≡ a / 2 % m * 2 + a % 2
mod-twice a m h =
    let low : ℕ = a / 2 % m * 2 + a % 2 in
    let whole : a ≡ low + m * 2 * (a / 2 / m) = grind (arith, div-add-mod (a / 2) m) in
    let fits : low < m * 2 = omega (arith, mod-lt (a / 2) h) in
    ap (λ t. t % (m * 2)) whole ∙ add-mul-mod_self_left low (m * 2) (a / 2 / m) ∙ mod-eq_of_lt fits

half : (m : ℕ) → 1 ≤ m → (m * 2 - 1) / 2 ≡ m - 1
half m h = omega arith

-- The low `k` bits: `a & (2 ^ k - 1)`.
pub and-mask : (k a : ℕ) → bit_and a (2 ^ k - 1) ≡ a % 2 ^ k
and-mask zero a = omega (arith, and-zero_below a a (omega arith))
and-mask (suc k) a =
    let some_bit : 1 ≤ 2 ^ k = one-le-pow k 2 (omega arith) in
    rw pow-suc (
      rw (mod-twice a (2 ^ k) some_bit) (
        omega (
          arith,
          and_step a (2 ^ k * 2 - 1),
          and-mask k (a / 2),
          ap (bit_and (a / 2)) (half (2 ^ k) some_bit),
        )))

-- `a | 1`.
pub or-one : (a : ℕ) → bit_or a 1 ≡ a / 2 * 2 + 1
or-one a = omega (arith, or_step a 1, or-zero_below (a / 2) (a / 2) (omega arith))

-- `a & ~1` on 64 bits.
pub and-not_one : (a : ℕ) → a < 2 ^ 64 → bit_and a (2 ^ 64 - 2) ≡ a / 2 * 2
and-not_one a h = omega (arith, and_step a (2 ^ 64 - 2), and-mask 63 (a / 2))

-- `a & ~7` on 64 bits.
pub and-not_seven : (a : ℕ) → a < 2 ^ 64 → bit_and a (2 ^ 64 - 8) ≡ a / 8 * 8
and-not_seven a h = omega (
  arith,
  and_step a (2 ^ 64 - 8),
  and_step (a / 2) (2 ^ 63 - 4),
  and_step (a / 2 / 2) (2 ^ 62 - 2),
  and-mask 61 (a / 2 / 2 / 2),
)

-- `a & ~63` on 64 bits.
pub and-not_63 : (a : ℕ) → a < 2 ^ 64 → bit_and a (2 ^ 64 - 64) ≡ a / 64 * 64
and-not_63 a h = omega (
  arith,
  and_step a (2 ^ 64 - 64),
  and_step (a / 2) (2 ^ 63 - 32),
  and_step (a / 2 / 2) (2 ^ 62 - 16),
  and_step (a / 2 / 2 / 2) (2 ^ 61 - 8),
  and_step (a / 2 / 2 / 2 / 2) (2 ^ 60 - 4),
  and_step (a / 2 / 2 / 2 / 2 / 2) (2 ^ 59 - 2),
  and-mask 58 (a / 2 / 2 / 2 / 2 / 2 / 2),
)
