-- ===== src/Utils/Align.antt =====
-- `ALIGN_UP` and `RELATIVE` as arithmetic.
use libshmipc.Base.{ℕ, ◌+◌, ◌-◌, ◌*◌, ◌/◌, ◌%◌, ◌^◌, ◌≤◌, ◌<◌, ◌≡◌, arith}
use libshmipc.Base.Word.{u64_mod, sub64}
use libshmipc.Base.Mask.{and-mask, and-not_seven, and-not_63}
use native.Mathlib.Nat.{mod-eq_of_lt, one-le-pow, pow-le-pow_right}
use libshmipc.Utils.{align_up, relative, align_up_by_cache_line}

-- Rounding up to a multiple of 8.
pub align_up_eight : (s : ℕ) → s + 7 < u64_mod → align_up s 8 ≡ (s + 7) / 8 * 8
unfolding align_up
align_up_eight s h = rw (mod-eq_of_lt h) (and-not_seven (s + 7) h)

pub align_up_cache_line : (s : ℕ) → s + 63 < u64_mod → align_up_by_cache_line s ≡ (s + 63) / 64 * 64
unfolding align_up
align_up_cache_line s h = rw (mod-eq_of_lt h) (and-not_63 (s + 63) h)

pub two_pow_bounds : (k : ℕ) → k ≤ 63 → (1 ≤ 2 ^ k) × (2 ^ k ≤ 2 ^ 63)
two_pow_bounds k h = (one-le-pow k 2 (omega arith), pow-le-pow_right (omega arith) h)

below_pow : (k : ℕ) → k ≤ 63 → sub64 (2 ^ k) 1 ≡ 2 ^ k - 1
below_pow k h = omega (arith, two_pow_bounds k h)

-- For a capacity that is a power of two, `RELATIVE` is the remainder.
pub relative-pow : (a k : ℕ) → k ≤ 63 → relative a (2 ^ k) ≡ a % 2 ^ k
unfolding relative
relative-pow a k h = rw (below_pow k h) (and-mask k a)
