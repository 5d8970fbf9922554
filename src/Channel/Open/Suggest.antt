-- ===== src/Channel/Open/Suggest.antt =====
-- `ipc_channel_suggest_size` gives a size that `ipc_channel_create` accepts.
use libshmipc.Base.{
  suc, ◌*◌, ◌%◌, ℕ, zero, suc, ◌+◌, ◌^◌, ◌≤◌, ◌≡◌, ap, some, arith, dec_lt, le→ltb,
}
use native.Mathlib.Nat.{pow-suc}
use libshmipc.Base.Word.{add64-eq}
use libshmipc.Utils.Power.{find_next_power_of_2_least}
use libshmipc.Utils.Align.{two_pow_bounds}
use libshmipc.Channel.Open.{ipc_channel_suggest_size}

-- The least power of two that is not below `n` is at most about twice as large.
double : (k n : ℕ) → 1 ≤ n → ((i : ℕ) → n ≤ 2 ^ i → k ≤ i) → 2 ^ k ≤ 2 * n + 8
double zero n some_bytes least = omega arith
double (suc k) n some_bytes least = elim (dec_lt (2 ^ k) n) [
  | yes below ↦ rw (pow-suc 2 k) (omega arith)
  | no above ↦ absurd (omega (arith, least k (omega arith)))
]

-- For a capacity up to 2^63 and fuel for 64 tests, the suggested size is 192 bytes, for the headers,
-- more than a power of two that has room for that capacity, and is not more than twice as large, or 8.
pub channel_suggest-power :
    (fuel desired : ℕ)
    → 64 ≤ fuel
    → desired ≤ 2 ^ 63
    → (k : ℕ) × (k ≤ 63)
      × (desired ≤ 2 ^ k)
      × (8 ≤ 2 ^ k)
      × (2 ^ k ≤ 2 * desired + 8)
      × (ipc_channel_suggest_size fuel desired ≡ some (192 + 2 ^ k))
unfolding ipc_channel_suggest_size
channel_suggest-power fuel desired enough bound = elim (dec_lt desired 8) [
  | yes few ↦ (3, omega arith, omega arith, omega arith, omega arith, ground arith)
  | no many ↦
      let (k, e, small, fits, least) = find_next_power_of_2_least fuel desired enough bound in
      let room : 2 ^ k ≤ 2 ^ 63 = omega (arith, two_pow_bounds k small) in
      let sum : (2 ^ k + 192) % 2 ^ 64 ≡ 192 + 2 ^ k = omega arith in
      (
        k,
        small,
        fits,
        omega arith,
        double k desired (omega arith) least,
        rw (add64-eq desired 192 (omega arith), le→ltb (desired + 192) 200 (omega arith), e)
            (ap some sum),
      )
]
