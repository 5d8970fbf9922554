-- ===== src/Utils/Power.antt =====
-- `find_next_power_of_2` and `is_power_of_2`: what they compute, and where they do not return.
use native.Mathlib.Nat.{pow-suc, pow-le-pow_right, one-le-pow}
use libshmipc.Base.{
  ℕ, zero, suc, ◌+◌, ◌^◌, ◌≤◌, ◌<◌, ◌≡◌, ◌⊎◌, inl, inr, refl, sym, ap, ◌∙◌, dec_lt, ℕ_discrete,
  ==_iff, ◌↔◌, Bool, true, Option, none, some, arith, ltb, ◌==◌, Bool-cases, ltb→lt, ltb→le, lt→ltb,
}
use libshmipc.Base.Word.{double64}
use libshmipc.Utils.{double_until, find_next_power_of_2, is_power_of_2}
use libshmipc.Utils.Align.{two_pow_bounds}

pow-le_rev : (i j : ℕ) → 2 ^ i < 2 ^ j → i < j
pow-le_rev i j h = elim (dec_lt i j) [
  | yes p ↦ p
  | no p ↦
      absurd (omega (arith, pow-le-pow_right {n = 2} (omega arith) {i = j} {j = i} (omega arith)))
]

pub power_small : (k : ℕ) → 2 ^ k ≤ 2 ^ 63 → k ≤ 63
power_small k h = elim (dec_lt 63 k) [
  | yes p ↦ absurd (omega (arith, pow-le-pow_right {n = 2} (omega arith) {i = 64} {j = k} p))
  | no p ↦ omega arith
]

-- What the loop returns when it starts at `2 ^ j`: the first power from there on that is not
-- below `n`.
record FirstPower (n j : ℕ) (r : Option ℕ) : Type 0 where
  exponent : ℕ
  returned : r ≡ some (2 ^ exponent)
  small : exponent ≤ 63
  from_start : j ≤ exponent
  enough : n ≤ 2 ^ exponent
  least : (i : ℕ) → j ≤ i → i < exponent → 2 ^ i < n

double_pow : (j : ℕ) → j ≤ 62 → double64 (2 ^ j) ≡ 2 ^ suc j
double_pow j h = omega (arith, pow-suc 2 j, pow-le-pow_right {n = 2} (omega arith) h)

double_until-FirstPower :
    (fuel n j : ℕ)
    → j ≤ 63
    → 64 ≤ fuel + j
    → n ≤ 2 ^ 63
    → FirstPower n j (double_until fuel n (2 ^ j))
unfolding double_until
double_until-FirstPower zero n j h f b = absurd (omega arith)
double_until-FirstPower (suc fuel) n j h f b = elim (Bool-cases (ltb (2 ^ j) n)) [
  | inl below ↦
      let lt : 2 ^ j < n = ltb→lt (2 ^ j) n below in
      let j_lt : j < 63 = pow-le_rev j 63 (omega arith) in
      let r : FirstPower n (suc j) (double_until fuel n (2 ^ suc j)) =
        double_until-FirstPower fuel n (suc j) (omega arith) (omega arith) b in
      rw (below, double_pow j (omega arith))
        (record {
          exponent = r.exponent;
          returned = r.returned;
          small = r.small;
          from_start = omega (arith, r.from_start);
          enough = r.enough;
          least = λ i p q. elim (ℕ_discrete j i) [
            | yes e ↦ rw (← e) lt
            | no ne ↦ r.least i (omega arith) q
          ];
        })
  | inr above ↦ rw above (record {
    exponent = j;
    returned = refl;
    small = h;
    from_start = omega arith;
    enough = ltb→le (2 ^ j) n above;
    least = λ i p q. absurd (omega arith);
  })
]

-- For a number up to `2 ^ 63`, with fuel for 64 tests, `find_next_power_of_2` returns the least
-- power of two that is not below it.
pub find_next_power_of_2_least :
    (fuel n : ℕ)
    → 64 ≤ fuel
    → n ≤ 2 ^ 63
    → (k : ℕ) × (find_next_power_of_2 fuel n ≡ some (2 ^ k))
      × (k ≤ 63)
      × (n ≤ 2 ^ k)
      × ((i : ℕ) → n ≤ 2 ^ i → k ≤ i)
unfolding find_next_power_of_2
find_next_power_of_2_least fuel zero f b = (0, refl, omega arith, omega arith, λ i h. omega arith)
find_next_power_of_2_least fuel (suc n) f b =
    let r : FirstPower (suc n) 0 (double_until fuel (suc n) 1) =
      double_until-FirstPower fuel (suc n) 0 (omega arith) (omega arith) b in
    (
      r.exponent,
      ground (arith, r.returned),
      r.small,
      r.enough,
      λ i h. elim (dec_lt i r.exponent) [
        | yes p ↦ absurd (omega (arith, r.least i (omega arith) p))
        | no p ↦ omega arith
      ],
    )

power_eq : (n k : ℕ) → n ≤ 2 ^ k → ((i : ℕ) → i < k → 2 ^ i < n) → (j : ℕ) → n ≡ 2 ^ j → k ≡ j
power_eq n k h least j e = elim (dec_lt j k) [
  | yes p ↦ absurd (omega (arith, least j p))
  | no p ↦ elim (dec_lt k j) [
    | yes q ↦ absurd (
        omega (
          arith,
          h,
          pow-le-pow_right {n = 2} (omega arith) {i = suc k} {j = j} q,
          pow-suc 2 k,
          one-le-pow k 2 (omega arith),
        ))
    | no q ↦ omega arith
  ]
]

-- For a number up to `2 ^ 63`, with fuel for 64 tests, `is_power_of_2` returns, and it returns
-- `true` exactly for the powers of two.
pub is_power_of_2_decides :
    (fuel n : ℕ)
    → 64 ≤ fuel
    → n ≤ 2 ^ 63
    → (b : Bool) × (is_power_of_2 fuel n ≡ some b) × ((b ≡ true) ↔ ((k : ℕ) × (n ≡ 2 ^ k)))
unfolding is_power_of_2
is_power_of_2_decides fuel n f b =
    let r : FirstPower n 0 (double_until fuel n 1) =
      double_until-FirstPower fuel n 0 (omega arith) (omega arith) b in
    (
      2 ^ r.exponent == n,
      rw (is_power_of_2, r.returned),
      (
        λ e. (r.exponent, sym ((==_iff (2 ^ r.exponent) n).0 e)),
        λ p. (==_iff (2 ^ r.exponent) n).1 (
            ap (λ k. 2 ^ k)
              (power_eq n r.exponent r.enough (λ i q. r.least i (omega arith) q) p.0 p.1)
            ∙ sym p.1),
      ),
    )

-- The values of `pow` in the loop: a power of two that 64 bits hold, or 0 after the overflow.
abbrev Doubling : ℕ → Type 0
Doubling p = (p ≡ 0) ⊎ ((j : ℕ) × (j ≤ 63) × (p ≡ 2 ^ j))

Doubling-le : (p : ℕ) → Doubling p → p ≤ 2 ^ 63
Doubling-le p (inl e) = omega arith
Doubling-le p (inr (j, h, e)) = omega (arith, two_pow_bounds j h)

Doubling-double64 : (p : ℕ) → Doubling p → Doubling (double64 p)
Doubling-double64 p (inl e) = inl (rw e)
Doubling-double64 p (inr (j, h, e)) = elim (ℕ_discrete j 63) [
  | yes q ↦ inl (rw (e, q))
  | no q ↦ inr (suc j, omega arith, rw e (double_pow j (omega arith)))
]

double_until_diverges : (fuel n p : ℕ) → 2 ^ 63 < n → Doubling p → double_until fuel n p ≡ none
unfolding double_until
double_until_diverges zero n p h d = refl
double_until_diverges (suc fuel) n p h d =
    rw (lt→ltb p n (omega (arith, Doubling-le p d)))
      (double_until_diverges fuel n (double64 p) h (Doubling-double64 p d))

-- Above `2 ^ 63` neither function returns, whatever the fuel: `pow` overflows to 0 and stays there.
pub power_loops_diverge :
    (fuel n : ℕ) → 2 ^ 63 < n → (find_next_power_of_2 fuel n ≡ none) × (is_power_of_2 fuel n ≡ none)
unfolding find_next_power_of_2 is_power_of_2
power_loops_diverge fuel zero h = absurd (omega arith)
power_loops_diverge fuel (suc n) h =
    let d : double_until fuel (suc n) 1 ≡ none =
      double_until_diverges fuel (suc n) 1 h (inr (0, omega arith, refl)) in
    (ground arith, rw (is_power_of_2, d))
