-- ===== src/Base/Modulus.antt =====
-- Positions taken modulo a capacity.
use Prim.Native.Nat.{ℕ, ◌+◌, ◌-◌, ◌*◌, ◌/◌, ◌%◌, ◌≤◌, ◌<◌}
use mathlib.Core.Path.{◌≡◌, sym, ap, ◌∙◌}
use mathlib.Core.Logic.{◌≢◌, ◌⊎◌, inl, inr}
use native.Mathlib.Nat.{
  div-add-mod, mod-lt, mod-add-mod, mod-eq_of_lt, mod_self, add-mod_right, add-mul-mod_self_left,
}
use native.Mathlib.Decide.{dec_lt}
use native.Mathlib.Omega.{arith}

-- Two positions less than a capacity apart have different indices.
pub mod-ne_of_near : (x y c : ℕ) → x < y → y < x + c → x % c ≢ y % c
mod-ne_of_near x y c h k = λ e. grind (arith, div-add-mod x c, div-add-mod y c)

-- Within the room left behind a position, the index moves with the position.
pub mod-add_of_fits : (x j c : ℕ) → x % c + j < c → (x + j) % c ≡ x % c + j
mod-add_of_fits x j c h = grind (arith, mod-add-mod x c j, mod-eq_of_lt h)

-- At the end of the room the index starts again.
pub mod-add_of_full : (x j c : ℕ) → x % c + j ≡ c → (x + j) % c ≡ 0
mod-add_of_full x j c h = grind (arith, mod-add-mod x c j, mod_self c)

-- The index of a position in the lap before a multiple of the capacity.
pub index_of_lap_before : (h c q : ℕ) → c * q ≤ h + c → h < c * q → h % c ≡ h + c - c * q
index_of_lap_before h c q le lt =
    let j : ℕ = h + c - c * q in
    let split : h + c ≡ j + c * q = omega arith in
    sym (add-mod_right h c)
    ∙ ap (λ n. n % c) split
    ∙ add-mul-mod_self_left j c q
    ∙ mod-eq_of_lt (omega arith)

-- Room behind `t` that does not reach round to `h` holds no index of a position from `h` to `t`.
pub index_outside :
    (h t w c x : ℕ)
    → t % c + w ≤ c
    → t + w ≤ h + c
    → h ≤ x
    → x < t
    → (x % c < t % c) ⊎ (t % c + w ≤ x % c)
index_outside h t w c x inside near from to = elim (dec_lt (x % c) (t % c)) [
  | yes p ↦ inl p
  | no p ↦ elim (dec_lt (x % c) (t % c + w)) [
    | yes q ↦
        let j : ℕ = x % c - t % c in
        let same : (t + j) % c ≡ x % c =
          mod-add_of_fits t j c (omega (arith, mod-lt x {m = c})) ∙ (omega arith) in
        absurd (mod-ne_of_near x (t + j) c (omega arith) (omega arith) (sym same))
    | no q ↦ inr (omega arith)
  ]
]

-- If the room to the end of the region is larger than the free space, then the head stands in the
-- lap before, and a header fits between it and the end of the region.
pub room_before_end :
    (h t c : ℕ)
    → h ≤ t
    → t < h + c
    → (h % c ≡ 0) ⊎ (h % c + 24 ≤ c)
    → t % c < t - h
    → t % c + 24 ≤ t - h
room_before_end h t c le near room wrapped =
    let q : ℕ = t / c in
    let split : c * q + t % c ≡ t = div-add-mod t c in
    let at : h % c ≡ h + c - c * q = index_of_lap_before h c q (omega arith) (omega arith) in
    elim room [ inl z ↦ absurd (omega arith) | inr r ↦ omega arith ]
