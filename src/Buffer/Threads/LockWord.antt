-- ===== src/Buffer/Threads/LockWord.antt =====
-- A position word: what its lock bit says about the holder of the lock.
use libshmipc.Base.{
  true, ℕ, ◌+◌, ◌%◌, ◌^◌, ◌<◌, ◌≡◌, false, Option, none, some, arith, sym, ◌∙◌, refl,
}
use libshmipc.Buffer.State.{unlock, lock, is_locked}
use libshmipc.Buffer.Words.{lock_even, unlock_even, unlock_odd, is_locked_odd}
use libshmipc.Buffer.Threads.Invariant.{lock_bit}

-- The word of position `x`, with the bit of a lock that `holder` has.
pub record WordOf (word x : ℕ) (holder : Option ℕ) : Type 0 where
  pub bit : word ≡ x + lock_bit holder
  pub even : x % 8 ≡ 0
  pub fits : x < 2 ^ 64

module _ {word x : ℕ} where
  pub unlock-word : (holder : Option ℕ) → WordOf word x holder → unlock word ≡ x
  unlock-word none w =
      let at : word ≡ x = omega (arith, w.bit) in
      rw at (unlock_even x (omega (arith, w.even)) w.fits)
  unlock-word (some i) w = rw (w.bit) (unlock_odd x (omega (arith, w.even)) w.fits)

  -- A word without its bit has no holder.
  pub no_holder :
      (holder : Option ℕ)
      → WordOf word x holder
      → is_locked word ≡ false
      → (holder ≡ none) × (word ≡ x)
  no_holder none w free = (refl, omega (arith, w.bit))
  no_holder (some i) w free =
      let at : word ≡ x + 1 = w.bit in
      let locked : is_locked word ≡ true = rw at (is_locked_odd x (omega (arith, w.even)) w.fits) in
      absurd (cc)

  pub no_holder_of_unlocked :
      (holder : Option ℕ)
      → WordOf word x holder
      → (u : ℕ) → u % 8 ≡ 0
      → u < 2 ^ 64
      → word ≡ unlock u
      → (holder ≡ none) × (u ≡ x)
  no_holder_of_unlocked none w u even_u fits_u e =
      (refl, omega (arith, w.bit, e, unlock_even u (omega arith) fits_u))
  no_holder_of_unlocked (some i) w u even_u fits_u e =
      absurd (omega (arith, w.bit, w.even, e, unlock_even u (omega arith) fits_u))

  pub held_word :
      {i : ℕ} (holder : Option ℕ) → WordOf word x holder → holder ≡ some i → word ≡ lock x
  held_word none w e = absurd (cc)
  held_word (some j) w e = w.bit ∙ sym (lock_even x (omega (arith, w.even)) w.fits)
