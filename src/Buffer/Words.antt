-- ===== src/Buffer/Words.antt =====
-- The lock bit of `head` and `tail`, whose positions are even, as arithmetic.
use libshmipc.Base.{◌==◌, ℕ, ◌+◌, ◌%◌, ◌^◌, ◌<◌, ◌≡◌, true, false, arith, ==_self}
use libshmipc.Base.Mask.{or-one, and-not_one}
use libshmipc.Utils.Align.{align_up_eight}
use libshmipc.Buffer.State.{is_aligned, is_aligned, unlock, lock, is_locked, lock_ref, unlock_ref}

module _ (x : ℕ) (even : x % 2 ≡ 0) (fits : x < 2 ^ 64) where
  pub lock_even : lock x ≡ x + 1
  unfolding lock
  lock_even = omega (arith, or-one x)

  pub lock_odd : lock (x + 1) ≡ x + 1
  unfolding lock
  lock_odd = omega (arith, or-one (x + 1))

  pub unlock_even : unlock x ≡ x
  unfolding unlock
  unlock_even = omega (arith, and-not_one x)

  pub unlock_odd : unlock (x + 1) ≡ x
  unfolding unlock
  unlock_odd = omega (arith, and-not_one (x + 1))

  pub is_locked_even : is_locked x ≡ false
  unfolding is_locked
  is_locked_even = ground (arith, lock_even)

  pub is_locked_odd : is_locked (x + 1) ≡ true
  unfolding is_locked
  is_locked_odd = ground (arith, lock_odd)

  -- `_lock` takes a free word, and `_unlock` gives it back.
  pub lock_ref_free : lock_ref x x ≡ (true, x + 1)
  unfolding lock_ref
  lock_ref_free = rw (unlock_even, lock_even, ==_self x)

  pub unlock_ref_held : unlock_ref (x + 1) x ≡ (true, x)
  unfolding unlock_ref
  unlock_ref_held = rw (unlock_even, lock_even, ==_self (x + 1))

-- `_is_aligned` is the test for a multiple of 8.
pub is_aligned-eq : (x : ℕ) → x + 7 < 2 ^ 64 → is_aligned x ≡ (x % 8 == 0)
unfolding is_aligned
is_aligned-eq x h = rw (align_up_eight x h) (ground arith)
