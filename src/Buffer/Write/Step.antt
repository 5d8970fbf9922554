-- ===== src/Buffer/Write/Step.antt =====
-- One call of `ipc_buffer_write` on a buffer at rest, up to its commit, by the space that it finds.
use libshmipc.Base.{
  subst, sym, ℕ, suc, ◌+◌, ◌-◌, ◌%◌, ◌^◌, ◌≤◌, ◌<◌, ◌≡◌, List, some, arith, Bool, lt→ltb, le→ltb,
  ltb,
}
use libshmipc.Base.Word.{add64, sub64}
use libshmipc.Common.{err_no_space_contiguous}
use native.Mathlib.Nat.{mod-lt}
use libshmipc.Utils.{relative}
use libshmipc.Utils.Align.{relative-pow, two_pow_bounds}
use libshmipc.Buffer.Layout.Chain.{Entries-le}
use libshmipc.Buffer.State.{unlock, Shm, read_head}
use libshmipc.Buffer.Words.{is_locked_even, unlock_even, lock_ref_free}
use libshmipc.Buffer.Layout.{Slot, IsValid}
use libshmipc.Buffer.Write.{IpcBufferWriteError, Reservation, refused, reserved, reserve}

-- The bytes between the tail and the head going round, and those to the end of the region.
abbrev pub free_space : ℕ → Shm → ℕ
free_space k s = 2 ^ k - (s.tail - s.head)

abbrev pub space_to_wrap : ℕ → Shm → ℕ
space_to_wrap k s = 2 ^ k - s.tail % 2 ^ k

module _ {k : ℕ} {slots : List Slot} {s : Shm} (v : IsValid k slots s) where
  open v use {capacity, small, entries, used, fits, head_aligned, tail_aligned}

  pub head-le-tail : s.head ≤ s.tail
  head-le-tail = Entries-le (2 ^ k) s.region s.head slots s.tail entries

  pub index-lt : s.tail % 2 ^ k < 2 ^ k
  index-lt = mod-lt s.tail (omega (arith, two_pow_bounds k small))

  relative-tail : relative s.tail (2 ^ k) ≡ s.tail % 2 ^ k
  relative-tail = relative-pow s.tail k small

  space_to_wrap-code : sub64 (2 ^ k) (relative s.tail (2 ^ k)) ≡ space_to_wrap k s
  space_to_wrap-code = rw relative-tail (omega (arith, two_pow_bounds k small, index-lt))

  free_space-code : sub64 (2 ^ k) (sub64 s.tail (unlock (read_head s))) ≡ free_space k s
  unfolding read_head
  free_space-code =
      rw (unlock_even s.head (omega arith) (omega (arith, head-le-tail)))
        (omega (arith, two_pow_bounds k small, head-le-tail))

  -- What the loop returns at its first round, which always ends it.
  module _ (full : ℕ) (e : IpcBufferWriteError) (fuel : ℕ) where
    abbrev pub no_space : IpcBufferWriteError
    no_space = record e { offset = s.tail; required_size = full; free_space = free_space k s }

    abbrev pub reservation : Bool → Reservation
    reservation pad = record {
      tail = s.tail;
      rel_tail = s.tail % 2 ^ k;
      space_to_wrap = space_to_wrap k s;
      is_placeholder = pad;
    }

    reserve-no_space_at :
        free_space k s < full
        → reserve (suc fuel) full (2 ^ k) e s ≡ some (refused err_no_space_contiguous no_space, s)
    unfolding reserve
    reserve-no_space_at h =
        rw (
          is_locked_even s.tail (omega arith) fits,
          free_space-code,
          lt→ltb (free_space k s) full h,
        )

    reserve_space_at :
        full ≤ free_space k s
        → reserve (suc fuel) full (2 ^ k) e s
          ≡ some (
            reserved (reservation (ltb (space_to_wrap k s) (add64 full 24))),
            record s { tail = s.tail + 1 },
          )
    unfolding reserve
    reserve_space_at h = rw (
      is_locked_even s.tail (omega arith) fits,
      free_space-code,
      le→ltb (free_space k s) full h,
      lock_ref_free s.tail (omega arith) fits,
      space_to_wrap-code,
      relative-tail,
    )

    pub reserve-no_space :
        free_space k s < full
        → reserve (suc fuel) full s.data_size e s
          ≡ some (refused err_no_space_contiguous no_space, s)
    reserve-no_space h =
        subst
          (λ c. reserve (suc fuel) full c e s ≡ some (refused err_no_space_contiguous no_space, s))
          (sym capacity) (reserve-no_space_at h)

    pub reserve_space :
        full ≤ free_space k s
        → reserve (suc fuel) full s.data_size e s
          ≡ some (
            reserved (reservation (ltb (space_to_wrap k s) (add64 full 24))),
            record s { tail = s.tail + 1 },
          )
    reserve_space h =
        subst
          (λ c.
            reserve (suc fuel) full c e s
            ≡ some (
              reserved (reservation (ltb (space_to_wrap k s) (add64 full 24))),
              record s { tail = s.tail + 1 },
            ))
          (sym capacity) (reserve_space_at h)
