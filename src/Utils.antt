-- ===== src/Utils.antt =====
-- core/src/ipc_utils.h and core/src/ipc_utils.c: alignment, indices, powers of two, nanoseconds.
pub mod Align
pub mod Power
use Prim.Native.Nat.{bit_and}
use libshmipc.Base.{ℕ, zero, suc, ◌+◌, ◌-◌, Bool, Option, none, some, ltb, ◌==◌, if◌then◌else◌}
use libshmipc.Base.Word.{ℤ, pos, to_u64, add64, sub64, mul64, not64, double64}
use libshmipc.Common.{Pointer, null, valid}

-- `ALIGN_UP(s, align)`
unfoldable pub align_up : ℕ → ℕ → ℕ
align_up s align = bit_and (add64 s (align - 1)) (not64 (align - 1))

-- `RELATIVE(a, max)`
unfoldable pub relative : ℕ → ℕ → ℕ
relative a max = bit_and a (sub64 max 1)

abbrev pub cache_line_size : ℕ
cache_line_size = 64

-- `ALIGN_UP_BY_CACHE_LINE(x)`
abbrev pub align_up_by_cache_line : ℕ → ℕ
align_up_by_cache_line x = align_up x cache_line_size

-- `while (pow < n) { pow <<= 1; }`; `none` when the loop is still running after `fuel` tests.
unfoldable pub double_until : ℕ → ℕ → ℕ → Option ℕ
double_until zero n pow = none
double_until (suc fuel) n pow =
    let rest = double_until fuel n (double64 pow) in if ltb pow n then rest else some pow

unfoldable pub find_next_power_of_2 : ℕ → ℕ → Option ℕ
find_next_power_of_2 fuel n = if n == 0 then some 1 else double_until fuel n 1

unfoldable pub is_power_of_2 : ℕ → ℕ → Option Bool
is_power_of_2 fuel size = elim (double_until fuel size 1) [
  | none ↦ none
  | some res ↦ some (res == size)
]

abbrev pub nanos_per_sec : ℕ
nanos_per_sec = 1_000_000_000

-- `struct timespec`; its fields are signed.
pub record Timespec : Type 0 where
  pub tv_sec : ℤ
  pub tv_nsec : ℤ

abbrev pub no_time : Timespec
no_time = record { tv_sec = pos 0; tv_nsec = pos 0 }

unfoldable pub ipc_timespec_to_nanos : Pointer → Timespec → ℕ
ipc_timespec_to_nanos null secs = 0
ipc_timespec_to_nanos valid secs =
    add64 (mul64 (to_u64 secs.tv_sec) nanos_per_sec) (to_u64 secs.tv_nsec)
