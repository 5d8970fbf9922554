-- ===== src/Futex/Apple.antt =====
-- core/src/ipc_futex.c: the wrappers as macOS builds them, over the answers of `__ulock_wait` and
-- `__ulock_wake`, which are not code of the library.
use libshmipc.Base.{ℕ, ◌+◌, ◌-◌, ◌*◌, ◌/◌, ◌%◌, ◌^◌, ◌<◌, ◌≡◌, arith, ◌||◌, ◌==◌, if◌then◌else◌}
use libshmipc.Base.Word.{ℤ, pos, negsuc, to_u64}
use libshmipc.Utils.{Timespec}
use libshmipc.System.{Answer, returned, raised, eintr}
use libshmipc.Channel.Read.{to_timespec}

-- The numbers of `errno` on macOS that differ from those on Linux, or that only this branch reads;
-- `EWOULDBLOCK` is `EAGAIN`.
abbrev pub enoent : ℕ
enoent = 2

abbrev pub eagain : ℕ
eagain = 35

abbrev pub ewouldblock : ℕ
ewouldblock = 35

-- `UL_COMPARE_AND_WAIT`, and with `ULF_WAKE_ALL`.
abbrev pub ul_compare_and_wait : ℕ
ul_compare_and_wait = 1

abbrev pub ulf_wake_all : ℕ
ulf_wake_all = 256

-- `/` on signed numbers, which rounds towards 0.
abbrev pub quotient : ℤ → ℕ → ℤ
quotient (pos n) d = pos (n / d)
quotient (negsuc n) d = let q = (n + 1) / d in if q == 0 then pos 0 else negsuc (q - 1)

-- `timeout->tv_sec * 1000000 + timeout->tv_nsec / 1000` as the uint32_t that is passed; the sum of
-- signed numbers is taken to wrap.
unfoldable pub ulock_timeout : Timespec → ℕ
ulock_timeout t = (to_u64 t.tv_sec * 1_000_000 + to_u64 (quotient t.tv_nsec 1000)) % 2 ^ 32

-- What becomes of `errno` after a result that is not 0.
unfoldable pub wait_status : ℕ → ℕ
wait_status errno = if errno == eagain || (errno == ewouldblock || errno == eintr) then 0 else errno

-- The call has the operation, the expected value and the timeout; `errno` was `before`, which it
-- still is after a result that is not -1.
unfoldable pub ipc_futex_wait : (ℕ → ℕ → ℕ → Answer ℕ) → ℕ → ℕ → Timespec → ℕ
ipc_futex_wait ulock_wait before expected timeout =
    elim (ulock_wait ul_compare_and_wait expected (ulock_timeout timeout)) [
      | returned res ↦ if res == 0 then res else wait_status before
      | raised errno ↦ wait_status errno
    ]

-- The result of a wake, where nobody waits.
unfoldable pub wake_status : ℕ → Answer ℕ → Answer ℕ
wake_status before (returned res) =
    if res == 0 then returned res else if before == enoent then returned 0 else returned res
wake_status before (raised errno) = if errno == enoent then returned 0 else raised errno

-- The call has the operation and the value 0.
unfoldable pub ipc_futex_wake_one : (ℕ → ℕ → Answer ℕ) → ℕ → Answer ℕ
ipc_futex_wake_one ulock_wake before = wake_status before (ulock_wake ul_compare_and_wait 0)

unfoldable pub ipc_futex_wake_all : (ℕ → ℕ → Answer ℕ) → ℕ → Answer ℕ
ipc_futex_wake_all ulock_wake before =
    wake_status before (ulock_wake (ul_compare_and_wait + ulf_wake_all) 0)

-- The timeout that `ipc_channel_read` has left, `ns` nanoseconds and less than 2^64, is passed on in
-- whole microseconds, rounded down, modulo 2^32: it is too short from 2^32 microseconds on, and less
-- than a microsecond becomes 0.
pub ulock_timeout-to_timespec :
    (ns : ℕ)
    → ns < 2 ^ 64
    → (ulock_timeout (to_timespec ns) ≡ ns / 1000 % 2 ^ 32)
      × (ns < 1000 → ulock_timeout (to_timespec ns) ≡ 0)
unfolding ulock_timeout
ulock_timeout-to_timespec ns word = (omega arith, λ few. omega arith)
