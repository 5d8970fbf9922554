-- ===== src/Channel/Read/Timeout.antt =====
-- The timeout that `ipc_channel_read` hands to the futex.
use libshmipc.Base.{ℕ, ◌-◌, ◌^◌, ◌<◌, ◌≡◌, refl, arith}
use libshmipc.Base.Word.{pos, sub64}
use libshmipc.Common.{valid}
use libshmipc.Utils.{ipc_timespec_to_nanos}
use libshmipc.Channel.Read.{to_timespec}

-- For a timeout in nanoseconds that is not over, the remaining time has a number of seconds that fits
-- the type of `tv_sec` and less than 10^9 further nanoseconds, as the futex asks, and it is exactly
-- the difference, without wrap-around.
pub remaining_timeout_in_range :
    (timeout_ns elapsed_ns : ℕ)
    → timeout_ns < 2 ^ 64
    → elapsed_ns < timeout_ns
    → let remaining = to_timespec (sub64 timeout_ns elapsed_ns) in
      ((sec nsec : ℕ) × (remaining.tv_sec ≡ pos sec)
        × (remaining.tv_nsec ≡ pos nsec)
        × (sec < 2 ^ 63)
        × (nsec < 1_000_000_000))
      × (ipc_timespec_to_nanos valid remaining ≡ timeout_ns - elapsed_ns)
unfolding ipc_timespec_to_nanos
remaining_timeout_in_range timeout_ns elapsed_ns fits running =
    ((_, _, refl, refl, omega arith, omega arith), omega arith)
