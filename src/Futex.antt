-- ===== src/Futex.antt =====
-- core/src/ipc_futex.c: the wrappers of the futex on Linux. The other branch of the file, for macOS, is
-- not built there.
pub mod Apple
use libshmipc.Base.{ℕ, ◌||◌, ◌==◌, if◌then◌else◌}
use libshmipc.System.{Answer, returned, raised, eintr, eagain}

-- `ipc_futex_wait`, for the answer of `syscall(SYS_futex, addr, FUTEX_WAIT, expected, timeout)`; a
-- failure returns -1, which is not 0.
unfoldable pub ipc_futex_wait : Answer ℕ → ℕ
ipc_futex_wait (returned res) = res
ipc_futex_wait (raised errno) = if errno == eagain || errno == eintr then 0 else errno

-- `ipc_futex_wake_one` and `ipc_futex_wake_all` pass on what the call returns for at most 1, or
-- `INT_MAX`, waiters.
abbrev pub int_max : ℕ
int_max = 2_147_483_647

unfoldable pub ipc_futex_wake_one : (ℕ → Answer ℕ) → Answer ℕ
ipc_futex_wake_one futex_wake = futex_wake 1

unfoldable pub ipc_futex_wake_all : (ℕ → Answer ℕ) → Answer ℕ
ipc_futex_wake_all futex_wake = futex_wake int_max
