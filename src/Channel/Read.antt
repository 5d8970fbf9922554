-- ===== src/Channel/Read.antt =====
-- core/src/ipc_channel.c: `ipc_channel_read`.
pub mod Refine
pub mod Waits
pub mod Rounds
pub mod Interleaved
pub mod Timeout
use libshmipc.Base.{
  ◌%◌, ◌/◌, false, true, ◌&&◌, Bool, ℕ, List, [], ◌∷◌, Option, none, some, not, ◌||◌, ◌==◌, leb,
  if◌then◌else◌,
}
use libshmipc.Base.Word.{pos, is_below_zero, sub64}
use libshmipc.Common.{
  error_body, Status, empty, err_not_ready, err_locked, err_corrupted, ipc_status, is_ok,
  err_invalid_argument, err_system, err_timeout, Pointer, null, valid, IpcEntry,
}
use libshmipc.Utils.{nanos_per_sec, Timespec, ipc_timespec_to_nanos}
use libshmipc.System.{Answer, returned, raised, etimedout}
use libshmipc.Futex.{ipc_futex_wait}
use libshmipc.Buffer.Peek.{ipc_buffer_peek}
use libshmipc.Channel.State.{IpcChannel, ChannelShm, guarded}
use libshmipc.Channel.TryRead.{
  IpcChannelReadResult, ChannelOutcome, no_read_error, Turn, try_read, no_entry,
}

-- `_is_retry_status` and `_is_error_status`
unfoldable pub is_retry_status : Status → Bool
is_retry_status err_not_ready = true
is_retry_status empty = true
is_retry_status err_corrupted = true
is_retry_status err_locked = true
is_retry_status _ = false

unfoldable pub is_error_status : Status → Bool
is_error_status status = not (is_ok status) && not (is_retry_status status)

-- What `clock_gettime` answers: a time, or `errno`.
pub data Clock : Type 0 where
  at_time : Timespec → Clock
  clock_failed : ℕ → Clock

-- What one round of the loop meets: what other threads do before its peek, the bytes in the local
-- variable `peek_entry`, the rounds of its `_try_read`, the answer of the clock, what other threads
-- do before the counter is loaded and until the wait is over, the answer of the futex's system call
-- for the counter and the timeout that it is given, and `errno` where that call does not set it.
pub record Wait : Type 0 where
  pub before_peek : ChannelShm → ChannelShm
  pub peek_entry : IpcEntry
  pub turns : List Turn
  pub clock : Clock
  pub before_load : ChannelShm → ChannelShm
  pub futex : ℕ → Timespec → Answer ℕ
  pub during_wait : ChannelShm → ChannelShm
  pub errno_before : ℕ

-- `errno` after a system call.
abbrev pub errno_after : ℕ → Answer ℕ → ℕ
errno_after before (returned res) = before
errno_after before (raised errno) = errno

-- `remaining_timeout`
abbrev pub to_timespec : ℕ → Timespec
to_timespec ns = record { tv_sec = pos (ns / nanos_per_sec); tv_nsec = pos (ns % nanos_per_sec) }

-- What `error` holds, but the offset.
unfoldable pub read_failure : Status → Timespec → ℕ → ℕ → IpcChannelReadResult
read_failure status timeout offset errno =
    error_body status (record { offset = offset; timeout_used = timeout; sys_errno = errno })

-- The end of a round, for which there was nothing to read: the clock, and the wait. `again` is the
-- next round.
unfoldable pub wait_round :
    Wait
    → ℕ
    → ℕ
    → Timespec
    → ℕ
    → (ChannelShm → Option ChannelOutcome)
    → IpcEntry
    → ChannelShm
    → Option ChannelOutcome
wait_round w start_ns timeout_ns timeout offset again dest c = elim w.clock [
  | clock_failed errno ↦ some (read_failure err_system timeout offset errno, dest, c)
  | at_time now ↦
      let elapsed_ns = sub64 (ipc_timespec_to_nanos valid now) start_ns in
      if leb timeout_ns elapsed_ns
      then some (read_failure err_timeout timeout offset 0, dest, c)
      else (let c' = w.before_load c in
          let answer = w.futex c'.notify (to_timespec (sub64 timeout_ns elapsed_ns)) in
          let wait_res = ipc_futex_wait answer in
          if not (wait_res == 0) && not (wait_res == etimedout)
          then some (
            read_failure err_system timeout offset (errno_after w.errno_before answer),
            dest,
            w.during_wait c',
          )
          else again (w.during_wait c'))
]

-- What follows the peek of a round, which has the status `peeked` and left `offset` in
-- `peek_entry`, and a `_try_read` that did not end the call.
unfoldable pub after_try :
    Wait
    → ℕ
    → ℕ
    → Timespec
    → Status
    → ℕ
    → (ChannelShm → Option ChannelOutcome)
    → IpcEntry
    → ChannelShm
    → Option ChannelOutcome
after_try w start_ns timeout_ns timeout peeked offset again dest c =
    if not (is_retry_status peeked)
    then some (read_failure peeked timeout offset 0, dest, c)
    else wait_round w start_ns timeout_ns timeout offset again dest c

-- The loop, a round for each wait; `none` when it is still running after the last. `found` is
-- `read_entry`; `fuel` is that of the buffer's operations.
unfoldable pub read_rounds :
    ℕ
    → List Wait
    → Option IpcChannel
    → ℕ
    → ℕ
    → Timespec
    → IpcEntry
    → IpcEntry
    → ChannelShm
    → Option ChannelOutcome
read_rounds fuel [] channel start_ns timeout_ns timeout found dest c = none
read_rounds fuel (w ∷ waits) channel start_ns timeout_ns timeout found dest c =
    let c' = w.before_peek c in
    let again : IpcEntry → ChannelShm → Option ChannelOutcome =
      λ found. read_rounds fuel waits channel start_ns timeout_ns timeout found dest in
    elim (ipc_buffer_peek fuel valid valid w.peek_entry c'.buffer) [
      | none ↦ none
      | some (r, seen, s) ↦
          let rest = after_try w start_ns timeout_ns timeout (ipc_status r) seen.offset in
          if is_ok (ipc_status r)
          then elim (try_read fuel w.turns channel valid found (record c' { buffer = s })) [
            | none ↦ none
            | some (r', found', c'') ↦
                if is_error_status (ipc_status r')
                then some (r', dest, c'')
                else if is_ok (ipc_status r')
                then some (r', found', c'')
                else rest (again found') dest c''
          ]
          else rest (again found) dest (record c' { buffer = s })
    ]

-- What follows the checks of the arguments: the first look at the clock, and the loop.
unfoldable pub timed_read :
    ℕ
    → List Wait
    → Clock
    → Option IpcChannel
    → Timespec
    → IpcEntry
    → ChannelShm
    → Option ChannelOutcome
timed_read fuel waits start channel timeout dest c = elim start [
  | clock_failed errno ↦ some (read_failure err_system timeout 0 errno, dest, c)
  | at_time now ↦
      read_rounds fuel waits channel (ipc_timespec_to_nanos valid now)
        (ipc_timespec_to_nanos valid timeout) timeout no_entry dest c
]

-- `to` is the pointer and `dest` the entry behind it; `timeout` is `none` for NULL; `start` is the
-- first answer of the clock.
unfoldable pub ipc_channel_read :
    ℕ
    → List Wait
    → Clock
    → Option IpcChannel
    → Pointer
    → Option Timespec
    → IpcEntry
    → ChannelShm
    → Option ChannelOutcome
ipc_channel_read fuel waits start channel to timeout dest c =
    let invalid = some (error_body err_invalid_argument no_read_error, dest, c) in
    guarded channel (λ status. some (error_body status no_read_error, dest, c))
      (elim to [
        | null ↦ invalid
        | valid ↦ elim timeout [
          | none ↦ invalid
          | some t ↦
              if is_below_zero t.tv_nsec || is_below_zero t.tv_sec
              then invalid
              else timed_read fuel waits start channel t dest c
        ]
      ])
