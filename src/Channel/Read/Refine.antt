-- ===== src/Channel/Read/Refine.antt =====
-- `ipc_channel_read` on the queue of payloads: alone, and when another reader takes the entry.
use libshmipc.Base.{le→leb, ℕ, suc, ◌+◌, ◌≤◌, ◌≡◌, refl, List, [], ◌∷◌, Option, some, length, false}
use libshmipc.Base.Word.{is_below_zero, sub64}
use libshmipc.Common.{success, error_body, ipc_status, ok, err_timeout, valid, owned, IpcEntry}
use libshmipc.Memory.{Memory}
use libshmipc.System.{returned}
use libshmipc.Utils.{Timespec, ipc_timespec_to_nanos}
use libshmipc.Buffer.State.{IpcBuffer}
use libshmipc.Buffer.Layout.{Holds, full_size}
use libshmipc.Buffer.Peek.Refine.{peek_refines}
use libshmipc.Channel.State.{IpcChannel, ChannelShm, guarded}
use libshmipc.Channel.TryRead.{
  IpcChannelReadError, after_peek, try_read_rounds, IpcChannelReadResult, ChannelOutcome, Turn,
  try_read,
}
use libshmipc.Channel.TryRead.Refine.{quiet, rounds_message}
use libshmipc.Channel.Read.{
  at_time, Wait, is_retry_status, is_error_status, read_failure, wait_round, after_try, read_rounds,
  timed_read, ipc_channel_read,
}

-- A handle with a buffer.
abbrev pub connected : ℕ → IpcBuffer → Option IpcChannel
connected header b = some (record { header = header; buffer = some b })

-- A round in which no other thread does anything, with the time that the clock answers.
abbrev pub quiet_wait : Memory → IpcEntry → Timespec → Wait
quiet_wait memory garbage now = record {
  before_peek = λ c. c;
  peek_entry = garbage;
  turns = quiet memory garbage ∷ [];
  clock = at_time now;
  before_load = λ c. c;
  futex = λ expected timeout. returned 0;
  during_wait = λ c. c;
  errno_before = 0;
}

-- The nanoseconds from one answer of the clock to the other.
abbrev pub elapsed : Timespec → Timespec → ℕ
elapsed start now = sub64 (ipc_timespec_to_nanos valid now) (ipc_timespec_to_nanos valid start)

-- What a channel that is read by one thread hands out: the oldest payload, or a timeout.
abbrev pub ReadOldest :
    ℕ → List (List ℕ) → Timespec → IpcEntry → IpcChannelReadResult → IpcEntry → ChannelShm → Type 0
ReadOldest k [] timeout dest r dest' c' =
    (ipc_status r ≡ err_timeout) × (dest' ≡ dest) × Holds k [] c'.buffer
ReadOldest k (xs ∷ q) timeout dest r dest' c' =
    (r ≡ success ok tt)
    × (dest'.payload ≡ owned xs)
    × (dest'.size ≡ length xs)
    × (c'.buffer.head ≡ dest'.offset + full_size (length xs))
    × Holds k q c'.buffer

abbrev pub ChannelReadSpec :
    ℕ → List (List ℕ) → Timespec → IpcEntry → ChannelShm → Option ChannelOutcome → Type 0
ChannelReadSpec k q timeout dest c out =
    (r : IpcChannelReadResult) × (dest' : IpcEntry) × (c' : ChannelShm) × (out
      ≡ some (r, dest', c'))
    × ((c'.notify ≡ c.notify) × (c'.buffer.tail ≡ c.buffer.tail))
    × ReadOldest k q timeout dest r dest' c'

module _ (fuel : ℕ) (memory : Memory) (garbage : IpcEntry) (start now timeout : Timespec)
    (waits : List Wait) (header : ℕ) (b : IpcBuffer) where
  read_outcome :
      {k : ℕ} (q : List (List ℕ)) (c : ChannelShm) (dest : IpcEntry)
      → is_below_zero timeout.tv_nsec ≡ false
      → is_below_zero timeout.tv_sec ≡ false
      → Holds k q c.buffer
      → ipc_timespec_to_nanos valid timeout ≤ elapsed start now
      → ChannelReadSpec k q timeout dest c (
          ipc_channel_read
            (suc (suc fuel))
            (quiet_wait memory garbage now ∷ waits)
            (at_time start)
            (connected header b)
            valid
            (some timeout)
            dest
            c)
  unfolding guarded ipc_channel_read timed_read read_rounds try_read after_try wait_round
      is_error_status is_retry_status read_failure
  read_outcome [] c dest nsec sec h late =
      let (r, seen, s, e, moves, holds, (done, same)) = peek_refines fuel garbage h in
      (
        read_failure err_timeout timeout seen.offset 0,
        dest,
        record c { buffer = s },
        rw (ipc_channel_read, guarded, nsec, sec, timed_read, read_rounds, e, done, le→leb late)
            refl,
        (refl, rw moves.1 refl),
        (refl, refl, holds),
      )
  read_outcome (xs ∷ q) c dest nsec sec h late =
      let (r, seen, s, e, moves, holds, (done, at, size, place)) = peek_refines fuel garbage h in
      let (found, s', e', payload, n, next, after, tail) =
        rounds_message fuel memory garbage [] (record c { buffer = s }) holds in
      (
        success ok tt,
        found,
        record c { buffer = s' },
        rw (ipc_channel_read, guarded, nsec, sec, timed_read, read_rounds, e, done, try_read, e'),
        (refl, rw tail (rw moves.1 refl)),
        (refl, payload, n, next, after),
      )

-- On a channel whose buffer is at rest and holds the queue `q`, while no other thread does anything
-- and memory is given, a read with a timeout that is not negative returns in its first round, if
-- there is fuel for one restart and the clock then says that the timeout is over. On the empty queue
-- the status is `err_timeout` and the destination is left; otherwise the result is `ok`, the
-- destination has exactly the bytes of the oldest payload, and that payload is out of the queue,
-- however late it is. The counter and the tail are kept.
pub channel_read_refines :
    {k : ℕ} {q : List (List ℕ)} (c : ChannelShm) (fuel : ℕ) (memory : Memory) (garbage : IpcEntry)
    (start now timeout : Timespec) (waits : List Wait) (header : ℕ) (b : IpcBuffer)
    (dest : IpcEntry)
    → is_below_zero timeout.tv_nsec ≡ false
    → is_below_zero timeout.tv_sec ≡ false
    → Holds k q c.buffer
    → ipc_timespec_to_nanos valid timeout ≤ elapsed start now
    → ChannelReadSpec k q timeout dest c (
        ipc_channel_read
          (suc (suc fuel))
          (quiet_wait memory garbage now ∷ waits)
          (at_time start)
          (connected header b)
          valid
          (some timeout)
          dest
          c)
channel_read_refines {q = q} c fuel memory garbage start now timeout waits header b dest =
    read_outcome fuel memory garbage start now timeout waits header b q c dest

-- A read whose peek finds an entry, which another reader takes before the `_try_read` that follows,
-- does not wait and does not time out: it returns an error whose status is `ok`, and the destination
-- is left as it was. The queue is empty by then.
pub read_ok_without_entry :
    {k : ℕ} {xs : List ℕ} {q : List (List ℕ)} (c : ChannelShm) (fuel : ℕ) (w : Wait) (t : Turn)
    (turns : List Turn) (start timeout : Timespec) (waits : List Wait) (header : ℕ) (b : IpcBuffer)
    (dest : IpcEntry)
    → w.turns ≡ t ∷ turns
    → is_below_zero timeout.tv_nsec ≡ false
    → is_below_zero timeout.tv_sec ≡ false
    → Holds k (xs ∷ q) (w.before_peek c).buffer
    → ((c' : ChannelShm) → Holds k (xs ∷ q) c'.buffer → Holds k [] (t.before_peek c').buffer)
    → (e : IpcChannelReadError) × (c' : ChannelShm) × (ipc_channel_read
          (suc (suc fuel))
          (w ∷ waits)
          (at_time start)
          (connected header b)
          valid
          (some timeout)
          dest
          c
        ≡ some (error_body ok e, dest, c'))
      × Holds k [] c'.buffer
unfolding guarded ipc_channel_read timed_read read_rounds try_read try_read_rounds after_peek
    after_try is_error_status is_retry_status read_failure
read_ok_without_entry c fuel w t turns start timeout waits header b dest first nsec sec h taken =
    let (r, seen, s, e, moves, holds, (done, z, y, x)) = peek_refines fuel w.peek_entry h in
    let c' : ChannelShm = record (w.before_peek c) { buffer = s } in
    let (r', seen', s', e', moves', holds', (done', z')) =
      peek_refines fuel t.peek_entry (taken c' holds) in
    (
      record { offset = seen.offset; timeout_used = timeout; sys_errno = 0 },
      record (t.before_peek c') { buffer = s' },
      rw (
        ipc_channel_read, guarded, nsec, sec, timed_read, read_rounds, e, done, try_read, first,
        try_read_rounds, e', done', done, after_try,
      ),
      holds',
    )
