-- ===== src/Tests/Channels.antt =====
-- The theorems on channels at concrete inputs where their hypotheses hold.
use libshmipc.Channel.Read.Timeout.{remaining_timeout_in_range}
use libshmipc.Base.{◌-◌, ◌^◌, ◌<◌, ◌≤◌, ℕ, ◌≡◌, refl, none, some, [], ◌∷◌, arith, length, inl}
use libshmipc.Base.Word.{pos, sub64}
use libshmipc.Common.{success, valid, ok, error_body, IpcEntry, nothing, allocated}
use libshmipc.Utils.{ipc_timespec_to_nanos, Timespec}
use libshmipc.Buffer.Layout.{Holds}
use libshmipc.Buffer.Create.{handle_at}
use libshmipc.Channel.State.{ChannelShm}
use libshmipc.Channel.Open.{ipc_channel_create}
use libshmipc.Channel.Open.Outcome.{
  ChannelCreateSpec, channel_create_refines, channel_create_diverges,
}
use libshmipc.Channel.Write.{IpcChannelWriteResult, ipc_channel_write}
use libshmipc.Channel.Write.Refine.{ChannelWrote, channel_write_refines}
use libshmipc.Channel.TryRead.{
  IpcChannelReadError, Turn, no_entry, try_read_rounds, ipc_channel_try_read,
}
use libshmipc.Channel.TryRead.Refine.{quiet, TryReadSpec, try_read_refines}
use libshmipc.Channel.TryRead.Rounds.{AtRest, Tame, Returns}
use libshmipc.Channel.TryRead.Interleaved.{try_read-Returns}
use libshmipc.Channel.Read.{to_timespec, Wait, at_time, ipc_channel_read}
use libshmipc.Channel.Read.Refine.{
  elapsed, connected, quiet_wait, ChannelReadSpec, channel_read_refines, read_ok_without_entry,
}
use libshmipc.Futex.{ipc_futex_wait}
use libshmipc.Channel.Read.Waits.{Idle, Arrival, Received, read-waits}
use libshmipc.Channel.Look.{ipc_channel_peek, ipc_channel_skip}
use libshmipc.Channel.Look.Refine.{channel_peek_then_skip}
use libshmipc.Tests.States.{fresh-Holds, fresh, raw, hello, one_message, one_message-Holds}

abbrev unopened : ChannelShm
unopened = record { notify = 3; wakes = 0; buffer = raw }

abbrev pub channel : ChannelShm
channel = record { notify = 1; wakes = 1; buffer = one_message }

-- A local variable that is not initialised.
abbrev pub garbage : IpcEntry
garbage = record { offset = 77; payload = nothing; size = 5 }

abbrev pub at_second : ℕ → Timespec
at_second n = record { tv_sec = pos n; tv_nsec = pos 0 }

-- What another reader does, who takes the oldest payload.
abbrev pub other_reader : ChannelShm → ChannelShm
other_reader c =
    elim (ipc_channel_try_read 2 (quiet (λ i. 0) garbage ∷ []) (connected 4096 (handle_at 4160))
      valid no_entry c) [ none ↦ c | some (r, dest, c') ↦ c' ]

pub other_reader-takes :
    (c : ChannelShm) → Holds 7 (hello ∷ []) c.buffer → Holds 7 [] (other_reader c).buffer
other_reader-takes c h =
    let (r, dest, c', e, kept, (done, payload, size, next, holds)) =
      try_read_refines c 0 (λ i. 0) garbage [] no_entry 4096 (handle_at 4160) h in
    rw (other_reader, e) holds

pub other_reader-tame : (c : ChannelShm) → AtRest 7 c → AtRest 7 (other_reader c)
other_reader-tame c ([], h) =
    let (r, dest, c', e, kept, (done, same, holds)) =
      try_read_refines c 0 (λ i. 0) garbage [] no_entry 4096 (handle_at 4160) h in
    ([], rw (other_reader, e) holds)
other_reader-tame c (xs ∷ q, h) =
    let (r, dest, c', e, kept, (done, payload, size, next, holds)) =
      try_read_refines c 0 (λ i. 0) garbage [] no_entry 4096 (handle_at 4160) h in
    (q, rw (other_reader, e) holds)

-- A turn in which another reader acts between the peek and the read, or before the peek.
abbrev pub raced : Turn
raced = record (quiet (λ i. 0) garbage) { before_read = other_reader }

abbrev pub overtaken : Turn
overtaken = record (quiet (λ i. 0) garbage) { before_peek = other_reader }

pub raced-Tame : Tame 7 raced
raced-Tame = record { peek_side = λ c h. h; read_side = other_reader-tame }

abbrev pub raced_wait : Wait
raced_wait = record (quiet_wait (λ i. 0) garbage (at_second 5)) { turns = overtaken ∷ [] }

pub timeout_is_over :
    ipc_timespec_to_nanos valid (at_second 1) ≤ elapsed (at_second 3) (at_second 5)
unfolding ipc_timespec_to_nanos
timeout_is_over = omega arith

channel_create_refines_example :
    ChannelCreateSpec 4096 320 allocated allocated unopened
      (ipc_channel_create 64 4096 320 allocated allocated unopened)
channel_create_refines_example =
    channel_create_refines 64 4096 320 allocated allocated unopened (omega arith) (omega arith)
      (omega arith)

channel_create_diverges_example :
    ipc_channel_create 1000 4096 63 allocated allocated unopened ≡ none
channel_create_diverges_example =
    channel_create_diverges 1000 4096 63 allocated allocated unopened (omega arith) (omega arith)
      (omega arith)

channel_write_refines_example :
    (r : IpcChannelWriteResult) × (c' : ChannelShm) × (ipc_channel_write 2
        (some (record { header = 4096; buffer = some (handle_at 4160) }))
        (some hello)
        (length hello)
        channel
      ≡ some (r, c'))
    × ChannelWrote 7 (hello ∷ []) hello channel r c'
channel_write_refines_example =
    channel_write_refines {c = channel} hello 0 4096 (handle_at 4160) one_message-Holds
      (omega arith) (omega arith) (omega arith)

try_read_refines_example : TryReadSpec 7 (hello ∷ []) garbage channel (
    ipc_channel_try_read 2
      (quiet (λ i. 9) garbage ∷ [])
      (some (record { header = 4096; buffer = some (handle_at 4160) }))
      valid
      garbage
      channel)
try_read_refines_example =
    try_read_refines channel 0 (λ i. 9) garbage [] garbage 4096 (handle_at 4160) one_message-Holds

try_read-Returns_example :
    Returns 7
      (hello ∷ [])
      (raced ∷ overtaken ∷ [])
      (try_read_rounds 2 (raced ∷ overtaken ∷ []) no_entry channel)
try_read-Returns_example =
    try_read-Returns (hello ∷ []) 0 (raced ∷ []) overtaken [] no_entry channel (raced-Tame, tt)
      (record { peek_side = other_reader-tame; read_side = λ c h. h }) (λ c. refl) (inl refl)
      one_message-Holds

channel_read_refines_example : ChannelReadSpec 7 (hello ∷ []) (at_second 1) garbage channel (
    ipc_channel_read 2
      (quiet_wait (λ i. 9) garbage (at_second 5) ∷ [])
      (at_time (at_second 3))
      (connected 4096 (handle_at 4160))
      valid
      (some (at_second 1))
      garbage
      channel)
channel_read_refines_example =
    channel_read_refines channel 0 (λ i. 9) garbage (at_second 3) (at_second 5) (at_second 1) []
      4096 (handle_at 4160) garbage refl refl one_message-Holds timeout_is_over

read_ok_without_entry_example :
    (e : IpcChannelReadError) × (c' : ChannelShm) × (ipc_channel_read 2
        (raced_wait ∷ [])
        (at_time (at_second 3))
        (connected 4096 (handle_at 4160))
        valid
        (some (at_second 1))
        garbage
        channel
      ≡ some (error_body ok e, garbage, c'))
    × Holds 7 [] c'.buffer
read_ok_without_entry_example =
    read_ok_without_entry channel 0 raced_wait overtaken [] (at_second 3) (at_second 1) [] 4096
      (handle_at 4160) garbage refl refl refl one_message-Holds other_reader-takes

channel_peek_then_skip_example :
    (seen : IpcEntry) × (c' : ChannelShm) × (c'' : ChannelShm) × (ipc_channel_peek 2
        (some (record { header = 4096; buffer = some (handle_at 4160) }))
        valid
        garbage
        channel
      ≡ some (success ok tt, seen, c'))
    × (seen.size ≡ 5)
    × (ipc_channel_skip 1
          (some (record { header = 4096; buffer = some (handle_at 4160) }))
          seen.offset
          c'
        ≡ some (success ok seen.offset, c''))
    × Holds 7 [] c''.buffer
channel_peek_then_skip_example =
    channel_peek_then_skip channel 0 4096 (handle_at 4160) garbage one_message-Holds (omega arith)

-- A round with nothing to read, before the timeout; then another thread writes.
abbrev pub idle_wait : Wait
idle_wait = quiet_wait (λ i. 0) garbage (at_second 3)

idle_wait-Idle :
    Idle 7
      (ipc_timespec_to_nanos valid (at_second 3))
      (ipc_timespec_to_nanos valid (at_second 1))
      idle_wait
unfolding ipc_timespec_to_nanos ipc_futex_wait
idle_wait-Idle = record {
  now = at_second 3;
  clock_says = refl;
  early = omega arith;
  peek_side = λ c h. h;
  load_side = λ c h. h;
  wait_side = λ c h. h;
  wait_ends = λ e t. inl refl;
}

abbrev pub write_arrives : Wait
write_arrives = record idle_wait { before_peek = λ c. channel }

pub write_arrives-Arrival : Arrival 7 hello [] write_arrives
write_arrives-Arrival = record {
  arrives = λ c h. one_message-Holds;
  memory = λ i. 0;
  garbage = garbage;
  undisturbed = refl;
}

abbrev empty_channel : ChannelShm
empty_channel = record { notify = 0; wakes = 0; buffer = fresh }

read-waits_example : Received 7 hello [] (
    ipc_channel_read 2
      (idle_wait ∷ idle_wait ∷ write_arrives ∷ [])
      (at_time (at_second 3))
      (connected 4096 (handle_at 4160))
      valid
      (some (at_second 1))
      garbage
      empty_channel)
read-waits_example =
    read-waits 0 4096 (handle_at 4160) (at_second 3) (at_second 1) (idle_wait ∷ idle_wait ∷ [])
      write_arrives [] garbage empty_channel refl refl (idle_wait-Idle, (idle_wait-Idle, tt))
      write_arrives-Arrival fresh-Holds

remaining_timeout_in_range_example :
    let remaining = to_timespec (sub64 5_000_000_000 1_200_000_000) in
    ((sec nsec : ℕ) × (remaining.tv_sec ≡ pos sec)
      × (remaining.tv_nsec ≡ pos nsec)
      × (sec < 2 ^ 63)
      × (nsec < 1_000_000_000))
    × (ipc_timespec_to_nanos valid remaining ≡ 5_000_000_000 - 1_200_000_000)
remaining_timeout_in_range_example =
    remaining_timeout_in_range 5_000_000_000 1_200_000_000 (omega arith) (omega arith)
