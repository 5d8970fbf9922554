-- ===== src/Tests/Disturbed.antt =====
-- `ipc_channel_read` among other threads at a concrete input.
use libshmipc.Base.{refl, some, [], ◌∷◌, inr}
use libshmipc.Common.{valid}
use libshmipc.Utils.{ipc_timespec_to_nanos}
use libshmipc.Buffer.Create.{handle_at}
use libshmipc.Channel.TryRead.Refine.{quiet}
use libshmipc.Channel.TryRead.Rounds.{Tame}
use libshmipc.Channel.Read.{Wait, at_time, ipc_channel_read}
use libshmipc.Channel.Read.Refine.{connected, quiet_wait}
use libshmipc.Channel.Read.Rounds.{TameWait, ReadReturns}
use libshmipc.Channel.Read.Interleaved.{channel_read-ReadReturns}
use libshmipc.Tests.Channels.{
  channel, garbage, at_second, other_reader, other_reader-tame, raced, raced-Tame, timeout_is_over,
}
use libshmipc.Tests.States.{hello, one_message-Holds}

-- Two rounds: in the first another reader takes the entry before the look at the queue, in the second
-- between the peek and the read of a turn, and the clock then says that the timeout is over.
abbrev disturbed_wait : Wait
disturbed_wait = record (quiet_wait (λ i. 0) garbage (at_second 3)) {
  before_peek = other_reader;
  turns = raced ∷ quiet (λ i. 0) garbage ∷ [];
}

abbrev last_wait : Wait
last_wait = record (quiet_wait (λ i. 0) garbage (at_second 5)) {
  turns = raced ∷ quiet (λ i. 0) garbage ∷ [];
}

quiet-Tame : Tame 7 (quiet (λ i. 0) garbage)
quiet-Tame = record { peek_side = λ c h. h; read_side = λ c h. h }

disturbed_wait-TameWait : TameWait 7 disturbed_wait
disturbed_wait-TameWait = record {
  peek_side = other_reader-tame;
  load_side = λ c h. h;
  wait_side = λ c h. h;
  disturbed = raced ∷ [];
  calm = quiet (λ i. 0) garbage;
  later = [];
  in_turn = refl;
  disturbed_Tame = (raced-Tame, tt);
  calm_Tame = quiet-Tame;
  is_Calm = λ c. refl;
}

last_wait-TameWait : TameWait 7 last_wait
last_wait-TameWait = record {
  peek_side = λ c h. h;
  load_side = λ c h. h;
  wait_side = λ c h. h;
  disturbed = raced ∷ [];
  calm = quiet (λ i. 0) garbage;
  later = [];
  in_turn = refl;
  disturbed_Tame = (raced-Tame, tt);
  calm_Tame = quiet-Tame;
  is_Calm = λ c. refl;
}

channel_read-ReadReturns_example :
    ReadReturns 7
      (ipc_timespec_to_nanos valid (at_second 3))
      (ipc_timespec_to_nanos valid (at_second 1))
      (disturbed_wait ∷ last_wait ∷ [])
      garbage
      (ipc_channel_read 2
        (disturbed_wait ∷ last_wait ∷ [])
        (at_time (at_second 3))
        (connected 4096 (handle_at 4160))
        valid
        (some (at_second 1))
        garbage
        channel)
channel_read-ReadReturns_example =
    channel_read-ReadReturns 0 4096 (handle_at 4160) (at_second 3) (at_second 1)
      (disturbed_wait ∷ []) last_wait [] garbage channel refl refl (disturbed_wait-TameWait, tt)
      last_wait-TameWait (inr (at_second 5, refl, timeout_is_over)) (hello ∷ [], one_message-Holds)
