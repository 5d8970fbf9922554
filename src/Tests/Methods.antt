-- ===== src/Tests/Methods.antt =====
-- The theorems on the native methods `read` and `write` at concrete inputs where their hypotheses hold.
use libshmipc.Base.{
  ℕ, zero, suc, ◌∷◌, ◌≡◌, ◌<◌, ◌^◌, refl, List, [], some, none, arith, length, inl, inr,
}
use libshmipc.Base.Word.{pos}
use libshmipc.Common.{Payload, nothing, allocated}
use libshmipc.Utils.{ipc_timespec_to_nanos}
use libshmipc.Buffer.Create.{handle_at}
use libshmipc.Buffer.Layout.{Holds}
use libshmipc.Channel.State.{ChannelShm}
use libshmipc.Channel.Read.{at_time, clock_failed}
use libshmipc.Channel.Read.Refine.{quiet_wait}
use libshmipc.Jni.State.{Native, get_channel, to_array, array, no_array, fault}
use libshmipc.Jni.Transfer
use libshmipc.Jni.Transfer.Refine.{Connected, JavaReadSpec, java_read_refines}
use libshmipc.Jni.Transfer.Race.{java_read_uninitialised}
use libshmipc.Jni.Retry
use libshmipc.Jni.Retry.Writes.{PointsTo, WrittenOnce, retry_write_waits, retry_write_never_returns}
use libshmipc.Jni.Retry.Reads.{TimesOut, retry_read_waits, retry_read_uninitialised}
use libshmipc.Jni.Conversation.{Turn, says, listens, InOrder}
use libshmipc.Jni.Conversation.Order.{java_conversation}
use libshmipc.Tests.Channels.{
  garbage, at_second, raced_wait, overtaken, other_reader-takes, write_arrives,
  write_arrives-Arrival,
}
use libshmipc.Tests.Java.{finding, empty_channel, opened_at, producer, consumer, second_over}
use libshmipc.Tests.States.{hello, fresh-Holds, one_message, one_message-Holds}

-- A process whose channel has one message.
abbrev reader : Native
reader = opened_at finding 131072 (record empty_channel { buffer = one_message })

there : Connected (pos 8192) 131072 (handle_at 131136) reader
unfolding get_channel
there = record { not_null = omega arith; stands = refl }

java_read_refines_example : JavaReadSpec 7 (hello ∷ []) reader (
    Transfer.read 2
      (quiet_wait (λ i. 9) garbage (at_second 5) ∷ [])
      (at_time (at_second 3))
      garbage
      allocated
      (pos 8192)
      reader)
java_read_refines_example =
    java_read_refines reader 0 (λ i. 9) garbage garbage (at_second 3) (at_second 5) [] (pos 8192)
      131072 (handle_at 131136) there one_message-Holds second_over

java_read_uninitialised_example :
    (c' : ChannelShm) × (Transfer.read 2
        (raced_wait ∷ [])
        (at_time (at_second 3))
        garbage
        allocated
        (pos 8192)
        reader
      ≡ some (to_array allocated garbage c'.buffer.region, record reader { shm = c' }))
    × (◌≡◌ {A = Payload} nothing nothing
        → 0 < 5
        → 5 < 2 ^ 31
        → to_array allocated garbage c'.buffer.region ≡ fault)
    × Holds 7 [] c'.buffer
java_read_uninitialised_example =
    java_read_uninitialised reader 0 raced_wait overtaken [] (at_second 3) [] (pos 8192) 131072
      (handle_at 131136) garbage there refl one_message-Holds other_reader-takes

producer_there : Connected (pos 8192) 65536 (handle_at 65600) producer
unfolding get_channel
producer_there = record { not_null = omega arith; stands = refl }

consumer_there : Connected (pos 8192) 131072 (handle_at 131136) consumer
unfolding get_channel
consumer_there = record { not_null = omega arith; stands = refl }

abbrev turns : List Turn
turns = listens ∷ says hello ∷ says (1 ∷ 2 ∷ []) ∷ listens ∷ says hello ∷ listens ∷ []

java_conversation_example :
    InOrder 7 2
      (quiet_wait (λ i. 9) garbage (at_second 5) ∷ [])
      (at_time (at_second 3))
      garbage
      producer
      (pos 8192)
      consumer
      (pos 8192)
      []
      turns
      empty_channel
java_conversation_example =
    java_conversation turns empty_channel 0 (λ i. 9) garbage garbage (at_second 3) (at_second 5) []
      producer consumer (pos 8192) (pos 8192) 65536 131072 (handle_at 65600) (handle_at 131136)
      producer_there consumer_there second_over fresh-Holds tt
      (omega arith, omega arith, (omega arith, omega arith, (omega arith, omega arith, tt)))
      (omega arith)

abbrev zeros : ℕ → List ℕ
zeros zero = []
zeros (suc n) = 0 ∷ zeros n

points : PointsTo (pos 8192) 131072 (handle_at 131136) reader
unfolding Retry.get_channel
points = (omega arith, refl)

consumer_points : PointsTo (pos 8192) 131072 (handle_at 131136) consumer
unfolding Retry.get_channel
consumer_points = (omega arith, refl)

-- There is no room for 80 bytes behind the message, until another thread has read it.
retry_write_waits_example :
    (c' : ChannelShm) × (Retry.write 2
        ((λ c. c) ∷ (λ c. empty_channel) ∷ [])
        (some (zeros 80))
        (length (zeros 80))
        (pos 8192)
        reader
      ≡ some (record reader { shm = c' }))
    × WrittenOnce 7 2
        (zeros 80)
        (record { header = 131072; buffer = some (handle_at 131136) })
        ((λ c. c) ∷ (λ c. empty_channel) ∷ [])
        reader.shm
        c'
retry_write_waits_example =
    retry_write_waits 7 0 131072 (handle_at 131136) (zeros 80)
      ((λ c. c) ∷ (λ c. empty_channel) ∷ []) (pos 8192) reader points (omega arith) (omega arith)
      (omega arith)
      (
        hello ∷ [],
        one_message-Holds,
        omega arith,
        inr (λ r c' e h. ([], fresh-Holds, omega arith, inl (omega arith, inl (omega arith)))),
      )

-- 90 bytes fit the region of 128, but not together with a header behind them.
retry_write_never_returns_example :
    Retry.write 2
      ((λ c. c) ∷ (λ c. empty_channel) ∷ [])
      (some (zeros 90))
      (length (zeros 90))
      (pos 8192)
      reader
    ≡ none
retry_write_never_returns_example =
    retry_write_never_returns 7 0 131072 (handle_at 131136) (zeros 90)
      ((λ c. c) ∷ (λ c. empty_channel) ∷ []) (pos 8192) reader points (omega arith) (omega arith)
      (omega arith) (omega arith)
      (
        hello ∷ [],
        one_message-Holds,
        omega arith,
        λ r c' e h. ([], fresh-Holds, omega arith, λ r c' e h. tt),
      )

timed_out : TimesOut (quiet_wait (λ i. 9) garbage (at_second 5) ∷ [], at_time (at_second 3))
unfolding ipc_timespec_to_nanos
timed_out = record {
  memory = λ i. 9;
  garbage = garbage;
  start = at_second 3;
  now = at_second 5;
  waits = [];
  is = refl;
  late = omega arith;
}

retry_read_waits_example :
    (c' : ChannelShm) × (Retry.read 2
        ((quiet_wait (λ i. 9) garbage (at_second 5) ∷ [], at_time (at_second 3))
          ∷ (write_arrives ∷ [], at_time (at_second 6))
          ∷ [])
        garbage
        allocated
        (pos 8192)
        consumer
      ≡ some (array hello, record consumer { shm = c' }))
    × Holds 7 [] c'.buffer
retry_read_waits_example =
    retry_read_waits consumer 0 131072 (handle_at 131136)
      ((quiet_wait (λ i. 9) garbage (at_second 5) ∷ [], at_time (at_second 3)) ∷ []) (at_second 6)
      [] write_arrives [] [] garbage (pos 8192) consumer_points (omega arith) (omega arith)
      (timed_out, tt) tt write_arrives-Arrival fresh-Holds

retry_read_uninitialised_example :
    (Retry.read 2 (([], clock_failed 22) ∷ []) garbage allocated (pos 8192) reader
      ≡ some (to_array allocated garbage reader.shm.buffer.region, reader))
    × (◌≡◌ {A = Payload} nothing nothing
        → 0 < 5
        → 5 < 2 ^ 31
        → to_array allocated garbage reader.shm.buffer.region ≡ fault)
    × (Transfer.read 2 [] (clock_failed 22) garbage allocated (pos 8192) reader
        ≡ some (no_array, reader))
retry_read_uninitialised_example =
    retry_read_uninitialised reader 2 22 131072 (handle_at 131136) [] [] garbage (pos 8192) points
