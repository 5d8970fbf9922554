-- ===== src/Tests/Java.antt =====
-- The theorems on the native methods at concrete inputs where their hypotheses hold.
use libshmipc.Base.{
  ◌+◌, ◌^◌, true, length, if◌then◌else◌, ◌==◌, ◌==◌, if◌then◌else◌, ℕ, ◌∷◌, ◌≡◌, ◌≤◌, ◌≢◌, refl,
  List, [], some, none, arith, subst,
}
use libshmipc.Base.Word.{ℤ, pos}
use libshmipc.Jni.Transfer.{write, read}
use libshmipc.Channel.Read.{at_time}
use libshmipc.Channel.Read.Refine.{elapsed, quiet_wait}
use libshmipc.Common.{success, ok, valid, allocated}
use libshmipc.System.{returned, raised, eexist}
use libshmipc.Mmap.{
  IpcMemorySegment, Calls, ipc_mmap, map_created, map_existing, map_segment, build_segment,
}
use libshmipc.Utils.{ipc_timespec_to_nanos, double_until, is_power_of_2, find_next_power_of_2}
use libshmipc.Buffer.Create.Outcome.{initialised}
use libshmipc.Buffer.Create.{handle_at, ipc_buffer_create, build_buffer, ipc_buffer_attach}
use libshmipc.Channel.State.{IpcChannel, ChannelShm}
use libshmipc.Channel.Open.{
  ipc_channel_suggest_size, ipc_channel_create, open_channel, build_channel, ipc_channel_connect,
}
use libshmipc.Jni.State.{Native, to_i64, array}
use libshmipc.Jni.Init.{InitCalls, open_segment, hand_out, after_mmap, init}
use libshmipc.Jni.Init.Outcome.{Sound, InitGives, java_init_refines}
use libshmipc.Jni.Session.{Opening, java_session}
use libshmipc.Tests.Channels.{garbage, at_second}
use libshmipc.Tests.States.{raw, hello}

-- The system calls of a producer, for which an object of 320 bytes is created and mapped at 65536; and
-- of a consumer that finds it and maps it at 131072.
abbrev creating : Calls
creating = record {
  create = returned 3;
  truncate = returned tt;
  stat = returned 320;
  reopen = raised 2;
  map = returned 65536;
  malloc_segment = returned 512;
  malloc_name = returned 600;
  close_errno = λ e. e;
  munmap_errno = λ e. e;
  free_errno = λ e. e;
}

abbrev pub finding : Calls
finding = record creating { create = raised eexist; reopen = returned 4; map = returned 131072 }

abbrev path : List ℕ
path = 47 ∷ 97 ∷ []

abbrev calls_of : Calls → InitCalls
calls_of mapping = record {
  chars = some path;
  mapping = mapping;
  channel_alloc = allocated;
  buffer_alloc = allocated;
  place = 8192;
}

abbrev no_channel : IpcChannel
no_channel = record { header = 0; buffer = none }

-- A process before `init`, with bytes in the memory that was there before.
abbrev unopened : Native
unopened = record {
  heap = λ a. no_channel;
  pinned = 0;
  process = record { descriptors = []; mappings = []; blocks = []; names = [] };
  shm = record { notify = 3; wakes = 0; buffer = raw };
}

abbrev segment_at : ℕ → IpcMemorySegment
segment_at memory = record { address = 512; name = 600; text = path; size = 320; memory = memory }

created : (ipc_mmap creating (some path) 320 unopened.process).0 ≡ success ok (segment_at 65536)
unfolding ipc_mmap map_created map_segment build_segment
created = refl

found : (ipc_mmap finding (some path) 320 unopened.process).0 ≡ success ok (segment_at 131072)
unfolding ipc_mmap map_existing map_segment build_segment
found = refl

suggested : ipc_channel_suggest_size 64 100 ≡ some 320
unfolding ipc_channel_suggest_size find_next_power_of_2 double_until
suggested = refl

promise_kept :
    (calls : Calls) (memory : ℕ)
    → memory ≢ 0
    → (ipc_mmap calls (some path) 320 unopened.process).0 ≡ success ok (segment_at memory)
    → (aligned : ℕ) → ipc_channel_suggest_size 64 100 ≡ some aligned
    → Sound aligned (ipc_mmap calls (some path) aligned unopened.process).0
promise_kept calls memory n mapped aligned e =
    let same : 320 ≡ aligned = cc (suggested, e) in
    subst (λ z. Sound z (ipc_mmap calls (some path) z unopened.process).0) same
      (λ segment is.
        let it : segment_at memory ≡ segment = cc (mapped, is) in
        subst (λ s. (s.address ≢ 0) × (s.memory ≢ 0) × (s.size ≡ 320)) it (omega arith, n, refl))

-- A process once it has a channel in the memory at an address.
abbrev pub opened_at : Calls → ℕ → ChannelShm → Native
opened_at calls memory c = record {
  heap = λ a.
      if a == 8192
      then record { header = memory; buffer = some (handle_at (memory + 64)) }
      else no_channel;
  pinned = 0;
  process = (ipc_mmap calls (some path) 320 unopened.process).1;
  shm = c;
}

abbrev pub empty_channel : ChannelShm
empty_channel = record { notify = 0; wakes = 0; buffer = initialised 128 raw }

abbrev pub producer : Native
producer = opened_at creating 65536 empty_channel

abbrev pub consumer : Native
consumer = opened_at finding 131072 empty_channel

producer_opens : init 64 (calls_of creating) valid (pos 100) 1 unopened ≡ some (pos 8192, producer)
unfolding init after_mmap open_segment hand_out to_i64 ipc_mmap map_created map_segment
    build_segment ipc_channel_suggest_size find_next_power_of_2 ipc_channel_create open_channel
    build_channel ipc_buffer_create build_buffer is_power_of_2 double_until
producer_opens = refl

consumer_opens :
    init 64 (calls_of finding) valid (pos 100) 0 (record unopened { shm = empty_channel })
    ≡ some (pos 8192, consumer)
unfolding init after_mmap open_segment hand_out to_i64 ipc_mmap map_existing map_segment
    build_segment ipc_channel_suggest_size find_next_power_of_2 ipc_channel_connect
    ipc_buffer_attach double_until
consumer_opens = refl

opening : Opening 64 100 1 unopened producer (pos 8192)
opening = record {
  calls = calls_of creating;
  path = path;
  chars = refl;
  place_set = omega arith;
  place_word = omega arith;
  sound = promise_kept creating 65536 (omega arith) created;
  returns = producer_opens;
  answered = λ e. cc;
}

opening' : Opening 64 100 0 (record unopened { shm = producer.shm }) consumer (pos 8192)
opening' = record {
  calls = calls_of finding;
  path = path;
  chars = refl;
  place_set = omega arith;
  place_word = omega arith;
  sound = promise_kept finding 131072 (omega arith) found;
  returns = consumer_opens;
  answered = λ e. cc;
}

pub second_over : 1_000_000_000 ≤ elapsed (at_second 3) (at_second 5)
unfolding ipc_timespec_to_nanos
second_over = omega arith

java_session_example :
    (c' c'' : ChannelShm) × (write 2 (some hello) (length hello) (pos 8192) producer
      ≡ some (record producer { shm = c' }))
    × (read 2
          (quiet_wait (λ i. 9) garbage (at_second 5) ∷ [])
          (at_time (at_second 3))
          garbage
          allocated
          (pos 8192)
          (record consumer { shm = c' })
        ≡ some (array hello, record consumer { shm = c'' }))
java_session_example =
    java_session 64 0 100 100 unopened producer unopened consumer (pos 8192) (pos 8192) hello
      (λ i. 9) garbage garbage (at_second 3) (at_second 5) [] (omega arith) (omega arith)
      (omega arith) (omega arith) opening opening' (omega arith) (omega arith) (omega arith)
      second_over

java_init_refines_example :
    (j : ℕ) × (v : ℤ) × (n' : Native) × (100 ≤ 2 ^ j)
    × (init 64 (calls_of creating) valid (pos 100) 1 unopened ≡ some (v, n'))
    × (n'.pinned ≡ 0)
    × (let (r, p) = ipc_mmap creating (some path) (192 + 2 ^ j) unopened.process in
        (n'.process ≡ p) × InitGives true 100 (calls_of creating) r unopened v n')
java_init_refines_example =
    java_init_refines 64 100 1 (calls_of creating) path unopened (omega arith) (omega arith)
      (omega arith) refl (omega arith) (promise_kept creating 65536 (omega arith) created)
