-- ===== src/Jni/Retry/Reads.antt =====
-- The loop of `read`: it waits for a payload; and what comes of an error.
use libshmipc.Base.{
  ℕ, suc, ◌^◌, ◌<◌, ◌≤◌, ◌≡◌, ◌≢◌, refl, ◌∙◌, List, [], ◌∷◌, ◌++◌, false, some, length, ne→==,
}
use libshmipc.Base.Word.{ℤ, is_below_zero, to_u64}
use libshmipc.Common.{err_system, IpcEntry, nothing, owned, allocated, valid}
use libshmipc.Memory.{Memory}
use libshmipc.Utils.{Timespec, ipc_timespec_to_nanos}
use libshmipc.Buffer.State.{IpcBuffer}
use libshmipc.Buffer.Layout.{Holds}
use libshmipc.Channel.State.{IpcChannel, ChannelShm, guarded}
use libshmipc.Channel.Read.{
  Wait, Clock, at_time, clock_failed, ipc_channel_read, timed_read, read_failure,
}
use libshmipc.Channel.Read.Refine.{connected, quiet_wait, elapsed, channel_read_refines}
use libshmipc.Channel.Read.Waits.{AllIdle, Arrival, read-waits}
use libshmipc.Jni.State.{Native, JArray, no_array, array, fault, to_array, copy_region}
use libshmipc.Jni.Transfer
use libshmipc.Jni.Transfer.Arrays.{to_array-small, unset_payload_faults}
use libshmipc.Jni.Retry.{get_channel, read_until_answer, read, five_micros}
use libshmipc.Jni.Retry.Writes.{PointsTo}

-- A call that finds nothing: no other thread acts, and the clock says that the five microseconds are
-- over.
pub record TimesOut (call : List Wait × Clock) : Type 0 where
  pub memory : Memory
  pub garbage : IpcEntry
  pub start : Timespec
  pub now : Timespec
  pub waits : List Wait
  pub is : call ≡ (quiet_wait memory garbage now ∷ waits, at_time start)
  pub late : 5000 ≤ elapsed start now

abbrev pub AllTimeOut : List (List Wait × Clock) → Type 0
AllTimeOut [] = Unit {0}
AllTimeOut (call ∷ calls) = TimesOut call × AllTimeOut calls

module _ (fuel header : ℕ) (b : IpcBuffer) where
  abbrev handle : IpcChannel
  handle = record { header = header; buffer = some b }

  -- A call that times out leaves the entry, and the loop goes on.
  timed_out :
      {k : ℕ} (call : List Wait × Clock) (more : List (List Wait × Clock)) (entry : IpcEntry)
      (c : ChannelShm)
      → TimesOut call
      → Holds k [] c.buffer
      → (c' : ChannelShm) × (read_until_answer (suc (suc fuel)) (call ∷ more) handle entry c
          ≡ read_until_answer (suc (suc fuel)) more handle entry c')
        × Holds k [] c'.buffer
  unfolding read_until_answer ipc_timespec_to_nanos
  timed_out call more entry c t h =
      let (r, dest, c', e, kept, (over, same, held)) =
        channel_read_refines c fuel t.memory t.garbage t.start t.now five_micros t.waits header b
          entry refl refl h t.late in
      (c', rw (t.is, read_until_answer, e, over, same), held)

  -- After any number of calls that time out, one in which a payload arrives ends the loop.
  Arrival-ends :
      {k : ℕ} {xs : List ℕ} {q : List (List ℕ)} (calls : List (List Wait × Clock))
      (start : Timespec) (waits : List Wait) (w : Wait) (later : List Wait)
      (more : List (List Wait × Clock)) (entry : IpcEntry) (c : ChannelShm)
      → AllTimeOut calls
      → AllIdle k (ipc_timespec_to_nanos valid start) 5000 waits
      → Arrival k xs q w
      → Holds k [] c.buffer
      → (found : IpcEntry) × (c' : ChannelShm) × (read_until_answer
            (suc (suc fuel))
            (calls ++ ((waits ++ (w ∷ later), at_time start) ∷ more))
            handle
            entry
            c
          ≡ some (found, c'))
        × (found.payload ≡ owned xs)
        × (found.size ≡ length xs)
        × Holds k q c'.buffer
  unfolding read_until_answer ipc_timespec_to_nanos
  Arrival-ends [] start waits w later more entry c over idle a h =
      let (found, c', e, payload, size, next, held) =
        read-waits fuel header b start five_micros waits w later entry c refl refl idle a h in
      (found, c', rw (read_until_answer, e), payload, size, held)
  Arrival-ends (call ∷ calls) start waits w later more entry c (t, over) idle a h =
      let (c1, e, h1) =
        timed_out call (calls ++ ((waits ++ (w ∷ later), at_time start) ∷ more)) entry c t h in
      let (found, c', e', payload, size, held) =
        Arrival-ends calls start waits w later more entry c1 over idle a h1 in
      (found, c', e ∙ e', payload, size, held)

-- The method `read` on an empty channel goes on through any number of calls that time out, and returns
-- in the call in which a payload arrives, if that has between 1 and 2^31 - 1 bytes, no other thread
-- acts in the calls before and after its arrival, and memory is given: Java gets exactly its bytes,
-- and the rest of the queue is kept.
pub retry_read_waits :
    {k : ℕ} {xs : List ℕ} {q : List (List ℕ)} (n : Native) (fuel header : ℕ) (b : IpcBuffer)
    (calls : List (List Wait × Clock)) (start : Timespec) (waits : List Wait) (w : Wait)
    (later : List Wait) (more : List (List Wait × Clock)) (entry : IpcEntry) (field : ℤ)
    → PointsTo field header b n
    → 0 < length xs
    → length xs < 2 ^ 31
    → AllTimeOut calls
    → AllIdle k (ipc_timespec_to_nanos valid start) 5000 waits
    → Arrival k xs q w
    → Holds k [] n.shm.buffer
    → (c' : ChannelShm) × (read
          (suc (suc fuel))
          (calls ++ ((waits ++ (w ∷ later), at_time start) ∷ more))
          entry
          allocated
          field
          n
        ≡ some (array xs, record n { shm = c' }))
      × Holds k q c'.buffer
unfolding read
retry_read_waits {xs = xs} n fuel header b calls start waits w later more entry field (at, there)
      some_bytes small over idle a h =
    let (found, c', e, payload, size, held) =
      Arrival-ends fuel header b calls start waits w later more entry n.shm over idle a h in
    (
      c',
      rw (
        read,
        ne→== (get_channel field) 0 at,
        there,
        e,
        to_array-small xs found c'.buffer.region some_bytes small payload size,
      ),
      held,
    )

clock_error :
    (fuel errno header : ℕ) (b : IpcBuffer) (waits : List Wait) (timeout : Timespec)
    (entry : IpcEntry) (c : ChannelShm)
    → is_below_zero timeout.tv_nsec ≡ false
    → is_below_zero timeout.tv_sec ≡ false
    → ipc_channel_read fuel waits
        (clock_failed errno)
        (connected header b)
        valid
        (some timeout)
        entry
        c
      ≡ some (read_failure err_system timeout 0 errno, entry, c)
unfolding ipc_channel_read timed_read guarded
clock_error fuel errno header b waits timeout entry c nsec sec =
    rw (ipc_channel_read, guarded, nsec, sec, timed_read)

-- When the clock fails in a call, the method `read` does not look at the error: it makes an array of
-- what stands in the local variable `entry`, which nobody has set. If that has a size between 1 and
-- 2^31 - 1 and a payload of NULL, it reads through NULL. The variant without the loop returns NULL
-- there.
pub retry_read_uninitialised :
    (n : Native) (fuel errno header : ℕ) (b : IpcBuffer) (waits : List Wait)
    (more : List (List Wait × Clock)) (entry : IpcEntry) (field : ℤ)
    → PointsTo field header b n
    → (read fuel ((waits, clock_failed errno) ∷ more) entry allocated field n
        ≡ some (to_array allocated entry n.shm.buffer.region, n))
      × (entry.payload ≡ nothing
          → 0 < entry.size
          → entry.size < 2 ^ 31
          → to_array allocated entry n.shm.buffer.region ≡ fault)
      × (Transfer.read fuel waits (clock_failed errno) entry allocated field n ≡ some (no_array, n))
unfolding read read_until_answer Transfer.read Transfer.answer_read read_failure get_channel
    libshmipc.Jni.State.get_channel
retry_read_uninitialised n fuel errno header b waits more entry field (at, there) =
    let not_null : to_u64 field ≢ 0 = at in
    let stands : n.heap (to_u64 field) ≡ record { header = header; buffer = some b } = there in
    (
      rw (
        read,
        get_channel,
        ne→== (to_u64 field) 0 not_null,
        stands,
        read_until_answer,
        clock_error fuel errno header b waits five_micros entry n.shm refl refl,
        read_failure,
      ),
      unset_payload_faults entry n.shm.buffer.region,
      rw (
        Transfer.read,
        libshmipc.Jni.State.get_channel,
        ne→== (to_u64 field) 0 not_null,
        stands,
        clock_error fuel errno header b waits Transfer.one_second entry n.shm refl refl,
        Transfer.answer_read,
        read_failure,
      ),
    )
