-- ===== src/Channel/Read/Waits.antt =====
-- `ipc_channel_read` over several rounds: it waits on an empty channel until a payload arrives.
use libshmipc.Base.{
  sym, subst, lt→leb, ℕ, suc, ◌+◌, ◌<◌, ◌≡◌, ◌⊎◌, inl, inr, List, [], ◌∷◌, ◌++◌, Option, some,
  length, false,
}
use libshmipc.Base.Word.{is_below_zero, sub64}
use libshmipc.Common.{success, ok, valid, owned, IpcEntry}
use libshmipc.Memory.{Memory}
use libshmipc.Utils.{Timespec, ipc_timespec_to_nanos}
use libshmipc.System.{etimedout}
use libshmipc.Futex.{ipc_futex_wait}
use libshmipc.Buffer.State.{IpcBuffer}
use libshmipc.Buffer.Layout.{Holds, full_size}
use libshmipc.Buffer.Peek.Refine.{peek_refines}
use libshmipc.Channel.State.{ChannelShm, guarded}
use libshmipc.Channel.TryRead.{ChannelOutcome, try_read, no_entry}
use libshmipc.Channel.TryRead.Refine.{quiet, rounds_message}
use libshmipc.Channel.Read.{
  at_time, Wait, to_timespec, is_retry_status, is_error_status, wait_round, after_try, read_rounds,
  timed_read, ipc_channel_read,
}
use libshmipc.Channel.Read.Refine.{connected}

-- A round in which the channel stays empty, the timeout is not over, and the wait ends by a wake-up,
-- a change of the counter, a signal or its timeout.
pub record Idle (k start_ns timeout_ns : ℕ) (w : Wait) : Type 0 where
  pub now : Timespec
  pub clock_says : w.clock ≡ at_time now
  pub early : sub64 (ipc_timespec_to_nanos valid now) start_ns < timeout_ns
  pub peek_side : (c : ChannelShm) → Holds k [] c.buffer → Holds k [] (w.before_peek c).buffer
  pub load_side : (c : ChannelShm) → Holds k [] c.buffer → Holds k [] (w.before_load c).buffer
  pub wait_side : (c : ChannelShm) → Holds k [] c.buffer → Holds k [] (w.during_wait c).buffer
  pub wait_ends :
      (expected : ℕ) (t : Timespec)
      → (ipc_futex_wait (w.futex expected t) ≡ 0)
        ⊎ (ipc_futex_wait (w.futex expected t) ≡ etimedout)

abbrev pub AllIdle : ℕ → ℕ → ℕ → List Wait → Type 0
AllIdle k start_ns timeout_ns [] = Unit {0}
AllIdle k start_ns timeout_ns (w ∷ waits) =
    Idle k start_ns timeout_ns w × AllIdle k start_ns timeout_ns waits

-- A round before whose peek a payload arrives; then no other thread acts, and memory is given.
pub record Arrival (k : ℕ) (xs : List ℕ) (q : List (List ℕ)) (w : Wait) : Type 0 where
  pub arrives : (c : ChannelShm) → Holds k [] c.buffer → Holds k (xs ∷ q) (w.before_peek c).buffer
  pub memory : Memory
  pub garbage : IpcEntry
  pub undisturbed : w.turns ≡ quiet memory garbage ∷ []

-- The call returns the payload, and keeps the rest of the queue.
abbrev pub Received : ℕ → List ℕ → List (List ℕ) → Option ChannelOutcome → Type 0
Received k xs q out =
    (found : IpcEntry) × (c : ChannelShm) × (out ≡ some (success ok tt, found, c))
    × (found.payload ≡ owned xs)
    × (found.size ≡ length xs)
    × (c.buffer.head ≡ found.offset + full_size (length xs))
    × Holds k q c.buffer

-- The end of such a round goes on to the next one.
wait_round-Idle :
    {k start_ns timeout_ns : ℕ} (w : Wait) (timeout : Timespec) (offset : ℕ)
    (again : ChannelShm → Option ChannelOutcome) (dest : IpcEntry) (c : ChannelShm)
    → Idle k start_ns timeout_ns w
    → wait_round w start_ns timeout_ns timeout offset again dest c
      ≡ again (w.during_wait (w.before_load c))
unfolding wait_round
wait_round-Idle {start_ns = start_ns} {timeout_ns = timeout_ns} w timeout offset again dest c i =
    let left : ℕ = sub64 timeout_ns (sub64 (ipc_timespec_to_nanos valid i.now) start_ns) in
    elim (i.wait_ends (w.before_load c).notify (to_timespec left)) [
      | inl woken ↦ rw (wait_round, i.clock_says, lt→leb i.early, woken)
      | inr timed ↦ rw (wait_round, i.clock_says, lt→leb i.early, timed)
    ]

module _ (fuel : ℕ) (header : ℕ) (b : IpcBuffer) (start_ns timeout_ns : ℕ) (timeout : Timespec)
    (dest : IpcEntry) where
  abbrev rounds : List Wait → ChannelShm → Option ChannelOutcome
  rounds waits =
      read_rounds (suc (suc fuel)) waits (connected header b) start_ns timeout_ns timeout no_entry
        dest

  Idle-round :
      {k : ℕ} (w : Wait) (waits : List Wait) (c : ChannelShm)
      → Idle k start_ns timeout_ns w
      → Holds k [] c.buffer
      → (c' : ChannelShm) × (rounds (w ∷ waits) c ≡ rounds waits c') × Holds k [] c'.buffer
  unfolding read_rounds after_try is_retry_status
  Idle-round w waits c i h =
      let (r, seen, s, e, moves, holds, (done, same)) =
        peek_refines fuel w.peek_entry (i.peek_side c h) in
      let c' : ChannelShm = record (w.before_peek c) { buffer = s } in
      (
        w.during_wait (w.before_load c'),
        rw (read_rounds, e, done, after_try)
            (wait_round-Idle w timeout seen.offset (rounds waits) dest c' i),
        i.wait_side (w.before_load c') (i.load_side c' holds),
      )

  Arrival-round :
      {k : ℕ} {xs : List ℕ} {q : List (List ℕ)} (w : Wait) (waits : List Wait) (c : ChannelShm)
      → Arrival k xs q w
      → Holds k [] c.buffer
      → Received k xs q (rounds (w ∷ waits) c)
  unfolding read_rounds try_read guarded is_error_status
  Arrival-round w waits c a h =
      let (r, seen, s, e, moves, holds, (done, at, size, place)) =
        peek_refines fuel w.peek_entry (a.arrives c h) in
      let c' : ChannelShm = record (w.before_peek c) { buffer = s } in
      let (found, s', e', payload, n, next, after, tail) =
        rounds_message fuel a.memory a.garbage [] c' holds in
      (
        found,
        record c' { buffer = s' },
        rw (read_rounds, e, done, try_read, guarded, a.undisturbed, e'),
        payload,
        n,
        next,
        after,
      )

  waiting :
      {k : ℕ} {xs : List ℕ} {q : List (List ℕ)} (waits : List Wait) (w : Wait) (later : List Wait)
      (c : ChannelShm)
      → AllIdle k start_ns timeout_ns waits
      → Arrival k xs q w
      → Holds k [] c.buffer
      → Received k xs q (rounds (waits ++ (w ∷ later)) c)
  waiting [] w later c idle a h = Arrival-round w later c a h
  waiting {k} {xs} {q} (v ∷ waits) w later c (i, idle) a h =
      let (c', e, holds) = Idle-round v (waits ++ (w ∷ later)) c i h in
      subst (Received k xs q) (sym e) (waiting waits w later c' idle a holds)

-- A read with a timeout that is not negative, on an empty channel, waits through any number of rounds
-- in which the channel stays empty, the timeout is not over and the waits end, and returns in the
-- round before whose peek a payload has arrived, if no other thread acts after that and memory is
-- given: the result is `ok`, the destination has exactly the bytes of that payload, and the rest of
-- the queue is kept.
pub read-waits :
    {k : ℕ} {xs : List ℕ} {q : List (List ℕ)} (fuel header : ℕ) (b : IpcBuffer)
    (start timeout : Timespec) (waits : List Wait) (w : Wait) (later : List Wait) (dest : IpcEntry)
    (c : ChannelShm)
    → is_below_zero timeout.tv_nsec ≡ false
    → is_below_zero timeout.tv_sec ≡ false
    → AllIdle k (ipc_timespec_to_nanos valid start) (ipc_timespec_to_nanos valid timeout) waits
    → Arrival k xs q w
    → Holds k [] c.buffer
    → Received k xs q (
        ipc_channel_read
          (suc (suc fuel))
          (waits ++ (w ∷ later))
          (at_time start)
          (connected header b)
          valid
          (some timeout)
          dest
          c)
unfolding ipc_channel_read timed_read guarded
read-waits fuel header b start timeout waits w later dest c nsec sec idle a h =
    rw (ipc_channel_read, guarded, nsec, sec, timed_read)
      (waiting fuel header b (ipc_timespec_to_nanos valid start)
        (ipc_timespec_to_nanos valid timeout) timeout dest waits w later c idle a h)
