-- ===== src/Channel/Read/Interleaved.antt =====
-- `ipc_channel_read` while other threads write, read and skip between its calls of the buffer.
use libshmipc.Base.{
  ℕ, suc, ◌<◌, ◌≡◌, ◌⊎◌, inl, inr, refl, List, [], ◌∷◌, ◌++◌, subst, Option, some, false, not, ◌&&◌,
  ◌==◌, le→leb, lt→leb, dec_le, Bool-cases, arith, sym,
}
use libshmipc.Base.Word.{is_below_zero, sub64}
use libshmipc.Common.{ok, err_system, err_timeout, valid, IpcEntry}
use libshmipc.Utils.{Timespec, ipc_timespec_to_nanos}
use libshmipc.System.{Answer, etimedout}
use libshmipc.Futex.{ipc_futex_wait}
use libshmipc.Buffer.State.{IpcBuffer}
use libshmipc.Buffer.Layout.{Holds}
use libshmipc.Buffer.Peek.Refine.{peek_refines}
use libshmipc.Channel.State.{ChannelShm, guarded}
use libshmipc.Channel.TryRead.{ChannelOutcome, try_read, no_entry}
use libshmipc.Channel.TryRead.Rounds.{
  AtRest, AllocationFails, AllocationFails-append, SomeEmpties, SomeEmpties-append,
}
use libshmipc.Channel.TryRead.Interleaved.{try_read-Returns}
use libshmipc.Channel.Read.{
  at_time, Wait, errno_after, to_timespec, is_retry_status, is_error_status, read_failure,
  wait_round, after_try, read_rounds, timed_read, ipc_channel_read,
}
use libshmipc.Channel.Read.Refine.{connected}
use libshmipc.Channel.Read.Rounds.{
  TameWait, AllTameWaits, IsOver, IsLate, SystemFails, ReadReturns, GoesOn, ReadReturns-later,
  futex_failed, not_over, Clock-cases,
}

module _ (start_ns timeout_ns : ℕ) (timeout : Timespec) (dest : IpcEntry) where
  -- The end of a round.
  wait_round-returns :
      {k : ℕ} (w : Wait) (later : List Wait) (offset : ℕ)
      (again : ChannelShm → Option ChannelOutcome) (c : ChannelShm)
      → TameWait k w
      → IsOver start_ns timeout_ns w ⊎ GoesOn k start_ns timeout_ns (w ∷ later) dest again
      → AtRest k c
      → ReadReturns k start_ns timeout_ns
          (w ∷ later)
          dest
          (wait_round w start_ns timeout_ns timeout offset again dest c)
  unfolding wait_round read_failure
  wait_round-returns {k} w later offset again c tame how rest = elim (Clock-cases w.clock) [
    | inl (errno, e) ↦
        let fails : SystemFails w = inl (errno, e) in
        (
          read_failure err_system timeout offset errno,
          dest,
          c,
          rw (wait_round, e) refl,
          inr (refl, inr (inl (refl, inl fails, rest))),
        )
    | inr (now, e) ↦
        let passed : ℕ = sub64 (ipc_timespec_to_nanos valid now) start_ns in
        elim (dec_le timeout_ns passed) [
          | yes late ↦
              let over : IsLate start_ns timeout_ns w = (now, e, late) in
              (
                read_failure err_timeout timeout offset 0,
                dest,
                c,
                rw (wait_round, e, le→leb late) refl,
                inr (refl, inl (refl, inl over, rest)),
              )
          | no early ↦
              let soon : passed < timeout_ns = omega arith in
              let c' : ChannelShm = w.before_load c in
              let answer : Answer ℕ = w.futex c'.notify (to_timespec (sub64 timeout_ns passed)) in
              let res : ℕ = ipc_futex_wait answer in
              let rest' : AtRest k (w.during_wait c') = tame.wait_side c' (tame.load_side c rest) in
              elim (Bool-cases (not (res == 0) && not (res == etimedout))) [
                | inl bad ↦
                    let (waited, no_timeout) = futex_failed res bad in
                    let fails : SystemFails w = inr (inr (_, _, waited, no_timeout)) in
                    (
                      read_failure err_system timeout offset (errno_after w.errno_before answer),
                      dest,
                      w.during_wait c',
                      rw (wait_round, e, lt→leb soon, bad) refl,
                      inr (refl, inr (inl (refl, inl fails, rest'))),
                    )
                | inr fine ↦
                    let same : wait_round w start_ns timeout_ns timeout offset again dest c
                        ≡ again (w.during_wait c') =
                      rw (wait_round, e, lt→leb soon, fine) refl in
                    elim how [
                      | inl over ↦ absurd (not_over start_ns timeout_ns w now over e soon)
                      | inr goes ↦
                          subst (λ out. ReadReturns k start_ns timeout_ns (w ∷ later) dest out)
                            (sym same) (goes (w.during_wait c') rest')
                    ]
              ]
        ]
  ]

  module _ (fuel header : ℕ) (b : IpcBuffer) where
    abbrev rounds : List Wait → ChannelShm → Option ChannelOutcome
    rounds waits =
        read_rounds (suc (suc fuel)) waits (connected header b) start_ns timeout_ns timeout no_entry
          dest

    -- A round.
    round-returns :
        {k : ℕ} (q : List (List ℕ)) (w : Wait) (waits run : List Wait) (c : ChannelShm)
        → TameWait k w
        → IsOver start_ns timeout_ns w ⊎ GoesOn k start_ns timeout_ns (w ∷ run) dest (rounds waits)
        → Holds k q (w.before_peek c).buffer
        → ReadReturns k start_ns timeout_ns (w ∷ run) dest (rounds (w ∷ waits) c)
    unfolding read_rounds after_try is_retry_status is_error_status try_read guarded read_failure
    round-returns [] w waits run c tame how h =
        let (r, seen, s, e, moves, holds, (done, same)) = peek_refines fuel w.peek_entry h in
        rw (read_rounds, e, done, after_try)
          (wait_round-returns w run seen.offset (rounds waits)
            (record (w.before_peek c) { buffer = s }) tame how ([], holds))
    round-returns {k} (xs ∷ q) w waits run c tame how h =
        let (r, seen, s, e, moves, holds, (done, at, size, place)) =
          peek_refines fuel w.peek_entry h in
        let c' : ChannelShm = record (w.before_peek c) { buffer = s } in
        let (r', found, c'', e', how') =
          try_read-Returns (xs ∷ q) fuel tame.disturbed tame.calm tame.later no_entry c'
            tame.disturbed_Tame tame.calm_Tame tame.is_Calm (inl refl) holds in
        elim how' [
          | inl (is, delivered) ↦
              rw (read_rounds, e, done, try_read, guarded, tame.in_turn, e', is)
                (_, _, _, refl, inl (refl, delivered))
          | inr (inl (is, inl no_start, none_left)) ↦ cc
          | inr (inl (is, inr taken, none_left)) ↦
              let emptied : SomeEmpties k w.turns =
                subst (SomeEmpties k) (sym tame.in_turn)
                  (SomeEmpties-append k tame.disturbed tame.calm tame.later taken) in
              (
                read_failure ok timeout seen.offset 0,
                dest,
                c'',
                rw (read_rounds, e, done, try_read, guarded, tame.in_turn, e', is, done, after_try)
                    refl,
                inr (refl, inr (inr (refl, refl, inl emptied, none_left))),
              )
          | inr (inr (failed, bad, rest)) ↦
              let fails : AllocationFails w.turns =
                subst AllocationFails (sym tame.in_turn)
                  (AllocationFails-append tame.disturbed tame.calm tame.later bad) in
              let system : SystemFails w = inr (inl fails) in
              (
                r',
                dest,
                c'',
                rw (read_rounds, e, done, try_read, guarded, tame.in_turn, e', failed) refl,
                inr (refl, inr (inl (failed, inl system, rest))),
              )
        ]

    rounds-ReadReturns :
        {k : ℕ} (waits : List Wait) (w : Wait) (later : List Wait) (c : ChannelShm)
        → AllTameWaits k waits
        → TameWait k w
        → IsOver start_ns timeout_ns w
        → AtRest k c
        → ReadReturns k start_ns timeout_ns
            (waits ++ (w ∷ []))
            dest
            (rounds (waits ++ (w ∷ later)) c)
    rounds-ReadReturns [] w later c others tame over rest =
        let (q, h) = tame.peek_side c rest in round-returns q w later [] c tame (inl over) h
    rounds-ReadReturns {k} (v ∷ waits) w later c (unrest, others) tame over rest =
        let (q, h) = unrest.peek_side c rest in
        round-returns q v (waits ++ (w ∷ later)) (waits ++ (w ∷ [])) c unrest
          (inr (λ c rest.
            ReadReturns-later k start_ns timeout_ns v (waits ++ (w ∷ [])) dest _
              (rounds-ReadReturns waits w later c others tame over rest)))
          h

-- Other threads may do anything between the calls of the buffer that leaves it at rest, if in each round
-- they do nothing between the peek and the read of one turn of `_try_read`. A read with a timeout that
-- is not negative then returns, in the first round in which the clock fails or says that the timeout is
-- over or before, whatever the futex answers, if there is fuel for one restart. The result is `ok`, and
-- the destination has a payload that was the oldest one when the buffer was read, which is then out of
-- the queue. Or the destination is as it was, and of the rounds up to that one, the status is
-- `err_timeout`, and in one of them the clock says that the timeout is over; or it is `err_system`, and
-- in one of them the clock, an allocation or the wait of the futex fails; or the result is an
-- error with the status `ok`, the queue is empty, and other threads have emptied one in a turn of one of
-- them. No other error comes out.
pub channel_read-ReadReturns :
    {k : ℕ} (fuel header : ℕ) (b : IpcBuffer) (start timeout : Timespec) (waits : List Wait)
    (w : Wait) (later : List Wait) (dest : IpcEntry) (c : ChannelShm)
    → is_below_zero timeout.tv_nsec ≡ false
    → is_below_zero timeout.tv_sec ≡ false
    → AllTameWaits k waits
    → TameWait k w
    → IsOver (ipc_timespec_to_nanos valid start) (ipc_timespec_to_nanos valid timeout) w
    → AtRest k c
    → ReadReturns k
        (ipc_timespec_to_nanos valid start)
        (ipc_timespec_to_nanos valid timeout)
        (waits ++ (w ∷ []))
        dest
        (ipc_channel_read
          (suc (suc fuel))
          (waits ++ (w ∷ later))
          (at_time start)
          (connected header b)
          valid
          (some timeout)
          dest
          c)
unfolding ipc_channel_read timed_read guarded
channel_read-ReadReturns fuel header b start timeout waits w later dest c nsec sec others tame over
      rest =
    rw (ipc_channel_read, guarded, nsec, sec, timed_read)
      (rounds-ReadReturns (ipc_timespec_to_nanos valid start) (ipc_timespec_to_nanos valid timeout)
        timeout dest fuel header b waits w later c others tame over rest)
