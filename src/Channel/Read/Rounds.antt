-- ===== src/Channel/Read/Rounds.antt =====
-- What the rounds of `ipc_channel_read` may return among other threads, and what these do.
use libshmipc.Base.{
  ℕ, ◌≤◌, ◌<◌, ◌≡◌, ◌⊎◌, inl, inr, refl, List, [], ◌∷◌, ◌++◌, subst, Option, some, false, not, ◌&&◌,
  ◌==◌, arith, ◌≢◌, eq→==, true,
}
use libshmipc.Base.Word.{sub64}
use libshmipc.Common.{success, ipc_status, ok, err_system, err_timeout, valid, IpcEntry, has_body}
use libshmipc.Utils.{Timespec, ipc_timespec_to_nanos}
use libshmipc.System.{etimedout}
use libshmipc.Futex.{ipc_futex_wait}
use libshmipc.Buffer.Layout.{Holds}
use libshmipc.Channel.State.{ChannelShm}
use libshmipc.Channel.TryRead.{IpcChannelReadResult, ChannelOutcome, Turn}
use libshmipc.Channel.TryRead.Rounds.{
  AtRest, Tame, AllTame, Calm, Delivered, AllocationFails, SomeEmpties,
}
use libshmipc.Channel.Read.{Clock, at_time, clock_failed, Wait}

-- What other threads do in a round leaves the buffer at rest, and in one turn of its `_try_read` they do
-- nothing between the peek and the read.
pub record TameWait (k : ℕ) (w : Wait) : Type 0 where
  pub peek_side : (c : ChannelShm) → AtRest k c → AtRest k (w.before_peek c)
  pub load_side : (c : ChannelShm) → AtRest k c → AtRest k (w.before_load c)
  pub wait_side : (c : ChannelShm) → AtRest k c → AtRest k (w.during_wait c)
  pub disturbed : List Turn
  pub calm : Turn
  pub later : List Turn
  pub in_turn : w.turns ≡ disturbed ++ (calm ∷ later)
  pub disturbed_Tame : AllTame k disturbed
  pub calm_Tame : Tame k calm
  pub is_Calm : Calm calm

abbrev pub AllTameWaits : ℕ → List Wait → Type 0
AllTameWaits k [] = Unit {0}
AllTameWaits k (w ∷ waits) = TameWait k w × AllTameWaits k waits

-- The clock of a round fails, or says that the timeout is over.
abbrev pub IsOver : ℕ → ℕ → Wait → Type 0
IsOver start_ns timeout_ns w =
    ((errno : ℕ) × (w.clock ≡ clock_failed errno))
    ⊎ ((now : Timespec) × (w.clock ≡ at_time now)
        × (timeout_ns ≤ sub64 (ipc_timespec_to_nanos valid now) start_ns))

-- The clock of a round says that the timeout is over.
abbrev pub IsLate : ℕ → ℕ → Wait → Type 0
IsLate start_ns timeout_ns w =
    (now : Timespec) × (w.clock ≡ at_time now)
    × (timeout_ns ≤ sub64 (ipc_timespec_to_nanos valid now) start_ns)

-- A system call of a round fails: the clock, an allocation, or the wait of the futex, other than for a
-- timeout or a wait that is to be tried again.
abbrev pub SystemFails : Wait → Type 0
SystemFails w =
    ((errno : ℕ) × (w.clock ≡ clock_failed errno))
    ⊎ AllocationFails w.turns
    ⊎ ((expected : ℕ) × (remaining : Timespec) × (ipc_futex_wait (w.futex expected remaining) ≢ 0)
        × (ipc_futex_wait (w.futex expected remaining) ≢ etimedout))

abbrev pub SomeRound : (Wait → Type 0) → List Wait → Type 0
SomeRound P [] = ⊥
SomeRound P (w ∷ waits) = P w ⊎ SomeRound P waits

-- What the call may return when it takes at most these rounds.
abbrev pub ReadFinished :
    ℕ → ℕ → ℕ → List Wait → IpcEntry → IpcChannelReadResult → IpcEntry → ChannelShm → Type 0
ReadFinished k start_ns timeout_ns waits dest r found c =
    (r ≡ success ok tt) × Delivered k found c
    ⊎ (found ≡ dest)
      × ((ipc_status r ≡ err_timeout) × SomeRound (IsLate start_ns timeout_ns) waits × AtRest k c
          ⊎ (ipc_status r ≡ err_system) × SomeRound SystemFails waits × AtRest k c
          ⊎ (ipc_status r ≡ ok)
            × (has_body r ≡ true)
            × SomeRound (λ w. SomeEmpties k w.turns) waits
            × Holds k [] c.buffer)

abbrev pub ReadReturns : ℕ → ℕ → ℕ → List Wait → IpcEntry → Option ChannelOutcome → Type 0
ReadReturns k start_ns timeout_ns waits dest out =
    (r : IpcChannelReadResult) × (found : IpcEntry) × (c : ChannelShm) × (out ≡ some (r, found, c))
    × ReadFinished k start_ns timeout_ns waits dest r found c

-- The next round returns, whatever the state.
abbrev pub GoesOn : ℕ → ℕ → ℕ → List Wait → IpcEntry → (ChannelShm → Option ChannelOutcome) → Type 0
GoesOn k start_ns timeout_ns waits dest again =
    (c : ChannelShm) → AtRest k c → ReadReturns k start_ns timeout_ns waits dest (again c)

pub ReadReturns-later :
    (k start_ns timeout_ns : ℕ) (w : Wait) (waits : List Wait) (dest : IpcEntry)
    (out : Option ChannelOutcome)
    → ReadReturns k start_ns timeout_ns waits dest out
    → ReadReturns k start_ns timeout_ns (w ∷ waits) dest out
ReadReturns-later k start_ns timeout_ns w waits dest out (r, found, c, e, how) = (
  r,
  found,
  c,
  e,
  elim how [
    | inl got ↦ inl got
    | inr (same, inl (st, late, rest)) ↦ inr (same, inl (st, inr late, rest))
    | inr (same, inr (inl (st, fails, rest))) ↦ inr (same, inr (inl (st, inr fails, rest)))
    | inr (same, inr (inr (st, body, taken, h))) ↦ inr (same, inr (inr (st, body, inr taken, h)))
  ],
)

-- The test of the futex's answer.
pub futex_failed :
    (res : ℕ) → (not (res == 0) && not (res == etimedout)) ≡ true → (res ≢ 0) × (res ≢ etimedout)
futex_failed res bad = (
  λ z. let t : (not (res == 0) && not (res == etimedout)) ≡ false = rw (eq→== res 0 z) refl in cc,
  λ z. let t : (not (res == 0) && not (res == etimedout)) ≡ false = ground (arith, z) in cc,
)

pub Clock-cases :
    (t : Clock) → ((errno : ℕ) × (t ≡ clock_failed errno)) ⊎ ((now : Timespec) × (t ≡ at_time now))
Clock-cases (clock_failed errno) = inl (errno, refl)
Clock-cases (at_time now) = inr (now, refl)

pub not_over :
    (start_ns timeout_ns : ℕ) (w : Wait) (now : Timespec)
    → IsOver start_ns timeout_ns w
    → w.clock ≡ at_time now
    → ¬ (sub64 (ipc_timespec_to_nanos valid now) start_ns < timeout_ns)
not_over start_ns timeout_ns w now (inl (errno, f)) e soon = cc
not_over start_ns timeout_ns w now (inr (now', f, late)) e soon =
    let same : now' ≡ now = cc in
    let late' : timeout_ns ≤ sub64 (ipc_timespec_to_nanos valid now) start_ns =
      subst (λ z. timeout_ns ≤ sub64 (ipc_timespec_to_nanos valid z) start_ns) same late in
    absurd (omega arith)
