-- ===== src/Channel/TryRead/Rounds.antt =====
-- What the rounds of `_try_read` may return among other threads, and what these do.
use libshmipc.Base.{subst, ℕ, ◌≡◌, ◌⊎◌, inl, inr, refl, List, [], ◌∷◌, ◌++◌, Option, some, length}
use libshmipc.Common.{success, ipc_status, ok, empty, err_system, owned, IpcEntry, failed}
use libshmipc.Buffer.State.{Shm}
use libshmipc.Buffer.Layout.{Holds}
use libshmipc.Buffer.Read.Refine.{HeadMoves}
use libshmipc.Channel.State.{ChannelShm}
use libshmipc.Channel.TryRead.Room.{Owns}
use libshmipc.Channel.TryRead.{IpcChannelReadResult, ChannelOutcome, Turn}

-- The buffer is at rest and holds some queue.
abbrev pub AtRest : ℕ → ChannelShm → Type 0
AtRest k c = (q : List (List ℕ)) × Holds k q c.buffer

-- What other threads do leaves the buffer at rest.
pub record Tame (k : ℕ) (t : Turn) : Type 0 where
  pub peek_side : (c : ChannelShm) → AtRest k c → AtRest k (t.before_peek c)
  pub read_side : (c : ChannelShm) → AtRest k c → AtRest k (t.before_read c)

abbrev pub AllTame : ℕ → List Turn → Type 0
AllTame k [] = Unit {0}
AllTame k (t ∷ turns) = Tame k t × AllTame k turns

-- A payload that stood at the head of the queue is in the destination, with bytes of the
-- destination's own behind it, and out of the queue.
pub record Delivered (k : ℕ) (found : IpcEntry) (c : ChannelShm) : Type 0 where
  pub payload : List ℕ
  pub behind : List ℕ
  pub queue : List (List ℕ)
  pub before : Shm
  pub was_oldest : Holds k (payload ∷ queue) before
  pub copied : found.payload ≡ owned (payload ++ behind)
  pub sized : found.size ≡ length payload
  pub moved : HeadMoves before c.buffer
  pub taken : Holds k queue c.buffer

-- An allocation of one of the turns fails.
abbrev pub AllocationFails : List Turn → Type 0
AllocationFails [] = ⊥
AllocationFails (t ∷ turns) = ((errno : ℕ) × (t.alloc ≡ failed errno)) ⊎ AllocationFails turns

-- Before a call of the buffer in the turn, other threads take all out of a queue that was not empty.
abbrev pub Empties : ℕ → Turn → Type 0
Empties k t =
    (c : ChannelShm) × (xs : List ℕ) × (q : List (List ℕ)) × Holds k (xs ∷ q) c.buffer
    × (Holds k [] (t.before_peek c).buffer ⊎ Holds k [] (t.before_read c).buffer)

abbrev pub SomeEmpties : ℕ → List Turn → Type 0
SomeEmpties k [] = ⊥
SomeEmpties k (t ∷ turns) = Empties k t ⊎ SomeEmpties k turns

-- What the rounds may return that start with the queue `q` and take at most these turns.
abbrev pub Finished :
    ℕ → List (List ℕ) → List Turn → IpcChannelReadResult → IpcEntry → ChannelShm → Type 0
Finished k q turns r found c =
    (r ≡ success ok tt) × Delivered k found c
    ⊎ (r ≡ success empty tt) × ((q ≡ []) ⊎ SomeEmpties k turns) × Holds k [] c.buffer
    ⊎ (ipc_status r ≡ err_system) × AllocationFails turns × AtRest k c

abbrev pub Returns : ℕ → List (List ℕ) → List Turn → Option ChannelOutcome → Type 0
Returns k q turns out =
    (r : IpcChannelReadResult) × (found : IpcEntry) × (c : ChannelShm) × (out ≡ some (r, found, c))
    × Finished k q turns r found c

-- In this turn no other thread does anything between the peek and the read.
abbrev pub Calm : Turn → Type 0
Calm t = (c : ChannelShm) → t.before_read c ≡ c

-- The rounds that follow return, whatever the destination and the state.
abbrev pub Continues : ℕ → List Turn → (IpcEntry → ChannelShm → Option ChannelOutcome) → Type 0
Continues k turns again =
    (dest : IpcEntry) (c : ChannelShm) (q : List (List ℕ))
    → Owns dest
    → Holds k q c.buffer
    → Returns k q turns (again dest c)

pub Returns-later :
    (k : ℕ) (q : List (List ℕ)) (t : Turn) (turns : List Turn) (out : Option ChannelOutcome)
    → Returns k q turns out
    → Returns k q (t ∷ turns) out
Returns-later k q t turns out (r, found, c, e, w) = (
  r,
  found,
  c,
  e,
  elim w [
    | inl got ↦ inl got
    | inr (inl (is, inl nothing_there, h)) ↦ inr (inl (is, inl nothing_there, h))
    | inr (inl (is, inr taken, h)) ↦ inr (inl (is, inr (inr taken), h))
    | inr (inr (bad, fails, rest)) ↦ inr (inr (bad, inr fails, rest))
  ],
)

-- The queue was another one before other threads have acted.
pub Returns-before :
    (k : ℕ) (q q' : List (List ℕ)) (turns : List Turn) (out : Option ChannelOutcome)
    → (q' ≡ [] → (q ≡ []) ⊎ SomeEmpties k turns)
    → Returns k q' turns out
    → Returns k q turns out
Returns-before k q q' turns out emptied (r, found, c, e, w) = (
  r,
  found,
  c,
  e,
  elim w [
    | inl got ↦ inl got
    | inr (inl (is, inl nothing_there, h)) ↦ inr (inl (is, emptied nothing_there, h))
    | inr (inl (is, inr taken, h)) ↦ inr (inl (is, inr taken, h))
    | inr (inr failure) ↦ inr (inr failure)
  ],
)

pub peek_side-Empties :
    {k : ℕ} (t : Turn) (q q' : List (List ℕ)) (c : ChannelShm) (turns : List Turn)
    → Holds k q c.buffer
    → Holds k q' (t.before_peek c).buffer
    → q' ≡ []
    → (q ≡ []) ⊎ SomeEmpties k (t ∷ turns)
peek_side-Empties t [] q' c turns h h' e = inl refl
peek_side-Empties {k} t (xs ∷ q) q' c turns h h' e =
    inr (inl (c, xs, q, h, inl (subst (λ z. Holds k z (t.before_peek c).buffer) e h')))

pub read_side-Empties :
    {k : ℕ} (t : Turn) (q q' : List (List ℕ)) (c : ChannelShm) (turns : List Turn)
    → Holds k q c.buffer
    → Holds k q' (t.before_read c).buffer
    → q' ≡ []
    → (q ≡ []) ⊎ SomeEmpties k (t ∷ turns)
read_side-Empties t [] q' c turns h h' e = inl refl
read_side-Empties {k} t (xs ∷ q) q' c turns h h' e =
    inr (inl (c, xs, q, h, inr (subst (λ z. Holds k z (t.before_read c).buffer) e h')))

pub SomeEmpties-append :
    (k : ℕ) (turns : List Turn) (t : Turn) (later : List Turn)
    → SomeEmpties k (turns ++ (t ∷ []))
    → SomeEmpties k (turns ++ (t ∷ later))
SomeEmpties-append k [] t later (inl empties) = inl empties
SomeEmpties-append k [] t later (inr none_left) = absurd none_left
SomeEmpties-append k (u ∷ turns) t later (inl empties) = inl empties
SomeEmpties-append k (u ∷ turns) t later (inr empties) =
    inr (SomeEmpties-append k turns t later empties)

-- A failed allocation stays one when more turns could follow.
pub AllocationFails-append :
    (turns : List Turn) (t : Turn) (later : List Turn)
    → AllocationFails (turns ++ (t ∷ []))
    → AllocationFails (turns ++ (t ∷ later))
AllocationFails-append [] t later (inl fails) = inl fails
AllocationFails-append [] t later (inr none_left) = absurd none_left
AllocationFails-append (u ∷ turns) t later (inl fails) = inl fails
AllocationFails-append (u ∷ turns) t later (inr fails) =
    inr (AllocationFails-append turns t later fails)
