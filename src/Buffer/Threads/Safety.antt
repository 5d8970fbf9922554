-- ===== src/Buffer/Threads/Safety.antt =====
-- What holds in every state that the threads reach, in whatever order their steps come.
use libshmipc.Base.{
  ℕ, ◌+◌, ◌^◌, ◌<◌, ◌≡◌, ◌≢◌, ◌⊎◌, Option, none, some, List, [], ◌∷◌, ◌++◌, arith, subst, ap, refl,
}
use libshmipc.Common.{ok, placeholder}
use libshmipc.Memory.{Memory}
use libshmipc.Buffer.State.{Shm}
use libshmipc.Buffer.Layout.{Slot, payloads, IsValid, Holds}
use libshmipc.Buffer.Threads.Point.{
  Pc, Job, idle, failed, w_fill, w_commit, r_tail, r_entry, r_unlock, r_pad, r_take, Event,
}
use libshmipc.Buffer.Threads.Reading.{header_at}
use libshmipc.Buffer.Threads.System.{Move, writes, reads, forced, System, pick, Reach, start, later}
use libshmipc.Buffer.Threads.Invariant.{Ghost, Local, Inv, Outside, lock_bit}
use libshmipc.Buffer.Threads.Frame.{After, Effect, none_other}
use libshmipc.Buffer.Threads.Writers.{WriteMove-After}
use libshmipc.Buffer.Threads.Taking.{ReadMove-After, readable}
use libshmipc.Buffer.Threads.Forcing.{ForceMove-After}

-- The events lead from the queue `q` to another one, each with its effect on the queue at once.
pub data History (q : List (List ℕ)) : List Event → List (List ℕ) → Type 0 where
  begins : History q [] q
  goes_on :
      {es : List Event} {e : Event} {q' q'' : List (List ℕ)}
      → History q es q'
      → Effect q' q'' e
      → History q (es ++ (e ∷ [])) q''

pub record Reached (k : ℕ) (q : List (List ℕ)) (sys : System) : Type 0 where
  pub ghost : Ghost
  pub inv : Inv k ghost sys.shm sys.pc
  pub history : History q sys.trace (payloads ghost.slots)

-- A step of any operation keeps the invariant.
pub Move-After :
    {k i : ℕ} {g : Ghost} {s : Shm} {pc : ℕ → Pc} {e : Event} {s' : Shm} {p' : Pc}
    → Inv k g s pc
    → s.tail + 2 ^ k < 2 ^ 64
    → Move s (pc i) e s' p'
    → After k g pc i e s' p'
Move-After {i} v near (writes mv) = WriteMove-After v i mv near (v.threads i)
Move-After {i} v near (reads mv) = ReadMove-After v i mv (v.threads i)
Move-After {i} v near (forced mv) = ForceMove-After v i mv (v.threads i)

-- A buffer at rest that no thread uses.
at_start :
    {k : ℕ} {slots : List Slot} {s : Shm}
    → IsValid k slots s
    → Reached k (payloads slots) (record { shm = s; pc = λ i. idle; trace = [] })
at_start {slots} {s} v = record {
  ghost = record { head = s.head; tail = s.tail; slots = slots; reader = none; writer = none };
  inv = record {
    valid = v;
    head_word = omega arith;
    tail_word = omega arith;
    threads =
        λ i. record { no_reader = λ e. none_other refl e; no_writer = λ e. none_other refl e };
  };
  history = begins;
}

-- The invariant and the history of a reachable state.
pub Reach-Reached :
    {k : ℕ} {slots : List Slot} {s : Shm} {sys : System}
    → IsValid k slots s
    → Reach k s sys
    → Reached k (payloads slots) sys
Reach-Reached v start = at_start v
Reach-Reached v (later r near (pick i mv)) =
    let before = Reach-Reached v r in
    let after = Move-After before.inv near mv in
    record { ghost = after.ghost; inv = after.inv; history = goes_on before.history after.effect }

-- However the steps of the threads are interleaved, from a buffer at rest and as long as the positions
-- fit 64 bits, what they do is a history of one queue: a commit of a message appends its payload, and
-- an entry that is read, skipped or skipped by force is the oldest one, a read having copied exactly
-- its bytes.
pub threads_refine :
    {k : ℕ} {slots : List Slot} {s : Shm} {sys : System}
    → IsValid k slots s
    → Reach k s sys
    → (q : List (List ℕ)) × History (payloads slots) sys.trace q
threads_refine v r = let at = Reach-Reached v r in (payloads at.ghost.slots, at.history)

no_one : (o : Option ℕ) → ((i : ℕ) → o ≢ some i) → o ≡ none
no_one none h = refl
no_one (some i) h = absurd (h i refl)

-- Without holders of the locks the buffer is at rest.
nobody_inside :
    {k : ℕ} {g : Ghost} {s : Shm} {pc : ℕ → Pc}
    → Inv k g s pc
    → ((i : ℕ) → Outside g i)
    → IsValid k g.slots s
nobody_inside {k} {g} {s} v outside =
    let reader : g.reader ≡ none = no_one g.reader (λ i. (outside i).no_reader) in
    let writer : g.writer ≡ none = no_one g.writer (λ i. (outside i).no_writer) in
    let head : g.head ≡ s.head = omega (arith, v.head_word, ap lock_bit reader) in
    let tail : g.tail ≡ s.tail = omega (arith, v.tail_word, ap lock_bit writer) in
    subst (λ x. IsValid k g.slots (record s { tail = x })) tail
      (subst (λ x. IsValid k g.slots (record s { head = x; tail = g.tail })) head v.valid)

-- However the steps are interleaved, from a buffer at rest and as long as the positions fit 64 bits:
-- when every thread has returned, the buffer is at rest again, and holds exactly the queue to which
-- the history of what they did leads.
pub quiescent-Holds :
    {k : ℕ} {slots : List Slot} {s : Shm} {sys : System}
    → IsValid k slots s
    → Reach k s sys
    → ((i : ℕ) → sys.pc i ≡ idle)
    → (q : List (List ℕ)) × History (payloads slots) sys.trace q × Holds k q sys.shm
quiescent-Holds {k} {sys} v r quiet =
    let at = Reach-Reached v r in
    let outside : (i : ℕ) → Outside at.ghost i =
      λ i. subst (λ p. Local k at.ghost sys.shm.region i p) (quiet i) (at.inv.threads i) in
    (
      payloads at.ghost.slots,
      at.history,
      record { slots = at.ghost.slots; valid = nobody_inside at.inv outside; contents = refl },
    )

-- The two locks, and the one that a thread holds.
pub data Lock : Type 0 where
  head_lock : Lock
  tail_lock : Lock

abbrev pub held_lock : Pc → Option Lock
held_lock (w_fill xs tail) = some tail_lock
held_lock (w_commit xs tail) = some tail_lock
held_lock (r_tail j head) = some head_lock
held_lock (r_entry j head) = some head_lock
held_lock (r_unlock head) = some head_lock
held_lock (r_pad j head entry_size) = some head_lock
held_lock (r_take head entry_size out) = some head_lock
held_lock p = none

holder : Ghost → Lock → Option ℕ
holder g head_lock = g.reader
holder g tail_lock = g.writer

held_by :
    (k : ℕ) (g : Ghost) (m : Memory) (i : ℕ) (p : Pc) (l : Lock)
    → Local k g m i p
    → held_lock p ≡ some l
    → holder g l ≡ some i
unfolding holder
held_by k g m i (w_fill xs tail) l (w, f, free) e = grind (arith, w.writer)
held_by k g m i (w_commit xs tail) l (w, f, st) e = grind (arith, w.writer)
held_by k g m i (r_tail j head) l d e = grind (arith, d.reader)
held_by k g m i (r_entry j head) l (d, lt) e = grind (arith, d.reader)
held_by k g m i (r_unlock head) l d e = grind (arith, d.reader)
held_by k g m i (r_pad j head n) l (d, f) e = grind (arith, d.reader)
held_by k g m i (r_take head n out) l (d, x) e = grind (arith, d.reader)
held_by k g m i p l own e = absurd (grind arith)

-- In every reachable state, from a buffer at rest and as long as the positions fit 64 bits, at most one
-- thread is between taking and giving back a lock, for each of the two locks.
pub locks_exclude :
    {k i j : ℕ} {slots : List Slot} {s : Shm} {sys : System} (l : Lock)
    → IsValid k slots s
    → Reach k s sys
    → held_lock (sys.pc i) ≡ some l
    → held_lock (sys.pc j) ≡ some l
    → i ≡ j
locks_exclude {k} {i} {j} {sys} l v r by_i by_j =
    let at = Reach-Reached v r in
    let mine = held_by k at.ghost sys.shm.region i (sys.pc i) l (at.inv.threads i) by_i in
    let yours = held_by k at.ghost sys.shm.region j (sys.pc j) l (at.inv.threads j) by_j in
    grind arith

-- In no reachable state, from a buffer at rest and as long as the positions fit 64 bits, has an
-- operation returned `err_illegal_state`: the exchange that gives back a lock, or that moves a
-- position under its lock, never fails.
pub never_illegal_state :
    {k : ℕ} {slots : List Slot} {s : Shm} {sys : System}
    → IsValid k slots s
    → Reach k s sys
    → (i : ℕ) → sys.pc i ≢ failed
never_illegal_state {k} {sys} v r i e =
    let at = Reach-Reached v r in
    subst (λ p. Local k at.ghost sys.shm.region i p) e (at.inv.threads i)

-- In every reachable state, from a buffer at rest and as long as the positions fit 64 bits, a reader
-- that holds the lock of the head and has found an entry finds its header whole: the sequence number
-- is the head, and the status is `ok` or `placeholder`.
pub entries_readable :
    {k : ℕ} {slots : List Slot} {s : Shm} {sys : System}
    → IsValid k slots s
    → Reach k s sys
    → (i head : ℕ) (j : Job) → sys.pc i ≡ r_entry j head
    → ((header_at sys.shm head).1.seq ≡ head)
      × (((header_at sys.shm head).0 ≡ ok) ⊎ ((header_at sys.shm head).0 ≡ placeholder))
entries_readable {k} {sys} v r i head j e =
    let at = Reach-Reached v r in
    let (d, lt) = subst (λ p. Local k at.ghost sys.shm.region i p) e (at.inv.threads i) in
    readable at.inv i head d lt
