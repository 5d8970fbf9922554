-- ===== src/Buffer/Threads/Alone.antt =====
-- A thread that runs alone: its steps, one after the other, against the operations as functions.
pub mod Write
pub mod Head
pub mod Read
pub mod Peek
pub mod Skip
pub mod Together
pub mod Ends
pub mod ReadEnds
pub mod Progress
use libshmipc.Base.{ℕ, ◌≡◌, ◌≢◌, ◌==◌, true, false, Option, none, some, arith}
use libshmipc.Common.{Status, err_illegal_state}
use libshmipc.Buffer.State.{Shm}
use libshmipc.Buffer.Threads.Point.{Pc, idle, failed, Event}
use libshmipc.Buffer.Threads.System.{Move}

-- Steps of one thread, from `s` and `p`.
pub data Alone (s : Shm) (p : Pc) : Shm → Pc → Type 0 where
  done : Alone s p s p
  and_then :
      {s' s'' : Shm} {p' p'' : Pc} {e : Event}
      → Alone s p s' p'
      → Move s' p' e s'' p''
      → Alone s p s'' p''

-- Where a thread stands behind a return.
abbrev pub returned : Status → Pc
returned err_illegal_state = failed
returned status = idle

-- The thread runs to what a call of the function has returned: `f` is the status and the memory.
abbrev pub Runs : {A : Type 0} → (A → Status × Shm) → Pc → Shm → Option A → Type 0
Runs f p s none = Unit
Runs f p s (some a) = Alone s p (f a).1 (returned (f a).0)

pub Alone-append :
    {s s' : Shm} {p p' : Pc} {s'' : Shm} {p'' : Pc}
    → Alone s p s' p'
    → Alone s' p' s'' p''
    → Alone s p s'' p''
Alone-append a done = a
Alone-append a (and_then b mv) = and_then (Alone-append a b) mv

pub Runs-later :
    {A : Type 0} (f : A → Status × Shm) {p p' : Pc} {s s' : Shm} (o : Option A)
    → Alone s p s' p'
    → Runs f p' s' o
    → Runs f p s o
Runs-later f none a r = tt
Runs-later f (some x) a r = Alone-append a r

-- The comparison of two words.
pub eq_of_test : (a b : ℕ) → (a == b) ≡ true → a ≡ b
eq_of_test a b h = ground arith

pub ne_of_test : (a b : ℕ) → (a == b) ≡ false → a ≢ b
ne_of_test a b h = ground arith
