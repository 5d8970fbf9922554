-- ===== src/Buffer/Threads/System.antt =====
-- core/src/ipc_buffer.c: any number of threads on one buffer, interleaved in any order.
use mathlib.Core.Logic.{ite}
use libshmipc.Base.{ℕ_discrete, ℕ, ◌+◌, ◌^◌, ◌<◌, List, [], ◌∷◌, ◌++◌}
use libshmipc.Buffer.State.{Shm}
use libshmipc.Buffer.Threads.Point.{Event, Pc, idle}
use libshmipc.Buffer.Threads.Reading.{ForceMove, ReadMove}
use libshmipc.Buffer.Threads.Writing.{WriteMove}

pub data Move (s : Shm) (p : Pc) (e : Event) (s' : Shm) (p' : Pc) : Type 0 where
  writes : WriteMove s p e s' p' → Move s p e s' p'
  reads : ReadMove s p e s' p' → Move s p e s' p'
  forced : ForceMove s p e s' p' → Move s p e s' p'

abbrev pub update {ℓ} : {A : Type ℓ} → (ℕ → A) → ℕ → A → ℕ → A
update f i a j = ite (ℕ_discrete i j) a (f j)

-- The shared memory, where each thread stands, and what has happened, oldest first.
pub record System : Type 0 where
  pub shm : Shm
  pub pc : ℕ → Pc
  pub trace : List Event

pub data Step (sys : System) : System → Type 0 where
  pick :
      (i : ℕ) {e : Event} {s : Shm} {p : Pc}
      → Move sys.shm (sys.pc i) e s p
      → Step sys (record { shm = s; pc = update sys.pc i p; trace = sys.trace ++ (e ∷ []) })

-- Steps from a buffer that no thread uses, as long as the positions fit 64 bits.
pub data Reach (k : ℕ) (s : Shm) : System → Type 0 where
  start : Reach k s (record { shm = s; pc = λ i. idle; trace = [] })
  later :
      {sys sys' : System}
      → Reach k s sys
      → sys.shm.tail + 2 ^ k < 2 ^ 64
      → Step sys sys'
      → Reach k s sys'
