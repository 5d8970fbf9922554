-- ===== src/Buffer/Threads/Frame.antt =====
-- A step of one thread: what the others see of it, and the invariant behind it.
use mathlib.Core.Logic.{ite}
use libshmipc.Base.{
  append-nil, ℕ, ℕ_discrete, ◌+◌, ◌≡◌, ◌≢◌, Option, none, some, List, [], ◌∷◌, ◌++◌, arith, sym,
  subst, refl,
}
use libshmipc.Buffer.State.{Shm}
use libshmipc.Buffer.Layout.{payloads, IsValid}
use libshmipc.Buffer.Write.Step.{head-le-tail}
use libshmipc.Buffer.Threads.Point.{Pc, Event, quiet, sends, takes, forces}
use libshmipc.Buffer.Threads.System.{update}
use libshmipc.Buffer.Threads.Invariant.{
  Ghost, at_rest, lock_bit, Local, Inv, Rely, Local-kept, Copied, Past,
}
use libshmipc.Buffer.Threads.LockWord.{WordOf}

-- What an event does to the queue of payloads.
pub data Effect (q q' : List (List ℕ)) : Event → Type 0 where
  no_effect : q' ≡ q → Effect q q' quiet
  appends : (xs : List ℕ) → q' ≡ q ++ (xs ∷ []) → Effect q q' (sends xs)
  removes :
      {out : Option (List ℕ)} (xs : List ℕ) → Copied xs out → q ≡ xs ∷ q' → Effect q q' (takes out)
  drops : (xs : List ℕ) → q ≡ xs ∷ q' → Effect q q' forces
  drops_padding : q ≡ q' → Effect q q' forces

-- The invariant behind a step of thread `i`, which now stands at `p`.
pub record After (k : ℕ) (g : Ghost) (pc : ℕ → Pc) (i : ℕ) (e : Event) (s : Shm) (p : Pc)
    : Type 0 where
  pub ghost : Ghost
  pub inv : Inv k ghost s (update pc i p)
  pub effect : Effect (payloads g.slots) (payloads ghost.slots) e

-- Two threads do not hold the same lock.
pub some_other : {i j : ℕ} {o : Option ℕ} → j ≢ i → o ≡ some i → o ≢ some j
some_other other e f = grind arith

pub none_other : {j : ℕ} {o : Option ℕ} → o ≡ none → o ≢ some j
none_other e f = grind arith

module _ {k : ℕ} {g : Ghost} {s : Shm} {pc : ℕ → Pc} (v : Inv k g s pc) where
  pub head_of : WordOf s.head g.head g.reader
  head_of = record {
    bit = v.head_word;
    even = v.valid.head_aligned;
    fits = omega (arith, v.valid.fits, head-le-tail v.valid);
  }

  pub tail_of : WordOf s.tail g.tail g.writer
  tail_of = record { bit = v.tail_word; even = v.valid.tail_aligned; fits = v.valid.fits }

  pub head-Past : Past g.head g.head
  head-Past = record { past = omega arith; even = v.valid.head_aligned }

  pub tail-Past : Past g.tail g.tail
  tail-Past = record { past = omega arith; even = v.valid.tail_aligned }

  pub moved :
      (i : ℕ) {e : Event} (g' : Ghost) (s' : Shm) (p : Pc)
      → IsValid k g'.slots (at_rest g' s')
      → s'.head ≡ g'.head + lock_bit g'.reader
      → s'.tail ≡ g'.tail + lock_bit g'.writer
      → Local k g' s'.region i p
      → ((j : ℕ) → j ≢ i → Rely j g s.region g' s'.region)
      → Effect (payloads g.slots) (payloads g'.slots) e
      → After k g pc i e s' p
  moved i g' s' p valid head_word tail_word own others effect = record {
    ghost = g';
    inv = record {
      valid = valid;
      head_word = head_word;
      tail_word = tail_word;
      threads = λ j. threads j;
    };
    effect = effect;
  }
    where
      threads : (j : ℕ) → Local k g' s'.region j (update pc i p j)
      threads j = elim (ℕ_discrete i j) as (λ d. Local k g' s'.region j (ite d p (pc j))) [
        | yes same ↦ subst (λ x. Local k g' s'.region x p) same own
        | no other ↦ Local-kept k (pc j) (others j (λ e. other (sym e))) (v.threads j)
      ]

  -- A step that changes only the local variables.
  pub quietly : (i : ℕ) (p : Pc) → Local k g s.region i p → After k g pc i quiet s p
  quietly i p own =
      moved i g s p v.valid v.head_word v.tail_word own (λ j other. unchanged) (no_effect refl)
    where
      unchanged : {j : ℕ} → Rely j g s.region g s.region
      unchanged = record {
        heads = omega arith;
        tails = omega arith;
        outside = λ o. o;
        reading = λ h d. d;
        writing = λ t w. (w, refl);
        longer = λ e. ([], sym (append-nil g.slots));
      }
