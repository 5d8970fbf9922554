-- ===== src/Buffer/Threads/Alone/Progress.antt =====
-- Every operation comes to an end when its thread runs alone, wherever the other threads stand.
use libshmipc.Base.{ℕ, ℕ_discrete, ◌+◌, ◌*◌, ◌^◌, ◌<◌, refl, List, arith}
use libshmipc.Buffer.State.{Shm, unlock}
use libshmipc.Buffer.Layout.{Slot, IsValid}
use libshmipc.Buffer.Threads.Point.{
  Pc, idle, failed, w_tail, w_head, w_lock, w_fill, w_commit, r_head, r_lock, r_tail, r_entry,
  r_unlock, r_pad, r_take, f_tail, f_entry, f_swap,
}
use libshmipc.Buffer.Threads.Reading.{force_empty, force_entry, load_size, force, already_skipped}
use libshmipc.Buffer.Threads.System.{forced, System, Reach}
use libshmipc.Buffer.Threads.Safety.{Reach-Reached}
use libshmipc.Buffer.Threads.Alone.{Alone, done}
use libshmipc.Buffer.Threads.Alone.Ends.{
  At, At-Local, At-bound, Ends, Move-Ends, w_tail-Ends, w_head-Ends, w_lock-Ends, w_fill-Ends,
  w_commit-Ends,
}
use libshmipc.Buffer.Threads.Alone.ReadEnds.{
  r_head-Ends, r_lock-Ends, r_tail-Ends, r_entry-Ends, r_unlock-Ends, r_pad-Ends, r_take-Ends,
  again,
}

f_swap-Ends : (head n : ℕ) (s : Shm) → Ends s (f_swap head n)
f_swap-Ends head n s = elim (ℕ_discrete s.head head) [
  | yes same ↦ Move-Ends (forced (force same)) (_, done)
  | no other ↦ Move-Ends (forced (already_skipped other)) (_, done)
]

f_entry-Ends : (head : ℕ) (s : Shm) → Ends s (f_entry head)
f_entry-Ends head s = Move-Ends (forced load_size) (f_swap-Ends head _ s)

f_tail-Ends : (head : ℕ) (s : Shm) → Ends s (f_tail head)
f_tail-Ends head s = elim (ℕ_discrete (unlock head) (unlock s.tail)) [
  | yes same ↦ Move-Ends (forced (force_empty same)) (_, done)
  | no other ↦ Move-Ends (forced (force_entry other)) (f_entry-Ends head s)
]

module _ (k i : ℕ) (s : Shm) (small : s.head + 2 * 2 ^ k + 1 < 2 ^ 64) where
  near : {p : Pc} → At k i s p → s.tail + 2 ^ k < 2 ^ 64
  near a = omega (arith, At-bound a)

  At-Ends : (p : Pc) → At k i s p → Ends s p
  At-Ends idle a = (s, done)
  At-Ends failed a = absurd (At-Local a)
  At-Ends (w_tail xs) a = w_tail-Ends k i xs s.head small s a refl
  At-Ends (w_head xs tail) a = w_head-Ends k i xs s.head small tail s a refl
  At-Ends (w_lock xs tail) a = w_lock-Ends k i xs s.head small tail s a refl
  At-Ends (w_fill xs tail) a = w_fill-Ends k i xs s.head small tail s a refl
  At-Ends (w_commit xs tail) a = w_commit-Ends k i xs s.head small tail s a refl
  At-Ends (r_head j) a = r_head-Ends k i s.tail (near a) j s a refl
  At-Ends (r_lock j head) a = r_lock-Ends k i s.tail (near a) j head s a refl
  At-Ends (r_tail j head) a =
      r_tail-Ends k i s.tail (near a) j head s a refl (again k i s.tail (near a) j head)
  At-Ends (r_entry j head) a =
      r_entry-Ends k i s.tail (near a) j head s a refl (again k i s.tail (near a) j head)
  At-Ends (r_unlock head) a = r_unlock-Ends k i s.tail (near a) head s a
  At-Ends (r_pad j head n) a =
      r_pad-Ends k i s.tail (near a) j head n s a refl (again k i s.tail (near a) j head)
  At-Ends (r_take head n out) a = r_take-Ends k i s.tail (near a) head n out s a
  At-Ends (f_tail head) a = f_tail-Ends head s
  At-Ends (f_entry head) a = f_entry-Ends head s
  At-Ends (f_swap head n) a = f_swap-Ends head n s

-- In every reachable state, from a buffer at rest and as long as the positions stay below 2^64 by
-- twice the capacity, every thread that runs alone returns: its steps lead to `idle`, wherever the
-- other threads stand and whatever locks they hold.
pub alone_ends :
    {k : ℕ} {slots : List Slot} {s : Shm} {sys : System}
    → IsValid k slots s
    → Reach k s sys
    → sys.shm.head + 2 * 2 ^ k + 1 < 2 ^ 64
    → (i : ℕ) → (s' : Shm) × Alone sys.shm (sys.pc i) s' idle
alone_ends {k} {sys} v r small i =
    let at = Reach-Reached v r in
    At-Ends k i sys.shm small (sys.pc i)
      (record { pc = sys.pc; ghost = at.ghost; inv = at.inv; here = refl })
