-- ===== src/Buffer/Threads/Progress.antt =====
-- No thread waits for another one: wherever it stands, it has a step.
use libshmipc.Base.{true, false, ℕ, ◌≡◌, ◌≢◌, inl, inr, refl, Bool-cases, ltb, ℕ_discrete, List}
use libshmipc.Common.{is_ok, is_placeholder}
use libshmipc.Buffer.State.{Shm, unlock, lock, is_locked}
use libshmipc.Buffer.Layout.{Slot, IsValid}
use libshmipc.Buffer.Threads.Point.{
  Job, reading, peeking, skipping, Pc, idle, failed, w_tail, w_head, w_lock, w_fill, w_commit,
  r_head, r_lock, r_tail, r_entry, r_unlock, r_pad, r_take, f_tail, f_entry, f_swap, Event,
}
use libshmipc.Buffer.Threads.Writing.{
  full_entry_size, reservation_at, free_space_at, tail_locked, load_tail, no_space, has_space,
  lock_tail, tail_moved, fill, commit_message, commit_padding, commit_fails,
}
use libshmipc.Buffer.Threads.Reading.{
  header_at, head_locked, other_offset, load_head, lock_head, head_moved, found_empty, found_busy,
  found_entry, unreadable, found_padding, too_small, copy, view, pass, unlock_head, unlock_fails,
  advance_padding, padding_fails, advance, advance_fails, begin_force, force_empty, force_entry,
  load_size, force, already_skipped,
}
use libshmipc.Buffer.Threads.System.{Move, writes, reads, forced, System, Reach}
use libshmipc.Buffer.Threads.Safety.{never_illegal_state}

-- A step of a thread at `p`.
pub record HasMove (s : Shm) (p : Pc) : Type 0 where
  pub event : Event
  pub shm : Shm
  pub pc : Pc
  pub move : Move s p event shm pc

HasMove-by : {s : Shm} {p : Pc} {e : Event} {s' : Shm} {p' : Pc} → Move s p e s' p' → HasMove s p
HasMove-by {e} {s'} {p'} mv = record { event = e; shm = s'; pc = p'; move = mv }

entry-HasMove :
    (s : Shm) (j : Job) (head : ℕ) → is_ok (header_at s head).0 ≡ true → HasMove s (r_entry j head)
entry-HasMove s (reading size) head fine =
    elim (Bool-cases (ltb size ((header_at s head).1).payload_size)) [
      | inl small ↦ HasMove-by (reads (too_small fine small))
      | inr large ↦ HasMove-by (reads (copy fine large))
    ]
entry-HasMove s peeking head fine = HasMove-by (reads (view fine))
entry-HasMove s (skipping offset) head fine = HasMove-by (reads (pass fine))

load-HasMove : (s : Shm) (j : Job) → is_locked s.head ≡ false → HasMove s (r_head j)
load-HasMove s (skipping offset) free = elim (ℕ_discrete (unlock s.head) offset) [
  | yes here ↦ HasMove-by (reads (load_head free here))
  | no other ↦ HasMove-by (reads (other_offset free other))
]
load-HasMove s (reading size) free = HasMove-by (reads (load_head free tt))
load-HasMove s peeking free = HasMove-by (reads (load_head free tt))

pc-HasMove : (s : Shm) (p : Pc) → p ≢ failed → HasMove s p
pc-HasMove s idle f = HasMove-by (forced begin_force)
pc-HasMove s failed f = absurd (f refl)
pc-HasMove s (w_tail xs) f = elim (Bool-cases (is_locked s.tail)) [
  | inl taken ↦ HasMove-by (writes (tail_locked taken))
  | inr free ↦ HasMove-by (writes (load_tail free))
]
pc-HasMove s (w_head xs tail) f =
    elim (Bool-cases (ltb (free_space_at s tail) (full_entry_size xs))) [
      | inl small ↦ HasMove-by (writes (no_space small))
      | inr space ↦ HasMove-by (writes (has_space space))
    ]
pc-HasMove s (w_lock xs tail) f = elim (ℕ_discrete s.tail (unlock tail)) [
  | yes same ↦ HasMove-by (writes (lock_tail same))
  | no moved ↦ HasMove-by (writes (tail_moved moved))
]
pc-HasMove s (w_fill xs tail) f = HasMove-by (writes fill)
pc-HasMove s (w_commit xs tail) f = elim (ℕ_discrete s.tail (lock tail)) [
  | no moved ↦ HasMove-by (writes (commit_fails moved))
  | yes same ↦ elim (Bool-cases (reservation_at s.data_size xs tail).is_placeholder) [
    | inl pad ↦ HasMove-by (writes (commit_padding same pad))
    | inr long ↦ HasMove-by (writes (commit_message same long))
  ]
]
pc-HasMove s (r_head j) f = elim (Bool-cases (is_locked s.head)) [
  | inl taken ↦ HasMove-by (reads (head_locked taken))
  | inr free ↦ load-HasMove s j free
]
pc-HasMove s (r_lock j head) f = elim (ℕ_discrete s.head (unlock head)) [
  | yes same ↦ HasMove-by (reads (lock_head same))
  | no moved ↦ HasMove-by (reads (head_moved moved))
]
pc-HasMove s (r_tail j head) f = elim (ℕ_discrete (unlock head) (unlock s.tail)) [
  | yes same ↦ HasMove-by (reads (found_empty same))
  | no other ↦ elim (Bool-cases (is_locked s.tail)) [
    | inl taken ↦ HasMove-by (reads (found_busy other taken))
    | inr free ↦ HasMove-by (reads (found_entry other free))
  ]
]
pc-HasMove s (r_entry j head) f = elim (Bool-cases (is_placeholder (header_at s head).0)) [
  | inl pad ↦ HasMove-by (reads (found_padding pad))
  | inr entry ↦ elim (Bool-cases (is_ok (header_at s head).0)) [
    | inl fine ↦ entry-HasMove s j head fine
    | inr bad ↦ HasMove-by (reads (unreadable entry bad))
  ]
]
pc-HasMove s (r_unlock head) f = elim (ℕ_discrete s.head (lock head)) [
  | yes same ↦ HasMove-by (reads (unlock_head same))
  | no other ↦ HasMove-by (reads (unlock_fails other))
]
pc-HasMove s (r_pad j head n) f = elim (ℕ_discrete s.head (lock head)) [
  | yes same ↦ HasMove-by (reads (advance_padding same))
  | no other ↦ HasMove-by (reads (padding_fails other))
]
pc-HasMove s (r_take head n out) f = elim (ℕ_discrete s.head (lock head)) [
  | yes same ↦ HasMove-by (reads (advance same))
  | no other ↦ HasMove-by (reads (advance_fails other))
]
pc-HasMove s (f_tail head) f = elim (ℕ_discrete (unlock head) (unlock s.tail)) [
  | yes same ↦ HasMove-by (forced (force_empty same))
  | no other ↦ HasMove-by (forced (force_entry other))
]
pc-HasMove s (f_entry head) f = HasMove-by (forced load_size)
pc-HasMove s (f_swap head n) f = elim (ℕ_discrete s.head head) [
  | yes same ↦ HasMove-by (forced (force same))
  | no other ↦ HasMove-by (forced (already_skipped other))
]

-- In every reachable state, from a buffer at rest and as long as the positions fit 64 bits, every
-- thread has a step, whatever locks the other threads hold: none waits for another one to move.
pub never_blocked :
    {k : ℕ} {slots : List Slot} {s : Shm} {sys : System}
    → IsValid k slots s
    → Reach k s sys
    → (i : ℕ) → HasMove sys.shm (sys.pc i)
never_blocked {sys} v r i = pc-HasMove sys.shm (sys.pc i) (never_illegal_state v r i)
