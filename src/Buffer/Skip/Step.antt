-- ===== src/Buffer/Skip/Step.antt =====
-- One call of `ipc_buffer_skip` or `ipc_buffer_skip_force` on a buffer at rest.
use libshmipc.Base.{
  ℕ, suc, ◌+◌, ◌%◌, ◌^◌, ◌<◌, ◌≡◌, ◌≢◌, refl, ◌∙◌, List, [], ◌∷◌, some, arith, length, true,
  ==_self, eq→==, ne→==,
}
use libshmipc.Base.Word.{add64-eq}
use libshmipc.Common.{
  success, error_body, ok, empty, err_invalid_argument, err_offset_mismatch, valid,
}
use libshmipc.Memory.{Memory, load_u64}
use libshmipc.Buffer.State.{Shm, held, busy, read_head}
use libshmipc.Buffer.Words.{is_aligned-eq, is_locked_even, unlock_even, lock_ref_free}
use libshmipc.Buffer.Layout.{full_size, Slot, message, padding, slot_size, SlotAt, IsValid}
use libshmipc.Buffer.Head.{
  head-lt-tail, unsafe-entry, unsafe-empty, head_fits, release_head_held, advance_head_held,
  read_entry_header-empty, read_entry_header-slot, next_fits, locked,
}
use libshmipc.Buffer.Skip.{
  is_aligned, lock_head_at, give_up, skip_locked, skip_entry, ipc_buffer_skip,
  ipc_buffer_skip_force,
}

skip-call :
    (fuel offset : ℕ) (s : Shm)
    → ipc_buffer_skip (suc fuel) valid offset s
      ≡ skip_entry (suc fuel) (ipc_buffer_skip fuel valid offset) offset s
unfolding ipc_buffer_skip
skip-call fuel offset s = refl

aligned : (offset : ℕ) → offset + 7 < 2 ^ 64 → offset % 8 ≡ 0 → is_aligned offset ≡ true
aligned offset h e = is_aligned-eq offset h ∙ eq→== (offset % 8) 0 e

pub skip_misaligned :
    (fuel offset : ℕ) (s : Shm)
    → offset + 7 < 2 ^ 64
    → offset % 8 ≢ 0
    → ipc_buffer_skip (suc fuel) valid offset s
      ≡ some (error_body err_invalid_argument (record { offset = offset }), s)
unfolding skip_entry
skip_misaligned fuel offset s h n =
    rw (skip-call fuel offset s, is_aligned-eq offset h, ne→== (offset % 8) 0 n)

module _ {k : ℕ} {slots : List Slot} {s : Shm} (v : IsValid k slots s) (fuel : ℕ) where
  lock_head_at_free : lock_head_at (suc fuel) s.head s ≡ some (held s.head, locked v)
  unfolding lock_head_at read_head
  lock_head_at_free = rw (
    is_locked_even s.head (omega (arith, v.head_aligned)) (head_fits v),
    unlock_even s.head (omega (arith, v.head_aligned)) (head_fits v),
    ==_self s.head,
    lock_ref_free s.head (omega (arith, v.head_aligned)) (head_fits v),
  )

  lock_head_at_elsewhere :
      (offset : ℕ)
      → s.head ≢ offset
      → lock_head_at (suc fuel) offset s ≡ some (busy err_offset_mismatch s.head, s)
  unfolding lock_head_at read_head
  lock_head_at_elsewhere offset n = rw (
    is_locked_even s.head (omega (arith, v.head_aligned)) (head_fits v),
    unlock_even s.head (omega (arith, v.head_aligned)) (head_fits v),
    ne→== s.head offset n,
  )

  pub skip_elsewhere :
      (offset : ℕ)
      → offset + 7 < 2 ^ 64
      → offset % 8 ≡ 0
      → s.head ≢ offset
      → ipc_buffer_skip (suc fuel) valid offset s
        ≡ some (error_body err_offset_mismatch (record { offset = s.head }), s)
  unfolding skip_entry
  skip_elsewhere offset h e n =
      rw (skip-call fuel offset s, skip_entry, aligned offset h e, lock_head_at_elsewhere offset n)

  head_is_aligned : s.head + 7 < 2 ^ 64 → is_aligned s.head ≡ true
  head_is_aligned h = aligned s.head h v.head_aligned

pub skip_empty :
    {k : ℕ} {s : Shm} (v : IsValid k [] s) (fuel : ℕ)
    → s.head + 7 < 2 ^ 64
    → ipc_buffer_skip (suc fuel) valid s.head s ≡ some (success empty s.head, s)
unfolding skip_entry skip_locked give_up
skip_empty {s} v fuel h = rw (
  skip-call fuel s.head s,
  skip_entry,
  head_is_aligned v fuel h,
  lock_head_at_free v fuel,
  read_entry_header-empty v,
  release_head_held v,
)

pub skip_message :
    {k : ℕ} {xs : List ℕ} {slots : List Slot} {s : Shm} (v : IsValid k (message xs ∷ slots) s)
    (fuel : ℕ)
    → s.head + 7 < 2 ^ 64
    → ipc_buffer_skip (suc fuel) valid s.head s
      ≡ some (success ok s.head, record s { head = s.head + full_size (length xs) })
unfolding skip_entry skip_locked
skip_message {xs = xs} {s} v fuel h = rw (
  skip-call fuel s.head s,
  skip_entry,
  head_is_aligned v fuel h,
  lock_head_at_free v fuel,
  read_entry_header-slot v,
  advance_head_held v (full_size (length xs)) (next_fits v),
)

pub skip_padding :
    {k n : ℕ} {slots : List Slot} {s : Shm} (v : IsValid k (padding n ∷ slots) s) (fuel : ℕ)
    → s.head + 7 < 2 ^ 64
    → ipc_buffer_skip (suc fuel) valid s.head s
      ≡ ipc_buffer_skip fuel valid s.head (record s { head = s.head + n })
unfolding skip_entry skip_locked
skip_padding {n = n} {s} v fuel h = rw (
  skip-call fuel s.head s,
  skip_entry,
  head_is_aligned v fuel h,
  lock_head_at_free v fuel,
  read_entry_header-slot v,
  advance_head_held v n (next_fits v),
)

pub skip_force_empty :
    {k : ℕ} {s : Shm} (v : IsValid k [] s)
    → ipc_buffer_skip_force valid s ≡ (success empty s.head, s)
unfolding ipc_buffer_skip_force read_head
skip_force_empty {s} v = rw (
  unlock_even s.head (omega (arith, v.head_aligned)) (head_fits v),
  unsafe-empty v s.head v.entries,
)

entry_size-slot :
    (c : ℕ) (m : Memory) (p : ℕ) (slot : Slot)
    → SlotAt c m p slot
    → load_u64 (p % c + 16) m ≡ slot_size slot
entry_size-slot c m p (message xs) a = a.entry_size
entry_size-slot c m p (padding n) a = a.entry_size

pub skip_force_slot :
    {k : ℕ} {slot : Slot} {slots : List Slot} {s : Shm} (v : IsValid k (slot ∷ slots) s)
    → ipc_buffer_skip_force valid s
      ≡ (success ok s.head, record s { head = s.head + slot_size slot })
unfolding ipc_buffer_skip_force read_head
skip_force_slot {k} {slot} {s = s} v = rw (
  unlock_even s.head (omega (arith, v.head_aligned)) (head_fits v),
  unsafe-entry v s.head (head-lt-tail v),
  ==_self s.head,
  entry_size-slot (2 ^ k) s.region s.head slot v.entries.0,
  add64-eq s.head (slot_size slot) (next_fits v),
)
