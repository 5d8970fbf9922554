-- ===== src/Buffer/Head.antt =====
-- The head of a buffer at rest: locking it, the entry that it finds, moving it on.
use libshmipc.Base.{
  ℕ, suc, ◌+◌, ◌%◌, ◌^◌, ◌≤◌, ◌<◌, ◌≡◌, sym, subst, ◌∙◌, ap, List, [], ◌∷◌, eq→==, ne→==, some,
  arith, length, ==_self, true,
}
use libshmipc.Base.Word.{add64-eq}
use libshmipc.Common.{Status, ok, empty, placeholder}
use libshmipc.Memory.{Memory}
use libshmipc.Utils.{relative}
use libshmipc.Utils.Align.{relative-pow}
use libshmipc.Buffer.State.{
  Shm, EntryHeader, held, lock_head, read_head, release_head, advance_head, unset,
  load_entry_header, check_entry_header, read_entry_header_unsafe, read_entry_header,
}
use libshmipc.Buffer.Words.{is_locked_even, unlock_even, lock_even, lock_ref_free, unlock_ref_held}
use libshmipc.Base.Modulus.{mod-add_of_full}
use libshmipc.Buffer.Layout.{
  PaddingAt, full_size, Slot, message, padding, slot_size, SlotAt, IsValid,
}
use libshmipc.Buffer.Layout.Chain.{Entries-le, SlotAt-header, HasRoom-next, slot_size-aligned}

-- What a reader finds at an entry: the status, and the header.
abbrev pub slot_status : Slot → Status
slot_status (message xs) = ok
slot_status (padding n) = placeholder

abbrev pub slot_header : ℕ → Slot → EntryHeader
slot_header p (message xs) = record {
  seq = p;
  payload_size = length xs;
  entry_size = full_size (length xs);
}
slot_header p (padding n) = record { seq = p; payload_size = 0; entry_size = n }

pub load_entry_header-slot :
    (c : ℕ) (m : Memory) (p : ℕ) (slot : Slot)
    → SlotAt c m p slot
    → load_entry_header (p % c) m ≡ slot_header p slot
load_entry_header-slot c m p (message xs) a = rw (a.seq, a.payload_size, a.entry_size)
load_entry_header-slot c m p (padding n) a = rw (a.seq, a.payload_size, a.entry_size)

pub check_entry_header-slot :
    (c : ℕ) (m : Memory) (p : ℕ) (slot : Slot)
    → SlotAt c m p slot
    → check_entry_header p (slot_header p slot) ≡ (slot_status slot, slot_header p slot)
unfolding check_entry_header
check_entry_header-slot c m p (message xs) a = ground (arith, a.some_bytes)
check_entry_header-slot c m p (padding n) a = ground arith

module _ {k : ℕ} {slots : List Slot} {s : Shm} (v : IsValid k slots s) where
  open v use {capacity, small, entries, used, fits, head_aligned, tail_aligned}

  pub head_fits : s.head < 2 ^ 64
  head_fits = omega (arith, Entries-le (2 ^ k) s.region s.head slots s.tail entries)

  -- The memory while this thread holds the lock of the head.
  abbrev pub locked : Shm
  locked = record s { head = s.head + 1 }

  pub lock_head_free : (fuel : ℕ) → lock_head (suc fuel) s ≡ some (held s.head, locked)
  unfolding lock_head read_head
  lock_head_free fuel =
      rw (
        is_locked_even s.head (omega arith) head_fits,
        lock_ref_free s.head (omega arith) head_fits,
      )

  pub release_head_held : release_head s.head locked ≡ (true, s)
  unfolding release_head
  release_head_held = rw (unlock_ref_held s.head (omega arith) head_fits)

  pub advance_head_held :
      (n : ℕ)
      → s.head + n < 2 ^ 64
      → advance_head s.head n locked ≡ (true, record s { head = s.head + n })
  unfolding advance_head
  advance_head_held n h =
      rw (lock_even s.head (omega arith) head_fits, ==_self (s.head + 1), add64-eq s.head n h)

  -- The unsafe read does not look at the word of the head, `w`.
  pub unsafe-empty :
      (w : ℕ)
      → s.head ≡ s.tail
      → read_entry_header_unsafe (record s { head = w }) s.head ≡ (empty, 0)
  unfolding read_entry_header_unsafe
  unsafe-empty w e = rw (
    unlock_even s.head (omega arith) head_fits,
    unlock_even s.tail (omega arith) fits,
    eq→== s.head s.tail e,
  )

  pub unsafe-entry :
      (w : ℕ)
      → s.head < s.tail
      → read_entry_header_unsafe (record s { head = w }) s.head ≡ (ok, s.head % 2 ^ k)
  unfolding read_entry_header_unsafe
  unsafe-entry w h = rw (
    unlock_even s.head (omega arith) head_fits,
    unlock_even s.tail (omega arith) fits,
    is_locked_even s.tail (omega arith) fits,
    ne→== s.head s.tail (omega arith),
    index,
  )
    where
      index : relative s.head s.data_size ≡ s.head % 2 ^ k
      index =
          subst (λ c. relative s.head c ≡ s.head % 2 ^ k) (sym capacity)
            (relative-pow s.head k small)

pub read_entry_header-empty :
    {k : ℕ} {s : Shm} (v : IsValid k [] s) → read_entry_header (locked v) s.head ≡ (empty, unset)
unfolding read_entry_header
read_entry_header-empty {s} v = rw (unsafe-empty v (s.head + 1) v.entries)

module _ {k : ℕ} {slot : Slot} {slots : List Slot} {s : Shm} (v : IsValid k (slot ∷ slots) s) where
  pub next-le-tail : s.head + slot_size slot ≤ s.tail
  next-le-tail = Entries-le (2 ^ k) s.region (s.head + slot_size slot) slots s.tail v.entries.1

  pub next_fits : s.head + slot_size slot < 2 ^ 64
  next_fits = omega (arith, next-le-tail, v.fits)

  pub head-lt-tail : s.head < s.tail
  head-lt-tail = omega (arith, next-le-tail, SlotAt-header (2 ^ k) s.region s.head slot v.entries.0)

  pub read_entry_header-slot :
      read_entry_header (locked v) s.head ≡ (slot_status slot, slot_header s.head slot)
  unfolding read_entry_header
  read_entry_header-slot =
      let header : SlotAt (2 ^ k) s.region s.head slot = v.entries.0 in
      rw (unsafe-entry v (s.head + 1) head-lt-tail) (
        ap (check_entry_header s.head) (load_entry_header-slot (2 ^ k) s.region s.head slot header)
        ∙ check_entry_header-slot (2 ^ k) s.region s.head slot header)

  -- Behind the entry the buffer is at rest again, with the other entries.
  pub advance-IsValid : IsValid k slots (record s { head = s.head + slot_size slot })
  advance-IsValid = record {
    capacity = v.capacity;
    small = v.small;
    entries = v.entries.1;
    used = omega (arith, v.used);
    fits = v.fits;
    head_aligned = omega (
      arith,
      v.head_aligned,
      slot_size-aligned k s.region s.head slot v.entries.0 v.head_aligned,
    );
    tail_aligned = v.tail_aligned;
    head_room = HasRoom-next (2 ^ k) s.region s.head slot v.entries.0;
    tail_room = v.tail_room;
  }

-- No two placeholders stand one behind the other: the second would fill a whole region.
abbrev pub NotPadding : List Slot → Type 0
NotPadding [] = Unit
NotPadding (message xs ∷ slots) = Unit
NotPadding (padding n ∷ slots) = ⊥

pub NotPadding-next :
    {k n : ℕ} (slots : List Slot) {s : Shm} → IsValid k (padding n ∷ slots) s → NotPadding slots
NotPadding-next [] v = tt
NotPadding-next (message xs ∷ slots) v = tt
NotPadding-next {k} {n} (padding j ∷ slots) {s} v =
    let first : PaddingAt (2 ^ k) s.region s.head n = v.entries.0 in
    let second : PaddingAt (2 ^ k) s.region (s.head + n) j = v.entries.1.0 in
    let start : (s.head + n) % 2 ^ k ≡ 0 = mod-add_of_full s.head n (2 ^ k) first.to_end in
    omega (
      arith,
      first.header_fits,
      second.to_end,
      v.used,
      Entries-le (2 ^ k) s.region (s.head + n + j) slots s.tail v.entries.1.1,
    )
