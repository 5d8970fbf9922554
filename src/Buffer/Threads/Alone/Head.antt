-- ===== src/Buffer/Threads/Alone/Head.antt =====
-- What the readers share: the loop that locks the head, the header, the two exchanges of the head.
use libshmipc.Base.{
  ℕ, zero, suc, ◌≡◌, ◌≢◌, ◌⊎◌, inl, inr, refl, true, false, Bool-cases, Option, none, some, ◌==◌,
}
use libshmipc.Base.Word.{add64}
use libshmipc.Utils.{relative}
use libshmipc.Common.{Status, ok, empty, placeholder, err_not_ready, err_locked}
use libshmipc.Buffer.State.{
  Shm, EntryHeader, unlock, lock, is_locked, lock_ref, unlock_ref, read_head, HeadLock, busy, held,
  lock_head as lock_head_loop, release_head, advance_head, unset, check_entry_header,
  load_entry_header, read_entry_header, read_entry_header_unsafe,
}
use libshmipc.Buffer.Threads.Point.{Job, Wanted, idle, r_head, r_tail, r_entry, r_unlock}
use libshmipc.Buffer.Threads.Reading.{
  header_at, head_locked, load_head, lock_head, found_empty, found_busy, found_entry,
}
use libshmipc.Buffer.Threads.System.{reads}
use libshmipc.Buffer.Threads.Alone.{Alone, done, and_then, returned, eq_of_test, ne_of_test}

-- The loop ends with a return, or with the head locked.
abbrev pub LockRuns : Job → Shm → Option (HeadLock × Shm) → Type 0
LockRuns j s none = Unit
LockRuns j s (some (busy status offset, s')) = Alone s (r_head j) s' idle × (returned status ≡ idle)
LockRuns j s (some (held head, s')) = Alone s (r_head j) s' (r_tail j head)

pub lock_head-Runs :
    (j : Job)
    → ((head : ℕ) → Wanted j head)
    → (fuel : ℕ) (s : Shm) → LockRuns j s (lock_head_loop fuel s)
unfolding lock_head_loop lock_ref read_head
lock_head-Runs j wanted zero s = tt
lock_head-Runs j wanted (suc fuel) s = elim (Bool-cases (is_locked s.head)) [
  | inl taken ↦ rw taken (and_then done (reads (head_locked taken)), refl)
  | inr free ↦ elim (Bool-cases (s.head == unlock s.head)) [
    | inl same ↦
        rw (free, same)
          (and_then (and_then done (reads (load_head free (wanted s.head))))
            (reads (lock_head (eq_of_test s.head (unlock s.head) same))))
    | inr moved ↦ rw (free, moved) (lock_head-Runs j wanted fuel s)
  ]
]

-- The header that is read: there is none, the entry is not ready, or that of the next step.
pub data Header (j : Job) (head : ℕ) (s : Shm) : Status × EntryHeader → Type 0 where
  nothing : Alone s (r_tail j head) s (r_unlock head) → Header j head s (empty, unset)
  not_ready : Alone s (r_tail j head) s (r_unlock head) → Header j head s (err_not_ready, unset)
  found : Alone s (r_tail j head) s (r_entry j head) → Header j head s (header_at s head)

pub header-Runs : (j : Job) (head : ℕ) (s : Shm) → Header j head s (read_entry_header s head)
unfolding read_entry_header read_entry_header_unsafe
header-Runs j head s = elim (Bool-cases (unlock head == unlock s.tail)) [
  | inl same ↦ rw same (
      nothing (and_then done (reads (found_empty (eq_of_test (unlock head) (unlock s.tail) same)))))
  | inr other ↦
      let differ = ne_of_test (unlock head) (unlock s.tail) other in
      elim (Bool-cases (is_locked s.tail)) [
        | inl taken ↦
            rw (other, taken) (not_ready (and_then done (reads (found_busy differ taken))))
        | inr free ↦ rw (other, free) (found (and_then done (reads (found_entry differ free))))
      ]
]

pub Header-cases :
    {j : Job} {head : ℕ} {s : Shm} {x : Status × EntryHeader}
    → Header j head s x
    → (x ≡ (empty, unset)) × Alone s (r_tail j head) s (r_unlock head)
      ⊎ (x ≡ (err_not_ready, unset)) × Alone s (r_tail j head) s (r_unlock head)
      ⊎ (x ≡ header_at s head) × Alone s (r_tail j head) s (r_entry j head)
Header-cases (nothing run) = inl (refl, run)
Header-cases (not_ready run) = inr (inl (refl, run))
Header-cases (found run) = inr (inr (refl, run))

-- The four statuses of an entry's header.
abbrev pub EntryStatus : ℕ → Shm → Type 0
EntryStatus head s =
    ((header_at s head).0 ≡ ok)
    ⊎ ((header_at s head).0 ≡ placeholder)
    ⊎ ((header_at s head).0 ≡ err_locked)
    ⊎ ((header_at s head).0 ≡ err_not_ready)

check_entry_header_returned :
    (head : ℕ) (h : EntryHeader)
    → ((check_entry_header head h).0 ≡ ok)
      ⊎ ((check_entry_header head h).0 ≡ placeholder)
      ⊎ ((check_entry_header head h).0 ≡ err_locked)
      ⊎ ((check_entry_header head h).0 ≡ err_not_ready)
unfolding check_entry_header
check_entry_header_returned head h = elim (Bool-cases (h.seq == head)) [
  | inl same ↦ elim (Bool-cases (h.payload_size == 0)) [
    | inl nil ↦ rw (same, nil) (inr (inl refl))
    | inr bytes ↦ rw (same, bytes) (inl refl)
  ]
  | inr other ↦ elim (Bool-cases (is_locked head)) [
    | inl taken ↦ rw (other, taken) (inr (inr (inl refl)))
    | inr free ↦ rw (other, free) (inr (inr (inr refl)))
  ]
]

-- `_unlock` of the head, and the exchange that moves it.
pub release_cases :
    (head : ℕ) (s : Shm)
    → (release_head head s ≡ (true, record s { head = unlock head })) × (s.head ≡ lock head)
      ⊎ (release_head head s ≡ (false, s)) × (s.head ≢ lock head)
unfolding release_head unlock_ref
release_cases head s = elim (Bool-cases (s.head == lock head)) [
  | inl same ↦ inl (rw same refl, eq_of_test s.head (lock head) same)
  | inr other ↦ inr (rw other refl, ne_of_test s.head (lock head) other)
]

pub advance_cases :
    (head n : ℕ) (s : Shm)
    → (advance_head head n s ≡ (true, record s { head = add64 head n })) × (s.head ≡ lock head)
      ⊎ (advance_head head n s ≡ (false, s)) × (s.head ≢ lock head)
unfolding advance_head
advance_cases head n s = elim (Bool-cases (s.head == lock head)) [
  | inl same ↦ inl (rw same refl, eq_of_test s.head (lock head) same)
  | inr other ↦ inr (rw other refl, ne_of_test s.head (lock head) other)
]

pub lock-cases :
    (o : Option (HeadLock × Shm))
    → (o ≡ none)
      ⊎ ((head : ℕ) × (s' : Shm) × (o ≡ some (held head, s')))
      ⊎ ((status : Status) × (at : ℕ) × (s' : Shm) × (o ≡ some (busy status at, s')))
lock-cases none = inl refl
lock-cases (some (held head, s')) = inr (inl (head, s', refl))
lock-cases (some (busy status at, s')) = inr (inr (status, at, s', refl))

pub entry_status : (head : ℕ) (s : Shm) → EntryStatus head s
entry_status head s =
    check_entry_header_returned head
      (load_entry_header (relative (unlock head) s.data_size) s.region)
