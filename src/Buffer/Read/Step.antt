-- ===== src/Buffer/Read/Step.antt =====
-- One call of `ipc_buffer_read` on a buffer at rest, by the entry at its head.
use libshmipc.Base.{
  ℕ, suc, ◌+◌, ◌%◌, ◌^◌, ◌≤◌, ◌<◌, ◌≡◌, refl, sym, subst, List, [], ◌∷◌, some, length, lt→ltb,
  le→ltb,
}
use libshmipc.Common.{success, error_body, ok, empty, err_too_small, valid, IpcEntry}
use libshmipc.Utils.{relative}
use libshmipc.Utils.Align.{relative-pow}
use libshmipc.Buffer.State.{Shm}
use libshmipc.Buffer.Layout.{full_size, Slot, message, padding, IsValid}
use libshmipc.Buffer.Head.{
  lock_head_free, release_head_held, advance_head_held, read_entry_header-empty,
  read_entry_header-slot, next_fits, slot_header, locked,
}
use libshmipc.Buffer.Read.{
  copy_to, give_up, copy_entry, finish_read, read_locked, read_entry, ipc_buffer_read,
}

-- `*dest` after the payload `xs` was copied from the position `p`.
abbrev pub received : ℕ → List ℕ → IpcEntry → IpcEntry
received p xs dest = record {
  offset = p;
  payload = copy_to dest.payload xs (length xs);
  size = length xs;
}

read-call :
    (fuel : ℕ) (dest : IpcEntry) (s : Shm)
    → ipc_buffer_read (suc fuel) valid valid dest s
      ≡ read_entry (suc fuel) (ipc_buffer_read fuel valid valid) dest s
unfolding ipc_buffer_read
read-call fuel dest s = refl

module _ {k : ℕ} {s : Shm} (v : IsValid k [] s) (fuel : ℕ) (dest : IpcEntry) where
  pub read_empty : ipc_buffer_read (suc fuel) valid valid dest s ≡ some (success empty tt, dest, s)
  unfolding read_entry read_locked give_up
  read_empty =
      rw (
        read-call,
        read_entry,
        lock_head_free v fuel,
        read_entry_header-empty v,
        release_head_held v,
      )

module _ {k : ℕ} {xs : List ℕ} {slots : List Slot} {s : Shm} (v : IsValid k (message xs ∷ slots) s)
    (fuel : ℕ) (dest : IpcEntry) where
  pub read_too_small :
      dest.size < length xs
      → ipc_buffer_read (suc fuel) valid valid dest s
        ≡ some (
          error_body err_too_small (record { offset = s.head; required_size = length xs }),
          dest,
          s,
        )
  unfolding read_entry read_locked give_up
  read_too_small h = rw (
    read-call fuel dest s,
    read_entry,
    lock_head_free v fuel,
    read_entry_header-slot v,
    lt→ltb dest.size (length xs) h,
    release_head_held v,
  )

  copy_entry-message :
      copy_entry s.head (slot_header s.head (message xs)) dest (locked v) ≡ received s.head xs dest
  unfolding copy_entry
  copy_entry-message = rw (index, v.entries.0.bytes)
    where
      index : relative s.head s.data_size ≡ s.head % 2 ^ k
      index =
          subst (λ c. relative s.head c ≡ s.head % 2 ^ k) (sym v.capacity)
            (relative-pow s.head k v.small)

  pub read_message :
      length xs ≤ dest.size
      → ipc_buffer_read (suc fuel) valid valid dest s
        ≡ some (
          success ok tt,
          received s.head xs dest,
          record s { head = s.head + full_size (length xs) },
        )
  unfolding read_entry read_locked finish_read
  read_message h = rw (
    read-call fuel dest s,
    read_entry,
    lock_head_free v fuel,
    read_entry_header-slot v,
    le→ltb dest.size (length xs) h,
    advance_head_held v (full_size (length xs)) (next_fits v),
    copy_entry-message,
  )

module _ {k n : ℕ} {slots : List Slot} {s : Shm} (v : IsValid k (padding n ∷ slots) s) (fuel : ℕ)
    (dest : IpcEntry) where
  pub read_padding :
      ipc_buffer_read (suc fuel) valid valid dest s
      ≡ ipc_buffer_read fuel valid valid dest (record s { head = s.head + n })
  unfolding read_entry read_locked finish_read
  read_padding = rw (
    read-call fuel dest s,
    read_entry,
    lock_head_free v fuel,
    read_entry_header-slot v,
    advance_head_held v n (next_fits v),
  )
