-- ===== src/Buffer/Threads/Writing.antt =====
-- core/src/ipc_buffer.c: `ipc_buffer_write`, an access of a shared word at a time.
use libshmipc.Base.{ℕ, ◌+◌, ◌^◌, ◌<◌, ◌≡◌, ◌≢◌, true, false, List, ltb, length}
use libshmipc.Base.Word.{add64, sub64}
use libshmipc.Memory.{load_u64}
use libshmipc.Utils.{align_up, relative}
use libshmipc.Buffer.State.{
  Shm, entry_header_size, ipc_data_align, unlock, lock, is_locked, read_head,
}
use libshmipc.Buffer.Write.{Reservation, fill_entry}
use libshmipc.Buffer.Threads.Point.{
  Event, Pc, failed, idle, quiet, sends, w_commit, w_fill, w_head, w_lock, w_tail,
}

-- `full_entry_size`, and the local variables that depend on the tail alone.
abbrev pub full_entry_size : List ℕ → ℕ
full_entry_size payload = align_up (add64 entry_header_size (length payload)) ipc_data_align

abbrev pub reservation_at : ℕ → List ℕ → ℕ → Reservation
reservation_at buf_size payload tail =
    let space_to_wrap = sub64 buf_size (relative tail buf_size) in
    record {
      tail = tail;
      rel_tail = relative tail buf_size;
      space_to_wrap = space_to_wrap;
      is_placeholder = ltb space_to_wrap (add64 (full_entry_size payload) entry_header_size);
    }

abbrev pub free_space_at : Shm → ℕ → ℕ
free_space_at s tail = sub64 s.data_size (sub64 tail (unlock (read_head s)))

-- `tail + header->entry_size`
abbrev pub commit_word : Shm → ℕ → ℕ
commit_word s tail = add64 tail (load_u64 (relative tail s.data_size + 16) s.region)

-- `ipc_buffer_write` of a payload that is an object in memory. The stores to the entry are one step:
-- the entry is not yet between the head and the tail.
pub data WriteMove (s : Shm) : Pc → Event → Shm → Pc → Type 0 where
  begin_write :
      {xs : List ℕ}
      → 0 < length xs
      → length xs + 31 < 2 ^ 64
      → ltb s.data_size (full_entry_size xs) ≡ false
      → WriteMove s idle quiet s (w_tail xs)
  tail_locked : {xs : List ℕ} → is_locked s.tail ≡ true → WriteMove s (w_tail xs) quiet s idle
  load_tail :
      {xs : List ℕ} → is_locked s.tail ≡ false → WriteMove s (w_tail xs) quiet s (w_head xs s.tail)
  no_space :
      {xs : List ℕ} {tail : ℕ}
      → ltb (free_space_at s tail) (full_entry_size xs) ≡ true
      → WriteMove s (w_head xs tail) quiet s idle
  has_space :
      {xs : List ℕ} {tail : ℕ}
      → ltb (free_space_at s tail) (full_entry_size xs) ≡ false
      → WriteMove s (w_head xs tail) quiet s (w_lock xs tail)
  lock_tail :
      {xs : List ℕ} {tail : ℕ}
      → s.tail ≡ unlock tail
      → WriteMove s (w_lock xs tail) quiet (record s { tail = lock tail }) (w_fill xs tail)
  tail_moved :
      {xs : List ℕ} {tail : ℕ}
      → s.tail ≢ unlock tail
      → WriteMove s (w_lock xs tail) quiet s (w_tail xs)
  fill :
      {xs : List ℕ} {tail : ℕ}
      → WriteMove s
          (w_fill xs tail)
          quiet
          (record s {
            region =
                fill_entry
                  (reservation_at s.data_size xs tail)
                  (full_entry_size xs)
                  (length xs)
                  xs
                  s.region;
          })
          (w_commit xs tail)
  commit_message :
      {xs : List ℕ} {tail : ℕ}
      → s.tail ≡ lock tail
      → (reservation_at s.data_size xs tail).is_placeholder ≡ false
      → WriteMove s (w_commit xs tail) (sends xs) (record s { tail = commit_word s tail }) idle
  commit_padding :
      {xs : List ℕ} {tail : ℕ}
      → s.tail ≡ lock tail
      → (reservation_at s.data_size xs tail).is_placeholder ≡ true
      → WriteMove s (w_commit xs tail) quiet (record s { tail = commit_word s tail }) (w_tail xs)
  commit_fails :
      {xs : List ℕ} {tail : ℕ} → s.tail ≢ lock tail → WriteMove s (w_commit xs tail) quiet s failed
