-- ===== src/Buffer/Threads/Reading.antt =====
-- core/src/ipc_buffer.c: `ipc_buffer_read`, `ipc_buffer_peek`, `ipc_buffer_skip` and
-- `ipc_buffer_skip_force`, an access of a shared word at a time.
use libshmipc.Base.{ℕ, ◌+◌, ◌≡◌, ◌≢◌, true, false, Option, none, some, List, ltb}
use libshmipc.Base.Word.{add64}
use libshmipc.Common.{Status, is_ok, is_placeholder}
use libshmipc.Memory.{load_u64, load_bytes}
use libshmipc.Utils.{relative}
use libshmipc.Buffer.State.{
  Shm, EntryHeader, entry_header_size, unlock, lock, is_locked, read_head, load_entry_header,
  check_entry_header,
}
use libshmipc.Buffer.Threads.Point.{
  Asked, Event, Job, Pc, Wanted, f_entry, f_swap, f_tail, failed, forces, idle, peeking, quiet,
  r_entry, r_head, r_lock, r_pad, r_tail, r_take, r_unlock, reading, skipping, takes,
}

-- `_read_entry_header`, once the tail is loaded, and the bytes that `ipc_buffer_read` copies.
abbrev pub header_at : Shm → ℕ → Status × EntryHeader
header_at s head =
    check_entry_header head (load_entry_header (relative (unlock head) s.data_size) s.region)

abbrev pub bytes_at : Shm → ℕ → List ℕ
bytes_at s head =
    load_bytes ((header_at s head).1).payload_size (relative head s.data_size + entry_header_size)
      s.region

-- `ipc_buffer_read`, `ipc_buffer_peek` and `ipc_buffer_skip`. The loads from the entry are one step:
-- no thread stores to an entry between the head and the tail.
pub data ReadMove (s : Shm) : Pc → Event → Shm → Pc → Type 0 where
  begin_read : {j : Job} → Asked j → ReadMove s idle quiet s (r_head j)
  head_locked : {j : Job} → is_locked s.head ≡ true → ReadMove s (r_head j) quiet s idle
  other_offset :
      {offset : ℕ}
      → is_locked s.head ≡ false
      → unlock s.head ≢ offset
      → ReadMove s (r_head (skipping offset)) quiet s idle
  load_head :
      {j : Job}
      → is_locked s.head ≡ false
      → Wanted j s.head
      → ReadMove s (r_head j) quiet s (r_lock j s.head)
  lock_head :
      {j : Job} {head : ℕ}
      → s.head ≡ unlock head
      → ReadMove s (r_lock j head) quiet (record s { head = lock head }) (r_tail j head)
  head_moved :
      {j : Job} {head : ℕ} → s.head ≢ unlock head → ReadMove s (r_lock j head) quiet s (r_head j)
  found_empty :
      {j : Job} {head : ℕ}
      → unlock head ≡ unlock s.tail
      → ReadMove s (r_tail j head) quiet s (r_unlock head)
  found_busy :
      {j : Job} {head : ℕ}
      → unlock head ≢ unlock s.tail
      → is_locked s.tail ≡ true
      → ReadMove s (r_tail j head) quiet s (r_unlock head)
  found_entry :
      {j : Job} {head : ℕ}
      → unlock head ≢ unlock s.tail
      → is_locked s.tail ≡ false
      → ReadMove s (r_tail j head) quiet s (r_entry j head)
  unreadable :
      {j : Job} {head : ℕ}
      → is_placeholder (header_at s head).0 ≡ false
      → is_ok (header_at s head).0 ≡ false
      → ReadMove s (r_entry j head) quiet s (r_unlock head)
  found_padding :
      {j : Job} {head : ℕ}
      → is_placeholder (header_at s head).0 ≡ true
      → ReadMove s (r_entry j head) quiet s (r_pad j head ((header_at s head).1).entry_size)
  too_small :
      {size head : ℕ}
      → is_ok (header_at s head).0 ≡ true
      → ltb size ((header_at s head).1).payload_size ≡ true
      → ReadMove s (r_entry (reading size) head) quiet s (r_unlock head)
  copy :
      {size head : ℕ}
      → is_ok (header_at s head).0 ≡ true
      → ltb size ((header_at s head).1).payload_size ≡ false
      → ReadMove s
          (r_entry (reading size) head)
          quiet
          s
          (r_take head ((header_at s head).1).entry_size (some (bytes_at s head)))
  view :
      {head : ℕ}
      → is_ok (header_at s head).0 ≡ true
      → ReadMove s (r_entry peeking head) quiet s (r_unlock head)
  pass :
      {offset head : ℕ}
      → is_ok (header_at s head).0 ≡ true
      → ReadMove s
          (r_entry (skipping offset) head)
          quiet
          s
          (r_take head ((header_at s head).1).entry_size none)
  unlock_head :
      {head : ℕ}
      → s.head ≡ lock head
      → ReadMove s (r_unlock head) quiet (record s { head = unlock head }) idle
  unlock_fails : {head : ℕ} → s.head ≢ lock head → ReadMove s (r_unlock head) quiet s failed
  advance_padding :
      {j : Job} {head entry_size : ℕ}
      → s.head ≡ lock head
      → ReadMove s
          (r_pad j head entry_size)
          quiet
          (record s { head = add64 head entry_size })
          (r_head j)
  padding_fails :
      {j : Job} {head entry_size : ℕ}
      → s.head ≢ lock head
      → ReadMove s (r_pad j head entry_size) quiet s failed
  advance :
      {head entry_size : ℕ} {copied : Option (List ℕ)}
      → s.head ≡ lock head
      → ReadMove s
          (r_take head entry_size copied)
          (takes copied)
          (record s { head = add64 head entry_size })
          idle
  advance_fails :
      {head entry_size : ℕ} {copied : Option (List ℕ)}
      → s.head ≢ lock head
      → ReadMove s (r_take head entry_size copied) quiet s failed

-- `ipc_buffer_skip_force`
pub data ForceMove (s : Shm) : Pc → Event → Shm → Pc → Type 0 where
  begin_force : ForceMove s idle quiet s (f_tail (unlock (read_head s)))
  force_empty : {head : ℕ} → unlock head ≡ unlock s.tail → ForceMove s (f_tail head) quiet s idle
  force_entry :
      {head : ℕ} → unlock head ≢ unlock s.tail → ForceMove s (f_tail head) quiet s (f_entry head)
  load_size :
      {head : ℕ}
      → ForceMove s
          (f_entry head)
          quiet
          s
          (f_swap head (load_u64 (relative (unlock head) s.data_size + 16) s.region))
  force :
      {head entry_size : ℕ}
      → s.head ≡ head
      → ForceMove s (f_swap head entry_size) forces (record s { head = add64 head entry_size }) idle
  already_skipped :
      {head entry_size : ℕ} → s.head ≢ head → ForceMove s (f_swap head entry_size) quiet s idle
