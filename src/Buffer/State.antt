-- ===== src/Buffer/State.antt =====
-- core/src/ipc_buffer.c: the shared header, the lock bit of the position words, entry headers.
use Prim.Native.Nat.{bit_and, bit_or}
use libshmipc.Base.{ℕ, zero, suc, ◌+◌, Bool, true, false, Option, none, some, ◌==◌, if◌then◌else◌}
use libshmipc.Base.Word.{add64, not64}
use libshmipc.Common.{Status, is_ok, ok, empty, placeholder, err_not_ready, err_locked}
use libshmipc.Memory.{Memory, load_u64}
use libshmipc.Utils.{align_up, relative}

-- `sizeof(IpcBufferHeader)`, `IPC_DATA_ALIGN` and `sizeof(EntryHeader)`.
abbrev pub buffer_header_size_aligned : ℕ
buffer_header_size_aligned = 128

abbrev pub ipc_data_align : ℕ
ipc_data_align = 8

abbrev pub entry_header_size : ℕ
entry_header_size = 24

-- `struct IpcBuffer`: the addresses of the header and of the data region.
pub record IpcBuffer : Type 0 where
  pub header : ℕ
  pub region : ℕ

-- The shared memory behind a handle: the fields of `IpcBufferHeader`, and the data region.
pub record Shm : Type 0 where
  pub head : ℕ
  pub data_size : ℕ
  pub tail : ℕ
  pub region : Memory

-- `EntryHeader`
pub record EntryHeader : Type 0 where
  pub seq : ℕ
  pub payload_size : ℕ
  pub entry_size : ℕ

-- `UNLOCK(offset)` and `LOCK(offset)`
unfoldable pub unlock : ℕ → ℕ
unlock offset = bit_and offset (not64 1)

unfoldable pub lock : ℕ → ℕ
lock offset = bit_or offset 1

-- `atomic_compare_exchange_strong`: whether it exchanged, and the word afterwards.
abbrev pub compare_exchange : ℕ → ℕ → ℕ → Bool × ℕ
compare_exchange word expected desired = if word == expected then (true, desired) else (false, word)

unfoldable pub read_head : Shm → ℕ
read_head s = s.head

unfoldable pub is_aligned : ℕ → Bool
is_aligned offset = align_up offset ipc_data_align == offset

unfoldable pub is_locked : ℕ → Bool
is_locked offset = lock offset == offset

-- `_lock` and `_unlock`, on the value of the word that they are given.
unfoldable pub lock_ref : ℕ → ℕ → Bool × ℕ
lock_ref word offset = compare_exchange word (unlock offset) (lock offset)

unfoldable pub unlock_ref : ℕ → ℕ → Bool × ℕ
unlock_ref word offset = compare_exchange word (lock offset) (unlock offset)

-- `_read_entry_header_unsafe`: the status, and the index that `*dest` points to. With `empty` the
-- pointer is left unset, and the index stands for nothing.
unfoldable pub read_entry_header_unsafe : Shm → ℕ → Status × ℕ
read_entry_header_unsafe s offset =
    let aligned_head = unlock offset in
    if aligned_head == unlock s.tail
    then (empty, 0)
    else (if is_locked s.tail then err_not_ready else ok, relative aligned_head s.data_size)

abbrev pub load_entry_header : ℕ → Memory → EntryHeader
load_entry_header rel m = record {
  seq = load_u64 rel m;
  payload_size = load_u64 (rel + 8) m;
  entry_size = load_u64 (rel + 16) m;
}

-- The fields of the header that `_read_entry_header` leaves unset; no caller reads them then.
abbrev pub unset : EntryHeader
unset = record { seq = 0; payload_size = 0; entry_size = 0 }

-- What `_read_entry_header` does with the header that the unsafe read has found.
unfoldable pub check_entry_header : ℕ → EntryHeader → Status × EntryHeader
check_entry_header offset h =
    if h.seq == offset
    then (if h.payload_size == 0 then placeholder else ok, h)
    else (if is_locked offset then err_locked else err_not_ready, record unset { seq = h.seq })

unfoldable pub read_entry_header : Shm → ℕ → Status × EntryHeader
read_entry_header s offset =
    let (status, rel) = read_entry_header_unsafe s offset in
    if is_ok status
    then check_entry_header offset (load_entry_header rel s.region)
    else (status, unset)

-- How the `do { … } while (!_lock(…))` loop of a reader ends: by a `return` with an offset, or with
-- the head locked.
pub data HeadLock : Type 0 where
  busy : Status → ℕ → HeadLock
  held : ℕ → HeadLock

-- The loop of `ipc_buffer_read` and `ipc_buffer_peek`; `none` when it is still running after
-- `fuel` rounds.
unfoldable pub lock_head : ℕ → Shm → Option (HeadLock × Shm)
lock_head zero s = none
lock_head (suc fuel) s =
    let retry = lock_head fuel s in
    let head = read_head s in
    if is_locked head
    then some (busy err_locked (unlock head), s)
    else (let (locked, word) = lock_ref s.head head in
        if locked then some (held head, record s { head = word }) else retry)

-- `_unlock` of the head, and the exchange that moves it behind the entry.
unfoldable pub release_head : ℕ → Shm → Bool × Shm
release_head head s =
    let (swapped, word) = unlock_ref s.head head in (swapped, record s { head = word })

unfoldable pub advance_head : ℕ → ℕ → Shm → Bool × Shm
advance_head head entry_size s =
    let (swapped, word) = compare_exchange s.head (lock head) (add64 head entry_size) in
    (swapped, record s { head = word })
