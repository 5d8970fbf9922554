-- ===== src/Buffer/Write.antt =====
-- core/src/ipc_buffer.c: `ipc_buffer_write`.
pub mod Entry
pub mod Fill
pub mod Outcome
pub mod Refine
pub mod Step
pub mod Valid
use libshmipc.Base.{
  ℕ, zero, suc, ◌+◌, Bool, List, Option, none, some, ltb, ◌==◌, if◌then◌else◌, take,
}
use libshmipc.Base.Word.{add64, sub64}
use libshmipc.Common.{
  Result, success, error_body, Status, ok, err_invalid_argument, err_entry_too_large, err_locked,
  err_no_space_contiguous, err_illegal_state, Pointer, null, valid,
}
use libshmipc.Memory.{Memory, store_bytes, store_u64, load_u64}
use libshmipc.Utils.{align_up, relative}
use libshmipc.Buffer.State.{
  Shm, entry_header_size, ipc_data_align, unlock, lock, compare_exchange, read_head, is_locked,
  lock_ref,
}

-- `IpcBufferWriteError`
pub record IpcBufferWriteError : Type 0 where
  pub offset : ℕ
  pub requested_size : ℕ
  pub required_size : ℕ
  pub free_space : ℕ
  pub available_contiguous : ℕ
  pub buffer_size : ℕ

abbrev pub IpcBufferWriteResult : Type 0
IpcBufferWriteResult = Result (Unit {0}) IpcBufferWriteError

-- The local variables when the loop ends with the tail locked.
pub record Reservation : Type 0 where
  pub tail : ℕ
  pub rel_tail : ℕ
  pub space_to_wrap : ℕ
  pub is_placeholder : Bool

-- How the loop ends: by a `return`, or with the tail locked.
pub data Reserved : Type 0 where
  refused : Status → IpcBufferWriteError → Reserved
  reserved : Reservation → Reserved

-- The `do { … } while (!_lock(…))` loop; `none` when it is still running after `fuel` rounds.
unfoldable pub reserve : ℕ → ℕ → ℕ → IpcBufferWriteError → Shm → Option (Reserved × Shm)
reserve zero full_entry_size buf_size error s = none
reserve (suc fuel) full_entry_size buf_size error s =
    let retry = reserve fuel full_entry_size buf_size error s in
    let rel_tail = relative s.tail buf_size in
    let space_to_wrap = sub64 buf_size rel_tail in
    let used = sub64 s.tail (unlock (read_head s)) in
    let free_space = sub64 buf_size used in
    if is_locked s.tail
    then some (refused err_locked error, s)
    else if ltb free_space full_entry_size
    then some (
      refused err_no_space_contiguous (record error {
        offset = s.tail;
        required_size = full_entry_size;
        free_space = free_space;
      }),
      s,
    )
    else (let (locked, word) = lock_ref s.tail s.tail in
        if locked
        then some (
          reserved (record {
            tail = s.tail;
            rel_tail = rel_tail;
            space_to_wrap = space_to_wrap;
            is_placeholder = ltb space_to_wrap (add64 full_entry_size entry_header_size);
          }),
          record s { tail = word },
        )
        else retry)

-- The stores of the entry: a placeholder's two sizes, or the payload and its two sizes; `seq` last.
unfoldable pub fill_entry : Reservation → ℕ → ℕ → List ℕ → Memory → Memory
fill_entry r full_entry_size size payload m =
    let p = r.rel_tail in
    let sized =
      if r.is_placeholder
      then store_u64 (p + 16) r.space_to_wrap (store_u64 (p + 8) 0 m)
      else store_u64 (p + 8) size (
          store_u64 (p + 16) full_entry_size
            (store_bytes (p + entry_header_size) (take size payload) m)) in
    store_u64 p r.tail sized

-- The commit by `atomic_compare_exchange_strong`; behind a placeholder the write starts again.
unfoldable pub commit_entry :
    (Shm → Option (IpcBufferWriteResult × Shm))
    → Reservation
    → IpcBufferWriteError
    → Shm
    → Option (IpcBufferWriteResult × Shm)
commit_entry again r error s =
    let entry_size = load_u64 (r.rel_tail + 16) s.region in
    let (swapped, word) = compare_exchange s.tail (lock r.tail) (add64 r.tail entry_size) in
    let s' = record s { tail = word } in
    if swapped
    then (if r.is_placeholder then again s' else some (success ok tt, s'))
    else some (error_body err_illegal_state (record error { offset = r.tail }), s')

-- What follows the checks of the arguments.
unfoldable pub write_entry :
    ℕ
    → (Shm → Option (IpcBufferWriteResult × Shm))
    → List ℕ
    → ℕ
    → IpcBufferWriteError
    → Shm
    → Option (IpcBufferWriteResult × Shm)
write_entry fuel again payload size error s =
    let full_entry_size = align_up (add64 entry_header_size size) ipc_data_align in
    if ltb s.data_size full_entry_size
    then some (error_body err_entry_too_large (record error { buffer_size = s.data_size }), s)
    else elim (reserve fuel full_entry_size s.data_size error s) [
      | none ↦ none
      | some (reserved r, s') ↦
          commit_entry again r error
            (record s' { region = fill_entry r full_entry_size size payload s'.region })
      | some (refused status e, s') ↦ some (error_body status e, s')
    ]

abbrev pub no_write_error : ℕ → IpcBufferWriteError
no_write_error size = record {
  offset = 0;
  requested_size = size;
  required_size = 0;
  free_space = 0;
  available_contiguous = 0;
  buffer_size = 0;
}

-- `payload` is the memory at `data`, `none` for NULL; it has `size` bytes at least. The fuel bounds
-- the restarts behind a placeholder and the rounds of the loop.
unfoldable pub ipc_buffer_write :
    ℕ → Pointer → Option (List ℕ) → ℕ → Shm → Option (IpcBufferWriteResult × Shm)
ipc_buffer_write zero buffer payload size s = none
ipc_buffer_write (suc fuel) null payload size s =
    some (error_body err_invalid_argument (no_write_error size), s)
ipc_buffer_write (suc fuel) valid none size s =
    some (error_body err_invalid_argument (no_write_error size), s)
ipc_buffer_write (suc fuel) valid (some payload) size s =
    let again = ipc_buffer_write fuel valid (some payload) size in
    if size == 0
    then some (error_body err_invalid_argument (no_write_error size), s)
    else write_entry (suc fuel) again payload size (no_write_error size) s
