-- ===== src/Common.antt =====
-- include/shmipc/ipc_common.h: the status codes, the result structures and the entry that every
-- part of the library shares.
use libshmipc.Base.{ℕ, Bool, true, false, List}

-- `IpcStatus`
pub data Status : Type 0 where
  ok empty already_skipped placeholder : Status
  err_entry_too_large err_allocation err_invalid_argument err_too_small : Status
  err_illegal_state err_system err_no_space_contiguous err_not_ready : Status
  err_locked err_offset_mismatch err_timeout err_corrupted : Status

-- The codes of the enumeration are negative from `IPC_ERR_ENTRY_TOO_LARGE` on.
abbrev pub is_negative : Status → Bool
is_negative ok = false
is_negative empty = false
is_negative already_skipped = false
is_negative placeholder = false
is_negative _ = true

-- `status == IPC_OK`, `status == IPC_EMPTY`, `status == IPC_PLACEHOLDER`
abbrev pub is_ok : Status → Bool
is_ok ok = true
is_ok _ = false

abbrev pub is_empty : Status → Bool
is_empty empty = true
is_empty _ = false

abbrev pub is_placeholder : Status → Bool
is_placeholder placeholder = true
is_placeholder _ = false

-- `status == IPC_ERR_NO_SPACE_CONTIGUOUS`, `status == IPC_ERR_TOO_SMALL`
abbrev pub is_no_space_contiguous : Status → Bool
is_no_space_contiguous err_no_space_contiguous = true
is_no_space_contiguous _ = false

abbrev pub is_too_small : Status → Bool
is_too_small err_too_small = true
is_too_small _ = false

-- `IPC_RESULT(NAME, T, E)`, built by `NAME##_ok`, `NAME##_error` and `NAME##_error_body`.
-- `IPC_RESULT_UNIT` is the case where `T` is `Unit`. The text in `detail` is left out.
pub data Result (T E : Type 0) : Type 0 where
  success : Status → T → Result T E
  error : Status → Result T E
  error_body : Status → E → Result T E

abbrev pub ipc_status : {T E : Type 0} → Result T E → Status
ipc_status (success s v) = s
ipc_status (error s) = s
ipc_status (error_body s e) = s

-- `NAME##_is_ok` and `NAME##_is_error` look at the status alone.
abbrev pub is_error : {T E : Type 0} → Result T E → Bool
is_error r = is_negative (ipc_status r)

abbrev pub has_body : {T E : Type 0} → Result T E → Bool
has_body (success s v) = false
has_body (error s) = false
has_body (error_body s e) = true

-- An argument that is a pointer to an object of the model, or NULL.
pub data Pointer : Type 0 where
  null valid : Pointer

-- What `IpcEntry.payload` points to: nothing, memory of the caller with its bytes, or the bytes of
-- the buffer's data region from an index on.
pub data Payload : Type 0 where
  nothing : Payload
  owned : List ℕ → Payload
  shared : ℕ → Payload

-- `IpcEntry`
pub record IpcEntry : Type 0 where
  pub offset : ℕ
  pub payload : Payload
  pub size : ℕ

-- What `malloc` or `realloc` answers: memory, or NULL with `errno`.
pub data Allocation : Type 0 where
  allocated : Allocation
  failed : ℕ → Allocation
