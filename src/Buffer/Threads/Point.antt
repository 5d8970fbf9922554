-- ===== src/Buffer/Threads/Point.antt =====
-- core/src/ipc_buffer.c: where a thread stands within an operation, and what others can observe.
use libshmipc.Base.{ℕ, ◌≡◌, true, Option, List}
use libshmipc.Buffer.State.{unlock, is_aligned}

-- What a reader does with the entry at the head: `ipc_buffer_read` with the size of the destination,
-- `ipc_buffer_peek`, or `ipc_buffer_skip` with an offset.
pub data Job : Type 0 where
  reading : (size : ℕ) → Job
  peeking : Job
  skipping : (offset : ℕ) → Job

-- The checks before the loop of a reader, and those of the head that it has loaded.
abbrev pub Asked : Job → Type 0
Asked (skipping offset) = is_aligned offset ≡ true
Asked _ = Unit

abbrev pub Wanted : Job → ℕ → Type 0
Wanted (skipping offset) head = unlock head ≡ offset
Wanted _ head = Unit

-- Where a thread stands, with the local variables that are live there.
pub data Pc : Type 0 where
  idle : Pc
  failed : Pc  -- `IPC_ERR_ILLEGAL_STATE` was returned
  w_tail : (payload : List ℕ) → Pc  -- head of the loop of `ipc_buffer_write`
  w_head : (payload : List ℕ) (tail : ℕ) → Pc  -- before `_read_head`
  w_lock : (payload : List ℕ) (tail : ℕ) → Pc  -- before `_lock`
  w_fill : (payload : List ℕ) (tail : ℕ) → Pc  -- before the stores
  w_commit : (payload : List ℕ) (tail : ℕ) → Pc  -- before the exchange
  r_head : Job → Pc  -- head of the loop of a reader
  r_lock : Job → (head : ℕ) → Pc  -- before `_lock`
  r_tail : Job → (head : ℕ) → Pc  -- before the load in `_read_entry_header_unsafe`
  r_entry : Job → (head : ℕ) → Pc  -- before the loads from the entry
  r_unlock : (head : ℕ) → Pc  -- before `_unlock`
  r_pad : Job → (head entry_size : ℕ) → Pc  -- before the exchange, behind a placeholder
  r_take : (head entry_size : ℕ) (copied : Option (List ℕ)) → Pc  -- before the exchange
  f_tail : (head : ℕ) → Pc  -- `ipc_buffer_skip_force`, before the load of the tail
  f_entry : (head : ℕ) → Pc  -- before the load of `entry_size`
  f_swap : (head entry_size : ℕ) → Pc  -- before the exchange

-- What the step says to an observer: a message is committed, an entry is taken with the payload that
-- stands in the destination, an entry is skipped, or skipped by force, whether or not it is a
-- placeholder.
pub data Event : Type 0 where
  quiet : Event
  sends : List ℕ → Event
  takes : Option (List ℕ) → Event
  forces : Event
