-- ===== src/Tests/Runs.antt =====
-- Runs of the buffer's operations on a region of 128 bytes.
use libshmipc.Base.{ℕ, ◌≡◌, refl, none, some, Option, List, [], ◌∷◌}
use libshmipc.Common.{success, Status, ok, valid, owned, IpcEntry}
use libshmipc.Memory.{to_bytes, from_bytes, store_bytes, load_bytes, store_u64, load_u64}
use libshmipc.Utils.{align_up, relative}
use libshmipc.Buffer.State.{
  Shm, unlock, lock, read_head, is_locked, lock_ref, unlock_ref, advance_head,
  read_entry_header_unsafe, check_entry_header, read_entry_header, lock_head,
}
use libshmipc.Buffer.Write.{
  reserve, fill_entry, commit_entry, write_entry, ipc_buffer_write, IpcBufferWriteResult,
}
use libshmipc.Buffer.Read.{
  read_entry, give_up, copy_entry, finish_read, read_locked, ipc_buffer_read, ReadOutcome,
}

abbrev fresh : Shm
fresh = record { head = 0; data_size = 128; tail = 0; region = λ i. 0 }

write_run : List ℕ → ℕ → Shm → Option (IpcBufferWriteResult × Shm)
unfolding to_bytes from_bytes store_bytes load_bytes store_u64 load_u64 align_up relative unlock
    lock read_head is_locked lock_ref reserve fill_entry commit_entry write_entry ipc_buffer_write
write_run payload size s = ipc_buffer_write 3 valid (some payload) size s

read_run : IpcEntry → Shm → Option ReadOutcome
unfolding to_bytes from_bytes store_bytes load_bytes store_u64 load_u64 align_up relative unlock
    lock read_head is_locked lock_ref unlock_ref read_entry_header_unsafe check_entry_header
    read_entry_header lock_head give_up copy_entry finish_read read_locked ipc_buffer_read
read_run dest s = ipc_buffer_read 3 valid valid dest s

abbrev status_of : Option (IpcBufferWriteResult × Shm) → Option (IpcBufferWriteResult × ℕ × ℕ)
status_of none = none
status_of (some (r, s)) = some (r, s.head, s.tail)

first : status_of (write_run (1 ∷ 2 ∷ 3 ∷ []) 3 fresh) ≡ some (success ok tt, 0, 32)
unfolding write_run
first = refl

abbrev then_read : Option (IpcBufferWriteResult × Shm) → Option (Status × IpcEntry × ℕ)
then_read none = none
then_read (some (r, s)) =
    elim (read_run (record { offset = 0; payload = owned (0 ∷ 0 ∷ 0 ∷ 9 ∷ []); size = 4 }) s) [
      | none ↦ none
      | some (r, e, s') ↦ some (Status.ok, e, s'.head)
    ]

first_read :
    then_read (write_run (1 ∷ 2 ∷ 3 ∷ []) 3 fresh)
    ≡ some (ok, record { offset = 0; payload = owned (1 ∷ 2 ∷ 3 ∷ 9 ∷ []); size = 3 }, 32)
unfolding write_run read_run read_entry advance_head
first_read = refl
