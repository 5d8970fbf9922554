-- ===== src/Tests/Examples.antt =====
-- The theorems at concrete inputs where their hypotheses hold.
use libshmipc.Base.{ℕ, ◌≡◌, some, List, [], ◌∷◌, arith, length}
use libshmipc.Common.{valid, ipc_status, err_no_space_contiguous, IpcEntry, owned, allocated}
use libshmipc.Buffer.State.{Shm}
use libshmipc.Buffer.Layout.{Holds}
use libshmipc.Buffer.Create.{IpcBufferCreateResult, ipc_buffer_create}
use libshmipc.Buffer.Create.Outcome.{Created, create_refines}
use libshmipc.Buffer.Write.{IpcBufferWriteResult, ipc_buffer_write}
use libshmipc.Buffer.Write.Outcome.{Wrote}
use libshmipc.Buffer.Write.Refine.{write_refines, write_never_fits}
use libshmipc.Buffer.Read.{ipc_buffer_read}
use libshmipc.Buffer.Read.Refine.{ReadSpec, read_refines}
use libshmipc.Buffer.Peek.{ipc_buffer_peek}
use libshmipc.Buffer.Peek.Refine.{PeekSpec, peek_refines}
use libshmipc.Buffer.Skip.{ipc_buffer_skip, ipc_buffer_skip_force}
use libshmipc.Buffer.Skip.Refine.{SkipSpec, skip_refines, ForceSkipped, skip_force_refines}
use libshmipc.Buffer.Trace.{Call, write, read, run, Fifo, run-Fifo}
use libshmipc.Tests.States.{raw, fresh, hello, fresh-Holds, one_message, one_message-Holds}

abbrev room_for_eight : IpcEntry
room_for_eight = record {
  offset = 0;
  payload = owned (0 ∷ 0 ∷ 0 ∷ 0 ∷ 0 ∷ 0 ∷ 0 ∷ 0 ∷ []);
  size = 8;
}

create_refines_example :
    (r : IpcBufferCreateResult) × (s' : Shm) × (ipc_buffer_create 64 4096 256 allocated raw
      ≡ some (r, s'))
    × Created 4096 256 allocated raw r s'
create_refines_example = create_refines 64 4096 256 allocated raw (omega arith) (omega arith)

write_refines_example :
    (r : IpcBufferWriteResult) × (s' : Shm) × (ipc_buffer_write 2 valid (some hello) 5 one_message
      ≡ some (r, s'))
    × Wrote 7 (hello ∷ []) hello one_message r s'
write_refines_example =
    write_refines hello 0 one_message-Holds (omega arith) (omega arith) (omega arith)

-- 96 bytes and the header take 120 of the 128 bytes.
abbrev large : List ℕ
large = zeros 96
  where
    zeros : ℕ → List ℕ
    zeros n = elim n [ ℕ.zero ↦ [] | ℕ.suc (m → r) ↦ 0 ∷ r ]

write_never_fits_example :
    (r : IpcBufferWriteResult) × (s' : Shm) × (ipc_buffer_write 2 valid
        (some large)
        (length large)
        fresh
      ≡ some (r, s'))
    × (ipc_status r ≡ err_no_space_contiguous)
    × Holds 7 [] s'
write_never_fits_example =
    write_never_fits large 0 fresh-Holds (omega arith) (omega arith) (omega arith) (omega arith)

read_refines_example :
    ReadSpec 7
      (hello ∷ [])
      room_for_eight
      one_message
      (ipc_buffer_read 2 valid valid room_for_eight one_message)
read_refines_example = read_refines 0 room_for_eight one_message-Holds

peek_refines_example :
    PeekSpec 7
      (hello ∷ [])
      room_for_eight
      one_message
      (ipc_buffer_peek 2 valid valid room_for_eight one_message)
peek_refines_example = peek_refines 0 room_for_eight one_message-Holds

skip_refines_example : SkipSpec 7 (hello ∷ []) 0 one_message (ipc_buffer_skip 2 valid 0 one_message)
skip_refines_example = skip_refines 0 0 one_message-Holds (omega arith) (omega arith)

skip_force_refines_example :
    let (r, s') = ipc_buffer_skip_force valid one_message in
    ForceSkipped 7 (hello ∷ []) one_message r s'
skip_force_refines_example = skip_force_refines one_message-Holds

-- A write, a read to memory that is too small, another write, and two reads.
abbrev calls : List Call
calls = write hello ∷ read [] ∷ write (1 ∷ 2 ∷ []) ∷ read hello ∷ read hello ∷ []

run-Fifo_example : Fifo 7 (hello ∷ []) (run 2 calls one_message)
run-Fifo_example =
    run-Fifo 0 calls one_message-Holds (omega arith, omega arith, (omega arith, omega arith, tt))
      (omega arith)
