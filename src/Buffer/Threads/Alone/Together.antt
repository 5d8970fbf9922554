-- ===== src/Buffer/Threads/Alone/Together.antt =====
-- A thread that runs alone reaches the memory that the operations as functions leave.
use libshmipc.Base.{ℕ, ◌+◌, ◌*◌, ◌^◌, ◌<◌, ◌≡◌, inl, inr, subst, ap, List, [], ◌∷◌, some, length}
use libshmipc.Common.{ipc_status, IpcEntry, valid}
use libshmipc.Buffer.State.{Shm}
use libshmipc.Buffer.Layout.{Holds}
use libshmipc.Buffer.Write.{IpcBufferWriteResult, ipc_buffer_write}
use libshmipc.Buffer.Write.Outcome.{Wrote}
use libshmipc.Buffer.Write.Refine.{write_refines}
use libshmipc.Buffer.Read.{IpcBufferReadResult, ipc_buffer_read}
use libshmipc.Buffer.Read.Refine.{Received, read_refines}
use libshmipc.Buffer.Peek.{ipc_buffer_peek}
use libshmipc.Buffer.Skip.{ipc_buffer_skip, ipc_buffer_skip_force}
use libshmipc.Buffer.Threads.Point.{idle}
use libshmipc.Buffer.Threads.Alone.{Alone, Runs, returned}
use libshmipc.Buffer.Threads.Alone.Write.{write-Runs, view as written}
use libshmipc.Buffer.Threads.Alone.Read.{read-Runs, view as received}
use libshmipc.Buffer.Threads.Alone.Peek.{peek-Runs, seen}
use libshmipc.Buffer.Threads.Alone.Skip.{skip-Runs, skipped, skip_force_alone}

-- For any contents of the shared memory, the memory that a call of an operation leaves is one that the
-- steps of a thread reach which runs alone and then stands at `failed` if the status is
-- `err_illegal_state`, else at `idle`. A call that is still running when its fuel ends says nothing. A
-- payload is not empty and is an object in memory.
operations-Runs :
    (fuel : ℕ) (xs : List ℕ) (dest : IpcEntry) (offset : ℕ) (s : Shm)
    → 0 < length xs
    → length xs + 31 < 2 ^ 64
    → Runs written idle s (ipc_buffer_write fuel valid (some xs) (length xs) s)
      × Runs received idle s (ipc_buffer_read fuel valid valid dest s)
      × Runs seen idle s (ipc_buffer_peek fuel valid valid dest s)
      × Runs skipped idle s (ipc_buffer_skip fuel valid offset s)
      × (let (r, s') = ipc_buffer_skip_force valid s in Alone s idle s' (returned (ipc_status r)))
operations-Runs fuel xs dest offset s some_bytes bounded = (
  write-Runs xs some_bytes fuel s bounded,
  read-Runs fuel dest s,
  peek-Runs fuel dest s,
  skip-Runs fuel offset s,
  skip_force_alone s,
)

Wrote-returned :
    (k : ℕ) (q : List (List ℕ)) (xs : List ℕ) (s s' : Shm) (r : IpcBufferWriteResult)
    → Wrote k q xs s r s'
    → returned (ipc_status r) ≡ idle
Wrote-returned k q xs s s' r (inl (e, can, w)) = ap (λ x. returned (ipc_status x)) e
Wrote-returned k q xs s s' r (inr (inl (e, le, cannot, w))) = ap returned e
Wrote-returned k q xs s s' r (inr (inr (e, lt, same))) = ap returned e

-- On a buffer at rest that holds the queue `q`, the steps of a writer that runs alone come to an end:
-- the thread is idle again, and the memory is that of a write of `xs` to `q`. The positions stay below
-- 2^64, and the payload is not empty and is an object in memory.
pub write_alone :
    {k : ℕ} {q : List (List ℕ)} {s : Shm} (xs : List ℕ)
    → Holds k q s
    → 0 < length xs
    → length xs + 31 < 2 ^ 64
    → s.tail + 2 * 2 ^ k < 2 ^ 64
    → (r : IpcBufferWriteResult) × (s' : Shm) × Alone s idle s' idle × Wrote k q xs s r s'
write_alone {k} {q} {s} xs h some_bytes bounded no_wrap =
    let (r, s', e, w) = write_refines xs 0 h some_bytes bounded no_wrap in
    (
      r,
      s',
      subst (λ p. Alone s idle s' p) (Wrote-returned k q xs s s' r w)
          (subst (Runs written idle s) e (write-Runs xs some_bytes 2 s bounded)),
      w,
    )

Received-returned :
    (k : ℕ) (q : List (List ℕ)) (dest dest' : IpcEntry) (s' : Shm) (r : IpcBufferReadResult)
    → Received k q dest r dest' s'
    → returned (ipc_status r) ≡ idle
Received-returned k [] dest dest' s' r (e, kept, w) = ap (λ x. returned (ipc_status x)) e
Received-returned k (xs ∷ q) dest dest' s' r (inl (small, e, kept, w)) =
    ap (λ x. returned (ipc_status x)) e
Received-returned k (xs ∷ q) dest dest' s' r (inr (fits, e, moved, w)) =
    ap (λ x. returned (ipc_status x)) e

-- On a buffer at rest that holds the queue `q`, the steps of a reader that runs alone come to an end:
-- the thread is idle again, and the memory is that of a read of `q`.
pub read_alone :
    {k : ℕ} {q : List (List ℕ)} {s : Shm} (dest : IpcEntry)
    → Holds k q s
    → (r : IpcBufferReadResult) × (dest' : IpcEntry) × (s' : Shm) × Alone s idle s' idle
      × Received k q dest r dest' s'
read_alone {k} {q} {s} dest h =
    let (r, dest', s', e, moves, w) = read_refines 0 dest h in
    (
      r,
      dest',
      s',
      subst (λ p. Alone s idle s' p) (Received-returned k q dest dest' s' r w)
          (subst (Runs received idle s) e (read-Runs 2 dest s)),
      w,
    )
