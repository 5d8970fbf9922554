-- ===== src/Buffer/Trace.antt =====
-- Sequences of `ipc_buffer_write` and `ipc_buffer_read`: the buffer as a FIFO queue.
use libshmipc.Base.{
  drop, append-nil, append_assoc, take-append, true, false, ℕ, suc, ◌+◌, ◌*◌, ◌^◌, ◌≤◌, ◌<◌, ◌≡◌,
  ◌⊎◌, inl, inr, refl, sym, ap, subst, ◌∙◌, List, [], ◌∷◌, ◌++◌, Option, none, some, arith, length,
  take, if◌then◌else◌,
}
use libshmipc.Common.{ipc_status, is_ok, valid, owned, IpcEntry}
use libshmipc.Buffer.State.{Shm}
use libshmipc.Buffer.Layout.{Holds, full_size}
use libshmipc.Buffer.Layout.Chain.{Entries-le}
use libshmipc.Buffer.Write.{IpcBufferWriteResult, ipc_buffer_write}
use libshmipc.Buffer.Write.Outcome.{CanWrite, Wrote, write_outcome}
use libshmipc.Buffer.Read.{IpcBufferReadResult, ipc_buffer_read}
use libshmipc.Buffer.Read.Refine.{read_refines}

-- A call of a client: a write of some bytes, or a read to memory with some bytes in it.
pub data Call : Type 0 where
  write : List ℕ → Call
  read : List ℕ → Call

-- The destination of a read.
abbrev pub destination : List ℕ → IpcEntry
destination bytes = record { offset = 0; payload = owned bytes; size = length bytes }

-- The bytes that a read has left in its destination.
abbrev pub bytes_of : IpcEntry → List ℕ
bytes_of e = elim e.payload [ owned bytes ↦ take e.size bytes | _ ↦ [] ]

-- What a sequence of calls has done: the payloads written with `ok`, and those read with `ok`, in
-- the order of the calls, and the memory.
pub record Log : Type 0 where
  pub written : List (List ℕ)
  pub delivered : List (List ℕ)
  pub memory : Shm

abbrev pub log_write : List ℕ → IpcBufferWriteResult → Log → Log
log_write xs r l = record l { written = if is_ok (ipc_status r) then xs ∷ l.written else l.written }

abbrev pub log_read : IpcEntry → IpcBufferReadResult → Log → Log
log_read dest r l = record l {
  delivered = if is_ok (ipc_status r) then bytes_of dest ∷ l.delivered else l.delivered;
}

unfoldable pub run : ℕ → List Call → Shm → Option Log
run fuel [] s = some (record { written = []; delivered = []; memory = s })
run fuel (write xs ∷ calls) s = elim (ipc_buffer_write fuel valid (some xs) (length xs) s) [
  | none ↦ none
  | some (r, s') ↦ elim (run fuel calls s') [ none ↦ none | some l ↦ some (log_write xs r l) ]
]
run fuel (read bytes ∷ calls) s = elim (ipc_buffer_read fuel valid valid (destination bytes) s) [
  | none ↦ none
  | some (r, dest, s') ↦ elim (run fuel calls s') [
    | none ↦ none
    | some l ↦ some (log_read dest r l)
  ]
]

-- The payloads that are written are not empty, and their entries have less than 2^64 bytes.
abbrev pub Writable : List Call → Type 0
Writable [] = Unit {0}
Writable (write xs ∷ calls) = (0 < length xs) × (length xs + 31 < 2 ^ 64) × Writable calls
Writable (read bytes ∷ calls) = Writable calls

-- How far the tail may get: the capacity once for each call, and once more.
abbrev pub reach : ℕ → List Call → ℕ
reach k [] = 2 ^ k
reach k (call ∷ calls) = 2 ^ k + reach k calls

reach-le : (k : ℕ) (calls : List Call) → 2 ^ k ≤ reach k calls
reach-le k [] = omega arith
reach-le k (call ∷ calls) = omega arith

-- What was in the queue and what was written is what was read and what is left, in this order.
abbrev pub Fifo : ℕ → List (List ℕ) → Option Log → Type 0
Fifo k q out =
    (l : Log) × (rest : List (List ℕ)) × (out ≡ some l)
    × Holds k rest l.memory
    × (q ++ l.written ≡ l.delivered ++ rest)

tail-le :
    {k : ℕ} {q : List (List ℕ)} {s : Shm}
    → Holds k q s
    → (s.head ≤ s.tail) × (s.tail ≤ s.head + 2 ^ k)
tail-le {k} {s = s} h =
    (Entries-le (2 ^ k) s.region s.head h.slots s.tail h.valid.entries, h.valid.used)

-- A write on a buffer that holds `q`.
pub write_step :
    {k : ℕ} {q : List (List ℕ)} {s : Shm} (xs : List ℕ) (fuel : ℕ)
    → Holds k q s
    → 0 < length xs
    → length xs + 31 < 2 ^ 64
    → s.tail + 2 * 2 ^ k < 2 ^ 64
    → (r : IpcBufferWriteResult) × (s' : Shm) × (q' : List (List ℕ)) × (ipc_buffer_write
          (suc (suc fuel))
          valid
          (some xs)
          (length xs)
          s
        ≡ some (r, s'))
      × (s'.tail ≤ s.tail + 2 ^ k)
      × Holds k q' s'
      × ((is_ok (ipc_status r) ≡ true)
            × CanWrite k (full_size (length xs)) s
            × (q' ≡ q ++ (xs ∷ []))
          ⊎ (is_ok (ipc_status r) ≡ false) × ¬ CanWrite k (full_size (length xs)) s × (q' ≡ q))
write_step {k} {q} {s} xs fuel h some_bytes bounded no_wrap =
    let (r, s', e, f, w) = write_outcome h.valid xs fuel some_bytes bounded no_wrap in
    elim (subst (λ q. Wrote k q xs s r s') h.contents w) [
      | inl (a, can, b) ↦
          let bound : s'.tail ≤ s.tail + 2 ^ k = omega (arith, f.head_kept, tail-le h, tail-le b) in
          (r, s', _, e, bound, b, inl (rw a refl, can, refl))
      | inr (inl (a, fits, cannot, b)) ↦
          let bound : s'.tail ≤ s.tail + 2 ^ k = omega (arith, f.head_kept, tail-le h, tail-le b) in
          (r, s', _, e, bound, b, inr (rw a refl, cannot, refl))
      | inr (inr (a, large, same)) ↦
          let cannot : ¬ CanWrite k (full_size (length xs)) s =
            λ can. elim can.1 [ inl z ↦ omega (arith, can.0) | inr z ↦ omega (arith, can.0) ] in
          (r, s', _, e, rw same (omega arith), rw same h, inr (rw a refl, cannot, refl))
    ]

-- A read on a buffer that holds `q`: it takes the oldest payload and reports its bytes, or nothing.
read_step :
    {k : ℕ} {q : List (List ℕ)} {s : Shm} (bytes : List ℕ) (fuel : ℕ)
    → Holds k q s
    → (r : IpcBufferReadResult) × (dest : IpcEntry) × (s' : Shm) × (q' : List (List ℕ))
      × (ipc_buffer_read (suc (suc fuel)) valid valid (destination bytes) s ≡ some (r, dest, s'))
      × (s'.tail ≡ s.tail)
      × Holds k q' s'
      × ((is_ok (ipc_status r) ≡ true) × (q ≡ bytes_of dest ∷ q')
          ⊎ (is_ok (ipc_status r) ≡ false) × (q ≡ q'))
read_step {q = []} bytes fuel h =
    let (r, dest, s', e, (le, only), (a, same, b)) = read_refines fuel (destination bytes) h in
    (r, dest, s', [], e, rw only refl, b, inr (rw a refl, refl))
read_step {q = xs ∷ q} bytes fuel h =
    let (r, dest, s', e, (le, only), w) = read_refines fuel (destination bytes) h in
    elim w [
      | inl (small, a, same, b) ↦ (r, dest, s', xs ∷ q, e, rw only refl, b, inr (rw a refl, refl))
      | inr (fits, a, (p, is, next), b) ↦ (
        r,
        dest,
        s',
        q,
        e,
        rw only refl,
        b,
        inl (rw a refl, ap (λ ys. ys ∷ q) (rw is (sym (take-append xs (drop (length xs) bytes))))),
      )
    ]

log_write-Fifo :
    {q q' : List (List ℕ)} (xs : List ℕ) (r : IpcBufferWriteResult) (l : Log) (rest : List (List ℕ))
    → (is_ok (ipc_status r) ≡ true) × (q' ≡ q ++ (xs ∷ []))
      ⊎ (is_ok (ipc_status r) ≡ false) × (q' ≡ q)
    → q' ++ l.written ≡ l.delivered ++ rest
    → q ++ (log_write xs r l).written ≡ l.delivered ++ rest
log_write-Fifo {q = q} xs r l rest (inl (a, b)) e =
    rw a (sym (append_assoc q (xs ∷ []) l.written) ∙ ap (λ p. p ++ l.written) (sym b) ∙ e)
log_write-Fifo xs r l rest (inr (a, b)) e = rw a (ap (λ p. p ++ l.written) (sym b) ∙ e)

log_read-Fifo :
    {q q' : List (List ℕ)} (dest : IpcEntry) (r : IpcBufferReadResult) (l : Log)
    (rest : List (List ℕ))
    → (is_ok (ipc_status r) ≡ true) × (q ≡ bytes_of dest ∷ q')
      ⊎ (is_ok (ipc_status r) ≡ false) × (q ≡ q')
    → q' ++ l.written ≡ l.delivered ++ rest
    → q ++ l.written ≡ (log_read dest r l).delivered ++ rest
log_read-Fifo dest r l rest (inl (a, b)) e =
    rw a (ap (λ p. p ++ l.written) b ∙ ap (λ p. bytes_of dest ∷ p) e)
log_read-Fifo dest r l rest (inr (a, b)) e = rw a (ap (λ p. p ++ l.written) b ∙ e)

-- Any sequence of writes and reads on a buffer at rest that holds the queue `q` returns if there is
-- fuel for one restart in each call, the payloads are writable, and the tail cannot get to 2^64. The
-- buffer is a FIFO queue: the payloads that it held, followed by those written with `ok`, are those
-- read with `ok`, byte for byte, followed by those that it holds in the end, in the same order.
pub run-Fifo :
    {k : ℕ} (fuel : ℕ) (calls : List Call) {q : List (List ℕ)} {s : Shm}
    → Holds k q s
    → Writable calls
    → s.tail + reach k calls < 2 ^ 64
    → Fifo k q (run (suc (suc fuel)) calls s)
unfolding run
run-Fifo fuel [] {q} h w no_wrap = (_, q, refl, h, append-nil q)
run-Fifo {k} fuel (write xs ∷ calls) {q} {s} h (some_bytes, bounded, w) no_wrap =
    let room : 2 ^ k ≤ reach k calls = reach-le k calls in
    let (r, s', q', e, bound, holds, how) = write_step xs fuel h some_bytes bounded (omega arith) in
    let (l, rest, done, after, order) = run-Fifo fuel calls holds w (omega arith) in
    let outcome : (is_ok (ipc_status r) ≡ true) × (q' ≡ q ++ (xs ∷ []))
        ⊎ (is_ok (ipc_status r) ≡ false) × (q' ≡ q) =
      elim how [ inl (a, can, b) ↦ inl (a, b) | inr (a, cannot, b) ↦ inr (a, b) ] in
    (log_write xs r l, rest, rw (run, e, done), after, log_write-Fifo xs r l rest outcome order)
run-Fifo {k} fuel (read bytes ∷ calls) {q} {s} h w no_wrap =
    let (r, dest, s', q', e, kept, holds, how) = read_step bytes fuel h in
    let (l, rest, done, after, order) = run-Fifo fuel calls holds w (omega arith) in
    (log_read dest r l, rest, rw (run, e, done), after, log_read-Fifo dest r l rest how order)
