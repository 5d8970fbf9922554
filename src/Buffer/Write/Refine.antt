-- ===== src/Buffer/Write/Refine.antt =====
-- `ipc_buffer_write` as a call on a queue: what it returns, what it leaves alone, what never fits.
use libshmipc.Base.{
  ℕ, suc, ◌+◌, ◌*◌, ◌^◌, ◌≤◌, ◌<◌, ◌≡◌, inl, inr, subst, List, some, arith, length,
}
use libshmipc.Common.{ipc_status, err_no_space_contiguous, valid}
use libshmipc.Buffer.State.{Shm}
use libshmipc.Buffer.Layout.{Holds, full_size}
use libshmipc.Buffer.Write.{IpcBufferWriteResult, ipc_buffer_write}
use libshmipc.Buffer.Write.Step.{space_to_wrap}
use libshmipc.Buffer.Write.Outcome.{CanWrite, Wrote, Frame, write_outcome}

-- On a buffer at rest that holds the queue `q`, a write of the bytes `xs`, not empty and with less
-- than 2^64 bytes for the entry, returns if there is fuel for one restart and the positions stay
-- below 2^64. It appends `xs` to the queue and returns `ok` if the entry fits (`CanWrite`);
-- otherwise it keeps the queue and returns `err_no_space_contiguous` for an entry that is not larger
-- than the region, or changes nothing and returns `err_entry_too_large` for one that is.
pub write_refines :
    {k : ℕ} {q : List (List ℕ)} {s : Shm} (xs : List ℕ) (fuel : ℕ)
    → Holds k q s
    → 0 < length xs
    → length xs + 31 < 2 ^ 64
    → s.tail + 2 * 2 ^ k < 2 ^ 64
    → (r : IpcBufferWriteResult) × (s' : Shm) × (ipc_buffer_write
          (suc (suc fuel))
          valid
          (some xs)
          (length xs)
          s
        ≡ some (r, s'))
      × Wrote k q xs s r s'
write_refines {k} {s} xs fuel h some_bytes bounded no_wrap =
    let (r, s', e, f, w) = write_outcome h.valid xs fuel some_bytes bounded no_wrap in
    (r, s', e, subst (λ q. Wrote k q xs s r s') h.contents w)

-- Whatever such a write returns, it leaves the head, the capacity and every byte behind the data
-- region as they were: no store is out of bounds.
pub write_in_bounds :
    {k : ℕ} {q : List (List ℕ)} {s : Shm} (xs : List ℕ) (fuel : ℕ)
    → Holds k q s
    → 0 < length xs
    → length xs + 31 < 2 ^ 64
    → s.tail + 2 * 2 ^ k < 2 ^ 64
    → (r : IpcBufferWriteResult) × (s' : Shm) × (ipc_buffer_write
          (suc (suc fuel))
          valid
          (some xs)
          (length xs)
          s
        ≡ some (r, s'))
      × Frame k s s'
write_in_bounds xs fuel h some_bytes bounded no_wrap =
    let (r, s', e, f, w) = write_outcome h.valid xs fuel some_bytes bounded no_wrap in (r, s', e, f)

-- Such an entry has no room in any buffer at rest.
pub never_CanWrite :
    {k : ℕ} {q : List (List ℕ)} {s : Shm} (n : ℕ)
    → Holds k q s
    → full_size n ≤ 2 ^ k
    → 2 ^ k < full_size n + 24
    → ¬ CanWrite k (full_size n) s
never_CanWrite {k} {q} {s} n h fits tight can =
    let hdr : 24 ≤ space_to_wrap k s = elim h.valid.tail_room [
      | inl z ↦ omega arith
      | inr room ↦ omega (arith, room)
    ] in
    elim can.1 [ inl c ↦ omega arith | inr c ↦ omega (arith, can.0) ]

-- An entry that fits the region, but leaves no room for a header behind it, can never be written: on
-- every buffer at rest, an empty one included, the write returns `err_no_space_contiguous` and keeps
-- the queue. The test against the size of the region lets it pass.
pub write_never_fits :
    {k : ℕ} {q : List (List ℕ)} {s : Shm} (xs : List ℕ) (fuel : ℕ)
    → Holds k q s
    → 0 < length xs
    → full_size (length xs) ≤ 2 ^ k
    → 2 ^ k < full_size (length xs) + 24
    → s.tail + 2 * 2 ^ k < 2 ^ 64
    → (r : IpcBufferWriteResult) × (s' : Shm) × (ipc_buffer_write
          (suc (suc fuel))
          valid
          (some xs)
          (length xs)
          s
        ≡ some (r, s'))
      × (ipc_status r ≡ err_no_space_contiguous)
      × Holds k q s'
write_never_fits {k} {q} {s} xs fuel h some_bytes fits tight no_wrap =
    let (r, s', e, w) = write_refines xs fuel h some_bytes (omega arith) no_wrap in
    let refused : (ipc_status r ≡ err_no_space_contiguous) × Holds k q s' = elim w [
      | inl (a, can, b) ↦ absurd (never_CanWrite (length xs) h fits tight can)
      | inr (inl (a, b, cannot, holds)) ↦ (a, holds)
      | inr (inr (a, large, b)) ↦ absurd (omega arith)
    ] in
    (r, s', e, refused.0, refused.1)
