-- ===== src/Init/Outcome.antt =====
-- `ipc_init_buffer_create` and `ipc_init_channel_create` once `ipc_mmap` has answered.
use libshmipc.Base.{
  ap, List, ℕ, ◌+◌, ◌-◌, ◌^◌, ◌≤◌, ◌<◌, ◌≡◌, ◌≢◌, ◌⊎◌, ◌↔◌, inl, inr, refl, [], Option, some, Bool,
  true, false, arith, dec_lt, lt→ltb, le→ltb,
}
use libshmipc.Base.Word.{sub64-eq}
use libshmipc.Common.{
  Result, success, error, error_body, ipc_status, is_negative, is_ok, ok, err_invalid_argument,
  err_system, Status, Allocation, allocated, failed,
}
use libshmipc.Utils.{is_power_of_2}
use libshmipc.Utils.Power.{is_power_of_2_decides, power_small}
use libshmipc.Mmap.{IpcMemorySegmentResult, Calls, Process, IpcMemorySegment, ipc_mmap}
use libshmipc.Buffer.State.{IpcBuffer, Shm}
use libshmipc.Buffer.Layout.{Holds}
use libshmipc.Buffer.Create.{IpcBufferCreateResult, handle_at}
use libshmipc.Buffer.Create.Outcome.{Created, create_refines}
use libshmipc.Init.{
  ValidationResult, IpcInitError, no_init_error, validate_size, pass_on, in_segment,
  ipc_init_buffer_create,
}

-- What `_validate_size` may return for an overhead below the minimal size.
abbrev pub Validated : ℕ → ℕ → ℕ → Option ValidationResult → Type 0
Validated size min_size overhead out =
    (v : ValidationResult) × (out ≡ some v)
    × ((v.status ≡ ok) × (min_size ≤ size) × ((k : ℕ) × (k ≤ 63) × (size ≡ overhead + 2 ^ k))
        ⊎ (v.status ≡ err_invalid_argument)
          × ((size < min_size) ⊎ ¬ ((k : ℕ) × (size ≡ overhead + 2 ^ k))))

validate_tested :
    (fuel size min_size overhead : ℕ) (b : Bool)
    → min_size ≤ size
    → overhead ≤ min_size
    → size ≤ overhead + 2 ^ 63
    → size < 2 ^ 64
    → is_power_of_2 fuel (size - overhead) ≡ some b
    → ((b ≡ true) ↔ ((k : ℕ) × (size - overhead ≡ 2 ^ k)))
    → Validated size min_size overhead (validate_size fuel size min_size overhead)
unfolding validate_size
validate_tested fuel size min_size overhead true long le bound word e iff =
    let (k, p) = iff.0 refl in
    (
      record { status = ok; overhead = 0; min_size = 0 },
      rw (le→ltb size min_size long, sub64-eq size overhead (omega arith) word, e) refl,
      inl (refl, long, (k, power_small k (omega arith), omega arith)),
    )
validate_tested fuel size min_size overhead false long le bound word e iff = (
  record { status = err_invalid_argument; overhead = overhead; min_size = 0 },
  rw (le→ltb size min_size long, sub64-eq size overhead (omega arith) word, e) refl,
  inr (refl, inr (λ p. let t : false ≡ true = iff.1 (p.0, omega (arith, p.1)) in cc)),
)

pub validate_size-Validated :
    (fuel size min_size overhead : ℕ)
    → 64 ≤ fuel
    → overhead ≤ min_size
    → size ≤ overhead + 2 ^ 63
    → size < 2 ^ 64
    → Validated size min_size overhead (validate_size fuel size min_size overhead)
unfolding validate_size
validate_size-Validated fuel size min_size overhead enough le bound word =
    elim (dec_lt size min_size) [
      | yes short ↦ (
        record { status = err_invalid_argument; overhead = 0; min_size = min_size },
        rw (lt→ltb size min_size short) refl,
        inr (refl, inl short),
      )
      | no long ↦
          let (b, e, iff) = is_power_of_2_decides fuel (size - overhead) enough (omega arith) in
          validate_tested fuel size min_size overhead b (omega arith) le bound word e iff
    ]

-- What a call may return when the segment is mapped, with the conditions.
abbrev pub InitCreated :
    ℕ
    → ℕ
    → Allocation
    → Shm
    → Process
    → Process
    → Result IpcBuffer IpcInitError
    → Shm
    → Process
    → Type 0
InitCreated address size alloc s p mapped r s' p' =
    (r ≡ success ok (handle_at address))
      × (136 ≤ size)
      × (alloc ≡ allocated)
      × (p' ≡ mapped)
      × ((k : ℕ) × (k ≤ 63) × (size ≡ 128 + 2 ^ k) × Holds k [] s')
    ⊎ (ipc_status r ≡ err_invalid_argument)
      × ((size < 136) ⊎ ¬ ((k : ℕ) × (size ≡ 128 + 2 ^ k)))
      × (s' ≡ s)
      × (p' ≡ p)
    ⊎ (ipc_status r ≡ err_system)
      × ((errno : ℕ) × (alloc ≡ failed errno))
      × (s' ≡ s)
      × (p' ≡ mapped)

abbrev pub InitSpec :
    ℕ
    → ℕ
    → Allocation
    → Shm
    → Process
    → Process
    → Option (Result IpcBuffer IpcInitError × Shm × Process)
    → Type 0
InitSpec address size alloc s p mapped out =
    (r : Result IpcBuffer IpcInitError) × (s' : Shm) × (p' : Process) × (out ≡ some (r, s', p'))
    × InitCreated address size alloc s p mapped r s' p'

passed_status :
    (size : ℕ) (r : IpcBufferCreateResult) (status : Status)
    → ipc_status r ≡ status
    → is_negative status ≡ true
    → ipc_status (pass_on (λ b. b.sys_errno) size r) ≡ status
unfolding pass_on
passed_status size (success st v) status e n = rw (e, n) refl
passed_status size (libshmipc.Common.error st) status e n = e
passed_status size (error_body st b) status e n = e

passed :
    (address size : ℕ) (alloc : Allocation) (s s' : Shm) (p mapped : Process)
    (r : IpcBufferCreateResult)
    → 136 ≤ size
    → ((k : ℕ) × (k ≤ 63) × (size ≡ 128 + 2 ^ k))
    → address ≢ 0
    → Created address size alloc s r s'
    → InitCreated address size alloc s p mapped (pass_on (λ b. b.sys_errno) size r) s' mapped
unfolding pass_on
passed address size alloc s s' p mapped r long power n (inl (a, b, d, w)) =
    rw a (inl (refl, long, d, refl, w))
passed address size alloc s s' p mapped r long power n (inr (inl (a, inl null, same))) =
    absurd (n null)
passed address size alloc s s' p mapped r long (k, small, e) n (inr (inl (a, inr no_power, same))) =
    absurd (no_power (k, e))
passed address size alloc s s' p mapped r long power n (inr (inr (a, why, same))) =
    inr (inr (passed_status size r err_system a refl, why, same, refl))

-- When `ipc_mmap` gives a segment, for a size up to 2^63 + 128 and fuel for 64 rounds,
-- `ipc_init_buffer_create` returns. A size below 136 bytes, or one that is not 128 more than a power
-- of two, is an invalid argument, and nothing is mapped. When the allocation fails, the call returns
-- a system error, and what was mapped stays mapped. Both leave the memory. Otherwise it succeeds with a
-- buffer at rest and empty in what is mapped, but the buffer lies at the address of the segment
-- structure, not at the memory that the structure points to.
pub init_buffer_create_refines :
    (fuel size : ℕ) (calls : Calls) (path : Option (List ℕ)) (segment : IpcMemorySegment)
    (alloc : Allocation) (s : Shm) (p mapped : Process)
    → 64 ≤ fuel
    → size ≤ 128 + 2 ^ 63
    → segment.address ≢ 0
    → ipc_mmap calls path size p ≡ (success ok segment, mapped)
    → InitSpec segment.address size alloc s p mapped
        (ipc_init_buffer_create fuel calls path size alloc s p)
unfolding ipc_init_buffer_create in_segment
init_buffer_create_refines fuel size calls path segment alloc s p mapped enough bound n m =
    let (v, e, w) =
      validate_size-Validated fuel size 136 128 enough (omega arith) bound (omega arith) in
    elim w [
      | inl (fine, long, power) ↦
          let (r, s', e', c) = create_refines fuel segment.address size alloc s enough bound in
          let made : Result IpcBuffer IpcInitError = pass_on (λ b. b.sys_errno) size r in
          (
            made,
            s',
            mapped,
            rw (ipc_init_buffer_create, in_segment, e, fine, m, e')
                (ap (λ (z : IpcMemorySegmentResult × Process). some (made, s', z.1)) m),
            passed segment.address size alloc s s' p mapped r long power n c,
          )
      | inr (bad, why) ↦ (
        error_body err_invalid_argument
            (record (no_init_error size) { min_size = v.min_size; overhead = v.overhead }),
        s,
        p,
        rw (ipc_init_buffer_create, in_segment, e, bad) refl,
        inr (inl (refl, why, refl, refl)),
      )
    ]
