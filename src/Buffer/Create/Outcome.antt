-- ===== src/Buffer/Create/Outcome.antt =====
-- `ipc_buffer_create` on every branch, and together with `ipc_buffer_suggest_size`.
use libshmipc.Base.{
  ap, ◌↔◌, ℕ, ◌+◌, ◌-◌, ◌^◌, ◌≤◌, ◌<◌, ◌≡◌, ◌≢◌, ◌⊎◌, inl, inr, refl, sym, subst, ◌∙◌, [], Option,
  some, none, arith, dec_lt, ℕ_discrete, Bool, true, false, lt→ltb, le→ltb, eq→==, ne→==,
}
use libshmipc.Common.{
  success, error_body, ok, err_invalid_argument, err_system, Allocation, allocated, failed,
  ipc_status,
}
use libshmipc.Utils.{is_power_of_2}
use libshmipc.Base.Word.{add64-eq}
use native.Mathlib.Nat.{add_comm, zero-mod}
use libshmipc.Utils.Power.{
  power_small, is_power_of_2_decides, find_next_power_of_2_least, power_loops_diverge,
}
use libshmipc.Utils.Align.{two_pow_bounds}
use libshmipc.Buffer.State.{Shm}
use libshmipc.Buffer.Layout.{IsValid, Holds}
use libshmipc.Buffer.Size.{ipc_buffer_suggest_size}
use libshmipc.Buffer.Create.{
  no_create_error, IpcBufferCreateResult, handle_at, build_buffer, ipc_buffer_create,
}

-- The memory after `atomic_init` of the header.
abbrev pub initialised : ℕ → Shm → Shm
initialised capacity s = record s { data_size = capacity; head = 0; tail = 0 }

pub initialised-IsValid : (k : ℕ) (s : Shm) → k ≤ 63 → IsValid k [] (initialised (2 ^ k) s)
initialised-IsValid k s h = record {
  capacity = refl;
  small = h;
  entries = refl;
  used = omega arith;
  fits = omega arith;
  head_aligned = omega arith;
  tail_aligned = omega arith;
  head_room = inl (zero-mod (2 ^ k));
  tail_room = inl (zero-mod (2 ^ k));
}

pub initialised-Holds : (k : ℕ) (s : Shm) → k ≤ 63 → Holds k [] (initialised (2 ^ k) s)
initialised-Holds k s h = record { slots = []; valid = initialised-IsValid k s h; contents = refl }

-- What a call may return, with the conditions.
abbrev pub Created : ℕ → ℕ → Allocation → Shm → IpcBufferCreateResult → Shm → Type 0
Created mem size alloc s r s' =
    (r ≡ success ok (handle_at mem))
      × (mem ≢ 0)
      × (alloc ≡ allocated)
      × ((k : ℕ) × (k ≤ 63) × (size ≡ 128 + 2 ^ k) × Holds k [] s')
    ⊎ (ipc_status r ≡ err_invalid_argument)
      × ((mem ≡ 0) ⊎ ¬ ((k : ℕ) × (size ≡ 128 + 2 ^ k)))
      × (s' ≡ s)
    ⊎ (ipc_status r ≡ err_system) × ((errno : ℕ) × (alloc ≡ failed errno)) × (s' ≡ s)

abbrev CreateSpec : ℕ → ℕ → Allocation → Shm → Option (IpcBufferCreateResult × Shm) → Type 0
CreateSpec mem size alloc s out =
    (r : IpcBufferCreateResult) × (s' : Shm) × (out ≡ some (r, s')) × Created mem size alloc s r s'

module _ (fuel mem size : ℕ) (s : Shm) (enough : 64 ≤ fuel) where
  create_null :
      (alloc : Allocation)
      → mem ≡ 0
      → CreateSpec mem size alloc s (ipc_buffer_create fuel mem size alloc s)
  unfolding ipc_buffer_create
  create_null alloc e = (
    error_body err_invalid_argument (no_create_error size),
    s,
    rw (eq→== mem 0 e),
    inr (inl (refl, inl e, refl)),
  )

  create_short :
      (alloc : Allocation)
      → mem ≢ 0
      → size < 128
      → CreateSpec mem size alloc s (ipc_buffer_create fuel mem size alloc s)
  unfolding ipc_buffer_create
  create_short alloc n h = (
    error_body err_invalid_argument (no_create_error size),
    s,
    rw (ne→== mem 0 n, lt→ltb size 128 h),
    inr (inl (refl, inr (λ p. absurd (omega (arith, p.1))), refl)),
  )

  create_tested :
      (alloc : Allocation) (b : Bool)
      → mem ≢ 0
      → 128 ≤ size
      → size ≤ 128 + 2 ^ 63
      → is_power_of_2 fuel (size - 128) ≡ some b
      → ((b ≡ true) ↔ ((k : ℕ) × (size - 128 ≡ 2 ^ k)))
      → CreateSpec mem size alloc s (ipc_buffer_create fuel mem size alloc s)
  unfolding ipc_buffer_create build_buffer
  create_tested alloc false n h bound e iff = (
    error_body err_invalid_argument (no_create_error size),
    s,
    rw (ne→== mem 0 n, le→ltb size 128 h, e),
    inr (inl (refl, inr (λ p. let t : false ≡ true = iff.1 (p.0, omega (arith, p.1)) in cc), refl)),
  )
  create_tested (failed errno) true n h bound e iff = (
    error_body err_system (record (no_create_error size) { sys_errno = errno }),
    s,
    rw (ne→== mem 0 n, le→ltb size 128 h, e),
    inr (inr (refl, (errno, refl), refl)),
  )
  create_tested allocated true n h bound e iff =
      let (k, p) = iff.0 refl in
      let small : k ≤ 63 = power_small k (omega arith) in
      (
        success ok (handle_at mem),
        initialised (size - 128) s,
        rw (ne→== mem 0 n, le→ltb size 128 h, e),
        inl (
          refl,
          n,
          refl,
          (
            k,
            small,
            omega arith,
            subst (λ c. Holds k [] (initialised c s)) (sym p) (initialised-Holds k s small),
          ),
        ),
      )

-- With a size up to 2^63 + 128 and fuel for 64 rounds, `ipc_buffer_create` returns. It succeeds
-- exactly for a memory that is not NULL, a size of 128 bytes more than a power of two, and an
-- allocation that succeeds: the handle is for this memory, and the buffer is at rest and empty.
-- Otherwise the memory is unchanged, and the status is `err_invalid_argument` or `err_system`.
pub create_refines :
    (fuel mem size : ℕ) (alloc : Allocation) (s : Shm)
    → 64 ≤ fuel
    → size ≤ 128 + 2 ^ 63
    → CreateSpec mem size alloc s (ipc_buffer_create fuel mem size alloc s)
create_refines fuel mem size alloc s enough bound = elim (ℕ_discrete mem 0) [
  | yes null ↦ create_null fuel mem size s enough alloc null
  | no n ↦ elim (dec_lt size 128) [
    | yes short ↦ create_short fuel mem size s enough alloc n short
    | no long ↦
        let (b, e, iff) = is_power_of_2_decides fuel (size - 128) enough (omega arith) in
        create_tested fuel mem size s enough alloc b n (omega arith) bound e iff
  ]
]

-- Above 2^63 + 128 bytes the call never returns, whatever the fuel.
pub create_diverges :
    (fuel mem size : ℕ) (alloc : Allocation) (s : Shm)
    → mem ≢ 0
    → 128 + 2 ^ 63 < size
    → ipc_buffer_create fuel mem size alloc s ≡ none
unfolding ipc_buffer_create
create_diverges fuel mem size alloc s n h = rw (
  ne→== mem 0 n,
  le→ltb size 128 (omega arith),
  (power_loops_diverge fuel (size - 128) (omega arith)).1,
)

create_suggested :
    (fuel mem size k : ℕ) (s : Shm)
    → 64 ≤ fuel
    → mem ≢ 0
    → k ≤ 63
    → size ≡ 128 + 2 ^ k
    → (s' : Shm) × (ipc_buffer_create fuel mem size allocated s
        ≡ some (success ok (handle_at mem), s'))
      × ((j : ℕ) × (size ≡ 128 + 2 ^ j) × Holds j [] s')
create_suggested fuel mem size k s enough n small e =
    let (r, s', done, c) =
      create_refines fuel mem size allocated s enough (omega (arith, two_pow_bounds k small)) in
    elim c [
      | inl (a, b, d, (j, fits, at, holds)) ↦ (s', rw (← a) done, (j, at, holds))
      | inr (inl (a, inl null, b)) ↦ absurd (n null)
      | inr (inl (a, inr not_power, b)) ↦ absurd (not_power (k, e))
      | inr (inr (a, (errno, p), b)) ↦ cc
    ]

pub suggest_power :
    (fuel desired : ℕ)
    → 64 ≤ fuel
    → desired ≤ 2 ^ 63
    → (k : ℕ) × (k ≤ 63)
      × (desired ≤ 2 ^ k)
      × (8 ≤ 2 ^ k)
      × (ipc_buffer_suggest_size fuel desired ≡ some (128 + 2 ^ k))
unfolding ipc_buffer_suggest_size
suggest_power fuel desired enough bound = elim (dec_lt desired 8) [
  | yes few ↦ (3, omega arith, omega arith, omega arith, ground arith)
  | no many ↦
      let (k, e, small, fits, least) = find_next_power_of_2_least fuel desired enough bound in
      (
        k,
        small,
        fits,
        omega arith,
        rw (add64-eq desired 128 (omega arith), le→ltb (desired + 128) 136 (omega arith), e)
            (ap some (
              add64-eq (2 ^ k) 128 (omega (arith, two_pow_bounds k small)) ∙ add_comm (2 ^ k) 128)),
      )
]

-- For a desired capacity up to 2^63 and fuel for 64 rounds, `ipc_buffer_suggest_size` returns a size
-- that `ipc_buffer_create` accepts, and the data region that it makes has at least that capacity.
pub suggest_size_then_create :
    (fuel mem desired : ℕ) (s : Shm)
    → 64 ≤ fuel
    → mem ≢ 0
    → desired ≤ 2 ^ 63
    → (size : ℕ) × (s' : Shm) × (k : ℕ) × (ipc_buffer_suggest_size fuel desired ≡ some size)
      × (ipc_buffer_create fuel mem size allocated s ≡ some (success ok (handle_at mem), s'))
      × (desired ≤ 2 ^ k)
      × Holds k [] s'
suggest_size_then_create fuel mem desired s enough n bound =
    let (k, small, fits, room, e) = suggest_power fuel desired enough bound in
    let (s', done, (j, at, holds)) =
      create_suggested fuel mem (128 + 2 ^ k) k s enough n small refl in
    (128 + 2 ^ k, s', j, e, done, omega arith, holds)
