-- ===== src/Channel/Open/Outcome.antt =====
-- `ipc_channel_create` on every branch, together with `ipc_channel_suggest_size`, and where it does
-- not return.
use libshmipc.Base.{
  ne→==, eq→==, ℕ, ◌+◌, ◌-◌, ◌^◌, ◌≤◌, ◌<◌, ◌≡◌, ◌≢◌, ◌⊎◌, inl, inr, refl, ap, [], Option, none,
  some, arith, ℕ_discrete, true,
}
use libshmipc.Base.Word.{sub64, sub64-eq}
use libshmipc.Common.{
  success, error_body, ipc_status, is_negative, ok, err_invalid_argument, err_system, Status,
  Allocation, allocated, failed,
}
use libshmipc.Buffer.State.{Shm}
use libshmipc.Buffer.Layout.{Holds}
use libshmipc.Buffer.Create.{IpcBufferCreateResult, handle_at, ipc_buffer_create}
use libshmipc.Buffer.Create.Outcome.{Created, create_refines, create_diverges}
use libshmipc.Channel.State.{ChannelShm}
use libshmipc.Channel.Open.{
  IpcChannelOpenResult, no_open_error, channel_at, build_channel, open_channel, ipc_channel_create,
}

-- What a call may return, with the conditions.
abbrev pub ChannelCreated :
    ℕ → ℕ → Allocation → Allocation → ChannelShm → IpcChannelOpenResult → ChannelShm → Type 0
ChannelCreated mem size buffer_alloc alloc c r c' =
    (r ≡ success ok (channel_at mem (handle_at (mem + 64))))
      × (mem ≢ 0)
      × ((buffer_alloc ≡ allocated) × (alloc ≡ allocated))
      × (c'.notify ≡ 0)
      × ((k : ℕ) × (k ≤ 63) × (size ≡ 192 + 2 ^ k) × Holds k [] c'.buffer)
    ⊎ (ipc_status r ≡ err_invalid_argument)
      × ((mem ≡ 0) ⊎ ¬ ((k : ℕ) × (size ≡ 192 + 2 ^ k)))
      × (c' ≡ c)
    ⊎ (ipc_status r ≡ err_system)
      × ((errno : ℕ) × ((buffer_alloc ≡ failed errno) ⊎ (alloc ≡ failed errno)))

abbrev pub ChannelCreateSpec :
    ℕ
    → ℕ
    → Allocation
    → Allocation
    → ChannelShm
    → Option (IpcChannelOpenResult × ChannelShm)
    → Type 0
ChannelCreateSpec mem size buffer_alloc alloc c out =
    (r : IpcChannelOpenResult) × (c' : ChannelShm) × (out ≡ some (r, c'))
    × ChannelCreated mem size buffer_alloc alloc c r c'

open_refused :
    (alloc : Allocation) (mem size : ℕ) (r : IpcBufferCreateResult) (c : ChannelShm)
    (status : Status)
    → ipc_status r ≡ status
    → is_negative status ≡ true
    → let out = open_channel alloc mem (no_open_error size) r c in
      (ipc_status out.0 ≡ status) × (out.1 ≡ c)
unfolding open_channel
open_refused alloc mem size (success st v) c status e n = rw (e, n) (refl, refl)
open_refused alloc mem size (error_body st b) c status e n = (e, refl)
open_refused alloc mem size (libshmipc.Common.error st) c status e n = (e, refl)

module _ (mem size : ℕ) (c : ChannelShm) (n : mem ≢ 0) (long : 64 ≤ size)
    (word : size < 2 ^ 64) where
  create_opens :
      (fuel : ℕ) (buffer_alloc alloc : Allocation) (r : IpcBufferCreateResult) (s : Shm)
      → ipc_buffer_create fuel (mem + 64) (size - 64) buffer_alloc c.buffer ≡ some (r, s)
      → ipc_channel_create fuel mem size buffer_alloc alloc c
        ≡ some (open_channel alloc mem (no_open_error size) r (record c { buffer = s }))
  unfolding ipc_channel_create
  create_opens fuel buffer_alloc alloc r s e =
      rw (ne→== mem 0 n, ne→== size 0 (omega arith), sub64-eq size 64 long word, e)

  opened :
      (buffer_alloc alloc : Allocation) (r : IpcBufferCreateResult) (s : Shm)
      → Created (mem + 64) (size - 64) buffer_alloc c.buffer r s
      → let (r', c') = open_channel alloc mem (no_open_error size) r (record c { buffer = s }) in
        ChannelCreated mem size buffer_alloc alloc c r' c'
  unfolding build_channel open_channel
  opened buffer_alloc (failed errno) r s (inl (a, b, d, w)) =
      rw a (inr (inr (refl, (errno, inr refl))))
  opened buffer_alloc allocated r s (inl (a, b, d, (k, small, e, h))) =
      rw a (inl (refl, n, (d, refl), refl, (k, small, omega arith, h)))
  opened buffer_alloc alloc r s (inr (inl (a, why, same))) =
      let (st, kept) =
        open_refused alloc mem size r (record c { buffer = s }) err_invalid_argument a refl in
      inr (
        inl (
          st,
          elim why [
            | inl z ↦ absurd (omega arith)
            | inr p ↦ inr (λ q. p (q.0, omega (arith, q.1)))
          ],
          rw kept (ap (λ s. record c { buffer = s }) same),
        ))
  opened buffer_alloc alloc r s (inr (inr (a, (errno, f), same))) =
      let (st, kept) = open_refused alloc mem size r (record c { buffer = s }) err_system a refl in
      inr (inr (st, (errno, inl f)))

-- For a size from 64 to 2^63 + 192 bytes and fuel for 64 rounds, `ipc_channel_create` returns. It
-- succeeds, and both allocations have, with a handle for this memory, the counter 0 and a buffer at rest and empty, whose region
-- has 192 bytes less than the size, a power of two; it returns `err_invalid_argument` and changes
-- nothing when the memory is NULL or the size is no such number; or it returns `err_system`, and one of
-- the allocations has failed.
pub channel_create_refines :
    (fuel mem size : ℕ) (buffer_alloc alloc : Allocation) (c : ChannelShm)
    → 64 ≤ fuel
    → 64 ≤ size
    → size ≤ 192 + 2 ^ 63
    → ChannelCreateSpec mem size buffer_alloc alloc c
        (ipc_channel_create fuel mem size buffer_alloc alloc c)
unfolding ipc_channel_create
channel_create_refines fuel mem size buffer_alloc alloc c enough long bound =
    elim (ℕ_discrete mem 0) [
      | yes null ↦ (
        error_body err_invalid_argument (no_open_error size),
        c,
        rw (eq→== mem 0 null),
        inr (inl (refl, inl null, refl)),
      )
      | no n ↦
          let (r, s, e, w) =
            create_refines fuel (mem + 64) (size - 64) buffer_alloc c.buffer enough (omega arith) in
          (
            _,
            _,
            create_opens mem size c n long (omega arith) fuel buffer_alloc alloc r s e,
            opened mem size c n long (omega arith) buffer_alloc alloc r s w,
          )
    ]

-- For a size from 1 to 63 bytes the call never returns, whatever the fuel: `size - 64` wraps.
pub channel_create_diverges :
    (fuel mem size : ℕ) (buffer_alloc alloc : Allocation) (c : ChannelShm)
    → mem ≢ 0
    → 0 < size
    → size < 64
    → ipc_channel_create fuel mem size buffer_alloc alloc c ≡ none
unfolding ipc_channel_create
channel_create_diverges fuel mem size buffer_alloc alloc c n some_bytes short = rw (
  ne→== mem 0 n,
  ne→== size 0 (omega arith),
  create_diverges fuel (mem + 64) (sub64 size 64) buffer_alloc c.buffer (omega arith) (omega arith),
)
