-- ===== src/Init/Suggest.antt =====
-- The sizes that ipc_init.c suggests pass its own validation, and are those of the buffer and the
-- channel.
use libshmipc.Base.{◌∙◌, ℕ, ◌+◌, ◌^◌, ◌≤◌, ◌≡◌, inl, inr, refl, some, arith}
use libshmipc.Common.{ok}
use libshmipc.Utils
use libshmipc.Utils.Align.{two_pow_bounds}
use libshmipc.Buffer.Size.{ipc_buffer_suggest_size}
use libshmipc.Buffer.Create.Outcome.{suggest_power}
use libshmipc.Channel.Open.{ipc_channel_suggest_size}
use libshmipc.Channel.Open.Suggest.{channel_suggest-power}
use libshmipc.Init.{
  ValidationResult, validate_size, find_next_power_of_2, ipc_init_suggest_buffer_size,
  ipc_init_suggest_channel_size,
}
use libshmipc.Init.Outcome.{validate_size-Validated}

-- The copy of the function on powers of two is like the original, and so are the suggestions.
same_suggestions :
    (fuel desired : ℕ)
    → (ipc_init_suggest_buffer_size fuel desired ≡ ipc_buffer_suggest_size fuel desired)
      × (ipc_init_suggest_channel_size fuel desired ≡ ipc_channel_suggest_size fuel desired)
unfolding ipc_init_suggest_buffer_size ipc_init_suggest_channel_size ipc_buffer_suggest_size
    ipc_channel_suggest_size find_next_power_of_2 Utils.find_next_power_of_2
same_suggestions fuel desired = (refl, refl)

-- A size that is a power of two more than the overhead, and large enough, passes.
passes :
    (fuel overhead k : ℕ)
    → 64 ≤ fuel
    → k ≤ 63
    → 8 ≤ 2 ^ k
    → overhead ≤ 2 ^ 10
    → (v : ValidationResult) × (validate_size fuel (overhead + 2 ^ k) (overhead + 8) overhead
        ≡ some v)
      × (v.status ≡ ok)
passes fuel overhead k enough small eight short =
    let bound : 2 ^ k ≤ 2 ^ 63 = omega (arith, two_pow_bounds k small) in
    let (v, e, w) =
      validate_size-Validated fuel (overhead + 2 ^ k) (overhead + 8) overhead enough (omega arith)
        (omega arith) (omega arith) in
    elim w [
      | inl (fine, long, power) ↦ (v, e, fine)
      | inr (bad, inl less) ↦ absurd (omega arith)
      | inr (bad, inr no_power) ↦ absurd (no_power (k, refl))
    ]

-- For a desired capacity up to 2^63 and fuel for 64 tests, `ipc_init_suggest_buffer_size` and
-- `ipc_init_suggest_channel_size` return the sizes that the buffer's and the channel's own functions
-- suggest; they have room for that capacity next to the overhead, 128 bytes or 192, and `_validate_size`
-- accepts each with the minimum and the overhead that the functions of ipc_init.c pass for it.
pub init_suggestions_accepted :
    (fuel desired : ℕ)
    → 64 ≤ fuel
    → desired ≤ 2 ^ 63
    → ((size : ℕ) × (v : ValidationResult) × (ipc_init_suggest_buffer_size fuel desired ≡ some size)
        × (ipc_buffer_suggest_size fuel desired ≡ some size)
        × (desired + 128 ≤ size)
        × (validate_size fuel size 136 128 ≡ some v)
        × (v.status ≡ ok))
      × ((size : ℕ) × (v : ValidationResult) × (ipc_init_suggest_channel_size fuel desired
            ≡ some size)
          × (ipc_channel_suggest_size fuel desired ≡ some size)
          × (desired + 192 ≤ size)
          × (validate_size fuel size 200 192 ≡ some v)
          × (v.status ≡ ok))
init_suggestions_accepted fuel desired enough bound =
    let (same, same') = same_suggestions fuel desired in
    let (k, small, fits, eight, e) = suggest_power fuel desired enough bound in
    let (k', small', fits', eight', tight, e') = channel_suggest-power fuel desired enough bound in
    let (v, valid, fine) = passes fuel 128 k enough small eight (omega arith) in
    let (v', valid', fine') = passes fuel 192 k' enough small' eight' (omega arith) in
    (
      (128 + 2 ^ k, v, same ∙ e, e, omega arith, valid, fine),
      (192 + 2 ^ k', v', same' ∙ e', e', omega arith, valid', fine'),
    )
