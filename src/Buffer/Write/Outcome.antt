-- ===== src/Buffer/Write/Outcome.antt =====
-- `ipc_buffer_write` on a buffer at rest as a call on the queue of payloads that it holds.
use libshmipc.Base.{
  ◌%◌, subst, dec_le, ◌*◌, ℕ, suc, ◌+◌, ◌^◌, ◌≤◌, ◌<◌, ◌≡◌, ◌⊎◌, inl, inr, refl, ◌∙◌, List, [], ◌∷◌,
  ◌++◌, Option, some, arith, length, dec_lt,
}
use libshmipc.Common.{success, ipc_status, ok, err_entry_too_large, err_no_space_contiguous, valid}
use libshmipc.Buffer.State.{Shm}
use libshmipc.Buffer.Layout.{padding, full_size, Slot, message, payloads, IsValid, Holds}
use libshmipc.Buffer.Layout.Chain.{payloads-append_padding, payloads-append_message}
use libshmipc.Buffer.Write.{IpcBufferWriteResult, no_write_error, write_entry, ipc_buffer_write}
use libshmipc.Base.Modulus.{mod-add_of_full}
use libshmipc.Buffer.Write.Step.{index-lt, head-le-tail, free_space, space_to_wrap}
use libshmipc.Buffer.Write.Entry.{
  write_entry_padding, after_padding, after_message, write_entry_too_large, write_entry-no_space,
  write_entry_message,
}
use libshmipc.Buffer.Write.Fill.{stored_message-outside, stored_padding-outside}
use libshmipc.Buffer.Write.Valid.{
  header_fits, after_padding-IsValid, padding_is_free, after_message-IsValid,
}

-- The entry and the header of a next placeholder fit before the end of the region, or the entry fits
-- the free space together with a placeholder up to the end.
abbrev pub CanWrite : ℕ → ℕ → Shm → Type 0
CanWrite k full s =
    (full ≤ free_space k s)
    × ((full + 24 ≤ space_to_wrap k s) ⊎ (space_to_wrap k s + full ≤ free_space k s))

-- What a write of `xs` may do to a buffer that holds `q`: append, or refuse and keep the queue.
abbrev pub Wrote : ℕ → List (List ℕ) → List ℕ → Shm → IpcBufferWriteResult → Shm → Type 0
Wrote k q xs s r s' =
    (r ≡ success ok tt) × CanWrite k (full_size (length xs)) s × Holds k (q ++ (xs ∷ [])) s'
    ⊎ (ipc_status r ≡ err_no_space_contiguous)
      × (full_size (length xs) ≤ 2 ^ k)
      × ¬ CanWrite k (full_size (length xs)) s
      × Holds k q s'
    ⊎ (ipc_status r ≡ err_entry_too_large) × (2 ^ k < full_size (length xs)) × (s' ≡ s)

-- What no write touches: the head, the capacity, and every byte behind the data region.
pub record Frame (k : ℕ) (s s' : Shm) : Type 0 where
  pub head_kept : s'.head ≡ s.head
  pub size_kept : s'.data_size ≡ s.data_size
  pub outside_kept : (i : ℕ) → 2 ^ k ≤ i → s'.region i ≡ s.region i

abbrev pub WriteOutcome :
    ℕ → List (List ℕ) → List ℕ → Shm → Option (IpcBufferWriteResult × Shm) → Type 0
WriteOutcome k q xs s out =
    (r : IpcBufferWriteResult) × (s' : Shm) × (out ≡ some (r, s'))
    × Frame k s s'
    × Wrote k q xs s r s'

Frame-refl : (k : ℕ) (s : Shm) → Frame k s s
Frame-refl k s = record { head_kept = refl; size_kept = refl; outside_kept = λ i h. refl }

Frame-trans : {k : ℕ} {s t u : Shm} → Frame k s t → Frame k t u → Frame k s u
Frame-trans a b = record {
  head_kept = b.head_kept ∙ a.head_kept;
  size_kept = b.size_kept ∙ a.size_kept;
  outside_kept = λ i h. b.outside_kept i h ∙ a.outside_kept i h;
}

write-call :
    (fuel : ℕ) (xs : List ℕ) (s : Shm)
    → 0 < length xs
    → ipc_buffer_write (suc fuel) valid (some xs) (length xs) s
      ≡ write_entry
          (suc fuel)
          (ipc_buffer_write fuel valid (some xs) (length xs))
          xs
          (length xs)
          (no_write_error (length xs))
          s
unfolding ipc_buffer_write
write-call fuel xs s h = ground arith

module _ {k : ℕ} {slots : List Slot} {s : Shm} (v : IsValid k slots s) (xs : List ℕ)
    (some_bytes : 0 < length xs) (bounded : length xs + 31 < 2 ^ 64)
    (no_wrap : s.tail + 2 ^ k < 2 ^ 64) (fuel : ℕ) where
  abbrev full : ℕ
  full = full_size (length xs)

  abbrev call : Option (IpcBufferWriteResult × Shm)
  call = ipc_buffer_write (suc fuel) valid (some xs) (length xs) s

  message-Holds :
      full ≤ free_space k s
      → full + 24 ≤ space_to_wrap k s
      → Holds k (payloads slots ++ (xs ∷ [])) (after_message k xs s)
  message-Holds near wrap = record {
    slots = slots ++ (message xs ∷ []);
    valid = after_message-IsValid v xs near no_wrap some_bytes wrap;
    contents = payloads-append_message slots xs;
  }

  message-Frame : full + 24 ≤ space_to_wrap k s → Frame k s (after_message k xs s)
  message-Frame wrap = record {
    head_kept = refl;
    size_kept = refl;
    outside_kept = λ i h.
        stored_message-outside (s.tail % 2 ^ k) s.tail xs s.region i
          (inr (omega (arith, index-lt v)));
  }

  -- Every case but the placeholder.
  direct :
      (space_to_wrap k s < full + 24 → full ≤ free_space k s → full ≤ 2 ^ k → ⊥)
      → WriteOutcome k (payloads slots) xs s call
  direct no_pad = elim (dec_lt (2 ^ k) full) [
    | yes large ↦ (
      _,
      s,
      write-call fuel xs s some_bytes
          ∙ write_entry_too_large v xs bounded fuel _ (no_write_error (length xs)) large,
      Frame-refl k s,
      inr (inr (refl, large, refl)),
    )
    | no small ↦ elim (dec_lt (free_space k s) full) [
      | yes none_free ↦ (
        _,
        s,
        write-call fuel xs s some_bytes
            ∙ write_entry-no_space v xs bounded fuel _ (no_write_error (length xs)) (omega arith)
                none_free,
        Frame-refl k s,
        inr (
            inl (
              refl,
              omega arith,
              λ can. absurd (omega (arith, can.0)),
              record { slots = slots; valid = v; contents = refl },
            )),
      )
      | no free ↦ elim (dec_lt (space_to_wrap k s) (full + 24)) [
        | yes wrap ↦ absurd (no_pad wrap (omega arith) (omega arith))
        | no room ↦ (
          _,
          after_message k xs s,
          write-call fuel xs s some_bytes
              ∙ write_entry_message v xs bounded fuel _ (no_write_error (length xs)) (omega arith)
                  (omega arith) no_wrap (omega arith),
          message-Frame (omega arith),
          inl (refl, (omega arith, inl (omega arith)), message-Holds (omega arith) (omega arith)),
        )
      ]
    ]
  ]

-- The placeholder ends with the region, so the write that starts again finds the whole region ahead.
space_to_wrap-after_padding :
    {k : ℕ} {slots : List Slot} {s : Shm}
    → IsValid k slots s
    → space_to_wrap k (after_padding k s) ≡ 2 ^ k
space_to_wrap-after_padding {k} {s} v =
    omega (arith, mod-add_of_full s.tail (space_to_wrap k s) (2 ^ k) (omega (arith, index-lt v)))

module _ {k : ℕ} {slots : List Slot} {s : Shm} (v : IsValid k slots s) (xs : List ℕ)
    (some_bytes : 0 < length xs) (bounded : length xs + 31 < 2 ^ 64)
    (no_wrap : s.tail + 2 * 2 ^ k < 2 ^ 64) (fuel : ℕ)
    (near : full_size (length xs) ≤ free_space k s)
    (wrap : space_to_wrap k s < full_size (length xs) + 24) where
  abbrev padded : Shm
  padded = after_padding k s

  padded-IsValid : IsValid k (slots ++ (padding (space_to_wrap k s) ∷ [])) padded
  padded-IsValid = after_padding-IsValid v xs near (omega arith) wrap

  pub padded-call :
      ipc_buffer_write (suc (suc fuel)) valid (some xs) (length xs) s
      ≡ ipc_buffer_write (suc fuel) valid (some xs) (length xs) padded
  padded-call =
      write-call (suc fuel) xs s some_bytes
      ∙ write_entry_padding v xs bounded (suc fuel) _ (no_write_error (length xs)) (omega arith)
          near (omega arith) wrap

  padded-Frame : Frame k s padded
  padded-Frame = record {
    head_kept = refl;
    size_kept = refl;
    outside_kept = λ i h.
        stored_padding-outside (s.tail % 2 ^ k) s.tail (space_to_wrap k s) s.region i
          (inr (omega (arith, index-lt v, header_fits v xs near (omega arith))));
  }

  padded-CanWrite :
      (CanWrite k (full_size (length xs)) padded → CanWrite k (full_size (length xs)) s)
      × (CanWrite k (full_size (length xs)) s → CanWrite k (full_size (length xs)) padded)
  padded-CanWrite =
      let free : space_to_wrap k s ≤ free_space k s =
        padding_is_free v xs near (omega arith) wrap in
      let hdr : 24 ≤ space_to_wrap k s = header_fits v xs near (omega arith) in
      let le : s.head ≤ s.tail = head-le-tail v in
      let whole : space_to_wrap k padded ≡ 2 ^ k = space_to_wrap-after_padding v in
      (
        λ can. (near, inr (omega (arith, can.0))),
        λ can. elim can.1 [
          | inl a ↦ absurd (omega arith)
          | inr b ↦ (omega arith, inl (omega arith))
        ],
      )

  again_outcome :
      WriteOutcome k
        (payloads (slots ++ (padding (space_to_wrap k s) ∷ [])))
        xs
        padded
        (ipc_buffer_write (suc fuel) valid (some xs) (length xs) padded)
  again_outcome =
      let free : space_to_wrap k s ≤ free_space k s =
        padding_is_free v xs near (omega arith) wrap in
      let hdr : 24 ≤ space_to_wrap k s = header_fits v xs near (omega arith) in
      let le : s.head ≤ s.tail = head-le-tail v in
      let whole : space_to_wrap k padded ≡ 2 ^ k = space_to_wrap-after_padding v in
      direct padded-IsValid xs some_bytes bounded (omega arith) fuel (λ w n l. absurd (omega arith))

  padded_outcome :
      WriteOutcome k
        (payloads slots)
        xs
        s
        (ipc_buffer_write (suc (suc fuel)) valid (some xs) (length xs) s)
  padded_outcome =
      let kept : payloads (slots ++ (padding (space_to_wrap k s) ∷ [])) ≡ payloads slots =
        payloads-append_padding slots (space_to_wrap k s) in
      let (r, s', e, f, w) =
        subst
          (λ q.
            WriteOutcome k q xs padded
              (ipc_buffer_write (suc fuel) valid (some xs) (length xs) padded))
          kept again_outcome in
      (
        r,
        s',
        padded-call ∙ e,
        Frame-trans padded-Frame f,
        elim w [
          | inl (a, can, h) ↦ inl (a, padded-CanWrite.0 can, h)
          | inr (inl (a, b, cannot, h)) ↦ inr (inl (a, b, λ can. cannot (padded-CanWrite.1 can), h))
          | inr (inr (a, large, b)) ↦ absurd (omega arith)
        ],
      )

pub write_outcome :
    {k : ℕ} {slots : List Slot} {s : Shm} (v : IsValid k slots s) (xs : List ℕ) (fuel : ℕ)
    → 0 < length xs
    → length xs + 31 < 2 ^ 64
    → s.tail + 2 * 2 ^ k < 2 ^ 64
    → WriteOutcome k
        (payloads slots)
        xs
        s
        (ipc_buffer_write (suc (suc fuel)) valid (some xs) (length xs) s)
write_outcome {k} {s} v xs fuel some_bytes bounded no_wrap =
    elim (dec_lt (space_to_wrap k s) (full_size (length xs) + 24)) [
      | yes wrap ↦ elim (dec_le (full_size (length xs)) (free_space k s)) [
        | yes near ↦ padded_outcome v xs some_bytes bounded no_wrap fuel near wrap
        | no far ↦
            direct v xs some_bytes bounded (omega arith) (suc fuel) (λ w n l. absurd (omega arith))
      ]
      | no room ↦
          direct v xs some_bytes bounded (omega arith) (suc fuel) (λ w n l. absurd (omega arith))
    ]
