-- ===== src/Buffer/Write/Entry.antt =====
-- `write_entry` on a buffer at rest: its four outcomes, by the space that it finds.
use libshmipc.Base.{
  ℕ, suc, ◌+◌, ◌%◌, ◌^◌, ◌≤◌, ◌<◌, ◌≡◌, refl, ◌∙◌, ap, List, Option, some, arith, length, true,
  false, lt→ltb, le→ltb, ==_self, if◌then◌else◌,
}
use libshmipc.Base.Word.{add64, add64-eq}
use libshmipc.Common.{success, error_body, ok, err_entry_too_large, err_no_space_contiguous}
use libshmipc.Memory.{load_u64}
use libshmipc.Utils.{align_up}
use libshmipc.Utils.Align.{align_up_eight, two_pow_bounds}
use libshmipc.Buffer.State.{Shm}
use libshmipc.Buffer.Words.{lock_even}
use libshmipc.Buffer.Layout.{full_size, Slot, IsValid}
use libshmipc.Buffer.Write.{
  Reservation, IpcBufferWriteError, IpcBufferWriteResult, commit_entry, write_entry,
}
use libshmipc.Buffer.Write.Fill.{
  stored_message, stored_padding, fill_entry-message, fill_entry-padding, stored_message-entry_size,
  stored_padding-entry_size,
}
use libshmipc.Buffer.Write.Step.{
  free_space, space_to_wrap, no_space, reservation, reserve-no_space, reserve_space,
}

-- The buffer behind the message, and behind the placeholder.
abbrev pub after_message : ℕ → List ℕ → Shm → Shm
after_message k xs s = record s {
  tail = s.tail + full_size (length xs);
  region = stored_message (s.tail % 2 ^ k) s.tail xs s.region;
}

abbrev pub after_padding : ℕ → Shm → Shm
after_padding k s = record s {
  tail = s.tail + space_to_wrap k s;
  region = stored_padding (s.tail % 2 ^ k) s.tail (space_to_wrap k s) s.region;
}

-- The commit finds the lock that the loop has taken.
commit_entry-locked :
    (again : Shm → Option (IpcBufferWriteResult × Shm)) (e : IpcBufferWriteError) (s : Shm)
    (r : Reservation) (w : ℕ)
    → r.tail % 2 ≡ 0
    → load_u64 (r.rel_tail + 16) s.region ≡ w
    → s.tail ≡ r.tail + 1
    → r.tail + w < 2 ^ 64
    → commit_entry again r e s ≡ (
        if r.is_placeholder
        then again (record s { tail = r.tail + w })
        else some (success ok tt, record s { tail = r.tail + w }))
unfolding commit_entry
commit_entry-locked again e s r w even size locked no_wrap = rw (
  size,
  lock_even r.tail even (omega arith),
  locked,
  ==_self (r.tail + 1),
  add64-eq r.tail w no_wrap,
)

module _ {k : ℕ} {slots : List Slot} {s : Shm} (v : IsValid k slots s) (xs : List ℕ)
    (bounded : length xs + 31 < 2 ^ 64) (fuel : ℕ)
    (again : Shm → Option (IpcBufferWriteResult × Shm)) (e : IpcBufferWriteError) where
  open v use {capacity, small, tail_aligned, fits}

  abbrev full : ℕ
  full = full_size (length xs)

  full-code : align_up (add64 24 (length xs)) 8 ≡ full
  full-code =
      ap (λ n. align_up n 8) (add64-eq 24 (length xs) (omega arith))
      ∙ align_up_eight (24 + length xs) (omega arith)

  pub write_entry_too_large :
      2 ^ k < full
      → write_entry (suc fuel) again xs (length xs) e s
        ≡ some (error_body err_entry_too_large (record e { buffer_size = s.data_size }), s)
  unfolding write_entry
  write_entry_too_large h = rw (full-code, lt→ltb s.data_size full (omega arith))

  pub write_entry-no_space :
      full ≤ 2 ^ k
      → free_space k s < full
      → write_entry (suc fuel) again xs (length xs) e s
        ≡ some (error_body err_no_space_contiguous (no_space v full e fuel), s)
  unfolding write_entry
  write_entry-no_space h n =
      rw (full-code, le→ltb s.data_size full (omega arith), reserve-no_space v full e fuel n)

  module _ (h : full ≤ 2 ^ k) (n : full ≤ free_space k s) (no_wrap : s.tail + 2 ^ k < 2 ^ 64) where
    fits_64 : full + 24 < 2 ^ 64
    fits_64 = omega (arith, two_pow_bounds k small)

    pub write_entry_message :
        full + 24 ≤ space_to_wrap k s
        → write_entry (suc fuel) again xs (length xs) e s
          ≡ some (success ok tt, after_message k xs s)
    unfolding write_entry
    write_entry_message w =
        rw
          (
            full-code,
            le→ltb s.data_size full (omega arith),
            reserve_space v full e fuel n,
            add64-eq full 24 fits_64,
            le→ltb (space_to_wrap k s) (full + 24) w,
            full-code,
            fill_entry-message s.tail (s.tail % 2 ^ k) (space_to_wrap k s) xs s.region,
          )
          (commit_entry-locked again e
            (record s {
              tail = s.tail + 1;
              region = stored_message (s.tail % 2 ^ k) s.tail xs s.region;
            })
            (reservation v full e fuel false) full (omega arith)
            (stored_message-entry_size (s.tail % 2 ^ k) s.tail xs s.region (omega arith)) refl
            (omega arith))

    pub write_entry_padding :
        space_to_wrap k s < full + 24
        → write_entry (suc fuel) again xs (length xs) e s ≡ again (after_padding k s)
    unfolding write_entry
    write_entry_padding w =
        rw
          (
            full-code,
            le→ltb s.data_size full (omega arith),
            reserve_space v full e fuel n,
            add64-eq full 24 fits_64,
            lt→ltb (space_to_wrap k s) (full + 24) w,
            fill_entry-padding s.tail (s.tail % 2 ^ k) (space_to_wrap k s)
                (align_up (add64 24 (length xs)) 8) (length xs) xs s.region,
          )
          (commit_entry-locked again e
            (record s {
              tail = s.tail + 1;
              region = stored_padding (s.tail % 2 ^ k) s.tail (space_to_wrap k s) s.region;
            })
            (reservation v full e fuel true) (space_to_wrap k s) (omega arith)
            (stored_padding-entry_size (s.tail % 2 ^ k) s.tail (space_to_wrap k s) s.region
              (omega arith))
            refl (omega arith))
