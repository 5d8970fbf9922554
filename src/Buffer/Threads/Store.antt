-- ===== src/Buffer/Threads/Store.antt =====
-- The stores of a writer that holds the lock of the tail, and the local variables that depend on the
-- tail alone.
use libshmipc.Base.{
  Bool-cases, ℕ, ◌+◌, ◌-◌, ◌%◌, ◌^◌, ◌≤◌, ◌<◌, ◌≡◌, inl, inr, List, length, arith, sym, subst, ap,
  ◌∙◌, refl, Bool-cases, ltb, ltb→lt, ltb→le,
}
use libshmipc.Base.Word.{add64, sub64, add64-eq}
use libshmipc.Memory.{Memory}
use libshmipc.Utils.{align_up}
use libshmipc.Utils.Align.{relative-pow, two_pow_bounds, align_up_eight}
use libshmipc.Buffer.State.{Shm}
use libshmipc.Buffer.Layout.{Slot, message, padding, full_size, slot_size, SlotAt, IsValid}
use libshmipc.Buffer.Write.{Reservation, fill_entry}
use libshmipc.Buffer.Write.Fill.{
  stored_message, stored_padding, stored_message-outside, stored_padding-outside,
  stored_message-MessageAt, stored_padding-PaddingAt, fill_entry-message, fill_entry-padding,
}
use libshmipc.Buffer.Write.Step.{free_space, space_to_wrap, index-lt}
use libshmipc.Buffer.Write.Valid.{store-IsValid, padding_is_free, header_fits}
use libshmipc.Buffer.Threads.Writing.{full_entry_size, reservation_at}
use libshmipc.Buffer.Threads.Invariant.{Fits, entry_at}

pub full_entry_size-eq :
    (xs : List ℕ) → length xs + 31 < 2 ^ 64 → full_entry_size xs ≡ full_size (length xs)
full_entry_size-eq xs bounded =
    ap (λ n. align_up n 8) (add64-eq 24 (length xs) (omega arith))
    ∙ align_up_eight (24 + length xs) (omega arith)

-- `full_entry_size` of a payload that fits the buffer.
pub full-eq :
    (k : ℕ) (xs : List ℕ) → k ≤ 63 → Fits k xs → full_entry_size xs ≡ full_size (length xs)
full-eq k xs small f = full_entry_size-eq xs (omega (arith, f.room, two_pow_bounds k small))

abbrev pub reservation_of : ℕ → List ℕ → ℕ → Reservation
reservation_of k xs tail = record {
  tail = tail;
  rel_tail = tail % 2 ^ k;
  space_to_wrap = 2 ^ k - tail % 2 ^ k;
  is_placeholder = ltb (2 ^ k - tail % 2 ^ k) (full_size (length xs) + 24);
}

pub reservation_at-eq :
    (k c : ℕ) (xs : List ℕ) (tail : ℕ)
    → k ≤ 63
    → Fits k xs
    → c ≡ 2 ^ k
    → reservation_at c xs tail ≡ reservation_of k xs tail
reservation_at-eq k c xs tail small f e =
    subst (λ d. reservation_at d xs tail ≡ reservation_of k xs tail) (sym e)
      (rw (relative-pow tail k small, space, full-eq k xs small f, more) refl)
  where
    space : sub64 (2 ^ k) (tail % 2 ^ k) ≡ 2 ^ k - tail % 2 ^ k
    space = omega (arith, two_pow_bounds k small)

    more : add64 (full_size (length xs)) 24 ≡ full_size (length xs) + 24
    more = add64-eq (full_size (length xs)) 24 (omega (arith, f.room, two_pow_bounds k small))

module _ {k : ℕ} {slots : List Slot} {s : Shm} (v : IsValid k slots s) (xs : List ℕ) (f : Fits k xs)
    (near : full_size (length xs) ≤ free_space k s) (no_wrap : s.tail + 2 ^ k < 2 ^ 64) where
  abbrev full : ℕ
  full = full_size (length xs)

  -- The entry stands in the free space, and the others are as before.
  pub record Made (m : Memory) (slot : Slot) : Type 0 where
    pub stands : SlotAt (2 ^ k) m s.tail slot
    pub fits_free : slot_size slot ≤ free_space k s
    pub kept : IsValid k slots (record s { region = m })

  Made-message :
      full + 24 ≤ space_to_wrap k s
      → Made (stored_message (s.tail % 2 ^ k) s.tail xs s.region) (message xs)
  Made-message long =
      let m : Memory = stored_message (s.tail % 2 ^ k) s.tail xs s.region in
      record {
        stands =
            stored_message-MessageAt (2 ^ k) s.tail xs s.region v.fits
              (omega (arith, f.room, two_pow_bounds k v.small)) f.some_bytes
              (omega (arith, index-lt v));
        fits_free = near;
        kept =
            store-IsValid m full v (omega (arith, index-lt v)) near
              (stored_message-outside (s.tail % 2 ^ k) s.tail xs s.region);
      }

  Made-padding :
      space_to_wrap k s < full + 24
      → Made
          (stored_padding (s.tail % 2 ^ k) s.tail (space_to_wrap k s) s.region)
          (padding (space_to_wrap k s))
  Made-padding short =
      let n : ℕ = space_to_wrap k s in
      let room : 24 ≤ n = header_fits v xs near no_wrap in
      record {
        stands =
            stored_padding-PaddingAt (2 ^ k) s.tail n s.region v.fits
              (omega (arith, two_pow_bounds k v.small)) (omega (arith, index-lt v)) room;
        fits_free = padding_is_free v xs near no_wrap short;
        kept =
            store-IsValid (stored_padding (s.tail % 2 ^ k) s.tail n s.region) n v
              (omega (arith, index-lt v)) (padding_is_free v xs near no_wrap short)
              (λ i h.
                stored_padding-outside (s.tail % 2 ^ k) s.tail n s.region i
                  (elim h [ inl a ↦ inl a | inr a ↦ inr (omega arith) ]));
      }

  pub stores :
      Made
        (fill_entry (reservation_of k xs s.tail) full (length xs) xs s.region)
        (entry_at k xs s.tail)
  stores = elim (Bool-cases (ltb (space_to_wrap k s) (full + 24))) [
    | inl wraps ↦
        rw
          (
            wraps,
            fill_entry-padding s.tail (s.tail % 2 ^ k) (space_to_wrap k s) full (length xs) xs
                s.region,
          )
          (Made-padding (ltb→lt (space_to_wrap k s) (full + 24) wraps))
    | inr fits ↦
        rw (fits, fill_entry-message s.tail (s.tail % 2 ^ k) (space_to_wrap k s) xs s.region)
          (Made-message (ltb→le (space_to_wrap k s) (full + 24) fits))
  ]
