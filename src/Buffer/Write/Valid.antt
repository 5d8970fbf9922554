-- ===== src/Buffer/Write/Valid.antt =====
-- Both commits of `ipc_buffer_write` leave the buffer at rest, with one more entry.
use libshmipc.Base.{
  ℕ, ◌+◌, ◌-◌, ◌%◌, ◌^◌, ◌≤◌, ◌<◌, ◌≡◌, ◌⊎◌, inl, inr, List, [], ◌∷◌, ◌++◌, arith, length, dec_lt,
}
use libshmipc.Base.Modulus.{index_outside, room_before_end}
use libshmipc.Memory.{Memory}
use libshmipc.Utils.Align.{two_pow_bounds}
use libshmipc.Buffer.State.{Shm}
use libshmipc.Buffer.Layout.{full_size, Slot, message, padding, slot_size, SlotAt, IsValid}
use libshmipc.Buffer.Layout.Chain.{Entries-frame, Entries-append, HasRoom-next, slot_size-aligned}
use libshmipc.Buffer.Write.Fill.{
  stored_message, stored_padding, stored_message-outside, stored_padding-outside,
  stored_message-MessageAt, stored_padding-PaddingAt,
}
use libshmipc.Buffer.Write.Step.{free_space, space_to_wrap, head-le-tail, index-lt}
use libshmipc.Buffer.Write.Entry.{after_message, after_padding}

-- Stores to the free space behind the tail leave the chain alone.
pub store-IsValid :
    {k : ℕ} {slots : List Slot} {s : Shm} (m : Memory) (n : ℕ)
    → IsValid k slots s
    → s.tail % 2 ^ k + n ≤ 2 ^ k
    → n ≤ free_space k s
    → ((i : ℕ) → (i < s.tail % 2 ^ k) ⊎ (s.tail % 2 ^ k + n ≤ i) → m i ≡ s.region i)
    → IsValid k slots (record s { region = m })
store-IsValid {k} {slots} {s} m n v inside near outside =
    let c : ℕ = 2 ^ k in
    let le : s.head ≤ s.tail = head-le-tail v in
    let pos : 0 < c = omega (arith, two_pow_bounds k v.small) in
    record {
      capacity = v.capacity;
      small = v.small;
      entries =
          Entries-frame c s.region m s.head slots s.tail pos
            (λ x from to.
              outside (x % c)
                (index_outside s.head s.tail n c x inside (omega (arith, v.used)) from to))
            v.entries;
      used = v.used;
      fits = v.fits;
      head_aligned = v.head_aligned;
      tail_aligned = v.tail_aligned;
      head_room = v.head_room;
      tail_room = v.tail_room;
    }

-- A slot that stands in the free space behind the tail extends the chain.
pub commit-IsValid :
    {k : ℕ} {slots : List Slot} {s : Shm} (slot : Slot)
    → IsValid k slots s
    → slot_size slot ≤ free_space k s
    → s.tail + 2 ^ k < 2 ^ 64
    → SlotAt (2 ^ k) s.region s.tail slot
    → IsValid k (slots ++ (slot ∷ [])) (record s { tail = s.tail + slot_size slot })
commit-IsValid {k} {slots} {s} slot v near no_wrap at =
    let le : s.head ≤ s.tail = head-le-tail v in
    record {
      capacity = v.capacity;
      small = v.small;
      entries = Entries-append (2 ^ k) s.region s.head slots s.tail slot v.entries at;
      used = omega (arith, v.used);
      fits = omega arith;
      head_aligned = v.head_aligned;
      tail_aligned =
          omega (arith, v.tail_aligned, slot_size-aligned k s.region s.tail slot at v.tail_aligned);
      head_room = v.head_room;
      tail_room = HasRoom-next (2 ^ k) s.region s.tail slot at;
    }

append-IsValid :
    {k : ℕ} {slots : List Slot} {s : Shm} (m : Memory) (slot : Slot)
    → IsValid k slots s
    → s.tail % 2 ^ k + slot_size slot ≤ 2 ^ k
    → slot_size slot ≤ free_space k s
    → s.tail + 2 ^ k < 2 ^ 64
    → ((i : ℕ) → (i < s.tail % 2 ^ k) ⊎ (s.tail % 2 ^ k + slot_size slot ≤ i) → m i ≡ s.region i)
    → SlotAt (2 ^ k) m s.tail slot
    → IsValid k (slots ++ (slot ∷ [])) (record s { tail = s.tail + slot_size slot; region = m })
append-IsValid m slot v inside near no_wrap outside at =
    commit-IsValid slot (store-IsValid m (slot_size slot) v inside near outside) near no_wrap at

module _ {k : ℕ} {slots : List Slot} {s : Shm} (v : IsValid k slots s) (xs : List ℕ)
    (near : full_size (length xs) ≤ free_space k s) (no_wrap : s.tail + 2 ^ k < 2 ^ 64) where
  open v use {small, used, fits, head_room, tail_room, tail_aligned}

  abbrev c : ℕ
  c = 2 ^ k

  abbrev full : ℕ
  full = full_size (length xs)

  pub after_message-IsValid :
      0 < length xs
      → full + 24 ≤ space_to_wrap k s
      → IsValid k (slots ++ (message xs ∷ [])) (after_message k xs s)
  after_message-IsValid some wrap =
      append-IsValid (stored_message (s.tail % c) s.tail xs s.region) (message xs) v
        (omega (arith, index-lt v)) near no_wrap
        (stored_message-outside (s.tail % c) s.tail xs s.region)
        (stored_message-MessageAt c s.tail xs s.region fits (omega (arith, two_pow_bounds k small))
          some (omega (arith, index-lt v)))

  -- The room up to the end of the region is free, although the code checks only that the entry fits
  -- the free space.
  pub padding_is_free : space_to_wrap k s < full + 24 → space_to_wrap k s ≤ free_space k s
  padding_is_free wrap =
      let le : s.head ≤ s.tail = head-le-tail v in
      elim (dec_lt (s.tail % c) (s.tail - s.head)) [
        | yes p ↦
            absurd (omega (arith, room_before_end s.head s.tail c le (omega arith) head_room p))
        | no p ↦ omega (arith, index-lt v)
      ]

  pub header_fits : 24 ≤ space_to_wrap k s
  header_fits = elim tail_room [ inl z ↦ omega arith | inr r ↦ omega (arith, r) ]

  pub after_padding-IsValid :
      space_to_wrap k s < full + 24
      → IsValid k (slots ++ (padding (space_to_wrap k s) ∷ [])) (after_padding k s)
  after_padding-IsValid wrap =
      append-IsValid (stored_padding (s.tail % c) s.tail (space_to_wrap k s) s.region)
        (padding (space_to_wrap k s)) v (omega (arith, index-lt v)) (padding_is_free wrap) no_wrap
        (λ i h.
          stored_padding-outside (s.tail % c) s.tail (space_to_wrap k s) s.region i
            (elim h [ inl a ↦ inl a | inr a ↦ inr (omega (arith, header_fits)) ]))
        (stored_padding-PaddingAt c s.tail (space_to_wrap k s) s.region fits (omega arith)
          (omega (arith, index-lt v)) header_fits)
