-- ===== src/Buffer/Write/Fill.antt =====
-- `fill_entry`: the bytes that the stores of `ipc_buffer_write` touch, and the entry that they make.
use libshmipc.Base.{
  ℕ, ◌+◌, ◌%◌, ◌^◌, ◌≤◌, ◌<◌, ◌≡◌, ◌⊎◌, inl, inr, refl, ◌∙◌, List, arith, length, take-length, true,
  false,
}
use libshmipc.Memory.{
  Memory, load_u64, store_u64, store_bytes, store_bytes-outside, store_u64-outside,
  load_u64-store_u64, load_u64-store_u64_apart, load_bytes-store_u64_apart, load_bytes-store_bytes,
}
use libshmipc.Buffer.Layout.{full_size, MessageAt, PaddingAt}
use libshmipc.Buffer.Write.{fill_entry}

-- The message that the stores make at index `p`, in the order of the code.
abbrev pub stored_message : ℕ → ℕ → List ℕ → Memory → Memory
stored_message p t xs m = store_u64 p t (
    store_u64 (p + 8) (length xs)
      (store_u64 (p + 16) (full_size (length xs)) (store_bytes (p + 24) xs m)))

abbrev pub stored_padding : ℕ → ℕ → ℕ → Memory → Memory
stored_padding p t n m = store_u64 p t (store_u64 (p + 16) n (store_u64 (p + 8) 0 m))

pub fill_entry-message :
    (t p w : ℕ) (xs : List ℕ) (m : Memory)
    → fill_entry
        (record { tail = t; rel_tail = p; space_to_wrap = w; is_placeholder = false })
        (full_size (length xs))
        (length xs)
        xs
        m
      ≡ stored_message p t xs m
unfolding fill_entry
fill_entry-message t p w xs m = rw (take-length xs)

pub fill_entry-padding :
    (t p w full size : ℕ) (xs : List ℕ) (m : Memory)
    → fill_entry
        (record { tail = t; rel_tail = p; space_to_wrap = w; is_placeholder = true })
        full
        size
        xs
        m
      ≡ stored_padding p t w m
unfolding fill_entry
fill_entry-padding t p w full size xs m = refl

-- A byte before or behind an entry is not one of the bytes at distance `j` from its start.
beside : (i p w j n : ℕ) → (i < p) ⊎ (p + w ≤ i) → j + n ≤ w → (i < p + j) ⊎ (p + j + n ≤ i)
beside i p w j n (inl h) k = inl (omega arith)
beside i p w j n (inr h) k = inr (omega arith)

pub stored_message-outside :
    (p t : ℕ) (xs : List ℕ) (m : Memory) (i : ℕ)
    → (i < p) ⊎ (p + full_size (length xs) ≤ i)
    → stored_message p t xs m i ≡ m i
stored_message-outside p t xs m i h =
    let w : ℕ = full_size (length xs) in
    let m₁ : Memory = store_bytes (p + 24) xs m in
    let m₂ : Memory = store_u64 (p + 16) w m₁ in
    let m₃ : Memory = store_u64 (p + 8) (length xs) m₂ in
    store_u64-outside p t m₃ i (elim h [ inl a ↦ inl a | inr a ↦ inr (omega arith) ])
    ∙ store_u64-outside (p + 8) (length xs) m₂ i (beside i p w 8 8 h (omega arith))
    ∙ store_u64-outside (p + 16) w m₁ i (beside i p w 16 8 h (omega arith))
    ∙ store_bytes-outside (p + 24) xs m i (beside i p w 24 (length xs) h (omega arith))

pub stored_padding-outside :
    (p t n : ℕ) (m : Memory) (i : ℕ) → (i < p) ⊎ (p + 24 ≤ i) → stored_padding p t n m i ≡ m i
stored_padding-outside p t n m i h =
    let m₁ : Memory = store_u64 (p + 8) 0 m in
    let m₂ : Memory = store_u64 (p + 16) n m₁ in
    store_u64-outside p t m₂ i (elim h [ inl a ↦ inl a | inr a ↦ inr (omega arith) ])
    ∙ store_u64-outside (p + 16) n m₁ i (beside i p 24 16 8 h (omega arith))
    ∙ store_u64-outside (p + 8) 0 m i (beside i p 24 8 8 h (omega arith))

-- The `entry_size` that the commit reads back.
pub stored_message-entry_size :
    (p t : ℕ) (xs : List ℕ) (m : Memory)
    → full_size (length xs) < 2 ^ 64
    → load_u64 (p + 16) (stored_message p t xs m) ≡ full_size (length xs)
stored_message-entry_size p t xs m h =
    let w : ℕ = full_size (length xs) in
    let m₁ : Memory = store_bytes (p + 24) xs m in
    let m₂ : Memory = store_u64 (p + 16) w m₁ in
    let m₃ : Memory = store_u64 (p + 8) (length xs) m₂ in
    load_u64-store_u64_apart p t m₃ (p + 16) (inr (omega arith))
    ∙ load_u64-store_u64_apart (p + 8) (length xs) m₂ (p + 16) (inr (omega arith))
    ∙ load_u64-store_u64 (p + 16) w m₁ h

pub stored_padding-entry_size :
    (p t n : ℕ) (m : Memory) → n < 2 ^ 64 → load_u64 (p + 16) (stored_padding p t n m) ≡ n
stored_padding-entry_size p t n m h =
    let m₁ : Memory = store_u64 (p + 8) 0 m in
    load_u64-store_u64_apart p t (store_u64 (p + 16) n m₁) (p + 16) (inr (omega arith))
    ∙ load_u64-store_u64 (p + 16) n m₁ h

-- The stores make the message.
pub stored_message-MessageAt :
    (c t : ℕ) (xs : List ℕ) (m : Memory)
    → t < 2 ^ 64
    → full_size (length xs) < 2 ^ 64
    → 0 < length xs
    → t % c + full_size (length xs) + 24 ≤ c
    → MessageAt c (stored_message (t % c) t xs m) t xs
stored_message-MessageAt c t xs m ht hw some room =
    let p : ℕ = t % c in
    let w : ℕ = full_size (length xs) in
    let m₁ : Memory = store_bytes (p + 24) xs m in
    let m₂ : Memory = store_u64 (p + 16) w m₁ in
    let m₃ : Memory = store_u64 (p + 8) (length xs) m₂ in
    record {
      seq = load_u64-store_u64 p t m₃ ht;
      payload_size =
          load_u64-store_u64_apart p t m₃ (p + 8) (inr (omega arith))
          ∙ load_u64-store_u64 (p + 8) (length xs) m₂ (omega arith);
      entry_size = stored_message-entry_size p t xs m hw;
      bytes =
          load_bytes-store_u64_apart p t m₃ (length xs) (p + 24) (omega arith)
          ∙ load_bytes-store_u64_apart (p + 8) (length xs) m₂ (length xs) (p + 24) (omega arith)
          ∙ load_bytes-store_u64_apart (p + 16) w m₁ (length xs) (p + 24) (omega arith)
          ∙ load_bytes-store_bytes (p + 24) xs m;
      some_bytes = some;
      room = room;
    }

-- The stores make the placeholder.
pub stored_padding-PaddingAt :
    (c t n : ℕ) (m : Memory)
    → t < 2 ^ 64
    → n < 2 ^ 64
    → t % c + n ≡ c
    → 24 ≤ n
    → PaddingAt c (stored_padding (t % c) t n m) t n
stored_padding-PaddingAt c t n m ht hn to_end header_fits =
    let p : ℕ = t % c in
    let m₁ : Memory = store_u64 (p + 8) 0 m in
    let m₂ : Memory = store_u64 (p + 16) n m₁ in
    record {
      seq = load_u64-store_u64 p t m₂ ht;
      payload_size =
          load_u64-store_u64_apart p t m₂ (p + 8) (inr (omega arith))
          ∙ load_u64-store_u64_apart (p + 16) n m₁ (p + 8) (inl (omega arith))
          ∙ load_u64-store_u64 (p + 8) 0 m (omega arith);
      entry_size = stored_padding-entry_size p t n m hn;
      to_end = to_end;
      header_fits = header_fits;
    }
