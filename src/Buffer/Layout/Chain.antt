-- ===== src/Buffer/Layout/Chain.antt =====
-- Chains of entries: order of positions, unrelated writes, appending, and where the next one starts.
use native.Mathlib.Nat.{dvd_of_mod-eq-zero, mod-mod_of_dvd, pow-suc}
use libshmipc.Base.{
  ℕ, zero, suc, ◌+◌, ◌-◌, ◌%◌, ◌^◌, ◌≤◌, ◌<◌, ◌≡◌, inl, inr, refl, sym, subst, ap, ◌∙◌, List, [],
  ◌∷◌, ◌++◌, arith, length,
}
use libshmipc.Base.Modulus.{mod-add_of_fits, mod-add_of_full}
use libshmipc.Memory.{Memory, load_u64-frame, load_bytes-frame}
use libshmipc.Buffer.Layout.{
  Slot, message, padding, full_size, slot_size, payloads, SlotAt, Entries, HasRoom,
}

pub full_size-bounds :
    (n : ℕ) → (24 + n ≤ full_size n) × (full_size n ≤ n + 31) × (full_size n % 8 ≡ 0)
full_size-bounds n = omega arith

pub Entries-le :
    (c : ℕ) (m : Memory) (p : ℕ) (slots : List Slot) (t : ℕ) → Entries c m p slots t → p ≤ t
Entries-le c m p [] t e = omega arith
Entries-le c m p (slot ∷ slots) t (a, e) =
    omega (arith, Entries-le c m (p + slot_size slot) slots t e)

-- An entry ends inside the region.
pub SlotAt-le :
    (c : ℕ) (m : Memory) (p : ℕ) (slot : Slot) → SlotAt c m p slot → p % c + slot_size slot ≤ c
SlotAt-le c m p (message xs) a = omega (arith, a.room)
SlotAt-le c m p (padding n) a = omega (arith, a.to_end)

pub SlotAt-header :
    (c : ℕ) (m : Memory) (p : ℕ) (slot : Slot) → SlotAt c m p slot → 24 ≤ slot_size slot
SlotAt-header c m p (message xs) a = omega arith
SlotAt-header c m p (padding n) a = a.header_fits

SlotAt-frame :
    (c : ℕ) (m m' : Memory) (p : ℕ) (slot : Slot)
    → ((i : ℕ) → p % c ≤ i → i < p % c + slot_size slot → m' i ≡ m i)
    → SlotAt c m p slot
    → SlotAt c m' p slot
SlotAt-frame c m m' p (message xs) h a = record {
  seq = load_u64-frame (p % c) m m' (λ i u v. h i (omega arith) (omega arith)) ∙ a.seq;
  payload_size =
      load_u64-frame (p % c + 8) m m' (λ i u v. h i (omega arith) (omega arith)) ∙ a.payload_size;
  entry_size =
      load_u64-frame (p % c + 16) m m' (λ i u v. h i (omega arith) (omega arith)) ∙ a.entry_size;
  bytes =
      load_bytes-frame (length xs) (p % c + 24) m m' (λ i u v. h i (omega arith) (omega arith))
      ∙ a.bytes;
  some_bytes = a.some_bytes;
  room = a.room;
}
SlotAt-frame c m m' p (padding n) h a = record {
  seq =
      load_u64-frame (p % c) m m' (λ i u v. h i (omega arith) (omega (arith, a.header_fits)))
      ∙ a.seq;
  payload_size =
      load_u64-frame (p % c + 8) m m' (λ i u v. h i (omega arith) (omega (arith, a.header_fits)))
      ∙ a.payload_size;
  entry_size =
      load_u64-frame (p % c + 16) m m' (λ i u v. h i (omega arith) (omega (arith, a.header_fits)))
      ∙ a.entry_size;
  to_end = a.to_end;
  header_fits = a.header_fits;
}

-- A write that leaves the bytes of the positions from `p` to `t` alone leaves the chain alone.
pub Entries-frame :
    (c : ℕ) (m m' : Memory) (p : ℕ) (slots : List Slot) (t : ℕ)
    → 0 < c
    → ((x : ℕ) → p ≤ x → x < t → m' (x % c) ≡ m (x % c))
    → Entries c m p slots t
    → Entries c m' p slots t
Entries-frame c m m' p [] t pos h e = e
Entries-frame c m m' p (slot ∷ slots) t pos h (a, e) =
    let next : p + slot_size slot ≤ t = Entries-le c m (p + slot_size slot) slots t e in
    let inside : p % c + slot_size slot ≤ c = SlotAt-le c m p slot a in
    (
      SlotAt-frame c m m' p slot
          (λ i u v.
            let at : (p + (i - p % c)) % c ≡ i =
              mod-add_of_fits p (i - p % c) c (omega arith) ∙ (omega arith) in
            subst (λ j. m' j ≡ m j) at (h (p + (i - p % c)) (omega arith) (omega arith)))
          a,
      Entries-frame c m m' (p + slot_size slot) slots t pos (λ x u v. h x (omega arith) v) e,
    )

pub Entries-append :
    (c : ℕ) (m : Memory) (p : ℕ) (slots : List Slot) (t : ℕ) (slot : Slot)
    → Entries c m p slots t
    → SlotAt c m t slot
    → Entries c m p (slots ++ (slot ∷ [])) (t + slot_size slot)
Entries-append c m p [] t slot e a = (subst (λ q. SlotAt c m q slot) (sym e) a, omega arith)
Entries-append c m p (s ∷ slots) t slot (b, e) a =
    (b, Entries-append c m (p + slot_size s) slots t slot e a)

pub payloads-append_message :
    (slots : List Slot) (xs : List ℕ)
    → payloads (slots ++ (message xs ∷ [])) ≡ payloads slots ++ (xs ∷ [])
payloads-append_message [] xs = refl
payloads-append_message (message ys ∷ slots) xs =
    ap (λ r. ys ∷ r) (payloads-append_message slots xs)
payloads-append_message (padding n ∷ slots) xs = payloads-append_message slots xs

pub payloads-append_padding :
    (slots : List Slot) (n : ℕ) → payloads (slots ++ (padding n ∷ [])) ≡ payloads slots
payloads-append_padding [] n = refl
payloads-append_padding (message ys ∷ slots) n = ap (λ r. ys ∷ r) (payloads-append_padding slots n)
payloads-append_padding (padding j ∷ slots) n = payloads-append_padding slots n

-- Behind an entry another one may start.
pub HasRoom-next :
    (c : ℕ) (m : Memory) (p : ℕ) (slot : Slot) → SlotAt c m p slot → HasRoom c (p + slot_size slot)
HasRoom-next c m p (message xs) a =
    inr (rw (mod-add_of_fits p (full_size (length xs)) c (omega (arith, a.room))) a.room)
HasRoom-next c m p (padding n) a = inl (mod-add_of_full p n c a.to_end)

-- A power of two from 8 on is a multiple of 8.
pub pow_aligned : (k : ℕ) → 8 ≤ 2 ^ k → 2 ^ k % 8 ≡ 0
pow_aligned zero h = absurd (omega arith)
pow_aligned (suc zero) h = absurd (omega arith)
pow_aligned (suc (suc zero)) h = absurd (omega arith)
pow_aligned (suc (suc (suc k))) h =
    omega (arith, pow-suc 2 (suc (suc k)), pow-suc 2 (suc k), pow-suc 2 k)

pub index_aligned : (p k : ℕ) → p % 8 ≡ 0 → 8 ≤ 2 ^ k → p % 2 ^ k % 8 ≡ 0
index_aligned p k e h = mod-mod_of_dvd 8 p (dvd_of_mod-eq-zero 8 (pow_aligned k h)) ∙ e

-- Entries are multiples of 8 long.
pub slot_size-aligned :
    (k : ℕ) (m : Memory) (p : ℕ) (slot : Slot)
    → SlotAt (2 ^ k) m p slot
    → p % 8 ≡ 0
    → slot_size slot % 8 ≡ 0
slot_size-aligned k m p (message xs) a e = omega arith
slot_size-aligned k m p (padding n) a e = omega (
  arith,
  a.to_end,
  a.header_fits,
  index_aligned p k e (omega (arith, a.to_end, a.header_fits)),
  pow_aligned k (omega (arith, a.to_end, a.header_fits)),
)
