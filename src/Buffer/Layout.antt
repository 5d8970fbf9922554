-- ===== src/Buffer/Layout.antt =====
-- What the data region holds between `head` and `tail`: a chain of entries, each with its header.
pub mod Chain
use libshmipc.Base.{ℕ, ◌+◌, ◌*◌, ◌/◌, ◌%◌, ◌^◌, ◌≤◌, ◌<◌, ◌≡◌, ◌⊎◌, List, [], ◌∷◌, length}
use libshmipc.Memory.{Memory, load_u64, load_bytes}
use libshmipc.Buffer.State.{Shm}

-- An entry is a message with its payload, or a placeholder that fills up to the end of the region.
pub data Slot : Type 0 where
  message : List ℕ → Slot
  padding : ℕ → Slot

-- The bytes that an entry with a payload of `n` bytes takes.
abbrev pub full_size : ℕ → ℕ
full_size n = (24 + n + 7) / 8 * 8

abbrev pub slot_size : Slot → ℕ
slot_size (message xs) = full_size (length xs)
slot_size (padding n) = n

-- The payloads of the messages, oldest first.
abbrev pub payloads : List Slot → List (List ℕ)
payloads [] = []
payloads (message xs ∷ slots) = xs ∷ payloads slots
payloads (padding n ∷ slots) = payloads slots

-- The message stands at position `p` of a region of `c` bytes, and a header fits behind it.
pub record MessageAt (c : ℕ) (m : Memory) (p : ℕ) (xs : List ℕ) : Type 0 where
  pub seq : load_u64 (p % c) m ≡ p
  pub payload_size : load_u64 (p % c + 8) m ≡ length xs
  pub entry_size : load_u64 (p % c + 16) m ≡ full_size (length xs)
  pub bytes : load_bytes (length xs) (p % c + 24) m ≡ xs
  pub some_bytes : 0 < length xs
  pub room : p % c + full_size (length xs) + 24 ≤ c

-- The placeholder stands at position `p` and ends with the region.
pub record PaddingAt (c : ℕ) (m : Memory) (p : ℕ) (n : ℕ) : Type 0 where
  pub seq : load_u64 (p % c) m ≡ p
  pub payload_size : load_u64 (p % c + 8) m ≡ 0
  pub entry_size : load_u64 (p % c + 16) m ≡ n
  pub to_end : p % c + n ≡ c
  pub header_fits : 24 ≤ n

abbrev pub SlotAt : ℕ → Memory → ℕ → Slot → Type 0
SlotAt c m p (message xs) = MessageAt c m p xs
SlotAt c m p (padding n) = PaddingAt c m p n

-- The entries stand one behind the other from position `p` to position `t`.
abbrev pub Entries : ℕ → Memory → ℕ → List Slot → ℕ → Type 0
Entries c m p [] t = p ≡ t
Entries c m p (slot ∷ slots) t = SlotAt c m p slot × Entries c m (p + slot_size slot) slots t

-- A position where an entry may start: the start of the region, or one with room for a header.
abbrev pub HasRoom : ℕ → ℕ → Type 0
HasRoom c p = (p % c ≡ 0) ⊎ (p % c + 24 ≤ c)

-- A buffer with `2 ^ k` bytes of data at rest: no lock is held, and the entries fill the space from
-- `head` to `tail`.
pub record IsValid (k : ℕ) (slots : List Slot) (s : Shm) : Type 0 where
  pub capacity : s.data_size ≡ 2 ^ k
  pub small : k ≤ 63
  pub entries : Entries (2 ^ k) s.region s.head slots s.tail
  pub used : s.tail ≤ s.head + 2 ^ k
  pub fits : s.tail < 2 ^ 64
  pub head_aligned : s.head % 8 ≡ 0
  pub tail_aligned : s.tail % 8 ≡ 0
  pub head_room : HasRoom (2 ^ k) s.head
  pub tail_room : HasRoom (2 ^ k) s.tail

-- The buffer is at rest and holds the queue `q` of payloads, oldest first.
pub record Holds (k : ℕ) (q : List (List ℕ)) (s : Shm) : Type 0 where
  pub slots : List Slot
  pub valid : IsValid k slots s
  pub contents : payloads slots ≡ q
