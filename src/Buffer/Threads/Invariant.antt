-- ===== src/Buffer/Threads/Invariant.antt =====
-- What holds between two steps of the threads: who holds the locks of the head and the tail, which
-- entries the region holds, and what the local variables of each thread say.
use libshmipc.Base.{
  subst, ltb, ap, ◌∙◌, sym, if◌then◌else◌, arith, ℕ, ◌+◌, ◌-◌, ◌%◌, ◌^◌, ◌≤◌, ◌<◌, ◌≡◌, ◌≢◌, Option,
  none, some, List, ◌∷◌, ◌++◌, length,
}
use libshmipc.Memory.{Memory}
use libshmipc.Buffer.State.{Shm}
use libshmipc.Buffer.Layout.{Slot, message, padding, full_size, slot_size, SlotAt, IsValid}
use libshmipc.Buffer.Threads.Point.{
  Pc, idle, failed, w_tail, w_head, w_lock, w_fill, w_commit, r_head, r_lock, r_tail, r_entry,
  r_unlock, r_pad, r_take, f_tail, f_entry, f_swap,
}

-- The positions without their lock bits, the entries between them, and the holders of the locks.
pub record Ghost : Type 0 where
  pub head : ℕ
  pub tail : ℕ
  pub slots : List Slot
  pub reader : Option ℕ
  pub writer : Option ℕ

abbrev pub lock_bit : Option ℕ → ℕ
lock_bit none = 0
lock_bit (some i) = 1

-- The buffer when both locks are given back.
abbrev pub at_rest : Ghost → Shm → Shm
at_rest g s = record s { head = g.head; tail = g.tail }

-- A thread holds no lock, that of the head, or that of the tail.
pub record Outside (g : Ghost) (i : ℕ) : Type 0 where
  pub no_reader : g.reader ≢ some i
  pub no_writer : g.writer ≢ some i

pub record Reads (g : Ghost) (i head : ℕ) : Type 0 where
  pub reader : g.reader ≡ some i
  pub no_writer : g.writer ≢ some i
  pub at_head : head ≡ g.head

pub record Writes (g : Ghost) (i tail : ℕ) : Type 0 where
  pub writer : g.writer ≡ some i
  pub no_reader : g.reader ≢ some i
  pub at_tail : tail ≡ g.tail

-- A position that was loaded some time ago.
pub record Past (now position : ℕ) : Type 0 where
  pub past : position ≤ now
  pub even : position % 8 ≡ 0

pub record Fits (k : ℕ) (xs : List ℕ) : Type 0 where
  pub some_bytes : 0 < length xs
  pub room : full_size (length xs) ≤ 2 ^ k

abbrev pub Free : ℕ → Ghost → List ℕ → Type 0
Free k g xs = full_size (length xs) ≤ 2 ^ k - (g.tail - g.head)

-- The entry that a write of `xs` makes at the tail.
abbrev pub entry_at : ℕ → List ℕ → ℕ → Slot
entry_at k xs tail =
    let space_to_wrap = 2 ^ k - tail % 2 ^ k in
    if ltb space_to_wrap (full_size (length xs) + 24) then padding space_to_wrap else message xs

pub record Stored (k : ℕ) (g : Ghost) (m : Memory) (slot : Slot) : Type 0 where
  pub stored : SlotAt (2 ^ k) m g.tail slot
  pub near : slot_size slot ≤ 2 ^ k - (g.tail - g.head)

-- The entry at the head.
pub record Front (g : Ghost) (slot : Slot) : Type 0 where
  pub behind : List Slot
  pub front : g.slots ≡ slot ∷ behind

-- What a reader has copied from the entry at the head, if it copies.
pub data Copied (xs : List ℕ) : Option (List ℕ) → Type 0 where
  not_copied : Copied xs none
  copied : Copied xs (some xs)

-- What the local variables of thread `i` say.
abbrev pub Local : ℕ → Ghost → Memory → ℕ → Pc → Type 0
Local k g m i idle = Outside g i
Local k g m i failed = ⊥
Local k g m i (w_tail xs) = Outside g i × Fits k xs
Local k g m i (w_head xs tail) = Outside g i × Fits k xs × Past g.tail tail
Local k g m i (w_lock xs tail) =
    Outside g i × Fits k xs × Past g.tail tail × (tail ≡ g.tail → Free k g xs)
Local k g m i (w_fill xs tail) = Writes g i tail × Fits k xs × Free k g xs
Local k g m i (w_commit xs tail) = Writes g i tail × Fits k xs × Stored k g m (entry_at k xs tail)
Local k g m i (r_head j) = Outside g i
Local k g m i (r_lock j head) = Outside g i × Past g.head head
Local k g m i (r_tail j head) = Reads g i head
Local k g m i (r_entry j head) = Reads g i head × (g.head < g.tail)
Local k g m i (r_unlock head) = Reads g i head
Local k g m i (r_pad j head entry_size) = Reads g i head × Front g (padding entry_size)
Local k g m i (r_take head entry_size out) =
    Reads g i head
    × ((xs : List ℕ) × Front g (message xs) × (entry_size ≡ full_size (length xs)) × Copied xs out)
Local k g m i (f_tail head) = Outside g i × Past g.head head
Local k g m i (f_entry head) = Outside g i × Past g.head head × (head ≡ g.head → g.head < g.tail)
Local k g m i (f_swap head entry_size) =
    Outside g i
    × Past g.head head
    × (head ≡ g.head → (slot : Slot) × Front g slot × (slot_size slot ≡ entry_size))

pub record Inv (k : ℕ) (g : Ghost) (s : Shm) (pc : ℕ → Pc) : Type 0 where
  pub valid : IsValid k g.slots (at_rest g s)
  pub head_word : s.head ≡ g.head + lock_bit g.reader
  pub tail_word : s.tail ≡ g.tail + lock_bit g.writer
  pub threads : (i : ℕ) → Local k g s.region i (pc i)

-- What a step of another thread may do, as thread `i` sees it.
pub record Rely (i : ℕ) (g : Ghost) (m : Memory) (g' : Ghost) (m' : Memory) : Type 0 where
  pub heads : g.head ≤ g'.head
  pub tails : g.tail ≤ g'.tail
  pub outside : Outside g i → Outside g' i
  pub reading : (head : ℕ) → Reads g i head → Reads g' i head
  pub writing : (tail : ℕ) → Writes g i tail → Writes g' i tail × (m' ≡ m)
  pub longer : g.head ≡ g'.head → (more : List Slot) × (g'.slots ≡ g.slots ++ more)

Front-longer :
    {i : ℕ} {g g' : Ghost} {m m' : Memory} (slot : Slot)
    → Rely i g m g' m'
    → g.head ≡ g'.head
    → Front g slot
    → Front g' slot
Front-longer slot r e f =
    let (more, longer) = r.longer e in
    record { behind = f.behind ++ more; front = longer ∙ ap (λ l. l ++ more) f.front }

Past-later : {x y p : ℕ} → x ≤ y → Past x p → Past y p
Past-later h p = record { past = omega (arith, p.past); even = p.even }

Stored-kept :
    {k i tail : ℕ} {g g' : Ghost} {m m' : Memory} (slot : Slot)
    → Rely i g m g' m'
    → Writes g i tail
    → Stored k g m slot
    → Stored k g' m' slot
Stored-kept {k} {tail} {g} {g'} {m} slot r w s =
    let (w', same) = r.writing tail w in
    let still : g.tail ≡ g'.tail = sym w.at_tail ∙ w'.at_tail in
    record {
      stored =
          subst (λ x. SlotAt (2 ^ k) x g'.tail slot) (sym same)
            (subst (λ x. SlotAt (2 ^ k) m x slot) still s.stored);
      near = omega (arith, s.near, r.heads, still);
    }

still_head :
    {i head : ℕ} {g g' : Ghost} {m m' : Memory}
    → Rely i g m g' m'
    → Reads g i head
    → g.head ≡ g'.head
still_head {head} r d = sym d.at_head ∙ (r.reading head d).at_head

-- Such a step keeps what the local variables say.
pub Local-kept :
    (k : ℕ) {i : ℕ} {g g' : Ghost} {m m' : Memory} (p : Pc)
    → Rely i g m g' m'
    → Local k g m i p
    → Local k g' m' i p
Local-kept k idle r o = r.outside o
Local-kept k failed r l = elim l [ ]
Local-kept k (w_tail xs) r (o, f) = (r.outside o, f)
Local-kept k (w_head xs tail) r (o, f, p) = (r.outside o, f, Past-later r.tails p)
Local-kept k {g} {g'} (w_lock xs tail) r (o, f, p, free) = (
  r.outside o,
  f,
  Past-later r.tails p,
  λ e.
      let same : tail ≡ g.tail = omega (arith, p.past, r.tails) in
      omega (arith, free same, r.heads, r.tails),
)
Local-kept k {g} {g'} (w_fill xs tail) r (w, f, free) =
    let (w', same) = r.writing tail w in
    (w', f, omega (arith, free, r.heads, w.at_tail, w'.at_tail))
Local-kept k (w_commit xs tail) r (w, f, s) =
    ((r.writing tail w).0, f, Stored-kept (entry_at k xs tail) r w s)
Local-kept k (r_head j) r o = r.outside o
Local-kept k (r_lock j head) r (o, p) = (r.outside o, Past-later r.heads p)
Local-kept k (r_tail j head) r d = r.reading head d
Local-kept k {g} {g'} (r_entry j head) r (d, lt) =
    (r.reading head d, omega (arith, lt, r.tails, still_head r d))
Local-kept k (r_unlock head) r d = r.reading head d
Local-kept k (r_pad j head entry_size) r (d, f) =
    (r.reading head d, Front-longer (padding entry_size) r (still_head r d) f)
Local-kept k (r_take head entry_size out) r (d, (xs, f, size, out_xs)) =
    (r.reading head d, (xs, Front-longer (message xs) r (still_head r d) f, size, out_xs))
Local-kept k (f_tail head) r (o, p) = (r.outside o, Past-later r.heads p)
Local-kept k {g} {g'} (f_entry head) r (o, p, lt) = (
  r.outside o,
  Past-later r.heads p,
  λ e. omega (arith, lt (omega (arith, e, p.past, r.heads)), e, p.past, r.heads, r.tails),
)
Local-kept k {g} {g'} (f_swap head entry_size) r (o, p, first) = (
  r.outside o,
  Past-later r.heads p,
  λ e.
      let same : g.head ≡ g'.head = omega (arith, e, p.past, r.heads) in
      let (slot, f, size) = first (e ∙ sym same) in (slot, Front-longer slot r same f, size),
)
