-- ===== src/Buffer/Peek/Refine.antt =====
-- `ipc_buffer_peek` as a look at the queue of payloads that the buffer holds.
use libshmipc.Base.{
  ℕ, suc, ◌+◌, ◌%◌, ◌^◌, ◌≤◌, ◌≡◌, refl, sym, subst, ◌∙◌, List, [], ◌∷◌, Option, some, arith,
  length,
}
use libshmipc.Common.{success, ok, empty, valid, shared, IpcEntry}
use libshmipc.Memory.{load_bytes}
use libshmipc.Utils.{relative}
use libshmipc.Utils.Align.{relative-pow}
use libshmipc.Buffer.State.{Shm}
use libshmipc.Buffer.Layout.{Slot, message, padding, payloads, IsValid, Holds}
use libshmipc.Buffer.Head.{
  lock_head_free, release_head_held, advance_head_held, read_entry_header-empty,
  read_entry_header-slot, next_fits, slot_header, locked, NotPadding, NotPadding-next,
  advance-IsValid,
}
use libshmipc.Buffer.Peek.{
  IpcBufferPeekResult, PeekOutcome, give_up, view_entry, peek_locked, peek_entry, ipc_buffer_peek,
}
use libshmipc.Buffer.Read.Refine.{HeadMoves}

-- `*dest` for a message at the position `p`: where the payload stands.
abbrev pub view : ℕ → ℕ → List ℕ → IpcEntry
view k p xs = record { offset = p; payload = shared (p % 2 ^ k + 24); size = length xs }

peek-call :
    (fuel : ℕ) (dest : IpcEntry) (s : Shm)
    → ipc_buffer_peek (suc fuel) valid valid dest s
      ≡ peek_entry (suc fuel) (ipc_buffer_peek fuel valid valid) dest s
unfolding ipc_buffer_peek
peek-call fuel dest s = refl

peek_empty :
    {k : ℕ} {s : Shm} (v : IsValid k [] s) (fuel : ℕ) (dest : IpcEntry)
    → ipc_buffer_peek (suc fuel) valid valid dest s ≡ some (success empty tt, dest, s)
unfolding peek_entry peek_locked give_up
peek_empty v fuel dest =
    rw
      (peek-call, peek_entry, lock_head_free v fuel, read_entry_header-empty v, release_head_held v)

view_entry-message :
    {k : ℕ} {xs : List ℕ} {slots : List Slot} {s : Shm} (v : IsValid k (message xs ∷ slots) s)
    → view_entry s.head (slot_header s.head (message xs)) (locked v) ≡ view k s.head xs
unfolding view_entry
view_entry-message {k} {s} v = rw (
    subst (λ c. relative s.head c ≡ s.head % 2 ^ k) (sym v.capacity)
      (relative-pow s.head k v.small))

pub peek_message :
    {k : ℕ} {xs : List ℕ} {slots : List Slot} {s : Shm} (v : IsValid k (message xs ∷ slots) s)
    (fuel : ℕ) (dest : IpcEntry)
    → ipc_buffer_peek (suc fuel) valid valid dest s ≡ some (success ok tt, view k s.head xs, s)
unfolding peek_entry peek_locked give_up
peek_message {s} v fuel dest = rw (
  peek-call fuel dest s,
  peek_entry,
  lock_head_free v fuel,
  read_entry_header-slot v,
  view_entry-message v,
  release_head_held v,
)

pub peek_padding :
    {k n : ℕ} {slots : List Slot} {s : Shm} (v : IsValid k (padding n ∷ slots) s) (fuel : ℕ)
    (dest : IpcEntry)
    → ipc_buffer_peek (suc fuel) valid valid dest s
      ≡ ipc_buffer_peek fuel valid valid dest (record s { head = s.head + n })
unfolding peek_entry peek_locked
peek_padding {n = n} {s} v fuel dest = rw (
  peek-call fuel dest s,
  peek_entry,
  lock_head_free v fuel,
  read_entry_header-slot v,
  advance_head_held v n (next_fits v),
)

-- What a peek finds: nothing, or the oldest payload, in the buffer itself.
abbrev pub Peeked : ℕ → List (List ℕ) → IpcEntry → IpcBufferPeekResult → IpcEntry → Shm → Type 0
Peeked k [] dest r dest' s' = (r ≡ success empty tt) × (dest' ≡ dest)
Peeked k (xs ∷ q) dest r dest' s' =
    (r ≡ success ok tt)
    × (dest'.offset ≡ s'.head)
    × (dest'.size ≡ length xs)
    × ((i : ℕ) × (dest'.payload ≡ shared i)
        × (i + length xs ≤ 2 ^ k)
        × (load_bytes (length xs) i s'.region ≡ xs))

abbrev pub PeekSpec : ℕ → List (List ℕ) → IpcEntry → Shm → Option PeekOutcome → Type 0
PeekSpec k q dest s out =
    (r : IpcBufferPeekResult) × (dest' : IpcEntry) × (s' : Shm) × (out ≡ some (r, dest', s'))
    × HeadMoves s s'
    × Holds k q s'
    × Peeked k q dest r dest' s'

peek_slots :
    {k : ℕ} (slots : List Slot) {s : Shm} (v : IsValid k slots s) (fuel : ℕ) (dest : IpcEntry)
    → NotPadding slots
    → PeekSpec k (payloads slots) dest s (ipc_buffer_peek (suc fuel) valid valid dest s)
peek_slots [] {s} v fuel dest n = (
  _,
  dest,
  s,
  peek_empty v fuel dest,
  (omega arith, refl),
  record { slots = []; valid = v; contents = refl },
  (refl, refl),
)
peek_slots {k} (message xs ∷ slots) {s} v fuel dest n = (
  _,
  _,
  s,
  peek_message v fuel dest,
  (omega arith, refl),
  record { slots = message xs ∷ slots; valid = v; contents = refl },
  (
    refl,
    refl,
    refl,
    (s.head % 2 ^ k + 24, refl, omega (arith, v.entries.0.room), v.entries.0.bytes),
  ),
)
peek_slots (padding n ∷ slots) v fuel dest h = absurd h

peek_outcome :
    {k : ℕ} (slots : List Slot) {s : Shm} (v : IsValid k slots s) (fuel : ℕ) (dest : IpcEntry)
    → PeekSpec k (payloads slots) dest s (ipc_buffer_peek (suc (suc fuel)) valid valid dest s)
peek_outcome [] v fuel dest = peek_slots [] v (suc fuel) dest tt
peek_outcome (message xs ∷ slots) v fuel dest = peek_slots (message xs ∷ slots) v (suc fuel) dest tt
peek_outcome (padding n ∷ slots) {s} v fuel dest =
    let (r, dest', s', e, (le, only), h, w) =
      peek_slots slots (advance-IsValid v) fuel dest (NotPadding-next slots v) in
    (r, dest', s', peek_padding v (suc fuel) dest ∙ e, (omega arith, only), h, w)

-- On a buffer at rest that holds the queue `q`, a peek returns if there is fuel for one restart,
-- keeps the queue and moves only the head (over a placeholder). On the empty queue it returns
-- `empty` and leaves the destination; otherwise it returns `ok`, and the destination has the
-- position of the head, the size of the oldest payload and a place inside the data region where its
-- bytes stand.
pub peek_refines :
    {k : ℕ} {q : List (List ℕ)} {s : Shm} (fuel : ℕ) (dest : IpcEntry)
    → Holds k q s
    → PeekSpec k q dest s (ipc_buffer_peek (suc (suc fuel)) valid valid dest s)
peek_refines {k} {s} fuel dest h =
    subst (λ q. PeekSpec k q dest s (ipc_buffer_peek (suc (suc fuel)) valid valid dest s))
      h.contents (peek_outcome h.slots h.valid fuel dest)
