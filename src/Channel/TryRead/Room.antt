-- ===== src/Channel/TryRead/Room.antt =====
-- `malloc` and `realloc` of the destination in `_try_read`.
use libshmipc.Base.{
  arith, ◌≤◌, ltb→le, ap, ltb, Bool-cases, ℕ, ◌≡◌, ◌⊎◌, inl, inr, refl, List, ◌++◌, drop, take,
}
use libshmipc.Common.{nothing, owned, IpcEntry, allocated, failed}
use libshmipc.Channel.TryRead.{load_bytes, Allocation, Turn, make_room}

-- The destination is NULL, or memory that the channel has allocated.
abbrev pub Owns : IpcEntry → Type 0
Owns dest = (dest.payload ≡ nothing) ⊎ ((bytes : List ℕ) × (dest.payload ≡ owned bytes))

alloc_cases : (a : Allocation) → (a ≡ allocated) ⊎ ((errno : ℕ) × (a ≡ failed errno))
alloc_cases allocated = inl refl
alloc_cases (failed errno) = inr (errno, refl)

-- Memory with room for `n` bytes, or the allocation has failed.
pub make_room-cases :
    (t : Turn) (n : ℕ) (dest : IpcEntry)
    → Owns dest
    → ((errno : ℕ) × (make_room t n dest ≡ inl errno) × (t.alloc ≡ failed errno))
      ⊎ ((roomy : IpcEntry) × (bytes : List ℕ) × (make_room t n dest ≡ inr roomy)
          × (roomy.payload ≡ owned bytes)
          × (n ≤ roomy.size))
unfolding make_room
make_room-cases t n dest (inl e) = elim (alloc_cases t.alloc) [
  | inl given ↦
      let new : IpcEntry = record dest { payload = owned (load_bytes n 0 t.memory); size = n } in
      inr (new, load_bytes n 0 t.memory, rw (make_room, e, given) refl, refl, omega arith)
  | inr (errno, f) ↦ inl (errno, rw (make_room, e, f) refl, f)
]
make_room-cases t n dest (inr (bytes, e)) = elim (Bool-cases (ltb dest.size n)) [
  | inl small ↦ elim (alloc_cases t.alloc) [
    | inl given ↦
        let grown : List ℕ = take dest.size bytes ++ drop dest.size (load_bytes n 0 t.memory) in
        inr (
          record dest { payload = owned grown; size = n },
          grown,
          rw (make_room, e, small, given) refl,
          refl,
          omega arith,
        )
    | inr (errno, f) ↦ inl (errno, rw (make_room, e, small, f) refl, f)
  ]
  | inr large ↦ inr (
    record dest { payload = owned bytes },
    bytes,
    rw (make_room, e, large) (ap (λ p. inr (record dest { payload = p })) e),
    refl,
    ltb→le dest.size n large,
  )
]
