-- ===== src/Mmap/Outcome.antt =====
-- What `ipc_mmap` leaves behind on every path, and what `ipc_unmap` and `ipc_unlink` take back.
use libshmipc.Base.{
  ◌∙◌, ℕ, ◌%◌, ◌^◌, ◌≡◌, ◌≢◌, ◌⊎◌, inl, inr, refl, ap, List, [], ◌∷◌, some, Bool, true, false,
  arith, ==_self, ne→==, eq→==, ℕ_discrete,
}
use libshmipc.Common.{success, is_error, ok}
use libshmipc.System.{returned, raised, Answer-cases, eexist}
use libshmipc.Mmap.{
  same_text, forget, IpcMemorySegment, IpcMemorySegmentResult, Process, Calls, naming, opening,
  freeing, unmapping, build_segment, map_segment, map_created, map_existing, ipc_mmap, ipc_unmap,
  ipc_unlink,
}

-- The descriptors are those from before; on a failure, so are the mappings and the blocks; a success
-- has one mapping more, with a size that `fstat` has said and that fits, and two blocks, the structure
-- and the copy of the name.
abbrev pub Mapped :
    List ℕ → Calls → (ℕ → Type 0) → Process → IpcMemorySegmentResult → Process → Type 0
Mapped path k Fits p r p' =
    (p'.descriptors ≡ p.descriptors)
    × ((is_error r ≡ true) × (p'.mappings ≡ p.mappings) × (p'.blocks ≡ p.blocks)
        ⊎ ((segment : IpcMemorySegment) × (r ≡ success ok segment)
            × (segment.text ≡ path)
            × ((st_size : ℕ) × (k.stat ≡ returned st_size) × (segment.size ≡ st_size % 2 ^ 64))
            × Fits segment.size
            × (k.map ≡ returned segment.memory)
            × (p'.mappings ≡ (segment.memory, segment.size) ∷ p.mappings)
            × (p'.blocks ≡ segment.name ∷ segment.address ∷ p.blocks)))

-- With an object that this call has created, its name is one more. Else no object was created, for the
-- size is 0 or the call that creates one has failed, and a segment has the size that was asked for.
abbrev pub MmapSpec : List ℕ → Calls → ℕ → Process → IpcMemorySegmentResult → Process → Type 0
MmapSpec path k size p r p' =
    ((fd : ℕ) × (k.create ≡ returned fd)
      × (p'.names ≡ path ∷ p.names)
      × Mapped path k (λ n. Unit {0}) p r p')
    ⊎ ((size ≡ 0) ⊎ ((errno : ℕ) × (k.create ≡ raised errno)))
      × (p'.names ≡ p.names)
      × Mapped path k (λ n. n ≡ size) p r p'

map_segment-Mapped :
    (k : Calls) (path : List ℕ) (Fits : ℕ → Type 0) (size st_size : ℕ) (existed : Bool) (fd : ℕ)
    (p : Process)
    → k.stat ≡ returned st_size
    → Fits (st_size % 2 ^ 64)
    → let (r, p') = map_segment k path size (st_size % 2 ^ 64) existed fd (opening fd p) in
      Mapped path k Fits p r p' × (p'.names ≡ p.names)
unfolding map_segment build_segment
map_segment-Mapped k path Fits size st_size existed fd p stat fits = elim (Answer-cases k.map) [
  | inr (errno, e) ↦ rw (map_segment, e, ==_self fd) ((refl, inl (refl, refl, refl)), refl)
  | inl (m, e) ↦ elim (Answer-cases k.malloc_segment) [
    | inr (errno, f) ↦
        rw (map_segment, e, build_segment, f, ==_self fd, ==_self m)
          ((refl, inl (refl, refl, refl)), refl)
    | inl (a, f) ↦ elim (Answer-cases k.malloc_name) [
      | inr (errno, g) ↦
          rw (map_segment, e, build_segment, f, g, ==_self fd, ==_self m, ==_self a)
            ((refl, inl (refl, refl, refl)), refl)
      | inl (b, g) ↦
          rw (map_segment, e, build_segment, f, g, ==_self fd)
            ((refl, inr (_, refl, refl, (st_size, stat, refl), fits, refl, refl, refl)), refl)
    ]
  ]
]

created-Mapped :
    (k : Calls) (path : List ℕ) (size fd : ℕ) (p : Process)
    → let (r, p') = map_created k path size fd (opening fd p) in
      Mapped path k (λ n. Unit {0}) p r p' × (p'.names ≡ p.names)
unfolding map_created
created-Mapped k path size fd p = elim (Answer-cases k.truncate) [
  | inr (errno, e) ↦ rw (map_created, e, ==_self fd) ((refl, inl (refl, refl, refl)), refl)
  | inl (done, e) ↦ elim (Answer-cases k.stat) [
    | inr (errno, f) ↦ rw (map_created, e, f, ==_self fd) ((refl, inl (refl, refl, refl)), refl)
    | inl (st_size, f) ↦
        let same : map_created k path size fd (opening fd p)
            ≡ map_segment k path size (st_size % 2 ^ 64) false fd (opening fd p) =
          ground arith in
        rw same (map_segment-Mapped k path (λ n. Unit {0}) size st_size false fd p f tt)
  ]
]

existing-Mapped :
    (k : Calls) (path : List ℕ) (size : ℕ) (p : Process)
    → let (r, p') = map_existing k path size p in
      Mapped path k (λ n. n ≡ size) p r p' × (p'.names ≡ p.names)
unfolding map_existing
existing-Mapped k path size p = elim (Answer-cases k.reopen) [
  | inr (errno, e) ↦ rw (map_existing, e) ((refl, inl (refl, refl, refl)), refl)
  | inl (fd, e) ↦ elim (Answer-cases k.stat) [
    | inr (errno, f) ↦ rw (map_existing, e, f, ==_self fd) ((refl, inl (refl, refl, refl)), refl)
    | inl (st_size, f) ↦ elim (ℕ_discrete (st_size % 2 ^ 64) size) [
      | no n ↦
          rw (map_existing, e, f, ne→== (st_size % 2 ^ 64) size n, ==_self fd)
            ((refl, inl (refl, refl, refl)), refl)
      | yes fits ↦
          let same : map_existing k path size p
              ≡ map_segment k path size (st_size % 2 ^ 64) true fd (opening fd p) =
            ground arith in
          rw same (map_segment-Mapped k path (λ n. n ≡ size) size st_size true fd p f fits)
    ]
  ]
]

-- Whatever the system calls answer, `ipc_mmap` has closed every descriptor that it opened. A failure
-- leaves no mapping and no block behind. A success has one mapping, of the size that `fstat` has said,
-- and the two blocks of the segment. When the call has created an object, its name is one more, also
-- after a failure. When it has not, since the size is 0 or `shm_open` has not created one, the names are
-- those from before, and a segment that it returns has the size that was asked for.
pub mmap_releases :
    (k : Calls) (path : List ℕ) (size : ℕ) (p : Process)
    → let (r, p') = ipc_mmap k (some path) size p in MmapSpec path k size p r p'
unfolding ipc_mmap
mmap_releases k path size p = elim (ℕ_discrete size 0) [
  | yes zero ↦
      rw (ipc_mmap, eq→== size 0 zero) (inr (inl zero, refl, (refl, inl (refl, refl, refl))))
  | no some_bytes ↦ elim (Answer-cases k.create) [
    | inl (fd, e) ↦
        let same : ipc_mmap k (some path) size p
            ≡ map_created k path size fd (opening fd (naming path p)) =
          simp (ne→== size 0 some_bytes, e) in
        let (m, names) = created-Mapped k path size fd (naming path p) in
        rw same (inl (fd, e, names, m))
    | inr (errno, e) ↦ elim (ℕ_discrete errno eexist) [
      | no other ↦
          rw (ipc_mmap, ne→== size 0 some_bytes, e, ne→== errno eexist other)
            (inr (inr (errno, refl), refl, (refl, inl (refl, refl, refl))))
      | yes existing ↦
          let same : ipc_mmap k (some path) size p ≡ map_existing k path size p =
            simp (ne→== size 0 some_bytes, e, eq→== errno eexist existing) in
          let (m, names) = existing-Mapped k path size p in rw same (inr (inr (errno, e), names, m))
    ]
  ]
]

module _ (path : List ℕ) (k : Calls) (Fits : ℕ → Type 0) (p p' : Process)
    (segment : IpcMemorySegment) (m : Mapped path k Fits p (success ok segment) p') where
  Mapped-text : segment.text ≡ path
  Mapped-text = elim m.1 [
    | inl (bad, y, z) ↦ cc
    | inr (found, same, text, stat, fits, at, mappings, blocks) ↦ cc
  ]

  unmap-Mapped :
      segment.memory ≢ 0
      → (p'' : Process) × (ipc_unmap (returned tt) (some segment) p' ≡ (success ok tt, p''))
        × (p''.descriptors ≡ p.descriptors)
        × (p''.mappings ≡ p.mappings)
        × (p''.blocks ≡ p.blocks)
        × (p''.names ≡ p'.names)
  unfolding ipc_unmap
  unmap-Mapped n = elim m.1 [
    | inl (bad, y, z) ↦ cc
    | inr (found, same, text, stat, fits, at, mappings, blocks) ↦
        let it : segment ≡ found = cc in
        (
          freeing segment.address (freeing segment.name (unmapping segment.memory p')),
          rw (ipc_unmap, ne→== segment.memory 0 n),
          m.0,
          rw (mappings, it, ==_self found.memory),
          rw (blocks, it, ==_self found.name, ==_self found.address),
          refl,
        )
  ]

same_text_refl : (xs : List ℕ) → same_text xs xs ≡ true
same_text_refl [] = refl
same_text_refl (x ∷ xs) = rw (==_self x) (same_text_refl xs)

-- A successful `ipc_mmap` has mapped, and what has become of the names.
Mapped-segment :
    (k : Calls) (path : List ℕ) (size : ℕ) (p p' : Process) (segment : IpcMemorySegment)
    → ipc_mmap k (some path) size p ≡ (success ok segment, p')
    → ((Fits : ℕ → Type 0) × Mapped path k Fits p (success ok segment) p')
      × (forget path p'.names ≡ forget path p.names)
Mapped-segment k path size p p' segment e =
    let spec : MmapSpec path k size p (success ok segment) p' =
      rw e at (mmap_releases k path size p) in
    elim spec [
      | inl (fd, f, names, m) ↦ ((_, m), rw (names, same_text_refl path))
      | inr (none_made, names, m) ↦ ((_, m), rw names)
    ]

-- An `ipc_unmap` of what `ipc_mmap` has mapped, at an address that is not 0, gives everything back
-- when `munmap` succeeds: the descriptors, the mappings and the blocks are those from before.
pub mmap-unmap :
    (k : Calls) (path : List ℕ) (size : ℕ) (p p' : Process) (segment : IpcMemorySegment)
    → ipc_mmap k (some path) size p ≡ (success ok segment, p')
    → segment.memory ≢ 0
    → (p'' : Process) × (ipc_unmap (returned tt) (some segment) p' ≡ (success ok tt, p''))
      × (p''.descriptors ≡ p.descriptors)
      × (p''.mappings ≡ p.mappings)
      × (p''.blocks ≡ p.blocks)
      × (p''.names ≡ p'.names)
mmap-unmap k path size p p' segment e n =
    let ((Fits, m), names) = Mapped-segment k path size p p' segment e in
    unmap-Mapped path k Fits p p' segment m n

-- An `ipc_unlink` of what `ipc_mmap` has mapped, at an address that is not 0, gives everything back
-- when its system calls succeed: the descriptors, the mappings and the blocks are those from before,
-- and the name is gone.
pub mmap-unlink :
    (k : Calls) (path : List ℕ) (size unset : ℕ) (p p' : Process) (segment : IpcMemorySegment)
    → ipc_mmap k (some path) size p ≡ (success ok segment, p')
    → segment.memory ≢ 0
    → (p'' : Process) × (ipc_unlink (returned tt) (returned tt) unset (some segment) p'
        ≡ (success ok tt, p''))
      × (p''.descriptors ≡ p.descriptors)
      × (p''.mappings ≡ p.mappings)
      × (p''.blocks ≡ p.blocks)
      × (p''.names ≡ forget path p.names)
unfolding ipc_unlink
mmap-unlink k path size unset p p' segment e n =
    let ((Fits, m), names) = Mapped-segment k path size p p' segment e in
    let (q, unmapped, descriptors, mappings, blocks, kept) =
      unmap-Mapped path k Fits p (record p' { names = forget segment.text p'.names }) segment m n in
    (
      q,
      rw (ipc_unlink, unmapped),
      descriptors,
      mappings,
      blocks,
      kept ∙ ap (λ t. forget t p'.names) (Mapped-text path k Fits p p' segment m) ∙ names,
    )
