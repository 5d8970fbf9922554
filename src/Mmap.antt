-- ===== src/Mmap.antt =====
-- core/src/ipc_mmap.c: `ipc_mmap`, `ipc_unmap` and `ipc_unlink` over the answers of the system calls.
pub mod Outcome
use libshmipc.Base.{
  ◌%◌, ℕ, Bool, true, false, List, [], ◌∷◌, Option, none, some, ◌++◌, not, ◌&&◌, ◌==◌,
  if◌then◌else◌,
}
use libshmipc.Base.Word.{u64_mod}
use libshmipc.Common.{
  Result, success, error, error_body, ipc_status, is_error, ok, err_invalid_argument, err_system,
  err_illegal_state,
}
use libshmipc.System.{Answer, returned, raised, eexist}

-- `IpcMemorySegment`: the address of the structure itself, its fields (`name` is an address), and the
-- bytes of the name.
pub record IpcMemorySegment : Type 0 where
  pub address : ℕ
  pub name : ℕ
  pub text : List ℕ
  pub size : ℕ
  pub memory : ℕ

-- `IpcMmapError`
pub record IpcMmapError : Type 0 where
  pub name : Option (List ℕ)
  pub requested_size : ℕ
  pub existing_size : ℕ
  pub existed : Bool
  pub sys_errno : ℕ

abbrev pub IpcMemorySegmentResult : Type 0
IpcMemorySegmentResult = Result IpcMemorySegment IpcMmapError

-- What the process holds: open descriptors, mappings with their sizes, blocks of the heap, and the
-- names of shared memory objects that it has created.
pub record Process : Type 0 where
  pub descriptors : List ℕ
  pub mappings : List (ℕ × ℕ)
  pub blocks : List ℕ
  pub names : List (List ℕ)

-- The answers of the calls in `ipc_mmap`: `shm_open` with `O_CREAT | O_EXCL`, `ftruncate`, `fstat`
-- with `st_size`, `shm_open` of what exists, `mmap`, and the two `malloc`. `close` and `munmap` may
-- change `errno`, from the number before to that after.
pub record Calls : Type 0 where
  pub create : Answer ℕ
  pub truncate : Answer (Unit {0})
  pub stat : Answer ℕ
  pub reopen : Answer ℕ
  pub map : Answer ℕ
  pub malloc_segment : Answer ℕ
  pub malloc_name : Answer ℕ
  pub close_errno : ℕ → ℕ
  pub munmap_errno : ℕ → ℕ
  pub free_errno : ℕ → ℕ

-- The first occurrence of a number goes.
abbrev pub drop_first : ℕ → List ℕ → List ℕ
drop_first x [] = []
drop_first x (y ∷ ys) = if x == y then ys else y ∷ drop_first x ys

abbrev pub drop_mapping : ℕ → List (ℕ × ℕ) → List (ℕ × ℕ)
drop_mapping x [] = []
drop_mapping x ((y, n) ∷ ys) = if x == y then ys else (y, n) ∷ drop_mapping x ys

abbrev pub opening : ℕ → Process → Process
opening fd p = record p { descriptors = fd ∷ p.descriptors }

abbrev pub closing : ℕ → Process → Process
closing fd p = record p { descriptors = drop_first fd p.descriptors }

abbrev pub allocating : ℕ → Process → Process
allocating block p = record p { blocks = block ∷ p.blocks }

abbrev pub freeing : ℕ → Process → Process
freeing block p = record p { blocks = drop_first block p.blocks }

abbrev pub mapping : ℕ → ℕ → Process → Process
mapping address size p = record p { mappings = (address, size) ∷ p.mappings }

abbrev pub unmapping : ℕ → Process → Process
unmapping address p = record p { mappings = drop_mapping address p.mappings }

abbrev pub naming : List ℕ → Process → Process
naming path p = record p { names = path ∷ p.names }

-- The body of the errors that have a name.
abbrev pub mmap_error : List ℕ → ℕ → ℕ → Bool → ℕ → IpcMmapError
mmap_error path size existing_size existed errno = record {
  name = some path;
  requested_size = size;
  existing_size = existing_size;
  existed = existed;
  sys_errno = errno;
}

-- The two allocations, once the memory is mapped.
unfoldable pub build_segment :
    Calls → List ℕ → ℕ → ℕ → Bool → ℕ → Process → IpcMemorySegmentResult × Process
build_segment k path size actual_size existed mapped p = elim k.malloc_segment [
  | raised errno ↦ (
    error_body err_system (mmap_error path size 0 existed (k.munmap_errno errno)),
    unmapping mapped p,
  )
  | returned segment ↦
      let p' = allocating segment p in
      elim k.malloc_name [
        | raised errno ↦ (
          error_body err_system
              (mmap_error path size 0 existed (k.free_errno (k.munmap_errno errno))),
          freeing segment (unmapping mapped p'),
        )
        | returned name ↦ (
          success ok (record {
            address = segment;
            name = name;
            text = path;
            size = actual_size;
            memory = mapped;
          }),
          allocating name p',
        )
      ]
]

-- `mmap` and `close`, once the descriptor and the size are known.
unfoldable pub map_segment :
    Calls → List ℕ → ℕ → ℕ → Bool → ℕ → Process → IpcMemorySegmentResult × Process
map_segment k path size actual_size existed fd p = elim k.map [
  | raised errno ↦
      (error_body err_system (mmap_error path size 0 existed (k.close_errno errno)), closing fd p)
  | returned mapped ↦
      build_segment k path size actual_size existed mapped
        (closing fd (mapping mapped actual_size p))
]

-- An object that was created: it gets its size.
unfoldable pub map_created : Calls → List ℕ → ℕ → ℕ → Process → IpcMemorySegmentResult × Process
map_created k path size fd p = elim k.truncate [
  | raised errno ↦
      (error_body err_system (mmap_error path size 0 false (k.close_errno errno)), closing fd p)
  | returned done ↦ elim k.stat [
    | raised errno ↦
        (error_body err_system (mmap_error path size 0 false (k.close_errno errno)), closing fd p)
    | returned st_size ↦ map_segment k path size (st_size % u64_mod) false fd p
  ]
]

-- An object that exists: its size must be the requested one. `errno` was set to 0 before.
unfoldable pub map_existing : Calls → List ℕ → ℕ → Process → IpcMemorySegmentResult × Process
map_existing k path size p = elim k.reopen [
  | raised errno ↦ (error_body err_system (mmap_error path size 0 true errno), p)
  | returned fd ↦
      let p' = opening fd p in
      elim k.stat [
        | raised errno ↦ (
          error_body err_system (mmap_error path size 0 true (k.close_errno errno)),
          closing fd p',
        )
        | returned st_size ↦
            let actual_size = st_size % u64_mod in
            if not (actual_size == size)
            then (
              error_body err_illegal_state
                  (mmap_error path size actual_size true (k.close_errno 0)),
              closing fd p',
            )
            else map_segment k path size actual_size true fd p'
      ]
]

abbrev pub no_mmap_error : ℕ → IpcMmapError
no_mmap_error size = record {
  name = none;
  requested_size = size;
  existing_size = 0;
  existed = false;
  sys_errno = 0;
}

-- `path` is the text without its last zero byte, `none` for NULL.
unfoldable pub ipc_mmap : Calls → Option (List ℕ) → ℕ → Process → IpcMemorySegmentResult × Process
ipc_mmap k none size p = (error_body err_invalid_argument (no_mmap_error size), p)
ipc_mmap k (some path) size p =
    if size == 0 then (error_body err_invalid_argument (no_mmap_error size), p) else elim k.create [
      | returned fd ↦ map_created k path size fd (naming path (opening fd p))
      | raised errno ↦
          if not (errno == eexist)
          then (error_body err_system (mmap_error path size 0 false errno), p)
          else map_existing k path size p
    ]

-- `IpcMmapUnmapError`
pub record IpcMmapUnmapError : Type 0 where
  pub name : ℕ
  pub size : ℕ
  pub sys_errno : ℕ

abbrev pub IpcMmapUnmapResult : Type 0
IpcMmapUnmapResult = Result (Unit {0}) IpcMmapUnmapError

-- `segment` is `none` for NULL; `munmap` answers as `unmap` says.
unfoldable pub ipc_unmap :
    Answer (Unit {0}) → Option IpcMemorySegment → Process → IpcMmapUnmapResult × Process
ipc_unmap unmap none p =
    (error_body err_invalid_argument (record { name = 0; size = 0; sys_errno = 0 }), p)
ipc_unmap unmap (some segment) p =
    if segment.memory == 0 then (error err_illegal_state, p) else elim unmap [
      | raised errno ↦ (
        error_body err_system
            (record { name = segment.name; size = segment.size; sys_errno = errno }),
        p,
      )
      | returned done ↦ (
        success ok tt,
        freeing segment.address (freeing segment.name (unmapping segment.memory p)),
      )
    ]

-- `IpcMmapUnlinkError`
pub record IpcMmapUnlinkError : Type 0 where
  pub name : ℕ
  pub sys_errno : ℕ

abbrev pub IpcMmapUnlinkResult : Type 0
IpcMmapUnlinkResult = Result (Unit {0}) IpcMmapUnlinkError

-- `error.sys_errno` of a failed `ipc_unmap`; without a body it is what the union holds, `unset`.
unfoldable pub unlink_error : ℕ → IpcMemorySegment → IpcMmapUnmapResult → IpcMmapUnlinkError
unlink_error unset segment (error_body status b) = record {
  name = segment.name;
  sys_errno = b.sys_errno;
}
unlink_error unset segment r = record { name = segment.name; sys_errno = unset }

abbrev pub same_text : List ℕ → List ℕ → Bool
same_text [] [] = true
same_text (x ∷ xs) (y ∷ ys) = (x == y) && same_text xs ys
same_text xs ys = false

-- A name that is gone.
abbrev pub forget : List ℕ → List (List ℕ) → List (List ℕ)
forget path [] = []
forget path (q ∷ qs) = if same_text path q then forget path qs else q ∷ forget path qs

-- `shm_unlink` answers as `unlink` says, `munmap` as `unmap` says.
unfoldable pub ipc_unlink :
    Answer (Unit {0})
    → Answer (Unit {0})
    → ℕ
    → Option IpcMemorySegment
    → Process
    → IpcMmapUnlinkResult × Process
ipc_unlink unlink unmap unset none p = (error err_invalid_argument, p)
ipc_unlink unlink unmap unset (some segment) p = elim unlink [
  | raised errno ↦ (error_body err_system (record { name = segment.name; sys_errno = errno }), p)
  | returned done ↦
      let (r, p') =
        ipc_unmap unmap (some segment) (record p { names = forget segment.text p.names }) in
      (
        if is_error r
            then error_body (ipc_status r) (unlink_error unset segment r)
            else success ok tt,
        p',
      )
]
