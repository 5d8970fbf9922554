-- ===== src/Tests/Segments.antt =====
-- The theorems on memory segments at concrete answers of the system calls.
use libshmipc.Base.{◌≤◌, ℕ, ◌≡◌, refl, some, List, [], ◌∷◌, arith}
use libshmipc.Common.{success, ok, allocated}
use libshmipc.System.{returned, raised}
use libshmipc.Mmap.{
  IpcMemorySegment, Process, Calls, ipc_mmap, map_created, map_segment, build_segment, ipc_unlink,
}
use libshmipc.Mmap.Outcome.{MmapSpec, mmap_releases, mmap-unlink}
use libshmipc.Buffer.Size.{ipc_buffer_suggest_size}
use libshmipc.Channel.Open.{ipc_channel_suggest_size}
use libshmipc.Init.Suggest.{init_suggestions_accepted}
use libshmipc.Init.{
  ValidationResult, validate_size, ipc_init_suggest_buffer_size, ipc_init_suggest_channel_size,
  ipc_init_buffer_create,
}
use libshmipc.Init.Outcome.{InitSpec, init_buffer_create_refines}
use libshmipc.Tests.States.{raw}

-- The system calls of an `ipc_mmap` that creates an object of 256 bytes, mapped at 65536, with its
-- segment structure at 512.
abbrev creating : Calls
creating = record {
  create = returned 3;
  truncate = returned tt;
  stat = returned 256;
  reopen = raised 2;
  map = returned 65536;
  malloc_segment = returned 512;
  malloc_name = returned 600;
  close_errno = λ e. e;
  munmap_errno = λ e. e;
  free_errno = λ e. e;
}

abbrev path : List ℕ
path = 47 ∷ 97 ∷ []

abbrev nothing_held : Process
nothing_held = record { descriptors = []; mappings = []; blocks = []; names = [] }

abbrev segment : IpcMemorySegment
segment = record { address = 512; name = 600; text = path; size = 256; memory = 65536 }

abbrev one_segment : Process
one_segment = record {
  descriptors = [];
  mappings = (65536, 256) ∷ [];
  blocks = 600 ∷ 512 ∷ [];
  names = path ∷ [];
}

segment_mapped : ipc_mmap creating (some path) 256 nothing_held ≡ (success ok segment, one_segment)
unfolding ipc_mmap map_created map_segment build_segment
segment_mapped = refl

init_buffer_create_refines_example :
    InitSpec 512 256 allocated raw nothing_held one_segment
      (ipc_init_buffer_create 64 creating (some path) 256 allocated raw nothing_held)
init_buffer_create_refines_example =
    init_buffer_create_refines 64 256 creating (some path) segment allocated raw nothing_held
      one_segment (omega arith) (omega arith) (omega arith) segment_mapped

mmap_releases_example :
    let (r, p') = ipc_mmap creating (some path) 256 nothing_held in
    MmapSpec path creating 256 nothing_held r p'
mmap_releases_example = mmap_releases creating path 256 nothing_held

mmap-unlink_example :
    (p'' : Process) × (ipc_unlink (returned tt) (returned tt) 0 (some segment) one_segment
      ≡ (success ok tt, p''))
    × (p''.descriptors ≡ [])
    × (p''.mappings ≡ [])
    × (p''.blocks ≡ [])
    × (p''.names ≡ [])
mmap-unlink_example =
    mmap-unlink creating path 256 0 nothing_held one_segment segment segment_mapped (omega arith)

init_suggestions_accepted_example :
    ((size : ℕ) × (v : ValidationResult) × (ipc_init_suggest_buffer_size 64 100 ≡ some size)
      × (ipc_buffer_suggest_size 64 100 ≡ some size)
      × (228 ≤ size)
      × (validate_size 64 size 136 128 ≡ some v)
      × (v.status ≡ ok))
    × ((size : ℕ) × (v : ValidationResult) × (ipc_init_suggest_channel_size 64 100 ≡ some size)
        × (ipc_channel_suggest_size 64 100 ≡ some size)
        × (292 ≤ size)
        × (validate_size 64 size 200 192 ≡ some v)
        × (v.status ≡ ok))
init_suggestions_accepted_example = init_suggestions_accepted 64 100 (omega arith) (omega arith)
