-- ===== src/Jni/Init/Outcome.antt =====
-- `init` on every answer of `ipc_mmap` and of the allocator.
use libshmipc.Base.{
  ◌*◌, ◌%◌, ℕ, ◌+◌, ◌^◌, ◌≤◌, ◌<◌, ◌≡◌, ◌≢◌, ◌∙◌, ◌⊎◌, inl, inr, refl, subst, sym, List, Option,
  some, Bool, true, not, arith, ne→==, ==_self, if◌then◌else◌, ◌==◌,
}
use libshmipc.Base.Word.{ℤ, pos}
use libshmipc.Common.{success, error, error_body, is_error, ok, valid}
use libshmipc.Mmap.{Calls, IpcMemorySegment, IpcMemorySegmentResult, Process, ipc_mmap}
use libshmipc.Mmap.Outcome.{mmap_releases}
use libshmipc.Channel.Open.{ipc_channel_suggest_size}
use libshmipc.Channel.Open.Suggest.{channel_suggest-power}
use libshmipc.Jni.State.{Native, to_i64, release, pin}
use libshmipc.Jni.Init.{InitCalls, hand_out, after_mmap, init}
use libshmipc.Jni.Init.Opens.{Prepared, OutOfMemory, channel_in, opens}

-- What `init` returns and leaves once `ipc_mmap` has mapped a segment: the address of a structure for
-- the channel in its memory, or 0.
abbrev pub JavaOpened : Bool → ℕ → InitCalls → IpcMemorySegment → Native → ℤ → Native → Type 0
JavaOpened create m k segment n v n' =
    (v ≡ to_i64 k.place) × (n'.heap k.place ≡ channel_in segment) × Prepared create m n.shm n'.shm
    ⊎ (v ≡ pos 0) × (n'.heap ≡ n.heap) × OutOfMemory k

-- What `init` returns and leaves for the answer of `ipc_mmap`.
abbrev pub InitGives : Bool → ℕ → InitCalls → IpcMemorySegmentResult → Native → ℤ → Native → Type 0
InitGives create m k r n v n' =
    ((segment : IpcMemorySegment) × (r ≡ success ok segment) × JavaOpened create m k segment n v n')
    ⊎ (is_error r ≡ true) × (v ≡ pos 0) × (n'.heap ≡ n.heap) × (n'.shm ≡ n.shm)

-- What the calls of the system and of the allocator promise of a segment: its structure and its memory
-- are not at NULL, and it has the size that was asked for.
abbrev pub Sound : ℕ → IpcMemorySegmentResult → Type 0
Sound aligned r =
    (segment : IpcMemorySegment)
    → r ≡ success ok segment
    → (segment.address ≢ 0) × (segment.memory ≢ 0) × (segment.size ≡ aligned)

abbrev InitGivesSpec :
    Bool → ℕ → InitCalls → IpcMemorySegmentResult → Native → Option (ℤ × Native) → Type 0
InitGivesSpec create m k r n out =
    (v : ℤ) × (n' : Native) × (out ≡ some (v, n'))
    × (n'.pinned ≡ n.pinned)
    × (n'.process ≡ n.process)
    × InitGives create m k r n v n'

mapped_outcome :
    (fuel m j : ℕ) (k : InitCalls) (create : Bool) (segment : IpcMemorySegment) (n : Native)
    → 64 ≤ fuel
    → m ≤ 2 ^ j
    → 2 ^ j ≤ 2 * m + 8
    → j ≤ 63
    → k.place ≢ 0
    → (segment.address ≢ 0) × (segment.memory ≢ 0) × (segment.size ≡ 192 + 2 ^ j)
    → InitGivesSpec create m k
        (success ok segment)
        n
        (after_mmap fuel k create (success ok segment) n)
unfolding after_mmap hand_out
mapped_outcome fuel m j k create segment n enough room tight small place (address, memory, size) =
    let (channel, c', e, w) =
      opens fuel m j k segment n.shm enough room tight small memory size create in
    elim w [
      | inl (is, ready) ↦ (
        to_i64 k.place,
        record n { heap = λ a. if a == k.place then channel_in segment else n.heap a; shm = c' },
        rw (
          after_mmap,
          ne→== segment.address 0 address,
          ne→== segment.memory 0 memory,
          ne→== segment.size 0 (omega arith),
          e,
          is,
          hand_out,
          ne→== k.place 0 place,
        ),
        refl,
        refl,
        inl (segment, refl, inl (refl, rw (==_self k.place), ready)),
      )
      | inr (is, why) ↦ (
        pos 0,
        record n { shm = c' },
        rw (
          after_mmap,
          ne→== segment.address 0 address,
          ne→== segment.memory 0 memory,
          ne→== segment.size 0 (omega arith),
          e,
          is,
          hand_out,
        ),
        refl,
        refl,
        inl (segment, refl, inr (refl, refl, why)),
      )
    ]

failed_outcome :
    (fuel m : ℕ) (k : InitCalls) (create : Bool) (r : IpcMemorySegmentResult) (n : Native)
    → is_error r ≡ true
    → InitGivesSpec create m k r n (after_mmap fuel k create r n)
unfolding after_mmap
failed_outcome fuel m k create (success status segment) n bad =
    (pos 0, n, rw (after_mmap, bad), refl, refl, inr (bad, refl, refl, refl))
failed_outcome fuel m k create (error status) n bad =
    (pos 0, n, refl, refl, refl, inr (bad, refl, refl, refl))
failed_outcome fuel m k create (error_body status e) n bad =
    (pos 0, n, refl, refl, refl, inr (bad, refl, refl, refl))

-- Every answer of `ipc_mmap` is an error, or a segment with the status `ok`.
mmap-cases :
    (k : Calls) (path : List ℕ) (size : ℕ) (p : Process)
    → let r = (ipc_mmap k (some path) size p).0 in
      (is_error r ≡ true) ⊎ ((segment : IpcMemorySegment) × (r ≡ success ok segment))
mmap-cases k path size p = elim (mmap_releases k path size p) [
  | inl (fd, f, names, (d, inl (bad, y, z))) ↦ inl bad
  | inl (fd, f, names, (d, inr (segment, same, a, b, c, e, g, h))) ↦ inr (segment, same)
  | inr (none_made, names, (d, inl (bad, y, z))) ↦ inl bad
  | inr (none_made, names, (d, inr (segment, same, a, b, c, e, g, h))) ↦ inr (segment, same)
]

after_mmap_outcome :
    (fuel m j : ℕ) (k : InitCalls) (create : Bool) (r : IpcMemorySegmentResult) (n : Native)
    → 64 ≤ fuel
    → m ≤ 2 ^ j
    → 2 ^ j ≤ 2 * m + 8
    → j ≤ 63
    → k.place ≢ 0
    → Sound (192 + 2 ^ j) r
    → (is_error r ≡ true) ⊎ ((segment : IpcMemorySegment) × (r ≡ success ok segment))
    → InitGivesSpec create m k r n (after_mmap fuel k create r n)
after_mmap_outcome fuel m j k create r n enough room tight small place sound (inl bad) =
    failed_outcome fuel m k create r n bad
after_mmap_outcome fuel m j k create r n enough room tight small place sound (inr (segment, same)) =
    subst (λ z. InitGivesSpec create m k z n (after_mmap fuel k create z n)) (sym same)
      (mapped_outcome fuel m j k create segment n enough room tight small place
        (sound segment same))

init_calls :
    (fuel m is_producer aligned : ℕ) (k : InitCalls) (path : List ℕ) (n : Native)
    → 0 < m
    → m < 2 ^ 64
    → k.chars ≡ some path
    → ipc_channel_suggest_size fuel m ≡ some aligned
    → let (r, p) = ipc_mmap k.mapping (some path) aligned n.process in
      init fuel k valid (pos m) is_producer n
      ≡ after_mmap fuel k
          (not (is_producer == 0))
          r
          (release (some path) (record (pin (some path) n) { process = p }))
unfolding init
init_calls fuel m is_producer aligned k path n some_bytes word chars e =
    let same : m % 2 ^ 64 ≡ m = omega arith in simp (ne→== m 0 (omega arith), chars, same, e)

-- For a path, a size from 1 to 2^63 - 1 and fuel for 64 tests, `init` asks `ipc_mmap` for 192 bytes
-- more than a power of two that is not below the size, and returns. It gives the path back to the JVM,
-- and keeps of the system what `ipc_mmap` has left. If `ipc_mmap` fails, the result is 0 and nothing
-- else changes. If it gives a segment, whose structure and memory are not at NULL and which has that
-- size, and the structure of the channel is not allocated at NULL: the result is the address where a
-- structure stands for the channel in the segment's memory, which is empty for a producer, whatever
-- was there, with room for the size, and left as it was for a consumer; or the result is 0, and an
-- allocation has failed, but the segment is still mapped.
pub java_init_refines :
    (fuel m is_producer : ℕ) (k : InitCalls) (path : List ℕ) (n : Native)
    → 64 ≤ fuel
    → 0 < m
    → m < 2 ^ 63
    → k.chars ≡ some path
    → k.place ≢ 0
    → ((aligned : ℕ)
        → ipc_channel_suggest_size fuel m ≡ some aligned
        → Sound aligned (ipc_mmap k.mapping (some path) aligned n.process).0)
    → (j : ℕ) × (v : ℤ) × (n' : Native) × (m ≤ 2 ^ j)
      × (init fuel k valid (pos m) is_producer n ≡ some (v, n'))
      × (n'.pinned ≡ n.pinned)
      × (let (r, p) = ipc_mmap k.mapping (some path) (192 + 2 ^ j) n.process in
          (n'.process ≡ p) × InitGives (not (is_producer == 0)) m k r n v n')
unfolding init
java_init_refines fuel m is_producer k path n enough some_bytes word chars place sound =
    let (j, small, room, eight, tight, e) = channel_suggest-power fuel m enough (omega arith) in
    let answer : IpcMemorySegmentResult × Process =
      ipc_mmap k.mapping (some path) (192 + 2 ^ j) n.process in
    let n0 : Native = release (some path) (record (pin (some path) n) { process = answer.1 }) in
    let (v, n', done, pinned, process, spec) =
      after_mmap_outcome fuel m j k (not (is_producer == 0)) answer.0 n0 enough room tight small
        place (sound (192 + 2 ^ j) e) (mmap-cases k.mapping path (192 + 2 ^ j) n.process) in
    (
      j,
      v,
      n',
      room,
      init_calls fuel m is_producer (192 + 2 ^ j) k path n some_bytes (omega arith) chars e ∙ done,
      omega (arith, pinned),
      (process, spec),
    )
