-- ===== src/Jni/Init.antt =====
-- java/native/src/lib_shm_ipc_jni_IpcChannel.c: `init`.
pub mod Opens
pub mod Outcome
use libshmipc.Base.{ℕ, List, Bool, true, false, not, ◌||◌, ◌==◌, if◌then◌else◌, Option, none, some}
use libshmipc.Base.Word.{ℤ, pos, to_u64}
use libshmipc.Common.{
  Result, success, error, error_body, is_negative, Pointer, null, valid, Allocation,
}
use libshmipc.Mmap.{Calls, IpcMemorySegment, IpcMemorySegmentResult, ipc_mmap}
use libshmipc.Channel.State.{IpcChannel, ChannelShm}
use libshmipc.Channel.Open.{ipc_channel_suggest_size, ipc_channel_create, ipc_channel_connect}
use libshmipc.Jni.State.{Native, pin, release, to_i64, is_not_positive}

-- The answers to the calls of `init`: the bytes of the path, `none` for NULL; those of `ipc_mmap`; the
-- allocations of the channel's and of the buffer's handle; and the address that the channel's gets.
pub record InitCalls : Type 0 where
  pub chars : Option (List ℕ)
  pub mapping : Calls
  pub channel_alloc : Allocation
  pub buffer_alloc : Allocation
  pub place : ℕ

-- The channel of a result that `_is_ok` accepts; no error here has a status that it accepts.
abbrev pub opened_channel : {E : Type 0} → Result IpcChannel E → Option IpcChannel
opened_channel (success status channel) = if is_negative status then none else some channel
opened_channel _ = none

-- `ch`, created or connected to, and the memory of the segment.
unfoldable pub open_segment :
    ℕ → InitCalls → Bool → IpcMemorySegment → ChannelShm → Option (Option IpcChannel × ChannelShm)
open_segment fuel k create segment c =
    if create
    then elim (ipc_channel_create fuel segment.memory segment.size k.buffer_alloc k.channel_alloc
        c) [ none ↦ none | some (r, c') ↦ some (opened_channel r, c') ]
    else some
        (opened_channel (ipc_channel_connect segment.memory k.channel_alloc k.buffer_alloc), c)

-- What is returned: the address of the channel, at which it stands from now on, or 0.
unfoldable pub hand_out : ℕ → Option IpcChannel → Native → ℤ × Native
hand_out place none n = (pos 0, n)
hand_out place (some channel) n =
    if place == 0
    then (pos 0, n)
    else (to_i64 place, record n { heap = λ a. if a == place then channel else n.heap a })

-- What follows `ipc_mmap` and the release of the path; no error of `ipc_mmap` has a status that
-- `_is_error` does not see.
unfoldable pub after_mmap :
    ℕ → InitCalls → Bool → IpcMemorySegmentResult → Native → Option (ℤ × Native)
after_mmap fuel k create (success status segment) n =
    if is_negative status
    then some (pos 0, n)
    else if segment.address == 0 || (segment.memory == 0 || segment.size == 0)
    then some (pos 0, n)
    else elim (open_segment fuel k create segment n.shm) [
      | none ↦ none
      | some (channel, c) ↦ some (hand_out k.place channel (record n { shm = c }))
    ]
after_mmap fuel k create _ n = some (pos 0, n)

-- `path_to_file` is the reference to the string, `is_producer` the jboolean. The fuel is that of the
-- search for a power of two; `none` when that is still running.
unfoldable pub init : ℕ → InitCalls → Pointer → ℤ → ℕ → Native → Option (ℤ × Native)
init fuel k null size is_producer n = some (pos 0, n)
init fuel k valid size is_producer n =
    if is_not_positive size then some (pos 0, n) else elim k.chars [
      | none ↦ some (pos 0, n)
      | some path ↦
          let create = not (is_producer == 0) in
          elim (ipc_channel_suggest_size fuel (to_u64 size)) [
            | none ↦ none
            | some aligned ↦
                let (r, p) = ipc_mmap k.mapping (some path) aligned n.process in
                after_mmap fuel k create r
                  (release (some path) (record (pin (some path) n) { process = p }))
          ]
    ]
