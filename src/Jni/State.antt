-- ===== src/Jni/State.antt =====
-- java/native/src/lib_shm_ipc_jni_IpcChannel.c: the numbers of Java, what a process keeps, the pointer
-- in the Java object, and the arrays that go to Java.
use libshmipc.Base.{
  ℕ, ◌+◌, ◌-◌, ◌%◌, ◌^◌, ◌<◌, ◌≡◌, List, Bool, true, ltb, ◌==◌, if◌then◌else◌, Option, none, some,
  arith, length, take,
}
use libshmipc.Base.Word.{ℤ, pos, negsuc, u64_mod, to_u64}
use libshmipc.Common.{IpcEntry, Payload, nothing, owned, shared, Allocation, allocated, failed}
use libshmipc.Memory.{Memory, load_bytes}
use libshmipc.Mmap.{Process}
use libshmipc.Channel.State.{IpcChannel, ChannelShm}

-- `(jlong)(intptr_t)` of an address, and `(jsize)` of a size: two's complement of 64 and of 32 bits.
unfoldable pub to_i64 : ℕ → ℤ
to_i64 a = if ltb a (2 ^ 63) then pos a else negsuc (u64_mod - 1 - a)

unfoldable pub to_i32 : ℕ → ℤ
to_i32 n = let low = n % 2 ^ 32 in if ltb low (2 ^ 31) then pos low else negsuc (2 ^ 32 - 1 - low)

-- `v <= 0`
abbrev pub is_not_positive : ℤ → Bool
is_not_positive (pos n) = n == 0
is_not_positive (negsuc n) = true

-- A process with one channel: the structure that stands at each address of its heap, the number of
-- strings and of arrays that the JVM has handed out and not got back, what the process holds of the
-- system, and the memory of the segment.
pub record Native : Type 0 where
  pub heap : ℕ → IpcChannel
  pub pinned : ℕ
  pub process : Process
  pub shm : ChannelShm

-- `GetStringUTFChars` or `GetByteArrayElements` has answered, with `none` for NULL; and the release.
abbrev pub pin : Option (List ℕ) → Native → Native
pin none n = n
pin (some bytes) n = record n { pinned = n.pinned + 1 }

abbrev pub release : Option (List ℕ) → Native → Native
release none n = n
release (some bytes) n = record n { pinned = n.pinned - 1 }

-- The address in the field `channelAddress`, for the answer of `GetLongField`.
unfoldable pub get_channel : ℤ → ℕ
get_channel field = to_u64 field

-- What a method returns as an array of bytes: NULL or an array; `fault` is a read through NULL or
-- behind the end of the payload.
pub data JArray : Type 0 where
  no_array : JArray
  array : List ℕ → JArray
  fault : JArray

-- `SetByteArrayRegion` of a new array, from the payload.
unfoldable pub copy_region : ℕ → Payload → Memory → JArray
copy_region len nothing region = fault
copy_region len (owned bytes) region =
    if ltb (length bytes) len then fault else array (take len bytes)
copy_region len (shared i) region = array (load_bytes len i region)

-- The end of `read`, from `len` on; `NewByteArray` answers as `room` says.
unfoldable pub to_array : Allocation → IpcEntry → Memory → JArray
to_array room entry region = elim (to_i32 entry.size) [
  | negsuc n ↦ no_array
  | pos len ↦
      if len == 0
      then no_array
      else elim room [ failed errno ↦ no_array | allocated ↦ copy_region len entry.payload region ]
]

-- The address survives the way through the Java object.
pub get_channel-to_i64 : (a : ℕ) → a < 2 ^ 64 → get_channel (to_i64 a) ≡ a
unfolding get_channel to_i64
get_channel-to_i64 a h = ground arith
