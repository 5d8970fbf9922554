-- ===== src/Jni/Retry.antt =====
-- java/native/native/src/lib_shm_ipc_jni_IpcChannel.c: the variant of the native methods whose `write`
-- and `read` try again.
pub mod Writes
pub mod Reads
use libshmipc.Base.{
  ℕ, List, [], ◌∷◌, ◌==◌, ◌&&◌, if◌then◌else◌, Bool, true, false, Option, none, some,
}
use libshmipc.Base.Word.{ℤ, pos, to_u64}
use libshmipc.Common.{
  Status, err_timeout, ipc_status, is_error, is_no_space_contiguous, Pointer, valid, IpcEntry,
  Allocation,
}
use libshmipc.Utils.{Timespec}
use libshmipc.Channel.State.{IpcChannel, ChannelShm}
use libshmipc.Channel.Write.{ipc_channel_write}
use libshmipc.Channel.Read.{Clock, Wait, ipc_channel_read}
use libshmipc.Jni.State.{Native, pin, release, JArray, no_array, to_array}
use libshmipc.Jni.Init
use libshmipc.Jni.Init.{InitCalls}

-- The same text as the other file's, but for what is printed.
unfoldable pub init : ℕ → InitCalls → Pointer → ℤ → ℕ → Native → Option (ℤ × Native)
init = Init.init

unfoldable pub get_channel : ℤ → ℕ
get_channel field = to_u64 field

-- The calls of `ipc_channel_write`, one for each element of the list, which says what other threads
-- do before it; `none` when the loop is still running after the last.
unfoldable pub write_until_room :
    ℕ
    → List (ChannelShm → ChannelShm)
    → IpcChannel
    → Option (List ℕ)
    → ℕ
    → ChannelShm
    → Option ChannelShm
write_until_room fuel [] channel bytes arr_len c = none
write_until_room fuel (before ∷ rest) channel bytes arr_len c =
    elim (ipc_channel_write fuel (some channel) bytes arr_len (before c)) [
      | none ↦ none
      | some (r, c') ↦
          let again = write_until_room fuel rest channel bytes arr_len c' in
          if is_error r && is_no_space_contiguous (ipc_status r) then again else some c'
    ]

-- The arguments are those of the other file's `write`, but for the list.
unfoldable pub write :
    ℕ → List (ChannelShm → ChannelShm) → Option (List ℕ) → ℕ → ℤ → Native → Option Native
write fuel rounds bytes arr_len field n =
    let n' = pin bytes n in
    let channel = get_channel field in
    if channel == 0
    then some (release bytes n')
    else elim (write_until_room fuel rounds (n'.heap channel) bytes arr_len n'.shm) [
      | none ↦ none
      | some c ↦ some (release bytes (record n' { shm = c }))
    ]

-- `status == IPC_ERR_TIMEOUT`
abbrev pub is_timeout : Status → Bool
is_timeout err_timeout = true
is_timeout _ = false

-- The timeout of five microseconds.
abbrev pub five_micros : Timespec
five_micros = record { tv_sec = pos 0; tv_nsec = pos 5000 }

-- The calls of `ipc_channel_read`, one for each element of the list, which has what its rounds meet
-- and the first answer of its clock. What the last call has returned is forgotten.
unfoldable pub read_until_answer :
    ℕ
    → List (List Wait × Clock)
    → IpcChannel
    → IpcEntry
    → ChannelShm
    → Option (IpcEntry × ChannelShm)
read_until_answer fuel [] channel entry c = none
read_until_answer fuel ((waits, start) ∷ rest) channel entry c =
    elim (ipc_channel_read fuel waits start (some channel) valid (some five_micros) entry c) [
      | none ↦ none
      | some (r, entry', c') ↦
          let again = read_until_answer fuel rest channel entry' c' in
          if is_error r && is_timeout (ipc_status r) then again else some (entry', c')
    ]

-- `entry` is the local variable, which is not initialised; `NewByteArray` answers as `room` says.
unfoldable pub read :
    ℕ → List (List Wait × Clock) → IpcEntry → Allocation → ℤ → Native → Option (JArray × Native)
read fuel calls entry room field n =
    let channel = get_channel field in
    if channel == 0
    then some (no_array, n)
    else elim (read_until_answer fuel calls (n.heap channel) entry n.shm) [
      | none ↦ none
      | some (entry', c) ↦ some (to_array room entry' c.buffer.region, record n { shm = c })
    ]
