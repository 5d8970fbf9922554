-- ===== src/Jni/Transfer.antt =====
-- java/native/src/lib_shm_ipc_jni_IpcChannel.c: `write` and `read`.
pub mod Arrays
pub mod Refine
pub mod Race
use libshmipc.Base.{ℕ, List, ◌==◌, if◌then◌else◌, Option, none, some}
use libshmipc.Base.Word.{ℤ, pos}
use libshmipc.Common.{is_error, valid, IpcEntry, Allocation}
use libshmipc.Utils.{Timespec}
use libshmipc.Channel.State.{ChannelShm}
use libshmipc.Channel.Write.{ipc_channel_write}
use libshmipc.Channel.TryRead.{ChannelOutcome, IpcChannelReadResult}
use libshmipc.Channel.Read.{Clock, Wait, ipc_channel_read}
use libshmipc.Jni.State.{Native, pin, release, get_channel, JArray, no_array, to_array}

-- `bytes` is the answer of `GetByteArrayElements`, `none` for NULL, `arr_len` that of
-- `GetArrayLength`, `field` the field `channelAddress`. A failure is printed, and that is all.
unfoldable pub write : ℕ → Option (List ℕ) → ℕ → ℤ → Native → Option Native
write fuel bytes arr_len field n =
    let n' = pin bytes n in
    let channel = get_channel field in
    if channel == 0
    then some (release bytes n')
    else elim (ipc_channel_write fuel (some (n'.heap channel)) bytes arr_len n'.shm) [
      | none ↦ none
      | some (r, c) ↦ some (release bytes (record n' { shm = c }))
    ]

-- The timeout of one second.
abbrev pub one_second : Timespec
one_second = record { tv_sec = pos 1; tv_nsec = pos 0 }

-- What follows `ipc_channel_read`, which has left `entry`.
unfoldable pub answer_read :
    Allocation → Native → IpcChannelReadResult → IpcEntry → ChannelShm → JArray × Native
answer_read room n r entry c =
    (if is_error r then no_array else to_array room entry c.buffer.region, record n { shm = c })

-- `entry` is the local variable, which is not initialised; `NewByteArray` answers as `room` says.
unfoldable pub read :
    ℕ → List Wait → Clock → IpcEntry → Allocation → ℤ → Native → Option (JArray × Native)
read fuel waits start entry room field n =
    let channel = get_channel field in
    if channel == 0
    then some (no_array, n)
    else elim (ipc_channel_read fuel waits start (some (n.heap channel)) valid (some one_second)
        entry n.shm) [ none ↦ none | some (r, entry', c) ↦ some (answer_read room n r entry' c) ]
