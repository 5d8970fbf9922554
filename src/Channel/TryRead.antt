-- ===== src/Channel/TryRead.antt =====
-- core/src/ipc_channel.c: `_try_read` and `ipc_channel_try_read`.
pub mod Refine
pub mod Room
pub mod Rounds
pub mod Interleaved
use libshmipc.Base.{
  ℕ, List, [], ◌∷◌, ◌++◌, Option, none, some, ◌⊎◌, inl, inr, ltb, if◌then◌else◌, take, drop,
}
use libshmipc.Common.{
  Result, success, error, error_body, ipc_status, is_error, is_ok, is_too_small,
  err_invalid_argument, err_system, Pointer, null, valid, Payload, nothing, owned, shared, IpcEntry,
  Allocation, allocated, failed,
}
use libshmipc.Memory.{Memory, load_bytes}
use libshmipc.Utils.{Timespec, no_time}
use libshmipc.Buffer.Peek.{IpcBufferPeekResult, ipc_buffer_peek}
use libshmipc.Buffer.Read.{IpcBufferReadResult, ipc_buffer_read}
use libshmipc.Channel.State.{IpcChannel, ChannelShm, guarded}

-- `IpcChannelReadError`
pub record IpcChannelReadError : Type 0 where
  pub offset : ℕ
  pub timeout_used : Timespec
  pub sys_errno : ℕ

abbrev pub IpcChannelReadResult : Type 0
IpcChannelReadResult = Result (Unit {0}) IpcChannelReadError

-- The result, `*dest` and the shared memory afterwards.
abbrev pub ChannelOutcome : Type 0
ChannelOutcome = IpcChannelReadResult × IpcEntry × ChannelShm

abbrev pub no_read_error : IpcChannelReadError
no_read_error = record { offset = 0; timeout_used = no_time; sys_errno = 0 }

-- What one round of the loop meets: what other threads do to the shared memory before its peek and
-- before its read, what `malloc` or `realloc` answers, the bytes that stand in new memory, and the
-- bytes in the local variable `peek_entry`, which is not initialised.
pub record Turn : Type 0 where
  pub before_peek : ChannelShm → ChannelShm
  pub before_read : ChannelShm → ChannelShm
  pub alloc : Allocation
  pub memory : Memory
  pub peek_entry : IpcEntry

-- `malloc` or `realloc` of the destination to `size` bytes, where that is needed; `inl errno` when
-- it fails. No caller passes a pointer into the data region.
unfoldable pub make_room : Turn → ℕ → IpcEntry → ℕ ⊎ IpcEntry
make_room t size dest = elim dest.payload [
  | nothing ↦ elim t.alloc [
    | failed errno ↦ inl errno
    | allocated ↦ inr (record dest { payload = owned (load_bytes size 0 t.memory); size = size })
  ]
  | owned old ↦
      if ltb dest.size size
      then elim t.alloc [
        | failed errno ↦ inl errno
        | allocated ↦ inr (record dest {
          payload = owned (take dest.size old ++ drop dest.size (load_bytes size 0 t.memory));
          size = size;
        })
      ]
      else inr dest
  | shared i ↦ inr dest
]

-- What follows `ipc_buffer_read`; `again` is the next round.
unfoldable pub after_read :
    (IpcEntry → ChannelShm → Option ChannelOutcome)
    → IpcBufferReadResult
    → IpcEntry
    → ChannelShm
    → Option ChannelOutcome
after_read again r dest c =
    if is_error r
    then if is_too_small (ipc_status r)
      then again dest c
      else some (error_body (ipc_status r) (record no_read_error { offset = dest.offset }), dest, c)
    else some (success (ipc_status r) tt, dest, c)

-- What follows `ipc_buffer_peek`, which has left `seen` in `peek_entry`.
unfoldable pub after_peek :
    ℕ
    → Turn
    → (IpcEntry → ChannelShm → Option ChannelOutcome)
    → IpcBufferPeekResult
    → IpcEntry
    → IpcEntry
    → ChannelShm
    → Option ChannelOutcome
after_peek fuel t again r seen dest c =
    if is_error r
    then some (error_body (ipc_status r) (record no_read_error { offset = seen.offset }), dest, c)
    else if is_ok (ipc_status r)
    then elim (make_room t seen.size dest) [
      | inl errno ↦ some (
        error_body err_system (record no_read_error { offset = seen.offset; sys_errno = errno }),
        dest,
        c,
      )
      | inr roomy ↦
          let c' = t.before_read c in
          elim (ipc_buffer_read fuel valid valid roomy c'.buffer) [
            | none ↦ none
            | some (r', dest', s) ↦ after_read again r' dest' (record c' { buffer = s })
          ]
    ]
    else some (success (ipc_status r) tt, dest, c)

-- The loop of `_try_read`, a round for each turn; `none` when it is still running after the last.
-- `fuel` is that of the buffer's operations.
unfoldable pub try_read_rounds : ℕ → List Turn → IpcEntry → ChannelShm → Option ChannelOutcome
try_read_rounds fuel [] dest c = none
try_read_rounds fuel (t ∷ turns) dest c =
    let c' = t.before_peek c in
    elim (ipc_buffer_peek fuel valid valid t.peek_entry c'.buffer) [
      | none ↦ none
      | some (r, seen, s) ↦
          after_peek fuel t (try_read_rounds fuel turns) r seen dest (record c' { buffer = s })
    ]

-- `_try_read`; `to` is the pointer, `dest` the entry behind it.
unfoldable pub try_read :
    ℕ → List Turn → Option IpcChannel → Pointer → IpcEntry → ChannelShm → Option ChannelOutcome
try_read fuel turns channel to dest c =
    guarded channel (λ status. some (error_body status no_read_error, dest, c))
      (elim to [
        | null ↦ some (error_body err_invalid_argument no_read_error, dest, c)
        | valid ↦ try_read_rounds fuel turns dest c
      ])

-- `IpcChannelTryReadError`
pub record IpcChannelTryReadError : Type 0 where
  pub offset : ℕ

abbrev pub IpcChannelTryReadResult : Type 0
IpcChannelTryReadResult = Result (Unit {0}) IpcChannelTryReadError

abbrev pub TryReadOutcome : Type 0
TryReadOutcome = IpcChannelTryReadResult × IpcEntry × ChannelShm

abbrev pub no_try_read_error : IpcChannelTryReadError
no_try_read_error = record { offset = 0 }

-- The local variable `read_entry`.
abbrev pub no_entry : IpcEntry
no_entry = record { offset = 0; payload = nothing; size = 0 }

-- `*dest` once the result is known.
abbrev pub deliver : IpcChannelReadResult → IpcEntry → IpcEntry → IpcEntry
deliver r found dest = if is_ok (ipc_status r) then found else dest

-- The body of the error; every error of `_try_read` has one.
abbrev pub try_read_error : IpcChannelReadResult → IpcChannelTryReadError
try_read_error (error_body status b) = record { offset = b.offset }
try_read_error _ = no_try_read_error

-- What follows `_try_read`.
unfoldable pub finish_try_read :
    IpcChannelReadResult → IpcEntry → IpcEntry → ChannelShm → TryReadOutcome
finish_try_read r found dest c = (
  if is_error r then error_body (ipc_status r) (try_read_error r) else success (ipc_status r) tt,
  deliver r found dest,
  c,
)

unfoldable pub ipc_channel_try_read :
    ℕ → List Turn → Option IpcChannel → Pointer → IpcEntry → ChannelShm → Option TryReadOutcome
ipc_channel_try_read fuel turns channel to dest c =
    guarded channel (λ status. some (error_body status no_try_read_error, dest, c))
      (elim to [
        | null ↦ some (error_body err_invalid_argument no_try_read_error, dest, c)
        | valid ↦ elim (try_read fuel turns channel valid no_entry c) [
          | none ↦ none
          | some (r, found, c') ↦ some (finish_try_read r found dest c')
        ]
      ])
