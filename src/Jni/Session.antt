-- ===== src/Jni/Session.antt =====
-- Two processes with one channel: `init` in both, a `write` in one and a `read` in the other.
use libshmipc.Base.{
  ◌%◌, ℕ, suc, ◌+◌, ◌^◌, ◌<◌, ◌≤◌, ◌≡◌, ◌≢◌, inl, inr, sym, subst, ◌∙◌, List, ◌∷◌, some, length,
  arith, not, ◌==◌,
}
use native.Mathlib.Nat.{zero-mod}
use libshmipc.Base.Word.{ℤ, pos}
use libshmipc.Common.{valid, IpcEntry, allocated}
use libshmipc.Memory.{Memory}
use libshmipc.Utils.{Timespec}
use libshmipc.Buffer.Layout.{full_size}
use libshmipc.Buffer.Create.{handle_at}
use libshmipc.Buffer.Write.Outcome.{CanWrite}
use libshmipc.Buffer.State.{Shm}
use libshmipc.Mmap.{ipc_mmap}
use libshmipc.Channel.State.{ChannelShm}
use libshmipc.Channel.Open.{ipc_channel_suggest_size}
use libshmipc.Channel.Open.Fresh.{AtStart}
use libshmipc.Channel.Read.{Wait, at_time}
use libshmipc.Channel.Read.Refine.{quiet_wait, elapsed}
use libshmipc.Jni.State.{Native, get_channel, get_channel-to_i64, array}
use libshmipc.Jni.Init.{InitCalls, init}
use libshmipc.Jni.Init.Opens.{Prepared, channel_in}
use libshmipc.Jni.Init.Outcome.{Sound, java_init_refines}
use libshmipc.Jni.Transfer.{write, read}
use libshmipc.Jni.Transfer.Refine.{Connected, java_write-read}

-- An `init` with a size of `m` bytes that has returned the address `v` of a channel, and what it meets.
pub record Opening (fuel m is_producer : ℕ) (n n' : Native) (v : ℤ) : Type 0 where
  pub calls : InitCalls
  pub path : List ℕ
  pub chars : calls.chars ≡ some path
  pub place_set : calls.place ≢ 0
  pub place_word : calls.place < 2 ^ 64
  pub sound :
      (aligned : ℕ)
      → ipc_channel_suggest_size fuel m ≡ some aligned
      → Sound aligned (ipc_mmap calls.mapping (some path) aligned n.process).0
  pub returns : init fuel calls valid (pos m) is_producer n ≡ some (v, n')
  pub answered : v ≢ pos 0

-- The object then points to a channel, whose memory is prepared.
Opening-Connected :
    {fuel m is_producer : ℕ} {n n' : Native} {v : ℤ}
    → 64 ≤ fuel
    → 0 < m
    → m < 2 ^ 63
    → Opening fuel m is_producer n n' v
    → (memory : ℕ) × Connected v memory (handle_at (memory + 64)) n'
      × Prepared (not (is_producer == 0)) m n.shm n'.shm
Opening-Connected {fuel} {m} {is_producer} {n} {n'} {v} enough some_bytes word o =
    let (j, v0, n0, room, done, pinned, (process, spec)) =
      java_init_refines fuel m is_producer o.calls o.path n enough some_bytes word o.chars
        o.place_set o.sound in
    let same_v : v0 ≡ v = cc (done, o.returns) in
    let same_n : n0 ≡ n' = cc (done, o.returns) in
    elim spec [
      | inr (bad, zero_v, heap, shm) ↦ absurd (o.answered (sym same_v ∙ zero_v))
      | inl (segment, got, inr (zero_v, heap, why)) ↦ absurd (o.answered (sym same_v ∙ zero_v))
      | inl (segment, got, inl (is, stands, prepared)) ↦
          let at : get_channel v ≡ o.calls.place =
            subst (λ z. get_channel z ≡ o.calls.place) (sym is ∙ same_v)
              (get_channel-to_i64 o.calls.place o.place_word) in
          (
            segment.memory,
            record {
              not_null = λ z. o.place_set (sym at ∙ z);
              stands = rw at (subst (λ z. z.heap o.calls.place ≡ channel_in segment) same_n stands);
            },
            subst (λ z. Prepared (not (is_producer == 0)) m n.shm z.shm) same_n prepared,
          )
    ]

-- A buffer whose positions stand at the start takes every entry that leaves room for a header.
start-CanWrite : (k : ℕ) (s : Shm) (full : ℕ) → AtStart s → full + 24 ≤ 2 ^ k → CanWrite k full s
start-CanWrite k s full (head, tail) fits =
    let index : s.tail % 2 ^ k ≡ 0 = rw tail (zero-mod (2 ^ k)) in (omega arith, inl (omega arith))

-- A whole session. A producer has opened a path with a size of `m` bytes, 2^61 at most, and a consumer
-- has then opened it, too, with a size from 1 to 2^63 - 1, and shares its memory; both have got an
-- address, with fuel for 64 tests. The producer writes an array of 1 to 2^31 - 1 bytes whose entry
-- leaves room for a header in `m` bytes, and the consumer reads. If there is fuel for one restart, no
-- one else acts, memory is given and the clock then says that a second is over, both return, and the
-- consumer gets exactly that array, whatever was in the memory before.
pub java_session :
    (fuel f m m' : ℕ) (producer producer' consumer consumer' : Native) (v v' : ℤ) (xs : List ℕ)
    (memory : Memory) (garbage entry : IpcEntry) (start now : Timespec) (waits : List Wait)
    → 64 ≤ fuel
    → m ≤ 2 ^ 61
    → 0 < m'
    → m' < 2 ^ 63
    → Opening fuel m 1 producer producer' v
    → Opening fuel m' 0 (record consumer { shm = producer'.shm }) consumer' v'
    → 0 < length xs
    → length xs < 2 ^ 31
    → full_size (length xs) + 24 ≤ m
    → 1_000_000_000 ≤ elapsed start now
    → (c' c'' : ChannelShm) × (write (suc (suc f)) (some xs) (length xs) v producer'
        ≡ some (record producer' { shm = c' }))
      × (read
            (suc (suc f))
            (quiet_wait memory garbage now ∷ waits)
            (at_time start)
            entry
            allocated
            v'
            (record consumer' { shm = c' })
          ≡ some (array xs, record consumer' { shm = c'' }))
java_session fuel f m m' producer producer' consumer consumer' v v' xs memory garbage entry start
      now waits enough bound some_bytes' word' opening opening' some_bytes small fits late =
    let (mem, there, (notify, (j, room, tight, holds, (head, tail)))) =
      Opening-Connected enough (omega arith) (omega arith) opening in
    let (mem', there', same) = Opening-Connected enough some_bytes' word' opening' in
    let can : CanWrite j (full_size (length xs)) producer'.shm.buffer =
      start-CanWrite j producer'.shm.buffer (full_size (length xs)) (head, tail) (omega arith) in
    let (c', c'', wrote, got, left) =
      java_write-read producer' consumer' xs f memory garbage entry start now waits v v' mem mem'
        (handle_at (mem + 64)) (handle_at (mem' + 64)) there there' holds some_bytes small can
        (omega arith) late in
    (c', c'', wrote, got)
