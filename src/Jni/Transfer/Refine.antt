-- ===== src/Jni/Transfer/Refine.antt =====
-- `write` and `read` on the queue of payloads.
use libshmipc.Base.{
  ℕ, suc, ◌+◌, ◌-◌, ◌*◌, ◌^◌, ◌<◌, ◌≤◌, ◌≡◌, ◌≢◌, ◌⊎◌, inl, inr, refl, ap, subst, List, [], ◌∷◌,
  ◌++◌, Option, some, length, arith, ne→==,
}
use libshmipc.Base.Word.{ℤ}
use libshmipc.Common.{IpcEntry, allocated}
use libshmipc.Memory.{Memory}
use libshmipc.Utils.{Timespec, ipc_timespec_to_nanos}
use libshmipc.Buffer.State.{IpcBuffer}
use libshmipc.Buffer.Write.Outcome.{CanWrite}
use libshmipc.Channel.Write.{IpcChannelWriteResult}
use libshmipc.Buffer.Layout.{Holds, full_size}
use libshmipc.Channel.State.{ChannelShm}
use libshmipc.Channel.TryRead.{IpcChannelReadResult}
use libshmipc.Channel.Read.{Wait, at_time}
use libshmipc.Channel.Read.Refine.{quiet_wait, elapsed, ReadOldest, channel_read_refines}
use libshmipc.Channel.Write.Refine.{ChannelWrote, Signalled, channel_write_refines}
use libshmipc.Jni.State.{Native, pin, release, get_channel, JArray, no_array, array, to_array}
use libshmipc.Jni.Transfer.{write, read, one_second, answer_read}
use libshmipc.Jni.Transfer.Arrays.{InJava, to_array-InJava, oldest_has_bytes}

-- The structure of a channel stands at the address in the object's field.
pub record Connected (field : ℤ) (header : ℕ) (b : IpcBuffer) (n : Native) : Type 0 where
  pub not_null : get_channel field ≢ 0
  pub stands : n.heap (get_channel field) ≡ record { header = header; buffer = some b }

-- What a read hands to Java of a channel that holds the queue, and what it leaves.
abbrev pub JavaRead : ℕ → List (List ℕ) → JArray → ChannelShm → Type 0
JavaRead k [] out c' = (out ≡ no_array) × Holds k [] c'.buffer
JavaRead k (xs ∷ q) out c' = InJava xs out × Holds k q c'.buffer

abbrev pub JavaReadSpec : ℕ → List (List ℕ) → Native → Option (JArray × Native) → Type 0
JavaReadSpec k q n out =
    (a : JArray) × (c' : ChannelShm) × (out ≡ some (a, record n { shm = c' }))
    × (c'.buffer.tail ≡ n.shm.buffer.tail)
    × JavaRead k q a c'

read_answer :
    (k : ℕ) (q : List (List ℕ)) (n : Native) (timeout : Timespec) (entry dest : IpcEntry)
    (r : IpcChannelReadResult) (c' : ChannelShm)
    → ((xs : List ℕ) (q' : List (List ℕ)) → q ≡ xs ∷ q' → 0 < length xs)
    → c'.buffer.tail ≡ n.shm.buffer.tail
    → ReadOldest k q timeout entry r dest c'
    → JavaReadSpec k q n (some (answer_read allocated n r dest c'))
unfolding answer_read
read_answer k [] n timeout entry dest r c' full tail (e, same, h) =
    (no_array, c', rw (answer_read, e), tail, (refl, h))
read_answer k (xs ∷ q) n timeout entry dest r c' full tail (e, payload, size, next, h) = (
  to_array allocated dest c'.buffer.region,
  c',
  rw (answer_read, e),
  tail,
  (to_array-InJava xs dest c'.buffer.region (full xs q refl) payload size, h),
)

-- On a channel whose buffer is at rest and holds the queue `q`, while no other thread does anything
-- and memory is given, the method `read` of an object that points to the channel returns, if there is
-- fuel for one restart and the clock then says that a second is over. On the empty queue it returns
-- NULL. Otherwise the oldest payload is out of the queue, and it is what Java gets, byte for byte, if
-- it has less than 2^31 bytes. A larger one is lost: Java gets NULL if the low 32 bits of its size are
-- 0 or at least 2^31, and else an array of only so many of its first bytes as they say.
pub java_read_refines :
    {k : ℕ} {q : List (List ℕ)} (n : Native) (fuel : ℕ) (memory : Memory) (garbage entry : IpcEntry)
    (start now : Timespec) (waits : List Wait) (field : ℤ) (header : ℕ) (b : IpcBuffer)
    → Connected field header b n
    → Holds k q n.shm.buffer
    → 1_000_000_000 ≤ elapsed start now
    → JavaReadSpec k q n (
        read
          (suc (suc fuel))
          (quiet_wait memory garbage now ∷ waits)
          (at_time start)
          entry
          allocated
          field
          n)
unfolding read ipc_timespec_to_nanos
java_read_refines {k} {q} n fuel memory garbage entry start now waits field header b there h late =
    let (r, dest, c', e, (kept, tail), w) =
      channel_read_refines n.shm fuel memory garbage start now one_second waits header b entry refl
        refl h late in
    rw (read, ne→== (get_channel field) 0 there.not_null, there.stands, e)
      (read_answer k q n one_second entry dest r c'
        (λ xs q' same. oldest_has_bytes (subst (λ z. Holds k z n.shm.buffer) same h)) tail w)

-- What a write may do to the channel; Java is not told which of the three it was.
abbrev pub JavaWrote : ℕ → List (List ℕ) → List ℕ → ChannelShm → ChannelShm → Type 0
JavaWrote k q xs c c' =
    CanWrite k (full_size (length xs)) c.buffer
      × Holds k (q ++ (xs ∷ [])) c'.buffer
      × Signalled c c'
    ⊎ ¬ CanWrite k (full_size (length xs)) c.buffer × Holds k q c'.buffer × Signalled c c'
    ⊎ (2 ^ k < full_size (length xs)) × (c' ≡ c)

pub forget_status :
    (k : ℕ) (q : List (List ℕ)) (xs : List ℕ) (c c' : ChannelShm) (r : IpcChannelWriteResult)
    → ChannelWrote k q xs c r c'
    → JavaWrote k q xs c c'
forget_status k q xs c c' r (inl (a, can, h, s)) = inl (can, h, s)
forget_status k q xs c c' r (inr (inl (a, cannot, h, s))) = inr (inl (cannot, h, s))
forget_status k q xs c c' r (inr (inr (a, large, same))) = inr (inr (large, same))

pub unpinned :
    (n : Native) (xs : List ℕ) (c : ChannelShm)
    → release (some xs) (record (pin (some xs) n) { shm = c }) ≡ record n { shm = c }
unpinned n xs c =
    let same : n.pinned + 1 - 1 ≡ n.pinned = omega arith in
    ap (λ p. record n { shm = c; pinned = p }) same

-- On a channel whose buffer is at rest and holds the queue `q`, the method `write` of an object that
-- points to the channel, for an array of the bytes `xs`, not empty and with less than 2^64 bytes for
-- the entry, returns if there is fuel for one restart and the positions stay below 2^64. It gives the
-- array back to the JVM and changes nothing but the shared memory: there, `xs` is appended if the
-- entry fits, the queue is kept if there is no space now, readers are signalled in both cases, and
-- nothing changes for an entry larger than the region. Java is not told which it was.
pub java_write_refines :
    {k : ℕ} {q : List (List ℕ)} (n : Native) (xs : List ℕ) (fuel : ℕ) (field : ℤ) (header : ℕ)
    (b : IpcBuffer)
    → Connected field header b n
    → Holds k q n.shm.buffer
    → 0 < length xs
    → length xs + 31 < 2 ^ 64
    → n.shm.buffer.tail + 2 * 2 ^ k < 2 ^ 64
    → (c' : ChannelShm) × (write (suc (suc fuel)) (some xs) (length xs) field n
        ≡ some (record n { shm = c' }))
      × JavaWrote k q xs n.shm c'
unfolding write
java_write_refines {k} {q} n xs fuel field header b there h some_bytes bounded no_wrap =
    let (r, c', e, w) =
      channel_write_refines {c = n.shm} xs fuel header b h some_bytes bounded no_wrap in
    (
      c',
      rw (write, ne→== (get_channel field) 0 there.not_null, there.stands, e)
          (ap some (unpinned n xs c')),
      forget_status k q xs n.shm c' r w,
    )

-- What one object writes, another one reads: on a channel whose buffer is at rest and holds no
-- payload, a `write` of an array that has between 1 and 2^31 - 1 bytes and fits, by a process whose
-- object points to the channel, and then a `read` by a process whose object does so, and that shares
-- the memory with the first, give exactly that array, if no one else acts, memory is given, the clock
-- then says that a second is over, the positions stay below 2^64 and there is fuel for one restart.
-- The channel has no payload then.
pub java_write-read :
    {k : ℕ} (writer reader : Native) (xs : List ℕ) (fuel : ℕ) (memory : Memory)
    (garbage entry : IpcEntry) (start now : Timespec) (waits : List Wait) (field field' : ℤ)
    (header header' : ℕ) (b b' : IpcBuffer)
    → Connected field header b writer
    → Connected field' header' b' reader
    → Holds k [] writer.shm.buffer
    → 0 < length xs
    → length xs < 2 ^ 31
    → CanWrite k (full_size (length xs)) writer.shm.buffer
    → writer.shm.buffer.tail + 2 * 2 ^ k < 2 ^ 64
    → 1_000_000_000 ≤ elapsed start now
    → (c' c'' : ChannelShm) × (write (suc (suc fuel)) (some xs) (length xs) field writer
        ≡ some (record writer { shm = c' }))
      × (read
            (suc (suc fuel))
            (quiet_wait memory garbage now ∷ waits)
            (at_time start)
            entry
            allocated
            field'
            (record reader { shm = c' })
          ≡ some (array xs, record reader { shm = c'' }))
      × Holds k [] c''.buffer
java_write-read {k} writer reader xs fuel memory garbage entry start now waits field field' header
      header' b b' there there' h some_bytes fits can no_wrap late =
    let (c', e, w) =
      java_write_refines writer xs fuel field header b there h some_bytes (omega arith) no_wrap in
    let holds : Holds k (xs ∷ []) c'.buffer = elim w [
      | inl (c, held, s) ↦ held
      | inr (inl (cannot, z, y)) ↦ absurd (cannot can)
      | inr (inr (large, same)) ↦
          absurd (elim can.1 [ inl a ↦ omega (arith, can.0) | inr a ↦ omega (arith, can.0) ])
    ] in
    let (a, c'', e', tail, (got, left)) =
      java_read_refines (record reader { shm = c' }) fuel memory garbage entry start now waits
        field' header' b' (record { not_null = there'.not_null; stands = there'.stands }) holds
        late in
    let same : a ≡ array xs = elim got [
      | inl (small, is) ↦ is
      | inr (large, z) ↦ absurd (omega arith)
    ] in
    (c', c'', e, rw (← same) e', left)
