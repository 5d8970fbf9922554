-- ===== src/Jni/Conversation/Order.antt =====
-- What the reader gets is what the writer has said, in order.
use libshmipc.Base.{
  ℕ, suc, ◌+◌, ◌^◌, ◌<◌, ◌≤◌, ◌≡◌, ◌⊎◌, inl, inr, refl, List, [], ◌∷◌, ◌++◌, some, arith,
  append-nil, append_assoc, sym, subst, ◌∙◌,
}
use mathlib.Core.List.{Sublistᴰ}
use libshmipc.Base.Word.{ℤ}
use libshmipc.Common.{IpcEntry, allocated}
use libshmipc.Memory.{Memory}
use libshmipc.Utils.{Timespec}
use libshmipc.Buffer.State.{IpcBuffer}
use libshmipc.Buffer.Layout.{Holds}
use libshmipc.Channel.State.{ChannelShm}
use libshmipc.Channel.Read.{Wait, at_time}
use libshmipc.Channel.Read.Refine.{quiet_wait, elapsed}
use libshmipc.Jni.State.{Native, JArray, no_array, array}
use libshmipc.Jni.Transfer.{read}
use libshmipc.Jni.Transfer.Refine.{Connected, JavaReadSpec, java_read_refines}
use libshmipc.Jni.Conversation.{
  Turn, says, listens, converse, said, AllSmall, reach, Follows, InOrder,
}
use libshmipc.Jni.Conversation.Queues.{reach-le, heard_through, AllSmall-append}
use libshmipc.Jni.Conversation.Steps.{java_write_step}

module _ (fuel : ℕ) (memory : Memory) (garbage entry : IpcEntry) (start now : Timespec)
    (waits : List Wait) (writer reader : Native) (field field' : ℤ) (header header' : ℕ)
    (b b' : IpcBuffer) (there : Connected field header b writer)
    (there' : Connected field' header' b' reader) (late : 1_000_000_000 ≤ elapsed start now) where
  abbrev Ordered : ℕ → List (List ℕ) → List Turn → ChannelShm → Type 0
  Ordered k =
      InOrder k (suc (suc fuel)) (quiet_wait memory garbage now ∷ waits) (at_time start) entry
        writer field reader field'

  answer :
      {k : ℕ} (q : List (List ℕ)) (c : ChannelShm)
      → Holds k q c.buffer
      → JavaReadSpec k q
          (record reader { shm = c })
          (read
            (suc (suc fuel))
            (quiet_wait memory garbage now ∷ waits)
            (at_time start)
            entry
            allocated
            field'
            (record reader { shm = c }))
  answer q c h =
      java_read_refines (record reader { shm = c }) fuel memory garbage entry start now waits field'
        header' b' (record { not_null = there'.not_null; stands = there'.stands }) h late

  abbrev Happens :
      ℕ
      → List Turn
      → List (List ℕ)
      → ChannelShm
      → List JArray
      → List (List ℕ)
      → List (List ℕ)
      → ChannelShm
      → Type 0
  Happens k =
      Follows k (suc (suc fuel)) (quiet_wait memory garbage now ∷ waits) (at_time start) entry
        writer field reader field'

  listened :
      {k : ℕ} (q q' : List (List ℕ)) (next : ChannelShm) (accepted rest : List (List ℕ))
      (c' : ChannelShm) (turns : List Turn) (later : List JArray) (a : JArray)
      → (a ≡ no_array) × (q ≡ []) × (q' ≡ []) ⊎ ((xs : List ℕ) × (a ≡ array xs) × (q ≡ xs ∷ q'))
      → Holds k q' next.buffer
      → Happens k turns q' next later accepted rest c'
      → (q ≡ [])
          × (a ≡ no_array)
          × Holds k [] next.buffer
          × Happens k turns [] next later accepted rest c'
        ⊎ ((xs : List ℕ) × (others : List (List ℕ)) × (q ≡ xs ∷ others)
            × (a ≡ array xs)
            × Holds k others next.buffer
            × Happens k turns others next later accepted rest c')
  listened {k} q q' next accepted rest c' turns later a (inl (null, none_there, none_left)) holds
        each =
      inl (
        none_there,
        null,
        subst (λ z. Holds k z next.buffer) none_left holds,
        subst (λ z. Happens k turns z next later accepted rest c') none_left each,
      )
  listened q q' next accepted rest c' turns later a (inr (xs, is, same)) holds each =
      inr (xs, q', same, is, holds, each)

  -- A turn of the reader: the oldest payload, or NULL.
  listen :
      {k : ℕ} (q : List (List ℕ)) (c : ChannelShm)
      → Holds k q c.buffer
      → AllSmall q
      → (a : JArray) × (c' : ChannelShm) × (q' : List (List ℕ)) × (read
            (suc (suc fuel))
            (quiet_wait memory garbage now ∷ waits)
            (at_time start)
            entry
            allocated
            field'
            (record reader { shm = c })
          ≡ some (a, record reader { shm = c' }))
        × (c'.buffer.tail ≡ c.buffer.tail)
        × Holds k q' c'.buffer
        × AllSmall q'
        × ((a ≡ no_array) × (q ≡ []) × (q' ≡ []) ⊎ ((xs : List ℕ) × (a ≡ array xs) × (q ≡ xs ∷ q')))
  listen [] c h small =
      let (a, c', e, tail, (null, held)) = answer [] c h in
      (a, c', [], e, tail, held, tt, inl (null, refl, refl))
  listen (xs ∷ q) c h (some_bytes, fits, small) =
      let (a, c', e, tail, (got, held)) = answer (xs ∷ q) c h in
      (
        a,
        c',
        q,
        e,
        tail,
        held,
        small,
        elim got [ inl (less, is) ↦ inr (xs, is, refl) | inr (large, z) ↦ absurd (omega arith) ],
      )

  in_order :
      {k : ℕ} (q : List (List ℕ)) (turns : List Turn) (c : ChannelShm)
      → Holds k q c.buffer
      → AllSmall q
      → AllSmall (said turns)
      → c.buffer.tail + reach k turns < 2 ^ 64
      → Ordered k q turns c
  unfolding converse
  in_order q [] c h small sayable no_wrap =
      ([], c, [], q, [], refl, refl, h, Sublistᴰ.slnil, (refl, refl, refl, refl, h), append-nil q)
  in_order {k} q (says xs ∷ turns) c h small (some_bytes, fits, sayable) no_wrap =
      let room : 2 ^ k ≤ reach k turns = reach-le k turns in
      let (c', q', e, bound, holds, how) =
        java_write_step (record writer { shm = c }) xs fuel field header b
          (record { not_null = there.not_null; stands = there.stands }) h some_bytes (omega arith)
          (omega arith) in
      elim how [
        | inl (can, appended) ↦
            let held : Holds k (q ++ (xs ∷ [])) c'.buffer =
              subst (λ q. Holds k q c'.buffer) appended holds in
            let (heard, c'', got, rest, others, done, msgs, last, sub, each, order) =
              in_order (q ++ (xs ∷ [])) turns c' held (AllSmall-append q xs small some_bytes fits)
                sayable (omega arith) in
            (
              heard,
              c'',
              got,
              rest,
              xs ∷ others,
              rw (converse, e, done),
              msgs,
              last,
              Sublistᴰ.cons-cons refl sub,
              (c', e, inl (can, held, (others, refl, each))),
              sym (append_assoc q (xs ∷ []) others) ∙ order,
            )
        | inr (cannot, kept) ↦
            let held : Holds k q c'.buffer = subst (λ q. Holds k q c'.buffer) kept holds in
            let (heard, c'', got, rest, accepted, done, msgs, last, sub, each, order) =
              in_order q turns c' held small sayable (omega arith) in
            (
              heard,
              c'',
              got,
              rest,
              accepted,
              rw (converse, e, done),
              msgs,
              last,
              Sublistᴰ.cons sub,
              (c', e, inr (cannot, held, each)),
              order,
            )
      ]
  in_order {k} q (listens ∷ turns) c h small sayable no_wrap =
      let (a, c', q', e, tail, holds, small', how) = listen q c h small in
      let (heard, c'', got, rest, accepted, done, msgs, last, sub, each, order) =
        in_order q' turns c' holds small' sayable (omega arith) in
      let (got', msgs', order') =
        heard_through q q' accepted got rest a heard
          (elim how [ inl (null, x, y) ↦ inl (null, x ∙ sym y) | inr got ↦ inr got ]) msgs order in
      (
        a ∷ heard,
        c'',
        got',
        rest,
        accepted,
        rw (converse, e, done),
        msgs',
        last,
        sub,
        (a, c', heard, refl, e, listened q q' c' accepted rest c'' turns heard a how holds each),
        order',
      )

-- Any sequence of turns, in which a process writes arrays of 1 to 2^31 - 1 bytes or another one reads, on
-- a channel that both objects point to, returns, if the buffer is at rest and holds payloads of that
-- size, there is fuel for one restart in each call, no one else acts, memory is given, the clock in
-- each read then says that a second is over, and the tail cannot get to 2^64. Each message is accepted,
-- and put behind the queue, if its entry fits the buffer at that time, and refused if not; each `read`
-- gives NULL if the queue is empty, and else the oldest message, which it takes out. So the reader gets
-- no fault, and what the channel held, followed by the messages that were accepted, is what the reader
-- has got, byte for byte, followed by what the channel holds in the end, in the same order.
pub java_conversation :
    {k : ℕ} {q : List (List ℕ)} (turns : List Turn) (c : ChannelShm) (fuel : ℕ) (memory : Memory)
    (garbage entry : IpcEntry) (start now : Timespec) (waits : List Wait) (writer reader : Native)
    (field field' : ℤ) (header header' : ℕ) (b b' : IpcBuffer)
    → Connected field header b writer
    → Connected field' header' b' reader
    → 1_000_000_000 ≤ elapsed start now
    → Holds k q c.buffer
    → AllSmall q
    → AllSmall (said turns)
    → c.buffer.tail + reach k turns < 2 ^ 64
    → InOrder k
        (suc (suc fuel))
        (quiet_wait memory garbage now ∷ waits)
        (at_time start)
        entry
        writer
        field
        reader
        field'
        q
        turns
        c
java_conversation {q = q} turns c fuel memory garbage entry start now waits writer reader field
      field' header header' b b' there there' late =
    in_order fuel memory garbage entry start now waits writer reader field field' header header' b
      b' there there' late q turns c
