-- ===== src/Channel/TryRead/Interleaved.antt =====
-- `_try_read` while other threads write, read and skip between its calls of the buffer.
use libshmipc.Base.{
  sym, subst, ◌<◌, arith, ℕ, suc, ◌≡◌, ◌⊎◌, inl, inr, refl, List, [], ◌∷◌, ◌++◌, Option, none, some,
  length, drop,
}
use libshmipc.Common.{valid, owned, IpcEntry}
use libshmipc.Buffer.Layout.{Holds}
use libshmipc.Buffer.Peek.{ipc_buffer_peek}
use libshmipc.Buffer.Peek.Refine.{peek_refines}
use libshmipc.Buffer.Read.{ipc_buffer_read}
use libshmipc.Buffer.Read.Refine.{read_refines}
use libshmipc.Channel.State.{ChannelShm}
use libshmipc.Channel.TryRead.Room.{Owns, make_room-cases}
use libshmipc.Channel.TryRead.{ChannelOutcome, Turn, after_read, after_peek, try_read_rounds}
use libshmipc.Channel.TryRead.Rounds.{
  Tame, AllTame, Returns, Calm, Continues, Returns-later, Returns-before, peek_side-Empties,
  read_side-Empties,
}

abbrev oldest_size : List (List ℕ) → ℕ
oldest_size [] = 0
oldest_size (xs ∷ q) = length xs

module _ {k : ℕ} (fuel : ℕ) (others : List Turn)
    (again : IpcEntry → ChannelShm → Option ChannelOutcome) where
  after_read-Returns :
      (t : Turn) (roomy : IpcEntry) (bytes : List ℕ) (q : List (List ℕ)) (c : ChannelShm)
      → roomy.payload ≡ owned bytes
      → (roomy.size < oldest_size q → Continues k (t ∷ others) again)
      → Holds k q c.buffer
      → Returns k q
          (t ∷ others)
          (elim (ipc_buffer_read (suc (suc fuel)) valid valid roomy c.buffer) [
            | none ↦ none
            | some (r, dest, s) ↦ after_read again r dest (record c { buffer = s })
          ])
  unfolding after_read
  after_read-Returns t roomy bytes [] c own continues h =
      let (r, dest, s, e, moves, (done, same, holds)) = read_refines fuel roomy h in
      rw (e, done) (_, _, _, refl, inr (inl (refl, inl refl, holds)))
  after_read-Returns t roomy bytes (xs ∷ q) c own continues h =
      let (r, dest, s, e, moves, w) = read_refines fuel roomy h in
      elim w [
        | inl (small, refused, same, holds) ↦
            rw (e, refused)
              (continues small dest (record c { buffer = s }) (xs ∷ q) (inr (bytes, rw same own))
                holds)
        | inr (fits, got, (p, is, next), holds) ↦
            rw (e, got)
              (
                _,
                _,
                _,
                refl,
                inl (
                  refl,
                  record {
                    payload = xs;
                    behind = drop (length xs) bytes;
                    queue = q;
                    before = c.buffer;
                    was_oldest = h;
                    copied = rw (is, own) refl;
                    sized = rw is refl;
                    moved = moves;
                    taken = holds;
                  },
                ),
              )
      ]

  after_peek-Returns :
      (t : Turn) (q : List (List ℕ)) (dest : IpcEntry) (c : ChannelShm)
      → Calm t ⊎ Tame k t × Continues k (t ∷ others) again
      → Owns dest
      → Holds k q c.buffer
      → Returns k q
          (t ∷ others)
          (elim (ipc_buffer_peek (suc (suc fuel)) valid valid t.peek_entry c.buffer) [
            | none ↦ none
            | some (r, seen, s) ↦
                after_peek (suc (suc fuel)) t again r seen dest (record c { buffer = s })
          ])
  unfolding after_peek
  after_peek-Returns t [] dest c how own h =
      let (r, seen, s, e, moves, holds, (done, same)) = peek_refines fuel t.peek_entry h in
      rw (e, done) (_, _, _, refl, inr (inl (refl, inl refl, holds)))
  after_peek-Returns t (xs ∷ q) dest c how own h =
      let (r, seen, s, e, moves, holds, (done, at, size, place)) =
        peek_refines fuel t.peek_entry h in
      let c' : ChannelShm = record c { buffer = s } in
      elim (make_room-cases t seen.size dest own) [
        | inl (errno, f, fails) ↦
            rw (e, done, f) (_, _, _, refl, inr (inr (refl, inl (errno, fails), (xs ∷ q, holds))))
        | inr (roomy, bytes, f, mine, wide) ↦
            rw (e, done, f)
              (elim how [
                | inl calm ↦
                    after_read-Returns t roomy bytes (xs ∷ q) (t.before_read c') mine
                      (λ small. absurd (omega arith))
                      (subst (λ c. Holds k (xs ∷ q) c.buffer) (sym (calm c')) holds)
                | inr (tame, continues) ↦
                    let (q', h') = tame.read_side c' (xs ∷ q, holds) in
                    Returns-before k (xs ∷ q) q' (t ∷ others) _
                      (read_side-Empties t (xs ∷ q) q' c' others holds h')
                      (after_read-Returns t roomy bytes q' (t.before_read c') mine
                        (λ small. continues) h')
              ])
      ]

-- Other threads may do anything between the calls of the buffer that leaves it at rest. As soon as
-- they do nothing between the peek and the read of one turn, the rounds of `_try_read` return, in
-- that turn or before. The result is `ok`, and the destination has a payload that was the oldest one
-- when the buffer was read, which is then out of the queue; or `empty`, and the queue is empty, as it
-- was at the start unless other threads have emptied one in one of the turns up to that one; or
-- `err_system`, and the allocation of one of these turns fails. No other error comes out.
pub try_read-Returns :
    {k : ℕ} (q : List (List ℕ)) (fuel : ℕ) (turns : List Turn) (t : Turn) (later : List Turn)
    (dest : IpcEntry) (c : ChannelShm)
    → AllTame k turns
    → Tame k t
    → Calm t
    → Owns dest
    → Holds k q c.buffer
    → Returns k q
        (turns ++ (t ∷ []))
        (try_read_rounds (suc (suc fuel)) (turns ++ (t ∷ later)) dest c)
unfolding try_read_rounds
try_read-Returns {k} q fuel [] t later dest c others tame calm own holds =
    let (q', h) = tame.peek_side c (q, holds) in
    Returns-before k q q' (t ∷ []) _ (peek_side-Empties t q q' c [] holds h) (
      after_peek-Returns fuel [] (try_read_rounds (suc (suc fuel)) later) t q' dest
        (t.before_peek c) (inl calm) own h)
try_read-Returns {k} q fuel (u ∷ turns) t later dest c (unrest, others) tame calm own holds =
    let (q', h) = unrest.peek_side c (q, holds) in
    let run : List Turn = turns ++ (t ∷ []) in
    Returns-before k q q' (u ∷ run) _ (peek_side-Empties u q q' c run holds h) (
      after_peek-Returns fuel run (try_read_rounds (suc (suc fuel)) (turns ++ (t ∷ later))) u q'
        dest (u.before_peek c)
        (inr (
          unrest,
          λ dest c q own holds.
              Returns-later k q u run _
                (try_read-Returns q fuel turns t later dest c others tame calm own holds),
        ))
        own h)
