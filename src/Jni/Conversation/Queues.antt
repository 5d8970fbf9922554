-- ===== src/Jni/Conversation/Queues.antt =====
-- The queue, what was said and what was heard, turn by turn.
use libshmipc.Base.{
  ℕ, ◌^◌, ◌<◌, ◌≤◌, ◌≡◌, ◌⊎◌, inl, inr, ap, ◌∙◌, List, [], ◌∷◌, ◌++◌, some, length, arith,
}
use libshmipc.Jni.State.{JArray, no_array, array}
use libshmipc.Jni.Conversation.{Turn, messages, AllSmall, reach}

pub reach-le : (k : ℕ) (turns : List Turn) → 2 ^ k ≤ reach k turns
reach-le k [] = omega arith
reach-le k (turn ∷ turns) = omega arith

pub AllSmall-append :
    (q : List (List ℕ)) (xs : List ℕ)
    → AllSmall q
    → 0 < length xs
    → length xs < 2 ^ 31
    → AllSmall (q ++ (xs ∷ []))
AllSmall-append [] xs small some_bytes fits = (some_bytes, fits, tt)
AllSmall-append (ys ∷ q) xs (a, b, small) some_bytes fits =
    (a, b, AllSmall-append q xs small some_bytes fits)

-- A message that was got is the first of the queue, or there was none.
pub heard_through :
    (q q' accepted got rest : List (List ℕ)) (a : JArray) (heard : List JArray)
    → (a ≡ no_array) × (q ≡ q') ⊎ ((xs : List ℕ) × (a ≡ array xs) × (q ≡ xs ∷ q'))
    → messages heard ≡ some got
    → q' ++ accepted ≡ got ++ rest
    → (got' : List (List ℕ)) × (messages (a ∷ heard) ≡ some got') × (q ++ accepted ≡ got' ++ rest)
heard_through q q' accepted got rest a heard (inl (null, same)) msgs order =
    (got, rw (null, messages, msgs), ap (λ z. z ++ accepted) same ∙ order)
heard_through q q' accepted got rest a heard (inr (xs, is, same)) msgs order =
    (xs ∷ got, rw (is, messages, msgs), ap (λ z. z ++ accepted) same ∙ ap (λ z. xs ∷ z) order)
