-- ===== src/System.antt =====
-- What the operating system answers: the calls are not code of the library, so their answers are
-- arguments of the model.
use libshmipc.Base.{ℕ, ◌≡◌, ◌⊎◌, inl, inr, refl}

-- A system call returns a value, or it fails and sets `errno`.
pub data Answer (A : Type 0) : Type 0 where
  returned : A → Answer A
  raised : ℕ → Answer A

-- The numbers of `errno` on Linux that the sources compare with.
abbrev pub eintr : ℕ
eintr = 4

abbrev pub eagain : ℕ
eagain = 11

abbrev pub eexist : ℕ
eexist = 17

abbrev pub etimedout : ℕ
etimedout = 110

pub Answer-cases :
    {A : Type 0} (a : Answer A) → ((v : A) × (a ≡ returned v)) ⊎ ((errno : ℕ) × (a ≡ raised errno))
Answer-cases (returned v) = inl (v, refl)
Answer-cases (raised errno) = inr (errno, refl)
