-- ===== src/Tests/States.antt =====
-- Concrete buffers for the tests: 128 bytes of data, empty, with one message, and with a placeholder
-- at the head.
use libshmipc.Base.{ℕ, refl, List, [], ◌∷◌, arith}
use libshmipc.Buffer.State.{Shm}
use libshmipc.Buffer.Layout.{message, IsValid, Holds}
use libshmipc.Buffer.Create.Outcome.{initialised, initialised-IsValid, initialised-Holds}
use libshmipc.Buffer.Write.Entry.{after_message}
use libshmipc.Buffer.Write.Valid.{after_message-IsValid}

-- Memory as it comes from the system, before the buffer is created.
abbrev pub raw : Shm
raw = record { head = 7; data_size = 9; tail = 5; region = λ i. 0 }

abbrev pub fresh : Shm
fresh = initialised 128 raw

abbrev pub hello : List ℕ
hello = 104 ∷ 101 ∷ 108 ∷ 108 ∷ 111 ∷ []

pub fresh-Holds : Holds 7 [] fresh
fresh-Holds = initialised-Holds 7 raw (omega arith)

abbrev pub one_message : Shm
one_message = after_message 7 hello fresh

pub one_message-IsValid : IsValid 7 (message hello ∷ []) one_message
one_message-IsValid =
    after_message-IsValid (initialised-IsValid 7 raw (omega arith)) hello (omega arith)
      (omega arith) (omega arith) (omega arith)

pub one_message-Holds : Holds 7 (hello ∷ []) one_message
one_message-Holds = record {
  slots = message hello ∷ [];
  valid = one_message-IsValid;
  contents = refl;
}
