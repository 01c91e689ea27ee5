-- ===== src/Base/Steps.antt =====
-- Code that changes an object: a step takes the object's state and leaves a result and a state. An
-- error or a fault ends the steps and keeps the state that it met.
use nfc_cpp.Base.Outcome.{Result, ok, err, fault}

abbrev pub Step : Type 0 → Type 0 → Type 0
Step S A = S → Result A × S

-- The rest of the steps, behind a step that has run.
abbrev pub after : {S A B : Type 0} → Result A × S → (A → Step S B) → Result B × S
after (ok a, s) rest = rest a s
after (err e, s) rest = (err e, s)
after (fault, s) rest = (fault, s)

infixl 5 ◌>>=◌
abbrev pub ◌>>=◌ : {S A B : Type 0} → Step S A → (A → Step S B) → Step S B
(first >>= rest) s = after (first s) rest

-- A call that does not touch the state.
abbrev pub lift : {S A : Type 0} → Result A → Step S A
lift r s = (r, s)
