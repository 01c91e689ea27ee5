-- ===== src/Base/Posts.antt =====
-- What holds after a step: of its value and the state if it succeeds, and of the state if it does
-- not.
use nfc_cpp.Base.Outcome.{Result, ok, err, fault}
use nfc_cpp.Base.Steps.{Step, after}

abbrev pub Post : {S A : Type 0} → (A → S → Type 0) → (S → Type 0) → Result A × S → Type 0
Post P Q (ok a, s) = P a s
Post P Q (err e, s) = Q s
Post P Q (fault, s) = Q s

pub after-Post :
    {S A B : Type 0} (P : A → S → Type 0) (R : B → S → Type 0) (Q : S → Type 0)
    (first : Result A × S) (rest : A → Step S B)
    → Post P Q first
    → ((a : A) (s : S) → P a s → Post R Q (rest a s))
    → Post R Q (after first rest)
after-Post P R Q (ok a, s) rest h k = k a s h
after-Post P R Q (err e, s) rest h k = h
after-Post P R Q (fault, s) rest h k = h

-- A call that does not touch the state keeps what holds of it.
pub lift-Post :
    {S A B : Type 0} (R : B → S → Type 0) (Q : S → Type 0) (r : Result A) (s : S)
    (rest : A → Step S B)
    → Q s
    → ((a : A) → Post R Q (rest a s))
    → Post R Q (after (r, s) rest)
lift-Post R Q (ok a) s rest q k = k a
lift-Post R Q (err e) s rest q k = q
lift-Post R Q fault s rest q k = q
