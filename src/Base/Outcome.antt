-- ===== src/Base/Outcome.antt =====
-- The outcome of a call: a value or an error of `etl::expected`, or a fault. A fault is what C++
-- leaves undefined: an access out of range, or a push onto a full `etl::vector`.
use mathlib.Core.Path.{◌≡◌, refl}
use mathlib.Core.Bool.{Bool, true, false}
use mathlib.Core.Option.{Option, none, some}
use mathlib.Core.Logic.{◌≢◌}
use nfc_cpp.Base.Errors.{Error}

pub data Result {ℓ} (A : Type ℓ) : Type ℓ where
  fault : Result A
  err : Error → Result A
  ok : A → Result A

-- `if (!test) return unexpected(e);`
abbrev pub guard : (test : Bool) (otherwise : Error) → Result (Unit {0})
guard false otherwise = err otherwise
guard true otherwise = ok tt

-- The rest of a body runs on the value; an error or a fault ends the call.
infixl 5 ◌>>=◌ ◌>>◌
abbrev pub ◌>>=◌ {ℓ κ} :
    {A : Type ℓ} {B : Type κ} (call : Result A) (rest : A → Result B) → Result B
fault >>= rest = fault
err otherwise >>= rest = err otherwise
ok value >>= rest = rest value

abbrev pub ◌>>◌ {ℓ} : {B : Type ℓ} (call : Result (Unit {0})) (rest : Result B) → Result B
call >> rest = call >>= λ done. rest

-- A value that is read where there may be none.
abbrev pub or_fault {ℓ} : {A : Type ℓ} → Option A → Result A
or_fault none = fault
or_fault (some a) = ok a

-- The call returned, with a value or an error.
abbrev pub Returns {ℓ} : {A : Type ℓ} → Result A → Type 0
Returns (ok a) = Unit
Returns (err e) = Unit
Returns fault = ⊥

-- A call that ended with a value ran its first part to a value.
pub >>=-eq-ok {ℓ κ} :
    {A : Type ℓ} {B : Type κ} (call : Result A) (rest : A → Result B) {out : B}
    → (call >>= rest) ≡ ok out
    → (value : A) × (call ≡ ok value) × (rest value ≡ ok out)
>>=-eq-ok fault rest e = cc
>>=-eq-ok (err otherwise) rest e = cc
>>=-eq-ok (ok value) rest e = (value, refl, e)

pub Returns-ok {ℓ} : {A : Type ℓ} (m : Result A) {a : A} → m ≡ ok a → Returns m
Returns-ok (ok a) h = tt
Returns-ok (err e) h = tt
Returns-ok fault h = cc

pub Returns-ne-fault {ℓ} : {A : Type ℓ} (m : Result A) → m ≢ fault → Returns m
Returns-ne-fault (ok a) h = tt
Returns-ne-fault (err e) h = tt
Returns-ne-fault fault h = h refl

-- A call that returns `bool` and writes its value through a pointer: `none` is `false`. The rest is
-- run behind `if (!call) return false;`.
abbrev pub on_true {ℓ κ} :
    {A : Type ℓ} {B : Type κ} → Result (Option A) → (A → Result (Option B)) → Result (Option B)
on_true (ok none) k = ok none
on_true (ok (some a)) k = k a
on_true (err e) k = err e
on_true fault k = fault
