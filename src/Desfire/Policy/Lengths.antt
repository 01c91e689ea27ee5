-- ===== src/Desfire/Policy/Lengths.antt =====
-- The lengths of the IVs that the derivations and the verifications hand out.
use nfc_cpp.Base.{
  ℕ, ◌+◌, ◌≡◌, arith, Bool, true, false, inl, inr, Bool-cases, List, length, leb, if◌then◌else◌,
  Option, none, some, Error, Result, ok, err, fault, ◌>>=◌, slice, length-slice, on_true, leb→le,
  slice_in,
}
use nfc_cpp.Crypto.Ciphers.{Ciphers}
use nfc_cpp.Desfire.Context.{DesfireContext}
use nfc_cpp.Desfire.PlainIv.{
  or_else, derive_aes_plain_response_iv, derive_tktdes_plain_response_iv,
  derive_aes_response_iv_for_value_operation, derive_tktdes_response_iv_for_value_operation,
}
use nfc_cpp.Desfire.Verify.{
  accept_mac, verify_aes_authenticated_plain_payload, verify_tktdes_authenticated_plain_payload,
}

-- A result, if there is one, has `n` bytes.
pub record IsLong (n : ℕ) (r : Result (List ℕ)) : Type 0 where
  pub length-out : (out : List ℕ) → r ≡ ok out → length out ≡ n

pub err-IsLong : (n : ℕ) (e : Error) → IsLong n (err e)
err-IsLong n e = record { length-out = λ out h. cc }

pub bind-IsLong :
    {A : Type 0} (n : ℕ) (m : Result A) (f : A → Result (List ℕ))
    → ((a : A) → IsLong n (f a))
    → IsLong n (m >>= f)
bind-IsLong n (ok a) f h = h a
bind-IsLong n (err e) f h = record { length-out = λ out e. cc }
bind-IsLong n fault f h = record { length-out = λ out e. cc }

pub slice-IsLong : (xs : List ℕ) (off n : ℕ) → IsLong n (slice xs off n)
slice-IsLong xs off n = elim (Bool-cases (leb (off + n) (length xs))) [
  | inl e ↦ record {
    length-out =
        λ out h. cc (h, slice_in xs off n (leb→le _ _ e), length-slice xs off n (leb→le _ _ e));
  }
  | inr e ↦ record { length-out = λ out h. unfold slice in ground arith }
]

ruleset long = (bind-IsLong, slice-IsLong, err-IsLong)

module _ (c : Ciphers) where
  pub derive_aes_plain_response_iv-IsLong :
      (response : List ℕ) (context : DesfireContext) (iv : List ℕ) (n : ℕ)
      → IsLong 16 (derive_aes_plain_response_iv c response context iv n)
  unfolding derive_aes_plain_response_iv
  derive_aes_plain_response_iv-IsLong response context iv n = search (long) depth 14

  pub derive_tktdes_plain_response_iv-IsLong :
      (response : List ℕ) (context : DesfireContext) (iv : List ℕ) (n : ℕ)
      → IsLong 8 (derive_tktdes_plain_response_iv c response context iv n)
  unfolding derive_tktdes_plain_response_iv
  derive_tktdes_plain_response_iv-IsLong response context iv n = search (long) depth 14

  pub derive_aes_response_iv_for_value_operation-IsLong :
      (response : List ℕ) (context : DesfireContext) (iv : List ℕ)
      → IsLong 16 (derive_aes_response_iv_for_value_operation c response context iv)
  unfolding derive_aes_response_iv_for_value_operation
  derive_aes_response_iv_for_value_operation-IsLong response context iv = search (long) depth 14

  pub derive_tktdes_response_iv_for_value_operation-IsLong :
      (response : List ℕ) (context : DesfireContext) (iv : List ℕ)
      → IsLong 8 (derive_tktdes_response_iv_for_value_operation c response context iv)
  unfolding derive_tktdes_response_iv_for_value_operation
  derive_tktdes_response_iv_for_value_operation-IsLong response context iv =
      derive_tktdes_plain_response_iv-IsLong response context iv 8

-- The same of an out-parameter behind a `bool`.
pub record IsLongOut (n : ℕ) (r : Result (Option (List ℕ))) : Type 0 where
  pub length-out : (out : List ℕ) → r ≡ ok (some out) → length out ≡ n

pub or_else-IsLong :
    (n : ℕ) (r : Result (Option (List ℕ))) (e : Error) → IsLongOut n r → IsLong n (or_else r e)
or_else-IsLong n (ok none) e h = record { length-out = λ out k. cc }
or_else-IsLong n (ok (some a)) e h = record { length-out = λ out k. h.length-out out (cc k) }
or_else-IsLong n (err e') e h = record { length-out = λ out k. cc }
or_else-IsLong n fault e h = record { length-out = λ out k. cc }

bind-IsLongOut :
    {A : Type 0} (n : ℕ) (m : Result A) (f : A → Result (Option (List ℕ)))
    → ((a : A) → IsLongOut n (f a))
    → IsLongOut n (m >>= f)
bind-IsLongOut n (ok a) f h = h a
bind-IsLongOut n (err e) f h = record { length-out = λ out e. cc }
bind-IsLongOut n fault f h = record { length-out = λ out e. cc }

on_true-IsLongOut :
    {A : Type 0} (n : ℕ) (m : Result (Option A)) (f : A → Result (Option (List ℕ)))
    → ((a : A) → IsLongOut n (f a))
    → IsLongOut n (on_true m f)
on_true-IsLongOut n (ok none) f h = record { length-out = λ out e. cc }
on_true-IsLongOut n (ok (some a)) f h = h a
on_true-IsLongOut n (err e) f h = record { length-out = λ out e. cc }
on_true-IsLongOut n fault f h = record { length-out = λ out e. cc }

if-IsLongOut :
    (n : ℕ) (b : Bool) (x y : Result (Option (List ℕ)))
    → IsLongOut n x
    → IsLongOut n y
    → IsLongOut n (if b then x else y)
if-IsLongOut n true x y h k = h
if-IsLongOut n false x y h k = k

none-IsLongOut : (n : ℕ) → IsLongOut n (ok none)
none-IsLongOut n = record { length-out = λ out e. cc }

slice-IsLongOut : (xs : List ℕ) (off n : ℕ) → IsLongOut n (do out ← slice xs off n; ok (some out))
slice-IsLongOut xs off n = some_out (slice xs off n) (slice-IsLong xs off n)
  where
    some_out : (r : Result (List ℕ)) → IsLong n r → IsLongOut n (do out ← r; ok (some out))
    some_out (ok a) h = record { length-out = λ out e. h.length-out out (cc e) }
    some_out (err e) h = record { length-out = λ out e. cc }
    some_out fault h = record { length-out = λ out e. cc }

ruleset long_out =
    (slice-IsLongOut, none-IsLongOut, if-IsLongOut, on_true-IsLongOut, bind-IsLongOut)

accept_mac-IsLongOut :
    (payload_and_mac cmac : List ℕ) (payload_length n size : ℕ)
    → IsLongOut size (accept_mac payload_and_mac cmac payload_length n size)
unfolding accept_mac
accept_mac-IsLongOut payload_and_mac cmac payload_length n size = search (long_out) depth 14

module _ (c : Ciphers) (payload_and_mac : List ℕ) (status : ℕ) (context : DesfireContext)
    (iv : List ℕ) (payload_length n : ℕ) where
  pub verify_aes_authenticated_plain_payload-IsLongOut :
      IsLongOut 16 (
        verify_aes_authenticated_plain_payload c payload_and_mac status context iv payload_length n)
  unfolding verify_aes_authenticated_plain_payload
  verify_aes_authenticated_plain_payload-IsLongOut =
      search (accept_mac-IsLongOut, long_out) depth 14

  pub verify_tktdes_authenticated_plain_payload-IsLongOut : IsLongOut 8 (
      verify_tktdes_authenticated_plain_payload c payload_and_mac status context iv payload_length
        n)
  unfolding verify_tktdes_authenticated_plain_payload
  verify_tktdes_authenticated_plain_payload-IsLongOut =
      search (accept_mac-IsLongOut, long_out) depth 14
