-- ===== src/Desfire/PlainIv.antt =====
-- deriveAesPlainRequestIv, deriveTktdesPlainRequestIv, deriveAesPlainResponseIv,
-- deriveTktdesPlainResponseIv and the two derivations for value operations, all of
-- ValueOperationCryptoUtils.h: the next IV is a CMAC over what was sent or received.
pub mod Laws
use nfc_cpp.Base.{
  ℕ, zero, suc, ◌+◌, ◌-◌, Bool, true, false, ◌&&◌, ◌||◌, not, List, [], ◌∷◌, length, leb,
}
use nfc_cpp.Base.{ltb, ◌==◌, if◌then◌else◌, Option, none, some, replicate, Error, from_desfire}
use nfc_cpp.Base.{Result, ok, err, fault, ◌>>=◌, ◌>>◌, guard, read, slice, on_true}
use nfc_cpp.Base.Codes.DesfireError
use nfc_cpp.Crypto.Ciphers.{Ciphers}
use nfc_cpp.Crypto.Cmac.{calculate_tktdes_cmac, calculate_aes_cmac}
use nfc_cpp.Desfire.Context.{DesfireContext}

-- `if (!call) return unexpected(e);`
abbrev pub or_else {ℓ} : {A : Type ℓ} → Result (Option A) → Error → Result A
or_else (ok none) e = err e
or_else (ok (some a)) e = ok a
or_else (err e') e = err e'
or_else fault e = fault

-- The comparing loop `xs[off + i] != cmac[i]`, with `n` rounds left.
unfoldable pub mac_matches : List ℕ → ℕ → List ℕ → ℕ → ℕ → Result Bool
mac_matches xs off cmac i zero = ok true
mac_matches xs off cmac i (suc n) = do
  a ← read xs (off + i)
  b ← read cmac i
  if a == b then mac_matches xs off cmac (i + 1) n else ok false

-- The IV that a chain starts from: the context's, or zeros where the caller allows it.
unfoldable pub initial_iv : ℕ → DesfireContext → Bool → Result (Option (List ℕ))
initial_iv size context use_zero_iv =
    if leb size (length context.iv)
    then (do iv ← slice context.iv 0 size; ok (some iv))
    else (if use_zero_iv then ok (some (replicate size 0x00)) else ok none)

module _ (c : Ciphers) where
  unfoldable pub derive_aes_plain_request_iv :
      DesfireContext → List ℕ → Bool → Result (Option (List ℕ))
  unfolding initial_iv
  derive_aes_plain_request_iv context message use_zero_iv =
      if not (leb 16 (length context.session_key_enc)) || (length message == 0)
      then ok none
      else on_true (initial_iv 16 context use_zero_iv) λ iv.
        on_true (calculate_aes_cmac c context.session_key_enc iv message)
          λ cmac. do out ← slice cmac 0 16; ok (some out)

  unfoldable pub derive_tktdes_plain_request_iv :
      DesfireContext → List ℕ → Bool → Result (Option (List ℕ))
  unfolding initial_iv
  derive_tktdes_plain_request_iv context message use_zero_iv =
      let key_length = length context.session_key_enc in
      if length message == 0
      then ok none
      else (if not (key_length == 16) && not (key_length == 24)
          then ok none
          else on_true (initial_iv 8 context use_zero_iv) λ iv.
            on_true (calculate_tktdes_cmac c context.session_key_enc key_length iv message)
              λ cmac. do out ← slice cmac 0 8; ok (some out))

  unfoldable pub derive_tktdes_plain_response_iv :
      List ℕ → DesfireContext → List ℕ → ℕ → Result (List ℕ)
  derive_tktdes_plain_response_iv response context request_iv truncated_cmac_length = do
    let key_length = length context.session_key_enc
    guard (not (length response == 0)) (from_desfire DesfireError.invalid_response)
    guard (leb truncated_cmac_length 8) (from_desfire DesfireError.parameter_error)
    guard (((key_length == 16) || (key_length == 24)) && (length request_iv == 8))
        (from_desfire DesfireError.invalid_state)
    guard ((length response == 1) || (length response == 1 + truncated_cmac_length))
        (from_desfire DesfireError.invalid_response)
    status_byte ← read response 0
    cmac ←
        or_else
          (calculate_tktdes_cmac c context.session_key_enc key_length request_iv (status_byte ∷ []))
          (from_desfire DesfireError.invalid_state)
    same ←
        if ltb 1 (length response)
        then mac_matches response 1 cmac 0 truncated_cmac_length
        else ok true
    guard same (from_desfire DesfireError.integrity_error)
    slice cmac 0 8

  unfoldable pub derive_tktdes_response_iv_for_value_operation :
      List ℕ → DesfireContext → List ℕ → Result (List ℕ)
  unfolding derive_tktdes_plain_response_iv
  derive_tktdes_response_iv_for_value_operation response context request_iv =
      derive_tktdes_plain_response_iv response context request_iv 8

  unfoldable pub derive_aes_plain_response_iv :
      List ℕ → DesfireContext → List ℕ → ℕ → Result (List ℕ)
  derive_aes_plain_response_iv response context request_iv truncated_cmac_length = do
    guard (not (length response == 0)) (from_desfire DesfireError.invalid_response)
    guard (leb truncated_cmac_length 16) (from_desfire DesfireError.parameter_error)
    guard (leb 16 (length context.session_key_enc) && (length request_iv == 16))
        (from_desfire DesfireError.invalid_state)
    guard ((length response == 1) || (length response == 1 + truncated_cmac_length))
        (from_desfire DesfireError.invalid_response)
    status_byte ← read response 0
    cmac ←
        or_else (calculate_aes_cmac c context.session_key_enc request_iv (status_byte ∷ []))
          (from_desfire DesfireError.invalid_state)
    same ←
        if ltb 1 (length response)
        then mac_matches response 1 cmac 0 truncated_cmac_length
        else ok true
    guard same (from_desfire DesfireError.integrity_error)
    slice cmac 0 16

  unfoldable pub derive_aes_response_iv_for_value_operation :
      List ℕ → DesfireContext → List ℕ → Result (List ℕ)
  derive_aes_response_iv_for_value_operation response context request_iv = do
    guard (not (length response == 0)) (from_desfire DesfireError.invalid_response)
    guard (leb 16 (length context.session_key_enc) && (length request_iv == 16))
        (from_desfire DesfireError.invalid_state)
    guard ((length response == 1) || (length response == 9))
        (from_desfire DesfireError.invalid_response)
    status_byte ← read response 0
    cmac ←
        or_else (calculate_aes_cmac c context.session_key_enc request_iv (status_byte ∷ []))
          (from_desfire DesfireError.invalid_state)
    same ← if length response == 9 then mac_matches response 1 cmac 0 8 else ok true
    guard same (from_desfire DesfireError.integrity_error)
    slice cmac 0 16
