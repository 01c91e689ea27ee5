-- ===== src/Desfire/Policy/Stable.antt =====
-- The session's cipher, which its IV's length helps to decide, outlives the operations.
use nfc_cpp.Base.{
  ℕ, ◌+◌, ◌-◌, ◌≡◌, refl, arith, Bool, true, false, inl, inr, Bool-cases, List, [], ◌∷◌, length,
  leb, ◌==◌, not, if◌then◌else◌, Result, ok, err, fault,
}
use nfc_cpp.Crypto.Ciphers.{Ciphers}
use nfc_cpp.Desfire.Context.{
  DesfireContext, set_context_iv, resolve_session_cipher, is_legacy_des_or_2k_session,
  use_legacy_des_crypto_mode, is_legacy_scheme,
}
use nfc_cpp.Desfire.Policy.{
  Outcome, commit_iv, apply_legacy_command_boundary_iv_policy, aes_mode, tktdes_mode, iv_mode,
}
use nfc_cpp.Desfire.Policy.{
  derive_plain_response_iv, update_context_iv_for_plain_command,
  verify_payload_and_update_context_iv, try_mac_lengths,
  verify_payload_auto_mac_and_update_context_iv, update_context_iv_for_value_operation_response,
  trailing_block_iv, update_context_iv_from_encrypted_ciphertext,
}
use nfc_cpp.Desfire.Policy.Frame.{
  IsFramed, in_no_mode, in_legacy_mode, in_aes_mode, in_tktdes_mode, mode_view,
  verify_payload_and_update_context_iv-IsFramed,
}
use nfc_cpp.Desfire.Policy.Lengths.{
  IsLong, slice-IsLong, bind-IsLong, or_else-IsLong, derive_aes_plain_response_iv-IsLong,
  derive_tktdes_plain_response_iv-IsLong, derive_aes_response_iv_for_value_operation-IsLong,
  derive_tktdes_response_iv_for_value_operation-IsLong,
  verify_aes_authenticated_plain_payload-IsLongOut,
  verify_tktdes_authenticated_plain_payload-IsLongOut,
}

-- The context that is left resolves to the cipher that it resolved to before.
pub record KeepsCipher {A : Type 0} (context : DesfireContext) (o : Outcome A) : Type 0 where
  pub same_cipher : resolve_session_cipher o.1 ≡ resolve_session_cipher context

aes_iv :
    (context : DesfireContext) (iv : List ℕ)
    → iv_mode context ≡ aes_mode
    → length iv ≡ 16
    → resolve_session_cipher (record context { iv = iv }) ≡ resolve_session_cipher context
unfolding iv_mode resolve_session_cipher
aes_iv context iv m h = ground arith

tktdes_iv :
    (context : DesfireContext) (iv : List ℕ)
    → iv_mode context ≡ tktdes_mode
    → length iv ≡ 8
    → resolve_session_cipher (record context { iv = iv }) ≡ resolve_session_cipher context
unfolding iv_mode resolve_session_cipher
tktdes_iv context iv m h = ground arith

legacy-KeepsCipher :
    (context : DesfireContext)
    → KeepsCipher {A = Unit {0}} context (ok tt, apply_legacy_command_boundary_iv_policy context)
unfolding apply_legacy_command_boundary_iv_policy is_legacy_des_or_2k_session resolve_session_cipher
    use_legacy_des_crypto_mode is_legacy_scheme
legacy-KeepsCipher context = record { same_cipher = ground arith }

kept_cipher :
    {A : Type 0} (context : DesfireContext) (r : Result A) → KeepsCipher context (r, context)
kept_cipher context r = record { same_cipher = refl }

if-KeepsCipher :
    {A : Type 0} (context : DesfireContext) (b : Bool) {x y : Outcome A}
    → KeepsCipher context x
    → KeepsCipher context y
    → KeepsCipher context (if b then x else y)
if-KeepsCipher context true h k = h
if-KeepsCipher context false h k = k

commit_iv-KeepsCipher :
    {A : Type 0} (context : DesfireContext) (value : A) (r : Result (List ℕ)) (size : ℕ)
    → ((iv : List ℕ)
        → length iv ≡ size
        → resolve_session_cipher (record context { iv = iv }) ≡ resolve_session_cipher context)
    → IsLong size r
    → KeepsCipher context (commit_iv context value r)
unfolding commit_iv set_context_iv
commit_iv-KeepsCipher context value (err e) size same long = kept_cipher context (err e)
commit_iv-KeepsCipher context value fault size same long = kept_cipher context fault
commit_iv-KeepsCipher context value (ok iv) size same long =
    elim (Bool-cases (leb (0 + length iv) 16)) [
      | inl e ↦ record { same_cipher = rw (e, commit_iv) (same iv (long.length-out iv refl)) }
      | inr e ↦ record { same_cipher = rw (e, commit_iv) refl }
    ]

module _ {A : Type 0} (context : DesfireContext) (value : A) (r : Result (List ℕ)) where
  aes-KeepsCipher :
      iv_mode context ≡ aes_mode → IsLong 16 r → KeepsCipher context (commit_iv context value r)
  aes-KeepsCipher m = commit_iv-KeepsCipher context value r 16 (λ iv. aes_iv context iv m)

  tktdes-KeepsCipher :
      iv_mode context ≡ tktdes_mode → IsLong 8 r → KeepsCipher context (commit_iv context value r)
  tktdes-KeepsCipher m = commit_iv-KeepsCipher context value r 8 (λ iv. tktdes_iv context iv m)

ruleset keeping = (
  if-KeepsCipher, kept_cipher, legacy-KeepsCipher, aes-KeepsCipher, tktdes-KeepsCipher,
  or_else-IsLong, bind-IsLong,
)

trailing_aes-KeepsCipher :
    (context : DesfireContext) (ciphertext : List ℕ)
    → iv_mode context ≡ aes_mode
    → KeepsCipher context (trailing_block_iv context ciphertext 16)
unfolding trailing_block_iv
trailing_aes-KeepsCipher context ciphertext m = search (keeping, slice-IsLong)

trailing_tktdes-KeepsCipher :
    (context : DesfireContext) (ciphertext : List ℕ)
    → iv_mode context ≡ tktdes_mode
    → KeepsCipher context (trailing_block_iv context ciphertext 8)
unfolding trailing_block_iv
trailing_tktdes-KeepsCipher context ciphertext m = search (keeping, slice-IsLong)

-- Taking the IV from a ciphertext leaves a session that resolves to the same cipher.
pub update_context_iv_from_encrypted_ciphertext-KeepsCipher :
    (context : DesfireContext) (ciphertext : List ℕ)
    → KeepsCipher context (update_context_iv_from_encrypted_ciphertext context ciphertext)
unfolding update_context_iv_from_encrypted_ciphertext
update_context_iv_from_encrypted_ciphertext-KeepsCipher context ciphertext =
    elim (mode_view (iv_mode context)) [
      | in_no_mode e ↦ rw e (search (keeping))
      | in_legacy_mode e ↦ rw e (search (keeping))
      | in_aes_mode e ↦ rw e (search (keeping, trailing_aes-KeepsCipher))
      | in_tktdes_mode e ↦ rw e (search (keeping, trailing_tktdes-KeepsCipher))
    ]

module _ (c : Ciphers) where
  -- The IV update after a value operation leaves a session that resolves to the same cipher.
  pub update_context_iv_for_value_operation_response-KeepsCipher :
      (context : DesfireContext) (response request_state : List ℕ)
      → KeepsCipher context
          (update_context_iv_for_value_operation_response c context response request_state)
  unfolding update_context_iv_for_value_operation_response
  update_context_iv_for_value_operation_response-KeepsCipher context response request_state =
      elim (mode_view (iv_mode context)) [
        | in_no_mode e ↦ rw e (search (keeping))
        | in_legacy_mode e ↦ rw e (search (keeping))
        | in_aes_mode e ↦ rw e (search (keeping, derive_aes_response_iv_for_value_operation-IsLong))
        | in_tktdes_mode e ↦
            rw e (search (keeping, derive_tktdes_response_iv_for_value_operation-IsLong))
      ]

  module _ (context : DesfireContext) (response request_iv : List ℕ) (n : ℕ) where
    aes_response-IsLong :
        iv_mode context ≡ aes_mode
        → IsLong 16 (derive_plain_response_iv c context response request_iv n)
    unfolding derive_plain_response_iv
    aes_response-IsLong e =
        rw (e, derive_plain_response_iv)
          (derive_aes_plain_response_iv-IsLong c response context request_iv n)

    tktdes_response-IsLong :
        iv_mode context ≡ tktdes_mode
        → IsLong 8 (derive_plain_response_iv c context response request_iv n)
    unfolding derive_plain_response_iv
    tktdes_response-IsLong e =
        rw (e, derive_plain_response_iv)
          (derive_tktdes_plain_response_iv-IsLong c response context request_iv n)

  -- The IV update after a plain command leaves a session that resolves to the same cipher.
  pub update_context_iv_for_plain_command-KeepsCipher :
      (context : DesfireContext) (request response : List ℕ) (n : ℕ)
      → KeepsCipher context (update_context_iv_for_plain_command c context request response n)
  unfolding update_context_iv_for_plain_command
  update_context_iv_for_plain_command-KeepsCipher context request response n =
      elim (mode_view (iv_mode context)) [
        | in_no_mode e ↦ rw e (search (keeping))
        | in_legacy_mode e ↦ rw e (search (keeping))
        | in_aes_mode e ↦ rw e (search (keeping, aes_response-IsLong) depth 8)
        | in_tktdes_mode e ↦ rw e (search (keeping, tktdes_response-IsLong) depth 8)
      ]

  module _ (payload_and_mac : List ℕ) (status : ℕ) (request_iv : List ℕ) (payload_length : ℕ) where
    verify_payload_and_update_context_iv-KeepsCipher :
        (context : DesfireContext) (n : ℕ)
        → KeepsCipher context (
            verify_payload_and_update_context_iv c context payload_and_mac status request_iv
              payload_length n)
    unfolding verify_payload_and_update_context_iv
    verify_payload_and_update_context_iv-KeepsCipher context n =
        elim (mode_view (iv_mode context)) [
          | in_no_mode e ↦ rw e (search (keeping))
          | in_legacy_mode e ↦ rw e (search (keeping))
          | in_aes_mode e ↦
              rw e (search (keeping, verify_aes_authenticated_plain_payload-IsLongOut) depth 10)
          | in_tktdes_mode e ↦
              rw e (search (keeping, verify_tktdes_authenticated_plain_payload-IsLongOut) depth 10)
        ]

    try_mac_lengths-KeepsCipher :
        (context : DesfireContext) (ns : List ℕ)
        → KeepsCipher context
            (try_mac_lengths c context payload_and_mac status request_iv payload_length ns)
    unfolding try_mac_lengths
    try_mac_lengths-KeepsCipher context [] = kept_cipher context _
    try_mac_lengths-KeepsCipher context (n ∷ ns) =
        let here = verify_payload_and_update_context_iv-KeepsCipher context n in
        let frame =
          verify_payload_and_update_context_iv-IsFramed c payload_and_mac status request_iv
            payload_length context n in
        let rest = try_mac_lengths-KeepsCipher context ns in
        elim (Bool-cases (not (length payload_and_mac - payload_length == n))) [
          | inl e ↦ rw (e, try_mac_lengths) rest
          | inr e ↦ rw (e, try_mac_lengths) (tried _ _ here frame rest)
        ]
      where
        tried :
            (result : Result (Unit {0})) (after : DesfireContext)
            → KeepsCipher context (result, after)
            → IsFramed context (result, after)
            → KeepsCipher context
                (try_mac_lengths c context payload_and_mac status request_iv payload_length ns)
            → KeepsCipher context (elim result [
              | ok done ↦ (ok n, after)
              | err e ↦ try_mac_lengths c after payload_and_mac status request_iv payload_length ns
              | fault ↦ (fault, after)
            ])
        tried (ok done) after here frame rest = record { same_cipher = here.same_cipher }
        tried (err e) after here frame rest = rw (frame.on_error e refl) rest
        tried fault after here frame rest = record { same_cipher = here.same_cipher }

    -- Verifying a payload with the MAC length among 8, 4 and 0 that was received leaves a session
    -- that resolves to the same cipher, whatever the outcome.
    pub verify_payload_auto_mac_and_update_context_iv-KeepsCipher :
        (context : DesfireContext)
        → KeepsCipher context (
            verify_payload_auto_mac_and_update_context_iv c context payload_and_mac status
              request_iv payload_length)
    unfolding verify_payload_auto_mac_and_update_context_iv
    verify_payload_auto_mac_and_update_context_iv-KeepsCipher context =
        search (keeping, try_mac_lengths-KeepsCipher)
