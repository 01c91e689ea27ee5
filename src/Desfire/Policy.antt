-- ===== src/Desfire/Policy.antt =====
-- SecureMessagingPolicy of Src/Nfc/Desfire/SecureMessagingPolicy.cpp: the operations that derive,
-- check and replace the session's IV. An operation on `DesfireContext&` returns its result and the
-- context that it leaves.
pub mod Frame
pub mod Lengths
pub mod Stable
use nfc_cpp.Base.{ℕ, ◌+◌, ◌-◌, Bool, true, false, ◌||◌, ◌&&◌, not, List, [], ◌∷◌, length, replicate}
use nfc_cpp.Base.{leb, ltb, ◌==◌, if◌then◌else◌, Option, none, some, Error, from_desfire}
use nfc_cpp.Base.{Result, ok, err, fault, ◌>>=◌, slice}
use nfc_cpp.Base.Codes.DesfireError
use nfc_cpp.Crypto.Ciphers.{Ciphers}
use nfc_cpp.Desfire.Context.{DesfireContext, SessionCipher, des, des3_2k, des3_3k, unknown}
use nfc_cpp.Desfire.Context.{resolve_session_cipher, is_legacy_des_or_2k_session, set_context_iv}
use nfc_cpp.Desfire.PlainIv.{or_else, derive_aes_plain_request_iv, derive_tktdes_plain_request_iv}
use nfc_cpp.Desfire.PlainIv.{derive_aes_plain_response_iv, derive_tktdes_plain_response_iv}
use nfc_cpp.Desfire.PlainIv.{derive_aes_response_iv_for_value_operation}
use nfc_cpp.Desfire.PlainIv.{derive_tktdes_response_iv_for_value_operation}
use nfc_cpp.Desfire.Verify.{verify_aes_authenticated_plain_payload}
use nfc_cpp.Desfire.Verify.{verify_tktdes_authenticated_plain_payload}

abbrev pub Outcome : Type 0 → Type 0
Outcome A = Result A × DesfireContext

-- `return unexpected(e);` with the context as it is.
abbrev pub refuse : {A : Type 0} → DesfireContext → ℕ → Outcome A
refuse context code = (err (from_desfire code), context)

-- `setContextIv(context, iv); return value;` behind a derivation that may have failed.
unfoldable pub commit_iv : {A : Type 0} → DesfireContext → A → Result (List ℕ) → Outcome A
commit_iv context value (err e) = (err e, context)
commit_iv context value fault = (fault, context)
commit_iv context value (ok iv) = elim (set_context_iv context iv) [
  | ok context' ↦ (ok value, context')
  | err e ↦ (err e, context)
  | fault ↦ (fault, context)
]

-- applyLegacyCommandBoundaryIvPolicy
unfoldable pub apply_legacy_command_boundary_iv_policy : DesfireContext → DesfireContext
apply_legacy_command_boundary_iv_policy context =
    if not (is_legacy_des_or_2k_session context)
    then context
    else record context { iv = replicate 8 0x00 }

-- Which of the chaining modes a session's cipher has.
pub data IvMode : Type 0 where
  no_mode legacy_mode aes_mode tktdes_mode : IvMode

-- The tests `cipher == AES`, `cipher == DES3_3K || (cipher == DES3_2K && !legacy)` and
-- `cipher == DES || (cipher == DES3_2K && legacy)` that the operations share.
unfoldable pub iv_mode : DesfireContext → IvMode
unfolding is_legacy_des_or_2k_session
iv_mode context = elim (resolve_session_cipher context) [
  | SessionCipher.aes ↦ aes_mode
  | des3_3k ↦ tktdes_mode
  | des3_2k ↦ if is_legacy_des_or_2k_session context then legacy_mode else tktdes_mode
  | des ↦ legacy_mode
  | unknown ↦ no_mode
]

-- `!context.authenticated || context.sessionKeyEnc.empty()`
unfoldable pub has_no_session : DesfireContext → Bool
has_no_session context = not context.authenticated || (length context.session_key_enc == 0)

module _ (c : Ciphers) where
  unfoldable pub derive_plain_request_iv : DesfireContext → List ℕ → Bool → Result (List ℕ)
  derive_plain_request_iv context message use_zero_iv =
      if length message == 0
      then err (from_desfire DesfireError.parameter_error)
      else (elim (iv_mode context) [
        | aes_mode ↦
            or_else (derive_aes_plain_request_iv c context message use_zero_iv)
              (from_desfire DesfireError.invalid_state)
        | tktdes_mode ↦
            or_else (derive_tktdes_plain_request_iv c context message use_zero_iv)
              (from_desfire DesfireError.invalid_state)
        | legacy_mode ↦ err (from_desfire DesfireError.invalid_state)
        | no_mode ↦ err (from_desfire DesfireError.invalid_state)
      ])

  unfoldable pub derive_plain_response_iv : DesfireContext → List ℕ → List ℕ → ℕ → Result (List ℕ)
  derive_plain_response_iv context response request_iv truncated_cmac_length =
      elim (iv_mode context) [
        | aes_mode ↦
            derive_aes_plain_response_iv c response context request_iv truncated_cmac_length
        | tktdes_mode ↦
            derive_tktdes_plain_response_iv c response context request_iv truncated_cmac_length
        | legacy_mode ↦ err (from_desfire DesfireError.invalid_state)
        | no_mode ↦ err (from_desfire DesfireError.invalid_state)
      ]

  unfoldable pub update_context_iv_for_plain_command :
      DesfireContext → List ℕ → List ℕ → ℕ → Outcome (Unit {0})
  update_context_iv_for_plain_command context request response truncated_cmac_length =
      if has_no_session context then (ok tt, context) else (elim (iv_mode context) [
        | no_mode ↦ (ok tt, context)
        | legacy_mode ↦ (ok tt, apply_legacy_command_boundary_iv_policy context)
        | _ ↦ commit_iv context tt (do
          request_iv ← derive_plain_request_iv context request false
          derive_plain_response_iv context response request_iv truncated_cmac_length)
      ])

  unfoldable pub verify_payload_and_update_context_iv :
      DesfireContext → List ℕ → ℕ → List ℕ → ℕ → ℕ → Outcome (Unit {0})
  verify_payload_and_update_context_iv context payload_and_mac status_code request_iv payload_length
        truncated_cmac_length =
      if ltb (length payload_and_mac) payload_length
      then refuse context DesfireError.invalid_response
      else (if not (length payload_and_mac - payload_length == truncated_cmac_length)
          then refuse context DesfireError.invalid_response
          else (if has_no_session context
              then refuse context DesfireError.invalid_state
              else (elim (iv_mode context) [
                | no_mode ↦ refuse context DesfireError.invalid_state
                | legacy_mode ↦ refuse context DesfireError.invalid_state
                | aes_mode ↦ commit_iv context tt (
                    or_else
                      (verify_aes_authenticated_plain_payload c payload_and_mac status_code context
                        request_iv payload_length truncated_cmac_length)
                      (from_desfire DesfireError.integrity_error))
                | tktdes_mode ↦ commit_iv context tt (
                    or_else
                      (verify_tktdes_authenticated_plain_payload c payload_and_mac status_code
                        context request_iv payload_length truncated_cmac_length)
                      (from_desfire DesfireError.integrity_error))
              ])))

  -- The loop over the MAC lengths that are left to try.
  unfoldable pub try_mac_lengths : DesfireContext → List ℕ → ℕ → List ℕ → ℕ → List ℕ → Outcome ℕ
  try_mac_lengths context payload_and_mac status_code request_iv payload_length [] =
      refuse context DesfireError.invalid_response
  try_mac_lengths context payload_and_mac status_code request_iv payload_length (n ∷ ns) =
      elim (not (length payload_and_mac - payload_length == n)) [
        | true ↦ try_mac_lengths context payload_and_mac status_code request_iv payload_length ns
        | false ↦
            let (result, context') =
              verify_payload_and_update_context_iv context payload_and_mac status_code request_iv
                payload_length n in
            elim result [
              | ok done ↦ (ok n, context')
              | err e ↦
                  try_mac_lengths context' payload_and_mac status_code request_iv payload_length ns
              | fault ↦ (fault, context')
            ]
      ]

  unfoldable pub verify_payload_auto_mac_and_update_context_iv :
      DesfireContext → List ℕ → ℕ → List ℕ → ℕ → Outcome ℕ
  unfolding try_mac_lengths
  verify_payload_auto_mac_and_update_context_iv context payload_and_mac status_code request_iv
        payload_length =
      if ltb (length payload_and_mac) payload_length
      then refuse context DesfireError.invalid_response
      else try_mac_lengths context payload_and_mac status_code request_iv payload_length
          (8 ∷ 4 ∷ 0 ∷ [])

  unfoldable pub update_context_iv_for_value_operation_response :
      DesfireContext → List ℕ → List ℕ → Outcome (Unit {0})
  update_context_iv_for_value_operation_response context response request_state =
      if length response == 0
      then refuse context DesfireError.invalid_response
      else (if has_no_session context
          then refuse context DesfireError.invalid_state
          else (elim (iv_mode context) [
            | no_mode ↦ refuse context DesfireError.invalid_state
            | legacy_mode ↦ (ok tt, apply_legacy_command_boundary_iv_policy context)
            | aes_mode ↦
                commit_iv context tt
                  (derive_aes_response_iv_for_value_operation c response context request_state)
            | tktdes_mode ↦
                commit_iv context tt
                  (derive_tktdes_response_iv_for_value_operation c response context request_state)
          ]))

-- The trailing ciphertext block becomes the IV.
unfoldable pub trailing_block_iv : DesfireContext → List ℕ → ℕ → Outcome (Unit {0})
trailing_block_iv context ciphertext block_size =
    if ltb (length ciphertext) block_size
    then refuse context DesfireError.invalid_response
    else commit_iv context tt (slice ciphertext (length ciphertext - block_size) block_size)

unfoldable pub update_context_iv_from_encrypted_ciphertext :
    DesfireContext → List ℕ → Outcome (Unit {0})
unfolding trailing_block_iv
update_context_iv_from_encrypted_ciphertext context ciphertext =
    if has_no_session context
    then refuse context DesfireError.invalid_state
    else (elim (iv_mode context) [
      | no_mode ↦ refuse context DesfireError.invalid_state
      | legacy_mode ↦ (ok tt, apply_legacy_command_boundary_iv_policy context)
      | aes_mode ↦ trailing_block_iv context ciphertext 16
      | tktdes_mode ↦ trailing_block_iv context ciphertext 8
    ])
