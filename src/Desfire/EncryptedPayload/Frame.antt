-- ===== src/Desfire/EncryptedPayload/Frame.antt =====
-- What the IV update of an encrypted command leaves alone.
use nfc_cpp.Base.{ℕ, not, List}
use nfc_cpp.Crypto.Ciphers.{Ciphers}
use nfc_cpp.Desfire.Context.{DesfireContext}
use nfc_cpp.Desfire.Policy.Frame.{
  IsFramed, if-IsFramed, legacy-IsFramed, update_context_iv_for_value_operation_response-IsFramed,
}
use nfc_cpp.Desfire.EncryptedPayload.{
  EncryptedPayloadProtection, update_context_iv_for_encrypted_command_response,
}

-- The IV update after an encrypted command changes at most the IV of the session, and an error
-- changes nothing.
pub update_context_iv_for_encrypted_command_response-IsFramed :
    (c : Ciphers) (context : DesfireContext) (response : List ℕ)
    (protection : EncryptedPayloadProtection)
    → IsFramed context
        (update_context_iv_for_encrypted_command_response c context response protection)
unfolding update_context_iv_for_encrypted_command_response
update_context_iv_for_encrypted_command_response-IsFramed c context response protection =
    if-IsFramed context (not protection.update_context_iv) (legacy-IsFramed context) (
      update_context_iv_for_value_operation_response-IsFramed c context response
        protection.request_state)
