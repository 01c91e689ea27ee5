-- ===== src/Desfire/EncryptedPayload.antt =====
-- SecureMessagingPolicy::protectEncryptedPayload and updateContextIvForEncryptedCommandResponse.
pub mod Receive
pub mod Frame
mod Tests
use nfc_cpp.Base.{ℕ, ◌+◌, ◌-◌, ◌/◌, ◌%◌, Bool, true, false, ◌&&◌, not, List, [], ◌∷◌, length, leb}
use nfc_cpp.Base.{◌==◌, if◌then◌else◌, replicate, from_desfire, Result, ok, err, ◌>>=◌, ◌>>◌, guard}
use nfc_cpp.Base.{push_all, slice}
use nfc_cpp.Base.Codes.DesfireError
use nfc_cpp.Crypto.Ciphers.{Ciphers}
use nfc_cpp.Crypto.Words.{bytes_to_uint64, uint64_to_bytes}
use nfc_cpp.Crypto.Des.{des_decrypt, des3_decrypt}
use nfc_cpp.Desfire.Context.{DesfireContext, SessionCipher, des, des3_2k, des3_3k, unknown}
use nfc_cpp.Desfire.ValuePayload.{Append, send_blocks, cbc_blocks, block_size, payload_iv}
use nfc_cpp.Desfire.Policy.{
  Outcome, apply_legacy_command_boundary_iv_policy, update_context_iv_for_value_operation_response,
}

pub data LegacySendIvSeedMode : Type 0 where
  zero session_encrypted_rnd_b : LegacySendIvSeedMode

pub record EncryptedPayloadProtection : Type 0 where
  pub encrypted_payload : List ℕ
  pub request_state : List ℕ
  pub update_context_iv : Bool

-- The test of the capacity before a block is pushed.
unfoldable pub append_block : Append
append_block encrypted block = do
  guard (leb (length encrypted + 8) 128) (from_desfire DesfireError.length_error)
  push_all 128 encrypted block

unfoldable pub is_all_zero : List ℕ → Bool
is_all_zero [] = true
is_all_zero (b ∷ bs) = if not (b == 0x00) then false else is_all_zero bs

abbrev pub invalid_unless : Bool → Result (Unit {0})
invalid_unless test = guard test (from_desfire DesfireError.invalid_state)

-- `previousBlock` as the legacy send mode starts.
unfoldable pub seed_block : DesfireContext → LegacySendIvSeedMode → Result (List ℕ)
unfolding is_all_zero
seed_block context session_encrypted_rnd_b = do
  invalid_unless (leb 8 (length context.session_enc_rnd_b))
  slice context.session_enc_rnd_b 0 8
seed_block context zero = if length context.iv == 0 then ok (replicate 8 0x00) else (do
  invalid_unless ((length context.iv == 8) && is_all_zero context.iv)
  ok (replicate 8 0x00))

unfoldable pub is_unknown : SessionCipher → Bool
is_unknown unknown = true
is_unknown _ = false

module _ (c : Ciphers) (context : DesfireContext) where
  open c use {des_cbc, des_cbc_encrypt, des3_cbc, des3_cbc_encrypt, aes_cbc_encrypt}

  -- The branches on the cipher of the chaining send mode.
  unfoldable pub chain_payload : List ℕ → SessionCipher → List ℕ → Result (List ℕ)
  unfolding cbc_blocks append_block
  chain_payload plaintext SessionCipher.aes iv = do
    invalid_unless (leb 16 (length context.session_key_enc))
    guard (leb (length plaintext) 128) (from_desfire DesfireError.length_error)
    encrypted ← push_all 128 [] plaintext
    key ← slice context.session_key_enc 0 16
    ok (aes_cbc_encrypt key iv encrypted)
  chain_payload plaintext des iv = do
    invalid_unless (leb 8 (length context.session_key_enc))
    k ← bytes_to_uint64 context.session_key_enc 0
    iv_value ← bytes_to_uint64 iv 0
    cbc_blocks append_block des_cbc_encrypt (des_cbc k iv_value) plaintext (length plaintext / 8) 0
        []
  chain_payload plaintext des3_2k iv = do
    invalid_unless (leb 16 (length context.session_key_enc))
    k1 ← bytes_to_uint64 context.session_key_enc 0
    k2 ← bytes_to_uint64 context.session_key_enc 8
    iv_value ← bytes_to_uint64 iv 0
    cbc_blocks append_block des3_cbc_encrypt (des3_cbc k1 k2 k1 iv_value) plaintext
        (length plaintext / 8) 0 []
  chain_payload plaintext des3_3k iv = do
    invalid_unless (leb 24 (length context.session_key_enc))
    k1 ← bytes_to_uint64 context.session_key_enc 0
    k2 ← bytes_to_uint64 context.session_key_enc 8
    k3 ← bytes_to_uint64 context.session_key_enc 16
    iv_value ← bytes_to_uint64 iv 0
    cbc_blocks append_block des3_cbc_encrypt (des3_cbc k1 k2 k3 iv_value) plaintext
        (length plaintext / 8) 0 []
  chain_payload plaintext unknown iv = err (from_desfire DesfireError.invalid_state)

  -- One block of the legacy send mode, with the test of the key that the loop repeats.
  unfoldable pub legacy_block : SessionCipher → List ℕ → Result (List ℕ)
  unfolding des_decrypt des3_decrypt
  legacy_block des block = do
    invalid_unless (leb 8 (length context.session_key_enc))
    des_decrypt c block context.session_key_enc
  legacy_block des3_2k block = do
    invalid_unless (leb 16 (length context.session_key_enc))
    des3_decrypt c block context.session_key_enc
  legacy_block des3_3k block = do
    invalid_unless (leb 24 (length context.session_key_enc))
    k1 ← bytes_to_uint64 context.session_key_enc 0
    k2 ← bytes_to_uint64 context.session_key_enc 8
    k3 ← bytes_to_uint64 context.session_key_enc 16
    v ← bytes_to_uint64 block 0
    ok (uint64_to_bytes (c.des3_decrypt k1 k2 k3 v))
  legacy_block _ block = err (from_desfire DesfireError.invalid_state)

  unfoldable pub protect_chained : List ℕ → SessionCipher → Result EncryptedPayloadProtection
  unfolding payload_iv block_size chain_payload
  protect_chained plaintext cipher = do
    iv ← payload_iv context (block_size cipher)
    encrypted ← chain_payload plaintext cipher iv
    request_state ← slice encrypted (length encrypted - block_size cipher) (block_size cipher)
    ok (record {
      encrypted_payload = encrypted;
      request_state = request_state;
      update_context_iv = true;
    })

  unfoldable pub protect_legacy :
      List ℕ → SessionCipher → LegacySendIvSeedMode → Result EncryptedPayloadProtection
  unfolding block_size seed_block send_blocks append_block legacy_block
  protect_legacy plaintext cipher legacy_seed = do
    invalid_unless (block_size cipher == 8)
    previous ← seed_block context legacy_seed
    encrypted ←
        send_blocks append_block (legacy_block cipher) plaintext (length plaintext / 8) 0 previous
          []
    ok (record { encrypted_payload = encrypted; request_state = []; update_context_iv = false })

  unfoldable pub protect_encrypted_payload :
      List ℕ → SessionCipher → Bool → LegacySendIvSeedMode → Result EncryptedPayloadProtection
  unfolding protect_chained protect_legacy block_size is_unknown
  protect_encrypted_payload plaintext cipher use_legacy_send_mode legacy_seed = do
    guard (not (length plaintext == 0)) (from_desfire DesfireError.parameter_error)
    invalid_unless (not (is_unknown cipher))
    guard (length plaintext % block_size cipher == 0) (from_desfire DesfireError.length_error)
    (if not use_legacy_send_mode
        then protect_chained plaintext cipher
        else protect_legacy plaintext cipher legacy_seed)

  unfoldable pub update_context_iv_for_encrypted_command_response :
      List ℕ → EncryptedPayloadProtection → Outcome (Unit {0})
  unfolding apply_legacy_command_boundary_iv_policy update_context_iv_for_value_operation_response
  update_context_iv_for_encrypted_command_response response protection =
      if not protection.update_context_iv
      then (ok tt, apply_legacy_command_boundary_iv_policy context)
      else update_context_iv_for_value_operation_response c context response
          protection.request_state
