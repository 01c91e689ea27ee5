-- ===== src/Desfire/ValuePayload.antt =====
-- encryptPayload and buildEncryptedValuePayload of ValueOperationCryptoUtils.h, and
-- SecureMessagingPolicy::protectValueOperationRequest. The encrypted payload is a vector of 32
-- bytes; `pendingIv` is handed out with it.
pub mod Receive
use nfc_cpp.Base.{
  ℕ, zero, suc, ◌+◌, ◌-◌, ◌/◌, ◌%◌, Bool, true, false, ◌&&◌, ◌||◌, not, List, [], ◌∷◌, ◌++◌, length,
  leb,
}
use nfc_cpp.Base.{ltb, ◌==◌, if◌then◌else◌, replicate, Error, from_desfire}
use nfc_cpp.Base.{Result, ok, err, fault, ◌>>=◌, ◌>>◌, guard, push_all, slice}
use nfc_cpp.Base.Codes.DesfireError
use nfc_cpp.Crypto.Ciphers.{Ciphers}
use nfc_cpp.Crypto.Words.{bytes_to_uint64, uint64_to_bytes, le16, le32}
use nfc_cpp.Crypto.Crc.{calculate_crc16, calculate_crc32_desfire}
use nfc_cpp.Crypto.Block.{xor_block}
use nfc_cpp.Crypto.Des.{des_decrypt, des3_decrypt}
use nfc_cpp.Desfire.Context.{DesfireContext, SessionCipher, des, des3_2k, des3_3k, unknown}
use nfc_cpp.Desfire.Context.{use_legacy_des_crypto_mode, resolve_session_cipher, is_legacy_scheme}

-- `(cipher == SessionCipher::AES) ? 16U : 8U`
unfoldable pub block_size : SessionCipher → ℕ
block_size SessionCipher.aes = 16
block_size _ = 8

-- How a loop puts a block behind those that it has written.
abbrev pub Append : Type 0
Append = List ℕ → List ℕ → Result (List ℕ)

-- The loop of the legacy send mode, with the rounds that are left: each block is combined with the
-- previous output and decrypted.
unfoldable pub send_blocks :
    Append → (List ℕ → Result (List ℕ)) → List ℕ → ℕ → ℕ → List ℕ → List ℕ → Result (List ℕ)
send_blocks append decrypt plaintext zero offset previous encrypted = ok encrypted
send_blocks append decrypt plaintext (suc rounds) offset previous encrypted = do
  block ← slice plaintext offset 8
  transformed ← decrypt (xor_block block previous)
  encrypted' ← append encrypted transformed
  send_blocks append decrypt plaintext rounds (offset + 8) transformed encrypted'

-- The loop over a chaining object, with the rounds that are left.
unfoldable pub cbc_blocks :
    {S : Type 0} → Append → (S → ℕ → ℕ × S) → S → List ℕ → ℕ → ℕ → List ℕ → Result (List ℕ)
cbc_blocks append encrypt chained plaintext zero offset encrypted = ok encrypted
cbc_blocks append encrypt chained plaintext (suc rounds) offset encrypted = do
  block ← bytes_to_uint64 plaintext offset
  let (cipher_block, chained') = encrypt chained block
  encrypted' ← append encrypted (uint64_to_bytes cipher_block)
  cbc_blocks append encrypt chained' plaintext rounds (offset + 8) encrypted'

-- The IV that a chaining mode starts from.
unfoldable pub payload_iv : DesfireContext → ℕ → Result (List ℕ)
payload_iv context size =
    if length context.iv == 0
    then ok (replicate size 0x00)
    else (if not (length context.iv == size)
        then err (from_desfire DesfireError.invalid_state)
        else push_all 16 [] context.iv)

-- The last block of what was encrypted. With none, the loop's start wraps round and it does not
-- run.
unfoldable pub pending_block : ℕ → List ℕ → Result (List ℕ)
pending_block size encrypted =
    if ltb (length encrypted) size
    then ok []
    else (do block ← slice encrypted (length encrypted - size) size; push_all 16 [] block)

module _ (c : Ciphers) (plaintext : List ℕ) (context : DesfireContext) where
  open c use {des3_cbc, des3_cbc_encrypt, aes_cbc_encrypt}

  -- The branches of encryptPayload on the cipher.
  unfoldable pub encrypt_blocks : SessionCipher → List ℕ → Result (List ℕ)
  unfolding send_blocks cbc_blocks des_decrypt des3_decrypt
  encrypt_blocks SessionCipher.aes iv = do
    guard (leb 16 (length context.session_key_enc)) (from_desfire DesfireError.invalid_state)
    encrypted ← push_all 32 [] plaintext
    key ← slice context.session_key_enc 0 16
    ok (aes_cbc_encrypt key iv encrypted)
  encrypt_blocks des iv = do
    guard (leb 8 (length context.session_key_enc)) (from_desfire DesfireError.invalid_state)
    send_blocks (push_all 32) (λ b. des_decrypt c b context.session_key_enc) plaintext
        (length plaintext / 8) 0 (replicate 8 0) []
  encrypt_blocks des3_2k iv = do
    guard (leb 16 (length context.session_key_enc)) (from_desfire DesfireError.invalid_state)
    (if use_legacy_des_crypto_mode context des3_2k
        then send_blocks (push_all 32) (λ b. des3_decrypt c b context.session_key_enc) plaintext
            (length plaintext / 8) 0 (replicate 8 0) []
        else (do
          k1 ← bytes_to_uint64 context.session_key_enc 0
          k2 ← bytes_to_uint64 context.session_key_enc 8
          iv_value ← bytes_to_uint64 iv 0
          cbc_blocks (push_all 32) des3_cbc_encrypt (des3_cbc k1 k2 k1 iv_value) plaintext
              (length plaintext / 8) 0 []))
  encrypt_blocks des3_3k iv = do
    guard (leb 24 (length context.session_key_enc)) (from_desfire DesfireError.invalid_state)
    k1 ← bytes_to_uint64 context.session_key_enc 0
    k2 ← bytes_to_uint64 context.session_key_enc 8
    k3 ← bytes_to_uint64 context.session_key_enc 16
    iv_value ← bytes_to_uint64 iv 0
    cbc_blocks (push_all 32) des3_cbc_encrypt (des3_cbc k1 k2 k3 iv_value) plaintext
        (length plaintext / 8) 0 []
  encrypt_blocks unknown iv = err (from_desfire DesfireError.invalid_state)

  unfoldable pub encrypt_payload : SessionCipher → Result (List ℕ × List ℕ)
  unfolding block_size payload_iv encrypt_blocks pending_block
  encrypt_payload cipher = do
    guard (length plaintext % block_size cipher == 0) (from_desfire DesfireError.length_error)
    iv ← payload_iv context (block_size cipher)
    encrypted ← encrypt_blocks cipher iv
    pending_iv ← pending_block (block_size cipher) encrypted
    ok (encrypted, pending_iv)

-- `cipher == SessionCipher::DES || (cipher == SessionCipher::DES3_2K && legacyDesMode)`
unfoldable pub appends_crc16 : DesfireContext → SessionCipher → Bool
unfolding use_legacy_des_crypto_mode is_legacy_scheme
appends_crc16 context des = true
appends_crc16 context des3_2k = use_legacy_des_crypto_mode context des3_2k
appends_crc16 context _ = false

-- The zeros that bring `n` bytes to a multiple of the block size, and none if they are one.
unfoldable pub block_padding : ℕ → ℕ → List ℕ
block_padding n size = replicate (if n % size == 0 then 0 else size - n % size) 0x00

-- The value, as `uint32_t`, and its checksum, padded.
unfoldable pub value_plaintext : ℕ → ℕ → ℕ → DesfireContext → SessionCipher → List ℕ
unfolding le16 le32 calculate_crc16 calculate_crc32_desfire appends_crc16 block_padding block_size
value_plaintext command_code file_no raw_value context cipher =
    let checksum =
      if appends_crc16 context cipher
      then le16 (calculate_crc16 (le32 raw_value))
      else le32 (calculate_crc32_desfire (command_code ∷ file_no ∷ le32 raw_value)) in
    let plaintext = le32 raw_value ++ checksum in
    plaintext ++ block_padding (length plaintext) (block_size cipher)

module _ (c : Ciphers) where
  unfoldable pub build_encrypted_value_payload :
      ℕ → ℕ → ℕ → DesfireContext → SessionCipher → Result (List ℕ × List ℕ)
  unfolding value_plaintext encrypt_payload
  build_encrypted_value_payload command_code file_no raw_value context cipher =
      encrypt_payload c (value_plaintext command_code file_no raw_value context cipher) context
        cipher

  -- The encrypted payload and the request state.
  unfoldable pub protect_value_operation_request :
      DesfireContext → ℕ → ℕ → ℕ → Result (List ℕ × List ℕ)
  unfolding build_encrypted_value_payload resolve_session_cipher
  protect_value_operation_request context command_code file_no raw_value =
      if not context.authenticated || (length context.session_key_enc == 0)
      then err (from_desfire DesfireError.authentication_error)
      else (elim (resolve_session_cipher context) [
        | unknown ↦ err (from_desfire DesfireError.invalid_state)
        | cipher ↦ build_encrypted_value_payload command_code file_no raw_value context cipher
      ])
