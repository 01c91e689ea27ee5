-- ===== src/Desfire/WriteData/Ciphering.antt =====
-- buildEncryptedChunkPayload and encryptPayload of WriteDataCommand.cpp. The vectors hold 272
-- bytes; `pendingIv` is handed out with the encrypted chunk.
use nfc_cpp.Base.{ℕ, ◌/◌, ◌%◌, Bool, true, false, ◌==◌, leb, List, [], length}
use nfc_cpp.Base.{if◌then◌else◌, replicate, from_desfire, Result, ok, err, ◌>>=◌, ◌>>◌, guard}
use nfc_cpp.Base.{push_all, slice}
use nfc_cpp.Base.Codes.DesfireError
use nfc_cpp.Crypto.Ciphers.{Ciphers}
use nfc_cpp.Crypto.Words.{bytes_to_uint64, le16, le32}
use nfc_cpp.Crypto.Crc.{calculate_crc16, calculate_crc32_desfire}
use nfc_cpp.Crypto.Des.{des_decrypt, des3_decrypt}
use nfc_cpp.Desfire.Context.{DesfireContext, SessionCipher, des, des3_2k, des3_3k, unknown}
use nfc_cpp.Desfire.ValuePayload.{
  send_blocks, cbc_blocks, block_size, payload_iv, pending_block, block_padding,
}

-- `cipher == DES || (cipher == DES3_2K && legacyDesCryptoMode)`
unfoldable pub appends_crc16 : SessionCipher → Bool → Bool
appends_crc16 des legacy = true
appends_crc16 des3_2k legacy = legacy
appends_crc16 _ legacy = false

-- The checksum of the chunk: of its bytes, or with the command's header before them.
unfoldable pub chunk_checksum : SessionCipher → Bool → List ℕ → List ℕ → Result (List ℕ)
unfolding appends_crc16 le16 le32 calculate_crc16 calculate_crc32_desfire
chunk_checksum cipher legacy header chunk =
    if appends_crc16 cipher legacy
    then ok (le16 (calculate_crc16 chunk))
    else (do crc_input ← push_all 256 header chunk; ok (le32 (calculate_crc32_desfire crc_input)))

module _ (c : Ciphers) (context : DesfireContext) where
  open c use {des3_cbc, des3_cbc_encrypt, aes_cbc_encrypt}

  abbrev key_at_least : ℕ → Result (Unit {0})
  key_at_least size =
      guard (leb size (length context.session_key_enc)) (from_desfire DesfireError.invalid_state)

  abbrev chained : List ℕ → List ℕ → ℕ → ℕ → Result (List ℕ)
  chained plaintext iv k1 k3 = do
    k2 ← bytes_to_uint64 context.session_key_enc 8
    iv_value ← bytes_to_uint64 iv 0
    cbc_blocks (push_all 272) des3_cbc_encrypt (des3_cbc k1 k2 k3 iv_value) plaintext
        (length plaintext / 8) 0 []

  unfoldable pub encrypt_blocks : List ℕ → SessionCipher → Bool → List ℕ → Result (List ℕ)
  unfolding send_blocks cbc_blocks des_decrypt des3_decrypt
  encrypt_blocks plaintext SessionCipher.aes legacy iv = do
    key_at_least 16
    encrypted ← push_all 272 [] plaintext
    key ← slice context.session_key_enc 0 16
    ok (aes_cbc_encrypt key iv encrypted)
  encrypt_blocks plaintext des legacy iv = do
    key_at_least 8
    send_blocks (push_all 272) (λ b. des_decrypt c b context.session_key_enc) plaintext
        (length plaintext / 8) 0 (replicate 8 0) []
  encrypt_blocks plaintext des3_2k true iv = do
    key_at_least 16
    send_blocks (push_all 272) (λ b. des3_decrypt c b context.session_key_enc) plaintext
        (length plaintext / 8) 0 (replicate 8 0) []
  encrypt_blocks plaintext des3_2k false iv = do
    key_at_least 16
    k1 ← bytes_to_uint64 context.session_key_enc 0
    chained plaintext iv k1 k1
  encrypt_blocks plaintext des3_3k legacy iv = do
    key_at_least 24
    k1 ← bytes_to_uint64 context.session_key_enc 0
    k3 ← bytes_to_uint64 context.session_key_enc 16
    chained plaintext iv k1 k3
  encrypt_blocks plaintext unknown legacy iv = err (from_desfire DesfireError.invalid_state)

  unfoldable pub encrypt_payload : List ℕ → SessionCipher → Bool → Result (List ℕ × List ℕ)
  unfolding block_size payload_iv encrypt_blocks pending_block
  encrypt_payload plaintext cipher legacy = do
    guard (length plaintext % block_size cipher == 0) (from_desfire DesfireError.length_error)
    iv ← payload_iv context (block_size cipher)
    encrypted ← encrypt_blocks plaintext cipher legacy iv
    pending_iv ← pending_block (block_size cipher) encrypted
    ok (encrypted, pending_iv)

  -- `header` is the command code and the header of the request.
  unfoldable pub build_encrypted_chunk_payload :
      SessionCipher → Bool → List ℕ → List ℕ → Result (List ℕ × List ℕ)
  unfolding chunk_checksum block_padding encrypt_payload
  build_encrypted_chunk_payload cipher legacy header chunk = do
    plaintext ← push_all 272 [] chunk
    checksum ← chunk_checksum cipher legacy header plaintext
    plaintext ← push_all 272 plaintext checksum
    plaintext ← push_all 272 plaintext (block_padding (length plaintext) (block_size cipher))
    encrypt_payload plaintext cipher legacy
