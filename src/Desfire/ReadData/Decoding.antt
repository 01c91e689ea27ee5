-- ===== src/Desfire/ReadData/Decoding.antt =====
-- decryptPayload and tryDecodeEncryptedChunk of ReadDataCommand.cpp. `none` is a result of `false`.
-- A chunk is at most 272 bytes, so that the inputs of the checksums fit their vectors.
use nfc_cpp.Base.{ℕ, zero, suc, ◌+◌, ◌-◌, ◌/◌, ◌%◌, Bool, true, not, ◌&&◌, ◌||◌, ◌==◌, ltb, leb}
use nfc_cpp.Base.{List, [], ◌∷◌, ◌++◌, length, take, drop, replicate, if◌then◌else◌}
use nfc_cpp.Base.{Option, none, some, Result, ok, err, fault, ◌>>=◌, on_true, push_all, slice}
use nfc_cpp.Crypto.Ciphers.{Ciphers}
use nfc_cpp.Crypto.Words.{bytes_to_uint64}
use nfc_cpp.Crypto.Words.RoundTrip.{from_le}
use nfc_cpp.Crypto.Crc.{calculate_crc16, calculate_crc32_desfire}
use nfc_cpp.Crypto.Block.{xor_block}
use nfc_cpp.Crypto.Des.{des_decrypt, des3_decrypt}
use nfc_cpp.Desfire.Context.{DesfireContext, SessionCipher, des, des3_2k, des3_3k, unknown}
use nfc_cpp.Desfire.Context.{is_legacy_scheme}
use nfc_cpp.Desfire.ValuePayload.{cbc_blocks, block_size}
use nfc_cpp.Desfire.EncryptedPayload.{is_all_zero}

-- The loop of the legacy receive mode, with the rounds that are left: a block is decrypted and
-- combined with the block before it.
unfoldable pub receive_blocks :
    (List ℕ → Result (List ℕ)) → List ℕ → ℕ → ℕ → List ℕ → List ℕ → Result (List ℕ)
receive_blocks decrypt ciphertext zero offset previous plaintext = ok plaintext
receive_blocks decrypt ciphertext (suc rounds) offset previous plaintext = do
  block ← slice ciphertext offset 8
  decrypted ← decrypt block
  receive_blocks decrypt ciphertext rounds (offset + 8) block
      (plaintext ++ xor_block decrypted previous)

-- The IV of the context, or zeros if it is too short.
unfoldable pub decrypt_iv : DesfireContext → ℕ → List ℕ
decrypt_iv context size =
    if leb size (length context.iv) then take size context.iv else replicate size 0x00

-- A value that the loop has computed.
abbrev pub found : {A : Type 0} → Result A → Result (Option A)
found (ok a) = ok (some a)
found (err e) = err e
found fault = fault

module _ (c : Ciphers) (ciphertext : List ℕ) (context : DesfireContext) where
  open c use {des3_cbc, des3_cbc_decrypt, aes_cbc_decrypt}

  abbrev with_key : ℕ → Result (List ℕ) → Result (Option (List ℕ))
  with_key size plaintext =
      if ltb (length context.session_key_enc) size then ok none else found plaintext

  abbrev chained : ℕ → ℕ → List ℕ → Result (List ℕ)
  chained k1 k3 iv = do
    k2 ← bytes_to_uint64 context.session_key_enc 8
    iv_value ← bytes_to_uint64 iv 0
    cbc_blocks (push_all 272) des3_cbc_decrypt (des3_cbc k1 k2 k3 iv_value) ciphertext
        (length ciphertext / 8) 0 []

  abbrev received : (List ℕ → Result (List ℕ)) → Result (List ℕ)
  received decrypt = receive_blocks decrypt ciphertext (length ciphertext / 8) 0 (replicate 8 0) []

  unfoldable pub decrypt_blocks : SessionCipher → Result (Option (List ℕ))
  unfolding decrypt_iv receive_blocks cbc_blocks des_decrypt des3_decrypt is_legacy_scheme
  decrypt_blocks SessionCipher.aes = with_key 16 (do
    key ← slice context.session_key_enc 0 16
    ok (aes_cbc_decrypt key (decrypt_iv context 16) ciphertext))
  decrypt_blocks des = with_key 8 (received (λ b. des_decrypt c b context.session_key_enc))
  decrypt_blocks des3_2k = with_key 16 (
      if is_legacy_scheme context.auth_scheme
      then received (λ b. des3_decrypt c b context.session_key_enc)
      else (do
        k1 ← bytes_to_uint64 context.session_key_enc 0
        chained k1 k1 (decrypt_iv context 8)))
  decrypt_blocks des3_3k = with_key 24 (do
    k1 ← bytes_to_uint64 context.session_key_enc 0
    k3 ← bytes_to_uint64 context.session_key_enc 16
    chained k1 k3 (decrypt_iv context 8))
  decrypt_blocks unknown = ok none

  unfoldable pub decrypt_payload : SessionCipher → Result (Option (List ℕ))
  unfolding decrypt_blocks block_size
  decrypt_payload cipher =
      if not (length ciphertext % block_size cipher == 0)
      then ok none
      else (if ltb 272 (length ciphertext) then ok none else decrypt_blocks cipher)

-- The loops try one candidate after another and end with the first that is accepted.
abbrev pub or_else : {A : Type 0} → Result (Option A) → Result (Option A) → Result (Option A)
or_else (ok none) next = next
or_else (ok (some a)) next = ok (some a)
or_else (err e) next = err e
or_else fault next = fault

abbrev pub first_of : {A B : Type 0} → (A → Result (Option B)) → List A → Result (Option B)
first_of try [] = ok none
first_of try (x ∷ xs) = or_else (try x) (first_of try xs)

-- The bytes behind the checksum: zeros, the first of which may be 0x80.
unfoldable pub is_padding : List ℕ → Bool
unfolding is_all_zero
is_padding [] = true
is_padding (b ∷ bs) = ((b == 0x00) || (b == 0x80)) && is_all_zero bs

-- The received value is one of the checksums with and without the status, and for CRC32 with and
-- without the header of the request.
unfoldable pub checksum_matches : List ℕ → ℕ → List ℕ → ℕ → Bool
unfolding calculate_crc16 calculate_crc32_desfire
checksum_matches header crc_length chunk received =
    if crc_length == 4
    then (received == calculate_crc32_desfire chunk)
      || ((received == calculate_crc32_desfire (chunk ++ (0x00 ∷ [])))
          || ((received == calculate_crc32_desfire (header ++ chunk))
              || (received == calculate_crc32_desfire (header ++ (chunk ++ (0x00 ∷ []))))))
    else (received == calculate_crc16 chunk) || (received == calculate_crc16 (chunk ++ (0x00 ∷ [])))

-- `header` is the command code and the header of the request.
unfoldable pub try_crc : List ℕ → ℕ → List ℕ → ℕ → Option (List ℕ)
unfolding is_padding checksum_matches
try_crc header expected plaintext crc_length =
    if ltb (length plaintext) (expected + crc_length)
    then none
    else (if is_padding (drop (expected + crc_length) plaintext)
          && checksum_matches header crc_length (take expected plaintext)
              (from_le (take crc_length (drop expected plaintext)))
        then some (take expected plaintext)
        else none)

module _ (c : Ciphers) (context : DesfireContext) (cipher : SessionCipher) (header : List ℕ)
    (expected : ℕ) where
  -- One candidate for the ciphertext and the IV; what is accepted is the chunk and its ciphertext.
  unfoldable pub try_iv : List ℕ → List ℕ → Result (Option (List ℕ × List ℕ))
  unfolding decrypt_payload try_crc
  try_iv ciphertext iv =
      on_true (decrypt_payload c ciphertext (record context { iv = iv }) cipher) (λ plaintext.
        first_of
          (λ crc_length. elim (try_crc header expected plaintext crc_length) [
            | some chunk ↦ ok (some (chunk, ciphertext))
            | none ↦ ok none
          ])
          (4 ∷ 2 ∷ []))

  unfoldable pub try_trim : List ℕ → List (List ℕ) → ℕ → Result (Option (List ℕ × List ℕ))
  unfolding try_iv block_size
  try_trim frame_data ivs trim =
      let candidate_length = length frame_data - trim in
      if leb (length frame_data) trim || not (candidate_length % block_size cipher == 0)
      then ok none
      else (do
        ciphertext ← push_all 272 [] (take candidate_length frame_data)
        first_of (try_iv ciphertext) ivs)

  -- The frame without what may be a MAC behind it, and the IV of the context before that of the
  -- request.
  unfoldable pub search_chunk : List ℕ → Bool → List ℕ → Result (Option (List ℕ × List ℕ))
  unfolding try_trim block_size
  search_chunk frame_data has_request_iv request_iv =
      let ivs : List (List ℕ) =
        if has_request_iv then context.iv ∷ request_iv ∷ [] else context.iv ∷ [] in
      if (expected == 0)
        || (ltb 272 expected
            || ((length frame_data == 0) || ltb (length frame_data) (block_size cipher)))
      then ok none
      else first_of (try_trim frame_data ivs) (0 ∷ 8 ∷ 4 ∷ 2 ∷ [])
