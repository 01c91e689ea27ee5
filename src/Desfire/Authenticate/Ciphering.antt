-- ===== src/Desfire/Authenticate/Ciphering.antt =====
-- decryptChallenge, generateAuthResponse and verifyAuthConfirmation of
-- Src/Nfc/Desfire/Commands/AuthenticateCommand.cpp.
use nfc_cpp.Base.{ℕ, ◌+◌, ◌-◌, ◌/◌, Bool, false, ◌&&◌, ◌==◌, leb, List, [], length}
use nfc_cpp.Base.{replicate, if◌then◌else◌, Option, none, some, Result, ok, ◌>>=◌, slice, push_all}
use nfc_cpp.Crypto.Ciphers.{Ciphers}
use nfc_cpp.Crypto.Words.{bytes_to_uint64}
use nfc_cpp.Crypto.Des.{des_decrypt, des3_decrypt}
use nfc_cpp.Crypto.Keys.{rotate_right}
use nfc_cpp.Desfire.ValuePayload.{send_blocks, cbc_blocks}
use nfc_cpp.Desfire.Authenticate.Keying.{
  DesfireAuthMode, AuthenticateCommandOptions, same_bytes, uses_single_des_session_key,
  uses_three_key_3des_session_key, random_size,
}

abbrev pub or_empty : Option (List ℕ) → List ℕ
or_empty none = []
or_empty (some bytes) = bytes

-- The end of verifyAuthConfirmation: the decrypted bytes are turned back and compared with RndA.
unfoldable pub compare_confirmation : List ℕ → Option (List ℕ) → Result Bool
unfolding rotate_right
compare_confirmation rnd_a none = ok false
compare_confirmation rnd_a (some decrypted_rnd_a) = do
  turned ← rotate_right decrypted_rnd_a 1
  ok (same_bytes turned rnd_a)

module _ (c : Ciphers) where
  open c use {
    des_cbc, des_cbc_encrypt, des_cbc_decrypt, des3_cbc, des3_cbc_encrypt, des3_cbc_decrypt,
    aes_cbc_encrypt, aes_cbc_decrypt,
  }

  -- A loop over `DESCBC(key, iv)` on 8-byte blocks.
  abbrev pub des_chain :
      (c.DesCbc → ℕ → ℕ × c.DesCbc) → List ℕ → List ℕ → List ℕ → ℕ → Result (List ℕ)
  des_chain step key iv bytes rounds = do
    k ← bytes_to_uint64 key 0
    iv_value ← bytes_to_uint64 iv 0
    cbc_blocks (push_all 32) step (des_cbc k iv_value) bytes rounds 0 []

  -- The same over `DES3CBC`, with three parts of the key.
  abbrev pub des3_chain :
      (c.Des3Cbc → ℕ → ℕ × c.Des3Cbc) → List ℕ → ℕ → List ℕ → List ℕ → ℕ → Result (List ℕ)
  des3_chain step key third iv bytes rounds = do
    k1 ← bytes_to_uint64 key 0
    k2 ← bytes_to_uint64 key 8
    k3 ← bytes_to_uint64 key third
    iv_value ← bytes_to_uint64 iv 0
    cbc_blocks (push_all 32) step (des3_cbc k1 k2 k3 iv_value) bytes rounds 0 []

  -- The block of 16 bytes at `off`, decrypted under the key's first 16 bytes.
  abbrev pub aes_block : List ℕ → List ℕ → List ℕ → Result (List ℕ)
  aes_block key iv bytes = do
    block ← slice bytes 0 16
    key16 ← slice key 0 16
    ok (aes_cbc_decrypt key16 iv block)

  abbrev found : Result (List ℕ) → Result (Option (List ℕ))
  found call = do bytes ← call; ok (some bytes)

  -- What `bytes`, a challenge or a confirmation, decrypt to; none if the key or the bytes are too
  -- short for the mode.
  unfoldable pub decrypt_random :
      AuthenticateCommandOptions → List ℕ → List ℕ → Result (Option (List ℕ))
  unfolding uses_single_des_session_key uses_three_key_3des_session_key random_size des_decrypt
      des3_decrypt cbc_blocks
  decrypt_random options iv bytes = elim options.mode [
    | DesfireAuthMode.aes ↦
        if leb 16 (length options.key) && leb 16 (length bytes)
        then found (aes_block options.key iv bytes)
        else ok none
    | DesfireAuthMode.iso ↦
        if uses_single_des_session_key options
        then (if leb 8 (length options.key)
            then found (des_chain des_cbc_decrypt options.key iv bytes 1)
            else ok none)
        else (if uses_three_key_3des_session_key options
            then (if length options.key == 24
                then found
                    (des3_chain des3_cbc_decrypt options.key 16 iv bytes (random_size options / 8))
                else ok none)
            else (if length options.key == 16
                then found
                    (des3_chain des3_cbc_decrypt options.key 0 iv bytes (random_size options / 8))
                else ok none))
    | DesfireAuthMode.legacy ↦
        if uses_single_des_session_key options
        then (if leb 8 (length options.key)
            then found (des_decrypt c bytes options.key)
            else ok none)
        else (if length options.key == 16
            then found (des3_decrypt c bytes options.key)
            else ok none)
  ]

  -- `rndB` is empty when the challenge cannot be decrypted.
  unfoldable pub decrypt_challenge : AuthenticateCommandOptions → List ℕ → Result (List ℕ)
  unfolding decrypt_random
  decrypt_challenge options encrypted_challenge = do
    rnd_b ← decrypt_random options (replicate 16 0x00) encrypted_challenge
    ok (or_empty rnd_b)

  -- `encryptedResponse` is empty when the key or the challenge are too short.
  unfoldable pub generate_auth_response :
      AuthenticateCommandOptions → List ℕ → List ℕ → List ℕ → Result (List ℕ)
  unfolding uses_single_des_session_key uses_three_key_3des_session_key des_decrypt des3_decrypt
      send_blocks cbc_blocks
  generate_auth_response options encrypted_challenge rnd_a rnd_b = do
    plain_response ← push_all 32 [] rnd_a
    plain_response ← push_all 32 plain_response rnd_b
    let rounds = (length plain_response + 7) / 8
    (elim options.mode [
      | DesfireAuthMode.aes ↦
          if leb 16 (length options.key) && leb 16 (length encrypted_challenge)
          then (do
            iv ← slice encrypted_challenge 0 16
            key16 ← slice options.key 0 16
            ok (aes_cbc_encrypt key16 iv plain_response))
          else ok []
      | DesfireAuthMode.legacy ↦
          if uses_single_des_session_key options
          then (if leb 8 (length options.key)
              then send_blocks (push_all 32) (λ b. des_decrypt c b options.key) plain_response
                  rounds 0 (replicate 8 0x00) []
              else ok [])
          else (if length options.key == 16
              then send_blocks (push_all 32) (λ b. des3_decrypt c b options.key) plain_response
                  rounds 0 (replicate 8 0x00) []
              else ok [])
      | DesfireAuthMode.iso ↦ (do
        iv ← slice encrypted_challenge (length encrypted_challenge - 8) 8
        (if uses_single_des_session_key options
            then (if leb 8 (length options.key)
                then des_chain des_cbc_encrypt options.key iv plain_response rounds
                else ok [])
            else (if uses_three_key_3des_session_key options
                then (if length options.key == 24
                    then des3_chain des3_cbc_encrypt options.key 16 iv plain_response rounds
                    else ok [])
                else (if length options.key == 16
                    then des3_chain des3_cbc_encrypt options.key 0 iv plain_response rounds
                    else ok []))))
    ])

  -- The decrypted confirmation, before it is turned back.
  unfoldable pub decrypt_confirmation :
      AuthenticateCommandOptions → List ℕ → List ℕ → Result (Option (List ℕ))
  unfolding decrypt_random
  decrypt_confirmation options encrypted_response response = elim options.mode [
    | DesfireAuthMode.aes ↦
        if leb 16 (length encrypted_response)
        then (do
          iv ← slice encrypted_response (length encrypted_response - 16) 16
          decrypt_random options iv response)
        else ok none
    | DesfireAuthMode.iso ↦ (do
      iv ← slice encrypted_response (length encrypted_response - 8) 8
      decrypt_random options iv response)
    | DesfireAuthMode.legacy ↦ decrypt_random options [] response
  ]

  unfoldable pub verify_auth_confirmation :
      AuthenticateCommandOptions → List ℕ → List ℕ → List ℕ → Result Bool
  unfolding decrypt_confirmation compare_confirmation
  verify_auth_confirmation options encrypted_response rnd_a response = do
    decrypted ← decrypt_confirmation options encrypted_response response
    compare_confirmation rnd_a decrypted
