-- ===== src/Desfire/ReadData/Accepts.antt =====
-- What tryDecodeEncryptedChunk makes of a chunk that the card has enciphered under an AES session.
use nfc_cpp.Base.{
  ℕ, zero, suc, ◌+◌, ◌-◌, ◌≤◌, ◌<◌, ◌%◌, ◌^◌, ◌≡◌, refl, sym, ◌∙◌, arith, Bool, true, false, ◌||◌,
  ◌==◌, if◌then◌else◌, List, [], ◌∷◌, ◌++◌, length, take, drop, replicate, some, ok,
  take-append_length, drop-append_length, length-append, length-replicate, le→ltb, lt→leb, ne→==,
  take-length, push_all_fits, slice_in, ==_self, drop-drop,
}
use nfc_cpp.Crypto.Ciphers.{Ciphers, IsSized, IsAesInverse}
use nfc_cpp.Crypto.Words.{le32}
use nfc_cpp.Crypto.Words.RoundTrip.{from_le, le-from_le}
use nfc_cpp.Crypto.Crc.{calculate_crc32_desfire}
use nfc_cpp.Desfire.Context.{DesfireContext, SessionCipher}
use nfc_cpp.Desfire.ValuePayload.{block_size}
use nfc_cpp.Desfire.EncryptedPayload.{is_all_zero}
use nfc_cpp.Desfire.ReadData.Decoding.{
  is_padding, checksum_matches, try_crc, try_iv, try_trim, search_chunk, decrypt_payload,
  decrypt_blocks, decrypt_iv, first_of,
}

all_zeros : (n : ℕ) → is_all_zero (replicate n 0x00) ≡ true
unfolding is_all_zero
all_zeros zero = refl
all_zeros (suc n) = all_zeros n

zeros-padding : (n : ℕ) → is_padding (replicate n 0x00) ≡ true
unfolding is_padding
zeros-padding zero = refl
zeros-padding (suc n) = all_zeros n

or_true : (a b : Bool) → (a || (true || b)) ≡ true
or_true true b = refl
or_true false b = refl

module _ (header chunk : List ℕ) (n : ℕ) where
  abbrev checksum : ℕ
  checksum = calculate_crc32_desfire (chunk ++ (0x00 ∷ []))

  -- The chunk, the checksum of it and the status 0x00, and zeros.
  abbrev pub card_plaintext : List ℕ
  card_plaintext = chunk ++ (le32 checksum ++ replicate n 0x00)

  length-le32 : length (le32 checksum) ≡ 4
  unfolding le32
  length-le32 = refl

  length-card_plaintext : length card_plaintext ≡ length chunk + 4 + n
  length-card_plaintext = omega (
    arith,
    length-append chunk (le32 checksum ++ replicate n 0x00),
    length-append (le32 checksum) (replicate n 0x00),
    length-le32,
    length-replicate {A = ℕ} n 0x00,
  )

  checksum-lt : checksum < 2 ^ 32
  unfolding calculate_crc32_desfire
  checksum-lt = omega arith

  matches : checksum_matches header 4 chunk (from_le (le32 checksum)) ≡ true
  unfolding checksum_matches
  matches =
      let value : from_le (le32 checksum) ≡ checksum =
        omega (arith, checksum-lt, (le-from_le checksum).2) in
      rw (value, ==_self checksum)
        (or_true (checksum == calculate_crc32_desfire chunk) (
          (checksum == calculate_crc32_desfire (header ++ chunk))
          || (checksum == calculate_crc32_desfire (header ++ (chunk ++ (0x00 ∷ []))))))

  accepts_crc : try_crc header (length chunk) card_plaintext 4 ≡ some chunk
  unfolding try_crc
  accepts_crc =
      let behind : drop (length chunk) card_plaintext ≡ le32 checksum ++ replicate n 0x00 =
        drop-append_length chunk (le32 checksum ++ replicate n 0x00) (length chunk) refl in
      rw
        (
          le→ltb (length card_plaintext) (length chunk + 4) (omega (arith, length-card_plaintext)),
          ← drop-drop (length chunk) 4 card_plaintext,
          behind,
          drop-append_length (le32 checksum) (replicate n 0x00) 4 (sym length-le32),
          zeros-padding n,
          take-append_length chunk (le32 checksum ++ replicate n 0x00) (length chunk) refl,
          take-append_length (le32 checksum) (replicate n 0x00) 4 (sym length-le32),
          matches,
        )
        refl

module _ (c : Ciphers) (sized : IsSized c) (inverse : IsAesInverse c) (context : DesfireContext)
    (header chunk : List ℕ) (n : ℕ) where
  abbrev key : List ℕ
  key = take 16 context.session_key_enc

  abbrev plaintext : List ℕ
  plaintext = card_plaintext header chunk n

  -- What the card sends: the plaintext, enciphered under the session's key and IV.
  abbrev pub card_frame : List ℕ
  card_frame = c.aes_cbc_encrypt key context.iv plaintext

  length-card_frame : length card_frame ≡ length chunk + 4 + n
  length-card_frame =
      sized.length-aes_cbc key context.iv plaintext ∙ length-card_plaintext header chunk n

  decrypts :
      (length chunk + 4 + n) % 16 ≡ 0
      → length chunk + 4 + n ≤ 272
      → length context.iv ≡ 16
      → 16 ≤ length context.session_key_enc
      → decrypt_payload c card_frame context SessionCipher.aes ≡ ok (some plaintext)
  unfolding decrypt_payload decrypt_blocks decrypt_iv block_size
  decrypts whole short iv_size key_size =
      rw
        (
          length-card_frame,
          whole,
          le→ltb 272 (length chunk + 4 + n) (omega arith),
          le→ltb (length context.session_key_enc) 16 (omega arith),
          slice_in context.session_key_enc 0 16 (omega arith),
          iv_size,
          take-length context.iv 16 (omega (arith, iv_size)),
          inverse.aes_cbc_decrypt-encrypt key context.iv plaintext
              (omega (arith, length-card_plaintext header chunk n, whole)),
        )
        refl

  tries_iv :
      decrypt_payload c card_frame context SessionCipher.aes ≡ ok (some plaintext)
      → try_iv c context SessionCipher.aes header (length chunk) card_frame context.iv
        ≡ ok (some (chunk, card_frame))
  unfolding try_iv
  tries_iv decrypted = rw (decrypted, accepts_crc header chunk n) refl

  tries_trim :
      (ivs : List (List ℕ))
      → (length chunk + 4 + n) % 16 ≡ 0
      → length chunk + 4 + n ≤ 272
      → try_iv c context SessionCipher.aes header (length chunk) card_frame context.iv
        ≡ ok (some (chunk, card_frame))
      → try_trim c context SessionCipher.aes header (length chunk) card_frame (context.iv ∷ ivs) 0
        ≡ ok (some (chunk, card_frame))
  unfolding try_trim block_size
  tries_trim ivs whole short tried =
      let none_cut : length chunk + 4 + n - 0 ≡ length chunk + 4 + n = omega arith in
      rw
        (
          length-card_frame,
          none_cut,
          lt→leb (length chunk + 4 + n) 0 (omega arith),
          whole,
          take-length card_frame (length chunk + 4 + n) (omega (arith, length-card_frame)),
          push_all_fits 272 [] card_frame (omega (arith, length-card_frame)),
          tried,
        )
        refl

  -- A chunk of 1 to 268 bytes that the card sends under an AES session, with the CRC32 of the
  -- chunk and the status 0x00 behind it and zeros up to whole blocks, enciphered under the
  -- session's key and IV, is what tryDecodeEncryptedChunk finds, whether or not an IV was derived
  -- for the request.
  pub search_chunk-card_frame :
      (has_request_iv : Bool) (request_iv : List ℕ)
      → 0 < length chunk
      → (length chunk + 4 + n) % 16 ≡ 0
      → length chunk + 4 + n ≤ 272
      → length context.iv ≡ 16
      → 16 ≤ length context.session_key_enc
      → search_chunk c context SessionCipher.aes header
          (length chunk)
          card_frame
          has_request_iv
          request_iv
        ≡ ok (some (chunk, card_frame))
  unfolding search_chunk block_size
  search_chunk-card_frame has_request_iv request_iv some_bytes whole short iv_size key_size =
      rw
        (
          ne→== (length chunk) 0 (λ h. omega arith),
          le→ltb 272 (length chunk) (omega arith),
          ne→== (length card_frame) 0 (λ h. omega (arith, length-card_frame)),
          le→ltb (length card_frame) 16 (omega (arith, whole, length-card_frame)),
        )
        (by_iv has_request_iv)
    where
      tried :
          (ivs : List (List ℕ))
          → try_trim c context SessionCipher.aes header
              (length chunk)
              card_frame
              (context.iv ∷ ivs)
              0
            ≡ ok (some (chunk, card_frame))
      tried ivs = tries_trim ivs whole short (tries_iv (decrypts whole short iv_size key_size))

      by_iv :
          (has : Bool)
          → first_of
              (try_trim c context SessionCipher.aes header
                (length chunk)
                card_frame
                (if has then context.iv ∷ request_iv ∷ [] else context.iv ∷ []))
              (0 ∷ 8 ∷ 4 ∷ 2 ∷ [])
            ≡ ok (some (chunk, card_frame))
      by_iv true = rw (tried (request_iv ∷ [])) refl
      by_iv false = rw (tried []) refl
