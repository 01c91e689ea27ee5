-- ===== src/Desfire/Authenticate/Passes.antt =====
-- The passes of an AES authentication, on the bytes that a card with the key sends.
use nfc_cpp.Base.{
  ℕ, zero, suc, ◌≡◌, refl, ap, ◌∙◌, arith, true, List, [], ◌∷◌, ◌++◌, length, take, drop, some, ok,
  slice, slice_in, push_all_fits, length-take, take-length, append-nil, length-append, length-drop,
  ==_self,
}
use nfc_cpp.Crypto.Ciphers.{Ciphers, IsSized, IsAesInverse}
use nfc_cpp.Crypto.Keys.{Draws, generate_random, rotate_left, rotate_right}
use nfc_cpp.Crypto.Keys.Rotation.{rotate_left_split, rotate_right_split}
use nfc_cpp.Desfire.Authenticate.Keying.{
  DesfireAuthMode, AuthenticateCommandOptions, same_bytes, derive_session_key,
  uses_single_des_session_key, uses_three_key_3des_session_key,
}
use nfc_cpp.Desfire.Authenticate.Ciphering.{
  decrypt_random, generate_auth_response, decrypt_confirmation, compare_confirmation,
  verify_auth_confirmation,
}
use nfc_cpp.Desfire.Authenticate.AesCard.{turn}

pub slice_whole : (xs : List ℕ) (n : ℕ) → length xs ≡ n → slice xs 0 n ≡ ok xs
slice_whole xs n h = slice_in xs 0 n (omega arith) ∙ ap ok (take-length xs n (omega arith))

pub length-turn : (xs : List ℕ) → length (turn xs) ≡ length xs
length-turn [] = refl
length-turn (x ∷ xs) = omega (arith, length-append xs (x ∷ []))

pub same_bytes_self : (xs : List ℕ) → same_bytes xs xs ≡ true
same_bytes_self [] = refl
same_bytes_self (x ∷ xs) = rw (==_self x) (same_bytes_self xs)

pub length-generate_random : (n : ℕ) (draws : Draws) → length (generate_random draws n) ≡ n
unfolding generate_random
length-generate_random zero draws = refl
length-generate_random (suc n) draws = ap suc (length-generate_random n (λ i. draws (suc i)))

-- A rotation by one, there and back, of a random number of 16 bytes.
pub rotate_left-turn : (xs : List ℕ) → length xs ≡ 16 → rotate_left xs 1 ≡ ok (turn xs)
rotate_left-turn [] h = absurd (omega arith)
rotate_left-turn (x ∷ xs) h =
    rotate_left_split (x ∷ []) xs 1 (omega arith) (rw h refl) (omega arith) (omega arith)

pub rotate_right-turn : (xs : List ℕ) → length xs ≡ 16 → rotate_right (turn xs) 1 ≡ ok xs
rotate_right-turn [] h = absurd (omega arith)
rotate_right-turn (x ∷ xs) h =
    let sixteen : length (xs ++ (x ∷ [])) ≡ 16 = omega (arith, length-append xs (x ∷ [])) in
    rotate_right_split xs (x ∷ []) 1 (omega arith) (rw sixteen refl) (omega arith) (omega arith)
      (omega arith)

abbrev pub aes_options : List ℕ → ℕ → AuthenticateCommandOptions
aes_options key key_no = record { mode = DesfireAuthMode.aes; key_no = key_no; key = key }

-- The session key of both sides.
abbrev pub aes_session_key : List ℕ → List ℕ → List ℕ
aes_session_key rnd_a rnd_b = (take 4 rnd_a ++ take 4 rnd_b) ++ (drop 12 rnd_a ++ drop 12 rnd_b)

pub length-aes_session_key :
    (rnd_a rnd_b : List ℕ)
    → length rnd_a ≡ 16
    → length rnd_b ≡ 16
    → length (aes_session_key rnd_a rnd_b) ≡ 16
length-aes_session_key rnd_a rnd_b ha hb =
    let first = length-take 4 rnd_a (omega arith) in
    let second = length-take 4 rnd_b (omega arith) in
    omega (
      arith,
      length-append (take 4 rnd_a ++ take 4 rnd_b) (drop 12 rnd_a ++ drop 12 rnd_b),
      length-append (take 4 rnd_a) (take 4 rnd_b),
      length-append (drop 12 rnd_a) (drop 12 rnd_b),
      length-drop 12 rnd_a,
      length-drop 12 rnd_b,
      first,
      second,
    )

module _ (c : Ciphers) (sized : IsSized c) (inverse : IsAesInverse c) (key : List ℕ) (key_no : ℕ)
    (key_fits : length key ≡ 16) where
  open c use {aes_cbc_encrypt, aes_cbc_decrypt}

  pub decrypt_random_aes :
      (iv plain : List ℕ)
      → length plain ≡ 16
      → decrypt_random c (aes_options key key_no) iv (aes_cbc_encrypt key iv plain)
        ≡ ok (some plain)
  unfolding decrypt_random
  decrypt_random_aes iv plain h =
      let cipher = aes_cbc_encrypt key iv plain in
      let sixteen : length cipher ≡ 16 = omega (arith, sized.length-aes_cbc key iv plain) in
      rw
        (
          key_fits,
          sixteen,
          slice_whole cipher 16 sixteen,
          slice_whole key 16 key_fits,
          inverse.aes_cbc_decrypt-encrypt key iv plain (omega arith),
        )
        refl

  pub generate_auth_response_aes :
      (challenge rnd_a rnd_b : List ℕ)
      → length challenge ≡ 16
      → length rnd_a ≡ 16
      → length rnd_b ≡ 16
      → generate_auth_response c (aes_options key key_no) challenge rnd_a rnd_b
        ≡ ok (aes_cbc_encrypt key challenge (rnd_a ++ rnd_b))
  unfolding generate_auth_response
  generate_auth_response_aes challenge rnd_a rnd_b h ha hb =
      rw
        (
          push_all_fits 32 [] rnd_a (omega arith),
          push_all_fits 32 rnd_a rnd_b (omega arith),
          key_fits,
          h,
          slice_whole challenge 16 h,
          slice_whole key 16 key_fits,
        )
        refl

  -- A confirmation that is RndA, turned and chained to the reader's answer, is accepted.
  pub verify_auth_confirmation_aes :
      (response rnd_a : List ℕ)
      → length response ≡ 32
      → length rnd_a ≡ 16
      → verify_auth_confirmation c
          (aes_options key key_no)
          response
          rnd_a
          (aes_cbc_encrypt key (drop 16 response) (turn rnd_a))
        ≡ ok true
  unfolding verify_auth_confirmation decrypt_confirmation compare_confirmation
  verify_auth_confirmation_aes response rnd_a h ha =
      let iv = drop 16 response in
      let sixteen : length iv ≡ 16 = omega (arith, length-drop 16 response) in
      let reads : slice response 16 16 ≡ ok iv =
        slice_in response 16 16 (omega arith) ∙ ap ok (take-length iv 16 (omega arith)) in
      rw
        (
          h,
          reads,
          decrypt_random_aes iv (turn rnd_a) (length-turn rnd_a ∙ ha),
          rotate_right-turn rnd_a ha,
          same_bytes_self rnd_a,
        )
        refl

  pub derive_session_key_aes :
      (rnd_a rnd_b : List ℕ)
      → length rnd_a ≡ 16
      → length rnd_b ≡ 16
      → derive_session_key (aes_options key key_no) rnd_a rnd_b ≡ ok (aes_session_key rnd_a rnd_b)
  unfolding derive_session_key uses_single_des_session_key uses_three_key_3des_session_key
  derive_session_key_aes rnd_a rnd_b ha hb =
      rw
        (
          slice_in rnd_a 0 4 (omega arith),
          slice_in rnd_b 0 4 (omega arith),
          slice_in rnd_a 12 4 (omega arith),
          slice_in rnd_b 12 4 (omega arith),
          take-length (drop 12 rnd_a) 4 (omega (arith, length-drop 12 rnd_a)),
          take-length (drop 12 rnd_b) 4 (omega (arith, length-drop 12 rnd_b)),
          append-nil (drop 12 rnd_a ++ drop 12 rnd_b),
        )
        refl
