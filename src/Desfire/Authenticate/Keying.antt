-- ===== src/Desfire/Authenticate/Keying.antt =====
-- DesfireAuthMode, AuthenticateCommandOptions and the tests of AuthenticateCommand that pick the
-- sizes and the kind of session key.
use nfc_cpp.Base.{ℕ, Bool, true, false, ◌&&◌, ◌||◌, ◌==◌, List, [], ◌∷◌, ◌++◌, length, take}
use nfc_cpp.Base.{drop, if◌then◌else◌, Result, ok, ◌>>=◌, slice}
use nfc_cpp.Crypto.Keys.{clear_parity_bits, generate_session_key}

pub data DesfireAuthMode : Type 0 where
  legacy iso aes : DesfireAuthMode

abbrev pub mode_code : DesfireAuthMode → ℕ
mode_code legacy = 0x0A
mode_code iso = 0x1A
mode_code aes = 0xAA

pub record AuthenticateCommandOptions : Type 0 where
  pub mode : DesfireAuthMode
  pub key_no : ℕ
  pub key : List ℕ

abbrev pub is_aes : DesfireAuthMode → Bool
is_aes aes = true
is_aes _ = false

abbrev pub is_iso : DesfireAuthMode → Bool
is_iso iso = true
is_iso _ = false

-- A loop that compares two byte arrays; of arrays of two lengths it says no.
abbrev pub same_bytes : List ℕ → List ℕ → Bool
same_bytes [] [] = true
same_bytes [] (y ∷ ys) = false
same_bytes (x ∷ xs) [] = false
same_bytes (x ∷ xs) (y ∷ ys) = (x == y) && same_bytes xs ys

-- The halves of the key are compared without their parity bits.
unfoldable pub is_degenerate_16_byte_des_key : List ℕ → Bool
unfolding clear_parity_bits
is_degenerate_16_byte_des_key key =
    (length key == 16)
    && same_bytes (clear_parity_bits (take 8 key)) (clear_parity_bits (drop 8 key))

unfoldable pub uses_single_des_session_key : AuthenticateCommandOptions → Bool
unfolding is_degenerate_16_byte_des_key
uses_single_des_session_key options =
    if is_aes options.mode
    then false
    else (length options.key == 8) || is_degenerate_16_byte_des_key options.key

unfoldable pub uses_three_key_3des_session_key : AuthenticateCommandOptions → Bool
uses_three_key_3des_session_key options = is_iso options.mode && (length options.key == 24)

unfoldable pub random_size : AuthenticateCommandOptions → ℕ
unfolding uses_three_key_3des_session_key
random_size options =
    if is_aes options.mode || uses_three_key_3des_session_key options then 16 else 8

unfoldable pub cipher_block_size : AuthenticateCommandOptions → ℕ
cipher_block_size options = if is_aes options.mode then 16 else 8

-- The key sizes that the first request accepts.
unfoldable pub has_key_size : AuthenticateCommandOptions → Bool
has_key_size options = elim options.mode [
  | aes ↦ length options.key == 16
  | legacy ↦ (length options.key == 8) || (length options.key == 16)
  | iso ↦ (length options.key == 8) || (length options.key == 16) || (length options.key == 24)
]

-- Four bytes of each random number in turn, from each of the offsets.
abbrev pub interleave : List ℕ → List ℕ → List ℕ → Result (List ℕ)
interleave rnd_a rnd_b [] = ok []
interleave rnd_a rnd_b (offset ∷ offsets) = do
  a ← slice rnd_a offset 4
  b ← slice rnd_b offset 4
  rest ← interleave rnd_a rnd_b offsets
  ok (a ++ b ++ rest)

-- The branches of parseResponse that derive the session key.
unfoldable pub derive_session_key : AuthenticateCommandOptions → List ℕ → List ℕ → Result (List ℕ)
unfolding uses_single_des_session_key uses_three_key_3des_session_key generate_session_key
derive_session_key options rnd_a rnd_b =
    if uses_single_des_session_key options
    then (do raw ← interleave rnd_a rnd_b (0 ∷ []); ok (clear_parity_bits raw))
    else (if uses_three_key_3des_session_key options
        then (do raw ← interleave rnd_a rnd_b (0 ∷ 6 ∷ 12 ∷ []); ok (clear_parity_bits raw))
        else (if is_aes options.mode
            then interleave rnd_a rnd_b (0 ∷ 12 ∷ [])
            else generate_session_key rnd_a rnd_b))
