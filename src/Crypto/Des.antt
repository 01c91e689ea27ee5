-- ===== src/Crypto/Des.antt =====
-- desEncrypt, desDecrypt, des3Encrypt and des3Decrypt of Src/Utils/DesfireCrypto.cpp, on one block.
pub mod Inverse
use nfc_cpp.Base.{ℕ, List, Result, ok, ◌>>=◌}
use nfc_cpp.Crypto.Ciphers.{Ciphers}
use nfc_cpp.Crypto.Words.{bytes_to_uint64, uint64_to_bytes}

module _ (c : Ciphers) where
  unfoldable pub des_encrypt : List ℕ → List ℕ → Result (List ℕ)
  des_encrypt plaintext key = do
    plain_block ← bytes_to_uint64 plaintext 0
    key_value ← bytes_to_uint64 key 0
    ok (uint64_to_bytes (c.des_encrypt key_value plain_block))

  unfoldable pub des_decrypt : List ℕ → List ℕ → Result (List ℕ)
  des_decrypt ciphertext key = do
    cipher_block ← bytes_to_uint64 ciphertext 0
    key_value ← bytes_to_uint64 key 0
    ok (uint64_to_bytes (c.des_decrypt key_value cipher_block))

  unfoldable pub des3_encrypt : List ℕ → List ℕ → Result (List ℕ)
  des3_encrypt plaintext key = do
    plain_block ← bytes_to_uint64 plaintext 0
    key1 ← bytes_to_uint64 key 0
    key2 ← bytes_to_uint64 key 8
    ok (uint64_to_bytes (c.des3_encrypt key1 key2 key1 plain_block))

  unfoldable pub des3_decrypt : List ℕ → List ℕ → Result (List ℕ)
  des3_decrypt ciphertext key = do
    cipher_block ← bytes_to_uint64 ciphertext 0
    key1 ← bytes_to_uint64 key 0
    key2 ← bytes_to_uint64 key 8
    ok (uint64_to_bytes (c.des3_decrypt key1 key2 key1 cipher_block))
