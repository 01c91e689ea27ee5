-- ===== src/Crypto/Ciphers.antt =====
-- The block ciphers that the code calls: cppDes (`DES`, `DES3`, `DESCBC`, `DES3CBC`) and tiny-aes
-- (`AES_ECB_encrypt`, `AES_CBC_encrypt_buffer`, `AES_CBC_decrypt_buffer`), both submodules outside the repository's tree.
-- A chaining object is a state that `encrypt` replaces. Keys and blocks of the DES family are
-- 64-bit words, those of AES are byte lists.
use nfc_cpp.Base.{ℕ, ◌^◌, ◌<◌, ◌%◌, ◌≡◌, List, length, All, IsByte}

pub record Ciphers : Type 1 where
  pub des_encrypt : ℕ → ℕ → ℕ
  pub des_decrypt : ℕ → ℕ → ℕ
  pub des3_encrypt : ℕ → ℕ → ℕ → ℕ → ℕ
  pub des3_decrypt : ℕ → ℕ → ℕ → ℕ → ℕ
  pub DesCbc : Type 0
  pub des_cbc : ℕ → ℕ → DesCbc
  pub des_cbc_encrypt : DesCbc → ℕ → ℕ × DesCbc
  pub des_cbc_decrypt : DesCbc → ℕ → ℕ × DesCbc
  pub Des3Cbc : Type 0
  pub des3_cbc : ℕ → ℕ → ℕ → ℕ → Des3Cbc
  pub des3_cbc_encrypt : Des3Cbc → ℕ → ℕ × Des3Cbc
  pub des3_cbc_decrypt : Des3Cbc → ℕ → ℕ × Des3Cbc
  pub aes_ecb_encrypt : List ℕ → List ℕ → List ℕ
  pub aes_cbc_encrypt : List ℕ → List ℕ → List ℕ → List ℕ
  pub aes_cbc_decrypt : List ℕ → List ℕ → List ℕ → List ℕ

-- What the code relies on: words of 64 bits come out, and AES works in place on its buffer.
pub record IsSized (c : Ciphers) : Type 0 where
  pub des_decrypt-lt : (k b : ℕ) → c.des_decrypt k b < 2 ^ 64
  pub des3_decrypt-lt : (k1 k2 k3 b : ℕ) → c.des3_decrypt k1 k2 k3 b < 2 ^ 64
  pub length-aes_ecb : (k b : List ℕ) → length (c.aes_ecb_encrypt k b) ≡ length b
  pub length-aes_cbc : (k iv b : List ℕ) → length (c.aes_cbc_encrypt k iv b) ≡ length b

-- AES gives bytes for bytes.
pub record IsBytewise (c : Ciphers) : Type 0 where
  pub aes_ecb-bytes : (k b : List ℕ) → All IsByte b → All IsByte (c.aes_ecb_encrypt k b)

-- Decryption and encryption under one key are inverse on 64-bit words.
pub record IsInverse (c : Ciphers) : Type 0 where
  pub des_encrypt-decrypt : (k b : ℕ) → b < 2 ^ 64 → c.des_encrypt k (c.des_decrypt k b) ≡ b
  pub des3_encrypt-decrypt :
      (k1 k2 k3 b : ℕ) → b < 2 ^ 64 → c.des3_encrypt k1 k2 k3 (c.des3_decrypt k1 k2 k3 b) ≡ b

-- AES in CBC mode decrypts what it encrypted under the same key and IV, on whole blocks.
pub record IsAesInverse (c : Ciphers) : Type 0 where
  pub aes_cbc_decrypt-encrypt :
      (k iv b : List ℕ) → length b % 16 ≡ 0 → c.aes_cbc_decrypt k iv (c.aes_cbc_encrypt k iv b) ≡ b
