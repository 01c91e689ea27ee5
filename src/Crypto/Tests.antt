-- ===== src/Crypto/Tests.antt =====
-- The theorems on words, checksums and CMACs at concrete inputs. The ciphers are simple
-- permutations, which have the properties that the theorems ask for.
use nfc_cpp.Base.{ℕ, ◌+◌, ◌-◌, ◌%◌, ◌^◌, ◌≡◌, refl, arith, List, [], ◌∷◌, ◌++◌, replicate}
use nfc_cpp.Crypto.Ciphers.{Ciphers, IsSized, IsBytewise, IsInverse, IsAesInverse}
use nfc_cpp.Crypto.Keys.{rotate_right}
use nfc_cpp.Crypto.Keys.Rotation.{rotate_right-IsTurned, IsTurned}
use nfc_cpp.Crypto.Words.{le32}
use nfc_cpp.Crypto.Crc.{calculate_crc32_desfire}
use nfc_cpp.Crypto.Crc.Residue.{calculate_crc32_desfire_residue}
use nfc_cpp.Crypto.Block.{encrypt_tktdes_block, aes_encrypt_block}
use nfc_cpp.Crypto.Cmac.{calculate_tktdes_cmac, calculate_aes_cmac}
use nfc_cpp.Crypto.Cmac.Standard.{standard_cmac, calculate_cmac-standard_cmac}

-- DES adds one to a word and back; the chaining objects keep their IV; AES is the identity.
abbrev pub toy : Ciphers
toy = record {
  des_encrypt = λ k b. (b + 1) % 2 ^ 64;
  des_decrypt = λ k b. (b + (2 ^ 64 - 1)) % 2 ^ 64;
  des3_encrypt = λ k1 k2 k3 b. (b + 1) % 2 ^ 64;
  des3_decrypt = λ k1 k2 k3 b. (b + (2 ^ 64 - 1)) % 2 ^ 64;
  DesCbc = ℕ;
  des_cbc = λ k iv. iv;
  des_cbc_encrypt = λ s b. ((b + s) % 2 ^ 64, (b + s) % 2 ^ 64);
  des_cbc_decrypt = λ s b. ((b + (2 ^ 64 - s)) % 2 ^ 64, b);
  Des3Cbc = ℕ;
  des3_cbc = λ k1 k2 k3 iv. iv;
  des3_cbc_encrypt = λ s b. ((b + s) % 2 ^ 64, (b + s) % 2 ^ 64);
  des3_cbc_decrypt = λ s b. ((b + (2 ^ 64 - s)) % 2 ^ 64, b);
  aes_ecb_encrypt = λ k b. b;
  aes_cbc_encrypt = λ k iv b. b;
  aes_cbc_decrypt = λ k iv b. b;
}

pub toy-IsSized : IsSized toy
toy-IsSized = record {
  des_decrypt-lt = λ k b. omega arith;
  des3_decrypt-lt = λ k1 k2 k3 b. omega arith;
  length-aes_ecb = λ k b. refl;
  length-aes_cbc = λ k iv b. refl;
}

pub toy-IsInverse : IsInverse toy
toy-IsInverse = record {
  des_encrypt-decrypt = λ k b h. omega arith;
  des3_encrypt-decrypt = λ k1 k2 k3 b h. omega arith;
}

pub toy-IsAesInverse : IsAesInverse toy
toy-IsAesInverse = record { aes_cbc_decrypt-encrypt = λ k iv b h. refl }

abbrev word : List ℕ
word = 0x01 ∷ 0x23 ∷ 0x45 ∷ 0x67 ∷ 0x89 ∷ 0xAB ∷ 0xCD ∷ 0xEF ∷ []

calculate_crc32_desfire_residue_example :
    calculate_crc32_desfire (word ++ le32 (calculate_crc32_desfire word)) ≡ 0
calculate_crc32_desfire_residue_example = calculate_crc32_desfire_residue word (omega arith)

abbrev key16 : List ℕ
key16 = replicate 16 0x5A

toy-IsBytewise : IsBytewise toy
toy-IsBytewise = record { aes_ecb-bytes = λ k b h. h }

calculate_cmac-standard_cmac_example :
    (calculate_tktdes_cmac toy key16 16 (replicate 8 0) word
      ≡ standard_cmac 8 (encrypt_tktdes_block toy key16 16) 0x1B (replicate 8 0) word)
    × (calculate_aes_cmac toy key16 (replicate 16 0) word
        ≡ standard_cmac 16 (aes_encrypt_block toy key16) 0x87 (replicate 16 0) word)
calculate_cmac-standard_cmac_example =
    calculate_cmac-standard_cmac toy key16 16 (replicate 8 0) (replicate 16 0) word toy-IsSized
      toy-IsBytewise (omega arith) (omega arith)

rotate_right-IsTurned_example : IsTurned word 3 (rotate_right word 11)
rotate_right-IsTurned_example =
    rotate_right-IsTurned word 11 (omega arith) (omega arith) (omega arith) (omega arith)
