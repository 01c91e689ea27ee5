-- ===== src/Crypto/Block.antt =====
-- The block helpers of ValueOperationCryptoUtils.h: xorBlock8/16, leftShiftOneBit8/16,
-- encryptTktdesBlock, aesEncryptBlock, padCmacBlock8 and padCmacBlock. A pointer is the array from
-- there on; it is never null, since each caller passes an array or a vector's data.
pub mod Xor
use nfc_cpp.Base.{ℕ, ◌-◌, ◌*◌, ◌%◌, ◌^◌, ◌||◌, List, [], ◌∷◌, ◌++◌, bit_and}
use nfc_cpp.Base.{
  bit_or, bit_xor, length, set, replicate, ltb, ◌==◌, if◌then◌else◌, Option, none, some,
}
use nfc_cpp.Base.{Result, ok, fault, ◌>>=◌, slice}
use nfc_cpp.Crypto.Ciphers.{Ciphers}
use nfc_cpp.Crypto.Words.{bytes_to_uint64, uint64_to_bytes}

-- xorBlock8 and xorBlock16, on arrays of that size.
unfoldable pub xor_block : List ℕ → List ℕ → List ℕ
xor_block [] bs = []
xor_block (a ∷ as_) [] = []
xor_block (a ∷ as_) (b ∷ bs) = bit_xor a b ∷ xor_block as_ bs

-- leftShiftOneBit8 and leftShiftOneBit16: from the last byte to the first, with the overflow.
unfoldable pub left_shift_one_bit : List ℕ → List ℕ × ℕ
left_shift_one_bit [] = ([], 0x00)
left_shift_one_bit (byte ∷ rest) =
    let (shifted, overflow) = left_shift_one_bit rest in
    (bit_or (byte * 2 % 2 ^ 8) overflow ∷ shifted, if bit_and byte 0x80 == 0 then 0x00 else 0x01)

-- padCmacBlock8 and padCmacBlock on a zeroed block of `size` bytes.
unfoldable pub pad_cmac_block : ℕ → List ℕ → Result (List ℕ)
pad_cmac_block size source =
    if ltb (length source) size
    then ok (set (source ++ replicate (size - length source) 0x00) (length source) 0x80)
    else fault

module _ (c : Ciphers) where
  open c use {des3_cbc, des3_cbc_encrypt, aes_ecb_encrypt}

  -- `keyLength` is 16 or 24; a chaining object with a zero IV encrypts one block.
  unfoldable pub encrypt_tktdes_block : List ℕ → ℕ → List ℕ → Result (Option (List ℕ))
  encrypt_tktdes_block key key_length input =
      if (key_length == 16) || (key_length == 24)
      then (do
        k1 ← bytes_to_uint64 key 0
        k2 ← bytes_to_uint64 key 8
        k3 ← if key_length == 24 then bytes_to_uint64 key 16 else ok k1
        block ← bytes_to_uint64 input 0
        let (cipher_block, chained) = des3_cbc_encrypt (des3_cbc k1 k2 k3 0) block
        ok (some (uint64_to_bytes cipher_block)))
      else ok none

  -- `AES_init_ctx` reads 16 key bytes.
  unfoldable pub aes_encrypt_block : List ℕ → List ℕ → Result (Option (List ℕ))
  aes_encrypt_block key input = do
    key_bytes ← slice key 0 16
    block ← slice input 0 16
    ok (some (aes_ecb_encrypt key_bytes block))
