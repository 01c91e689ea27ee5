-- ===== src/Crypto/Cmac.antt =====
-- calculateTktdesCmac and calculateAesCmac of ValueOperationCryptoUtils.h, with their subkeys. The
-- two differ in the block size, in the subkey constant and in the block cipher, which are the
-- parameters here. AES never returns `false`.
pub mod Reference
pub mod Total
pub mod Doubling
pub mod Standard
use nfc_cpp.Base.{
  ℕ, zero, suc, ◌+◌, ◌-◌, ◌*◌, ◌/◌, ◌%◌, Bool, ◌&&◌, not, List, [], ◌∷◌, length, set,
}
use nfc_cpp.Base.{bit_and, bit_xor, replicate, ◌==◌, if◌then◌else◌, Option, none, some}
use nfc_cpp.Base.{Result, ok, ◌>>=◌, on_true, read, slice}
use nfc_cpp.Crypto.Ciphers.{Ciphers}
use nfc_cpp.Crypto.Block.{xor_block, left_shift_one_bit, pad_cmac_block, encrypt_tktdes_block}
use nfc_cpp.Crypto.Block.{aes_encrypt_block}

abbrev pub aes_cmac_rb : ℕ
aes_cmac_rb = 0x87

abbrev pub tktdes_cmac_rb : ℕ
tktdes_cmac_rb = 0x1B

module _ (size : ℕ) where
  -- One subkey from the block before it.
  unfoldable pub next_subkey : ℕ → List ℕ → Result (Option (List ℕ))
  next_subkey rb block = do
    top ← read block 0
    let shifted = (left_shift_one_bit block).0
    if bit_and top 0x80 == 0 then ok (some shifted) else (do
      last ← read shifted (size - 1)
      ok (some (set shifted (size - 1) (bit_xor last rb))))

  unfoldable pub last_block : List ℕ → ℕ → List ℕ × List ℕ → Result (List ℕ)
  last_block message block_count (k1, k2) =
      let last_offset = (block_count - 1) * size in
      if not (length message == 0) && (length message % size == 0)
      then (do block ← slice message last_offset size; ok (xor_block block k1))
      else (do
        block ← slice message last_offset (length message - last_offset)
        padded ← pad_cmac_block size block
        ok (xor_block padded k2))

module _ (size : ℕ) (encrypt : List ℕ → Result (Option (List ℕ))) where
  unfoldable pub generate_subkeys : ℕ → Result (Option (List ℕ × List ℕ))
  generate_subkeys rb = on_true (encrypt (replicate size 0x00)) λ l.
      on_true (next_subkey size rb l)
        λ k1. on_true (next_subkey size rb k1) λ k2. ok (some (k1, k2))

  -- The chaining loop, with `rounds` blocks before the last one to go.
  unfoldable pub chain : List ℕ → ℕ → ℕ → List ℕ → Result (Option (List ℕ))
  chain message zero block_index x = ok (some x)
  chain message (suc rounds) block_index x = do
    block ← slice message (block_index * size) size
    on_true (encrypt (xor_block x block)) λ x'. chain message rounds (block_index + 1) x'

  -- The CMAC under given subkeys.
  unfoldable pub cmac_blocks : List ℕ → List ℕ → List ℕ × List ℕ → Result (Option (List ℕ))
  unfolding last_block chain
  cmac_blocks initial_iv message subkeys = do
    let counted = (length message + (size - 1)) / size
    let block_count = if counted == 0 then 1 else counted
    m_last ← last_block size message block_count subkeys
    x ← slice initial_iv 0 size
    on_true (chain message (block_count - 1) 0 x) λ x'. encrypt (xor_block x' m_last)

  unfoldable pub calculate_cmac : ℕ → List ℕ → List ℕ → Result (Option (List ℕ))
  unfolding generate_subkeys cmac_blocks
  calculate_cmac rb initial_iv message =
      on_true (generate_subkeys rb) (cmac_blocks initial_iv message)

module _ (c : Ciphers) where
  unfoldable pub calculate_tktdes_cmac : List ℕ → ℕ → List ℕ → List ℕ → Result (Option (List ℕ))
  unfolding calculate_cmac
  calculate_tktdes_cmac key key_length =
      calculate_cmac 8 (encrypt_tktdes_block c key key_length) tktdes_cmac_rb

  unfoldable pub calculate_aes_cmac : List ℕ → List ℕ → List ℕ → Result (Option (List ℕ))
  unfolding calculate_cmac
  calculate_aes_cmac key = calculate_cmac 16 (aes_encrypt_block c key) aes_cmac_rb
