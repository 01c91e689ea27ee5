-- ===== src/Crypto/Crc.antt =====
-- calculateCrc16 and calculateCrc32Desfire of ValueOperationCryptoUtils.h.
pub mod Residue
use nfc_cpp.Base.{ℕ, zero, suc, ◌+◌, ◌-◌, ◌*◌, ◌/◌, ◌%◌, ◌^◌, List, [], ◌∷◌, bit_and, bit_xor}
use nfc_cpp.Base.{◌==◌, if◌then◌else◌}

-- One round of the CRC16 loop, on `uint16_t` and `uint8_t`.
unfoldable pub crc16_step : ℕ → ℕ → ℕ
crc16_step crc b =
    let low = bit_xor b (bit_and crc 0x00FF) in
    let value = bit_xor low (low * 2 ^ 4 % 2 ^ 8) in
    bit_xor (bit_xor (bit_xor (crc / 2 ^ 8) (value * 2 ^ 8)) (value * 2 ^ 3)) (value / 2 ^ 4)
    % 2 ^ 16

unfoldable pub crc16_loop : ℕ → List ℕ → ℕ
crc16_loop crc [] = crc
crc16_loop crc (b ∷ bs) = crc16_loop (crc16_step crc b) bs

unfoldable pub calculate_crc16 : List ℕ → ℕ
calculate_crc16 bytes = crc16_loop 0x6363 bytes

-- The inner loop over the bits of one byte.
unfoldable pub crc32_bits : ℕ → ℕ → ℕ
crc32_bits zero crc = crc
crc32_bits (suc n) crc =
    crc32_bits n (if bit_and crc 0x01 == 0 then crc / 2 else bit_xor (crc / 2) 0xEDB88320)

unfoldable pub crc32_loop : ℕ → List ℕ → ℕ
crc32_loop crc [] = crc
crc32_loop crc (b ∷ bs) = crc32_loop (crc32_bits 8 (bit_xor crc b)) bs

-- `~standardCrc32` on `uint32_t`.
unfoldable pub calculate_crc32_desfire : List ℕ → ℕ
calculate_crc32_desfire bytes =
    let crc = crc32_loop 0xFFFFFFFF bytes in
    let standard_crc32 = bit_xor crc 0xFFFFFFFF in 2 ^ 32 - 1 - standard_crc32
