-- ===== src/Pn532/Checksum.antt =====
-- The checksums of Src/Pn532/Pn532RequestFrame.cpp and the packet that both directions use.
use nfc_cpp.Base.{ℕ, ◌+◌, ◌-◌, ◌%◌, ◌≤◌, ◌<◌, ◌≡◌, arith, List, [], ◌∷◌, ◌++◌}
use nfc_cpp.Base.{length}

-- `uint8_t sum = 0; for (...) sum += data[i];`
unfoldable pub byte_sum : ℕ → List ℕ → ℕ
byte_sum sum [] = sum
byte_sum sum (b ∷ bs) = byte_sum ((sum + b) % 256) bs

-- `static_cast<uint8_t>(~sum + 1)` for a byte.
abbrev pub negate : ℕ → ℕ
negate sum = (255 - sum + 1) % 256

-- Pn532RequestFrame::calculateChecksum
unfoldable pub calculate_checksum : List ℕ → ℕ
unfolding byte_sum
calculate_checksum bytes = negate (byte_sum 0 bytes)

-- Pn532RequestFrame::calculateLengthChecksum
unfoldable pub calculate_length_checksum : ℕ → ℕ
calculate_length_checksum len = negate len

abbrev pub sum : List ℕ → ℕ
sum [] = 0
sum (b ∷ bs) = b + sum bs

pub sum-append : (xs ys : List ℕ) → sum (xs ++ ys) ≡ sum xs + sum ys
sum-append [] ys = omega arith
sum-append (x ∷ xs) ys = omega (arith, sum-append xs ys)

pub byte_sum-sum : (acc : ℕ) (bs : List ℕ) → acc < 256 → byte_sum acc bs ≡ (acc + sum bs) % 256
unfolding byte_sum
byte_sum-sum acc [] h = omega arith
byte_sum-sum acc (b ∷ bs) h = omega (arith, byte_sum-sum ((acc + b) % 256) bs (omega arith))

pub calculate_checksum-sum :
    (bs : List ℕ) → (calculate_checksum bs < 256) × ((sum bs + calculate_checksum bs) % 256 ≡ 0)
unfolding calculate_checksum
calculate_checksum-sum bs = omega (arith, byte_sum-sum 0 bs (omega arith))

pub calculate_checksum_unique :
    (bs : List ℕ) (dcs : ℕ) → dcs < 256 → (sum bs + dcs) % 256 ≡ 0 → calculate_checksum bs ≡ dcs
unfolding calculate_checksum
calculate_checksum_unique bs dcs h z = omega (arith, byte_sum-sum 0 bs (omega arith))

-- A packet as the chip's data sheet frames it: start code, length with its checksum, direction,
-- code, payload, and a checksum over all that the length counts.
pub record IsPacket (tfi code : ℕ) (payload packet : List ℕ) : Type 0 where
  pub len : ℕ
  pub lcs : ℕ
  pub dcs : ℕ
  pub bytes : packet ≡ 0x00 ∷ 0x00 ∷ 0xFF ∷ len ∷ lcs ∷ tfi ∷ code ∷ (payload ++ (dcs ∷ []))
  pub counts : len ≡ length payload + 2
  pub bounded : len ≤ 254
  pub length_zero : (len + lcs) % 256 ≡ 0
  pub data_zero : (tfi + (code + sum payload) + dcs) % 256 ≡ 0
  pub lcs_byte : lcs < 256
  pub dcs_byte : dcs < 256
