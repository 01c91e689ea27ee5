-- ===== src/Crypto/Crc/Residue.antt =====
-- A message followed by its own CRC has the CRC 0, which is how a receiver checks it.
use nfc_cpp.Base.{ℕ, zero, suc, ◌+◌, ◌*◌, ◌/◌, ◌%◌, ◌^◌, ◌<◌, ◌≡◌, refl, ap, ◌∙◌, arith}
use nfc_cpp.Base.{List, [], ◌∷◌, ◌++◌, All, IsByte, bit_xor}
use nfc_cpp.Base.Bits.{bit_and-one, bit_and-byte, bit_xor_self, bit_xor-zero, bit_xor-shift}
use nfc_cpp.Base.Bits.{bit_xor-ones, bit_xor-lt}
use native.Mathlib.Nat.{pow-suc}
use nfc_cpp.Base.{All-append}
use nfc_cpp.Crypto.Words.{le16, le32}
use nfc_cpp.Crypto.Words.RoundTrip.{le32-bytes}
use nfc_cpp.Crypto.Crc.{crc16_step, crc16_loop, calculate_crc16}
use nfc_cpp.Crypto.Crc.{crc32_bits, crc32_loop, calculate_crc32_desfire}

-- The byte that equals the low half shifts the register.
crc16_step-low : (crc : ℕ) → crc < 2 ^ 16 → crc16_step crc (crc % 256) ≡ crc / 256
unfolding crc16_step
crc16_step-low crc h = simp (bit_and-byte, bit_xor_self, bit_xor-zero) (omega arith)

crc16_loop-append :
    (crc : ℕ) (xs ys : List ℕ) → crc16_loop crc (xs ++ ys) ≡ crc16_loop (crc16_loop crc xs) ys
unfolding crc16_loop
crc16_loop-append crc [] ys = refl
crc16_loop-append crc (x ∷ xs) ys = crc16_loop-append (crc16_step crc x) xs ys

crc16_loop-lt : (crc : ℕ) (xs : List ℕ) → crc < 2 ^ 16 → crc16_loop crc xs < 2 ^ 16
unfolding crc16_loop
crc16_loop-lt crc [] h = h
crc16_loop-lt crc (x ∷ xs) h =
    crc16_loop-lt (crc16_step crc x) xs (unfold crc16_step in omega arith)

crc16_loop-le16 : (crc : ℕ) → crc < 2 ^ 16 → crc16_loop crc (le16 crc) ≡ 0
unfolding crc16_loop le16
crc16_loop-le16 crc h =
    simp bit_and-byte
      (rw (crc16_step-low crc h, shifted) (crc16_step-low (crc / 256) (omega arith) ∙ omega arith))
  where
    shifted : crc / 2 ^ 8 % 256 ≡ crc / 256 % 256
    shifted = refl

-- Any message followed by its CRC16, low byte first, has the CRC16 zero.
pub calculate_crc16_residue :
    (bytes : List ℕ) → calculate_crc16 (bytes ++ le16 (calculate_crc16 bytes)) ≡ 0
unfolding calculate_crc16
calculate_crc16_residue bytes =
    crc16_loop-append 0x6363 bytes _
    ∙ crc16_loop-le16 (crc16_loop 0x6363 bytes) (crc16_loop-lt 0x6363 bytes (omega arith))

crc32_bits-shift : (n q : ℕ) → crc32_bits n (q * 2 ^ n) ≡ q
unfolding crc32_bits
crc32_bits-shift zero q = omega arith
crc32_bits-shift (suc n) q =
    ap (crc32_bits n) (rw (bit_and-one, even) (omega (arith, doubled))) ∙ crc32_bits-shift n q
  where
    doubled : q * 2 ^ suc n ≡ 2 * (q * 2 ^ n)
    doubled = omega (arith, ap (λ (t : ℕ). q * t) (pow-suc 2 n))

    even : q * 2 ^ suc n % 2 ≡ 0
    even = omega (arith, doubled)

crc32_bits-low : (crc : ℕ) → crc32_bits 8 (bit_xor crc (crc % 256)) ≡ crc / 256
crc32_bits-low crc =
    ap (crc32_bits 8) (
      ap (λ (c : ℕ). bit_xor c (crc % 256)) {y = crc / 256 * 2 ^ 8 + crc % 256} (omega arith)
      ∙ bit_xor-shift 8 (crc / 256) (crc % 256) (crc % 256) (omega arith) (omega arith)
      ∙ omega (arith, bit_xor_self (crc % 256)))
    ∙ crc32_bits-shift 8 (crc / 256)

crc32_bits-lt : (n crc : ℕ) → crc < 2 ^ 32 → crc32_bits n crc < 2 ^ 32
unfolding crc32_bits
crc32_bits-lt zero crc h = h
crc32_bits-lt (suc n) crc h =
    crc32_bits-lt n _
      (ground (arith, bit_xor-lt 32 (crc / 2) 0xEDB88320 (omega arith) (omega arith)))

crc32_loop-lt : (crc : ℕ) (xs : List ℕ) → All IsByte xs → crc < 2 ^ 32 → crc32_loop crc xs < 2 ^ 32
unfolding crc32_loop
crc32_loop-lt crc [] b h = h
crc32_loop-lt crc (x ∷ xs) (b, bs) h =
    crc32_loop-lt (crc32_bits 8 (bit_xor crc x)) xs bs
      (crc32_bits-lt 8 _ (bit_xor-lt 32 crc x h (omega arith)))

crc32_loop-append :
    (crc : ℕ) (xs ys : List ℕ) → crc32_loop crc (xs ++ ys) ≡ crc32_loop (crc32_loop crc xs) ys
unfolding crc32_loop
crc32_loop-append crc [] ys = refl
crc32_loop-append crc (x ∷ xs) ys = crc32_loop-append (crc32_bits 8 (bit_xor crc x)) xs ys

crc32_loop-step :
    (crc b : ℕ) (bs : List ℕ) → b ≡ crc % 256 → crc32_loop crc (b ∷ bs) ≡ crc32_loop (crc / 256) bs
unfolding crc32_loop
crc32_loop-step crc b bs h = rw h (ap (λ (c : ℕ). crc32_loop c bs) (crc32_bits-low crc))

crc32_loop-le32 : (crc : ℕ) → crc < 2 ^ 32 → crc32_loop crc (le32 crc) ≡ 0
unfolding le32
crc32_loop-le32 crc h = simp bit_and-byte (
    crc32_loop-step crc _ _ refl
    ∙ crc32_loop-step _ _ _ refl
    ∙ crc32_loop-step _ _ _ (omega arith)
    ∙ crc32_loop-step _ _ _ (omega arith)
    ∙ unfold crc32_loop in omega arith)

-- The two final complements undo one another.
calculate_crc32-loop :
    (bytes : List ℕ)
    → All IsByte bytes
    → calculate_crc32_desfire bytes ≡ crc32_loop 0xFFFFFFFF bytes
unfolding calculate_crc32_desfire
calculate_crc32-loop bytes h =
    let fits = crc32_loop-lt 0xFFFFFFFF bytes h (omega arith) in
    omega (arith, fits, bit_xor-ones 32 (crc32_loop 0xFFFFFFFF bytes) fits)

-- Any byte message followed by its DESFire CRC32, low byte first, has the CRC32 zero.
pub calculate_crc32_desfire_residue :
    (bytes : List ℕ)
    → All IsByte bytes
    → calculate_crc32_desfire (bytes ++ le32 (calculate_crc32_desfire bytes)) ≡ 0
calculate_crc32_desfire_residue bytes h =
    calculate_crc32-loop _ (All-append _ bytes _ h (le32-bytes _))
    ∙ crc32_loop-append 0xFFFFFFFF bytes _
    ∙ rw (calculate_crc32-loop bytes h)
        (crc32_loop-le32 _ (crc32_loop-lt 0xFFFFFFFF bytes h (omega arith)))
