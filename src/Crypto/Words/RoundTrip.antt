-- ===== src/Crypto/Words/RoundTrip.antt =====
-- The conversions are inverse to one another.
use nfc_cpp.Base.{ℕ, ◌+◌, ◌*◌, ◌/◌, ◌%◌, ◌^◌, ◌<◌, ◌≡◌, refl, ap, ◌∙◌, arith, List, [], ◌∷◌, length}
use nfc_cpp.Base.{All, IsByte, bit_or, ok, slice_in}
use nfc_cpp.Base.Bits.{bit_and-byte, bit_or-shift}
use nfc_cpp.Crypto.Words.{word_of, bytes_to_uint64, uint64_to_bytes, le32, le24, le16}

-- The bytes of a word, highest first, in plain arithmetic.
abbrev pub big_endian : ℕ → List ℕ
big_endian v =
    (v / 2 ^ 56 % 256)
    ∷ (v / 2 ^ 48 % 256)
    ∷ (v / 2 ^ 40 % 256)
    ∷ (v / 2 ^ 32 % 256)
    ∷ (v / 2 ^ 24 % 256)
    ∷ (v / 2 ^ 16 % 256)
    ∷ (v / 2 ^ 8 % 256)
    ∷ (v % 256)
    ∷ []

pub uint64_to_bytes-big_endian : (v : ℕ) → uint64_to_bytes v ≡ big_endian v
unfolding uint64_to_bytes
uint64_to_bytes-big_endian v = simp bit_and-byte (ground arith)

shift_in : (acc b : ℕ) → b < 256 → bit_or (acc * 2 ^ 8 % 2 ^ 64) b ≡ acc * 256 % 2 ^ 64 + b
shift_in acc b h =
    ap (λ (t : ℕ). bit_or t b) {y = acc % 2 ^ 56 * 2 ^ 8} (omega arith)
    ∙ bit_or-shift 8 (acc % 2 ^ 56) b h
    ∙ omega arith

word_of-step :
    (acc b : ℕ) (bs : List ℕ)
    → b < 256
    → acc < 2 ^ 56
    → word_of acc (b ∷ bs) ≡ word_of (acc * 256 + b) bs
unfolding word_of
word_of-step acc b bs h fits = ap (λ (t : ℕ). word_of t bs) (shift_in acc b h ∙ omega arith)

-- A word is read back from its eight bytes.
word_of-big_endian : (v : ℕ) → v < 2 ^ 64 → word_of 0 (big_endian v) ≡ v
word_of-big_endian v h =
    word_of-step 0 _ _ (omega arith) (omega arith)
    ∙ word_of-step _ _ _ (omega arith) (omega arith)
    ∙ word_of-step _ _ _ (omega arith) (omega arith)
    ∙ word_of-step _ _ _ (omega arith) (omega arith)
    ∙ word_of-step _ _ _ (omega arith) (omega arith)
    ∙ word_of-step _ _ _ (omega arith) (omega arith)
    ∙ word_of-step _ _ _ (omega arith) (omega arith)
    ∙ word_of-step _ _ _ (omega arith) (omega arith)
    ∙ unfold word_of in omega arith

-- Every 64-bit word survives being written as bytes and read back.
pub bytes_to_uint64-uint64_to_bytes :
    (v : ℕ) → v < 2 ^ 64 → bytes_to_uint64 (uint64_to_bytes v) 0 ≡ ok v
unfolding bytes_to_uint64
bytes_to_uint64-uint64_to_bytes v h =
    rw (uint64_to_bytes-big_endian, slice_in (big_endian v) 0 8 (omega arith))
      (ap ok (word_of-big_endian v h))

-- Every eight bytes survive being read as a 64-bit word and written back.
pub uint64_to_bytes-bytes_to_uint64 :
    (bs : List ℕ)
    → length bs ≡ 8
    → All IsByte bs
    → (v : ℕ) × (bytes_to_uint64 bs 0 ≡ ok v) × (v < 2 ^ 64) × (uint64_to_bytes v ≡ bs)
unfolding bytes_to_uint64
uint64_to_bytes-bytes_to_uint64 (a ∷ b ∷ c ∷ d ∷ e ∷ f ∷ g ∷ h ∷ []) n bytes = (
  number,
  rw (slice_in (a ∷ b ∷ c ∷ d ∷ e ∷ f ∷ g ∷ h ∷ []) 0 8 (omega arith)) (ap ok reads),
  omega arith,
  rw uint64_to_bytes-big_endian (ground arith),
)
  where
    number : ℕ
    number = ((((((a * 256 + b) * 256 + c) * 256 + d) * 256 + e) * 256 + f) * 256 + g) * 256 + h

    reads : word_of 0 (a ∷ b ∷ c ∷ d ∷ e ∷ f ∷ g ∷ h ∷ []) ≡ number
    reads =
        word_of-step 0 _ _ (omega arith) (omega arith)
        ∙ word_of-step _ _ _ (omega arith) (omega arith)
        ∙ word_of-step _ _ _ (omega arith) (omega arith)
        ∙ word_of-step _ _ _ (omega arith) (omega arith)
        ∙ word_of-step _ _ _ (omega arith) (omega arith)
        ∙ word_of-step _ _ _ (omega arith) (omega arith)
        ∙ word_of-step _ _ _ (omega arith) (omega arith)
        ∙ word_of-step _ _ _ (omega arith) (omega arith)
        ∙ unfold word_of in omega arith
uint64_to_bytes-bytes_to_uint64 _ n bytes = absurd (omega arith)

pub le32-bytes : (v : ℕ) → All IsByte (le32 v)
unfolding le32
le32-bytes v = simp bit_and-byte (omega arith)

-- The number that four bytes, lowest first, stand for.
abbrev pub from_le : List ℕ → ℕ
from_le [] = 0
from_le (b ∷ bs) = b + 256 * from_le bs

-- The little-endian writers keep the value modulo their width: 2^16, 2^24 and 2^32.
pub le-from_le :
    (v : ℕ)
    → (from_le (le16 v) ≡ v % 2 ^ 16)
      × (from_le (le24 v) ≡ v % 2 ^ 24)
      × (from_le (le32 v) ≡ v % 2 ^ 32)
unfolding le16 le24 le32
le-from_le v = simp bit_and-byte (omega arith, omega arith, omega arith)

pub uint64_to_bytes-IsBlock :
    (v : ℕ) → (length (uint64_to_bytes v) ≡ 8) × All IsByte (uint64_to_bytes v)
uint64_to_bytes-IsBlock v = rw (uint64_to_bytes-big_endian v) (refl, ground arith)
