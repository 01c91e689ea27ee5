-- ===== src/Crypto/Words.antt =====
-- bytesToUint64 and uint64ToBytes of Src/Utils/DesfireCrypto.cpp, and appendLe16, appendLe24 and
-- appendLe32 of ValueOperationCryptoUtils.h.
pub mod RoundTrip
use nfc_cpp.Base.{ℕ, zero, suc, ◌+◌, ◌*◌, ◌/◌, ◌%◌, ◌^◌, List, [], ◌∷◌, ◌++◌, bit_and, bit_or}
use nfc_cpp.Base.{Result, ok, ◌>>=◌, slice}

-- `result = (result << 8) | data[i]`
unfoldable pub word_of : ℕ → List ℕ → ℕ
word_of result [] = result
word_of result (b ∷ bs) = word_of (bit_or (result * 2 ^ 8 % 2 ^ 64) b) bs

-- `bytesToUint64(data + off)`
unfoldable pub bytes_to_uint64 : List ℕ → ℕ → Result ℕ
bytes_to_uint64 xs off = do word ← slice xs off 8; ok (word_of 0 word)

-- The loop from `output[7]` down to `output[0]`; the list is what has been written.
unfoldable pub uint64_to_bytes_loop : ℕ → ℕ → List ℕ → List ℕ
uint64_to_bytes_loop zero value out = out
uint64_to_bytes_loop (suc n) value out =
    uint64_to_bytes_loop n (value / 2 ^ 8) (bit_and value 0xFF ∷ out)

unfoldable pub uint64_to_bytes : ℕ → List ℕ
unfolding uint64_to_bytes_loop
uint64_to_bytes value = uint64_to_bytes_loop 8 value []

unfoldable pub le16 : ℕ → List ℕ
le16 value = bit_and value 0xFF ∷ bit_and (value / 2 ^ 8) 0xFF ∷ []

unfoldable pub le24 : ℕ → List ℕ
le24 value = bit_and value 0xFF ∷ bit_and (value / 2 ^ 8) 0xFF ∷ bit_and (value / 2 ^ 16) 0xFF ∷ []

unfoldable pub le32 : ℕ → List ℕ
le32 value =
    bit_and value 0xFF
    ∷ bit_and (value / 2 ^ 8) 0xFF
    ∷ bit_and (value / 2 ^ 16) 0xFF
    ∷ bit_and (value / 2 ^ 24) 0xFF
    ∷ []
