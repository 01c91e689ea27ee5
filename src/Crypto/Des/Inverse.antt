-- ===== src/Crypto/Des/Inverse.antt =====
-- Encrypting a decrypted block gives the block back.
use nfc_cpp.Base.{
  ℕ, ◌+◌, ◌≤◌, ◌<◌, ◌^◌, ◌≡◌, refl, arith, List, length, take, drop, Result, ok, slice_in,
}
use nfc_cpp.Crypto.Ciphers.{Ciphers, IsSized, IsInverse}
use nfc_cpp.Crypto.Words.{bytes_to_uint64, uint64_to_bytes, word_of}
use nfc_cpp.Crypto.Words.RoundTrip.{
  bytes_to_uint64-uint64_to_bytes, uint64_to_bytes-bytes_to_uint64, uint64_to_bytes-IsBlock,
}
use nfc_cpp.Crypto.Block.Xor.{IsBlock}
use nfc_cpp.Crypto.Des.{des_encrypt, des_decrypt, des3_encrypt, des3_decrypt}

-- `undo` takes every block that `apply` makes of a block back.
abbrev pub Undoes : (List ℕ → Result (List ℕ)) → (List ℕ → Result (List ℕ)) → Type 0
Undoes undo apply =
    (b : List ℕ) → IsBlock b → (x : List ℕ) × (apply b ≡ ok x) × IsBlock x × (undo x ≡ ok b)

bytes_to_uint64_in :
    (xs : List ℕ) (off : ℕ)
    → off + 8 ≤ length xs
    → bytes_to_uint64 xs off ≡ ok (word_of 0 (take 8 (drop off xs)))
unfolding bytes_to_uint64
bytes_to_uint64_in xs off h = rw (slice_in xs off 8 h) refl

-- With a key of 8 bytes at least, DES encryption takes DES decryption of a block back.
pub des_encrypt-Undoes :
    (c : Ciphers) (key : List ℕ)
    → IsSized c
    → IsInverse c
    → 8 ≤ length key
    → Undoes (λ b. des_encrypt c b key) (λ b. des_decrypt c b key)
unfolding des_encrypt des_decrypt
des_encrypt-Undoes c key sized inverse h b (eight, bytes) =
    let (v, reads, fits, writes) = uint64_to_bytes-bytes_to_uint64 b eight bytes in
    let k = word_of 0 (take 8 (drop 0 key)) in
    let w = c.des_decrypt k v in
    let w_fits : w < 2 ^ 64 = sized.des_decrypt-lt k v in
    let back : c.des_encrypt k w ≡ v = inverse.des_encrypt-decrypt k v fits in
    let key_read = bytes_to_uint64_in key 0 h in
    (
      uint64_to_bytes w,
      rw (reads, key_read) refl,
      uint64_to_bytes-IsBlock w,
      rw (bytes_to_uint64-uint64_to_bytes w w_fits, key_read, back, writes) refl,
    )

-- The same of two-key 3DES, with a key of 16 bytes at least.
pub des3_encrypt-Undoes :
    (c : Ciphers) (key : List ℕ)
    → IsSized c
    → IsInverse c
    → 16 ≤ length key
    → Undoes (λ b. des3_encrypt c b key) (λ b. des3_decrypt c b key)
unfolding des3_encrypt des3_decrypt
des3_encrypt-Undoes c key sized inverse h b (eight, bytes) =
    let (v, reads, fits, writes) = uint64_to_bytes-bytes_to_uint64 b eight bytes in
    let k1 = word_of 0 (take 8 (drop 0 key)) in
    let k2 = word_of 0 (take 8 (drop 8 key)) in
    let w = c.des3_decrypt k1 k2 k1 v in
    let w_fits : w < 2 ^ 64 = sized.des3_decrypt-lt k1 k2 k1 v in
    let back : c.des3_encrypt k1 k2 k1 w ≡ v = inverse.des3_encrypt-decrypt k1 k2 k1 v fits in
    let low = bytes_to_uint64_in key 0 (omega arith) in
    let high = bytes_to_uint64_in key 8 h in
    (
      uint64_to_bytes w,
      rw (reads, low, high) refl,
      uint64_to_bytes-IsBlock w,
      rw (bytes_to_uint64-uint64_to_bytes w w_fits, low, high, back, writes) refl,
    )
