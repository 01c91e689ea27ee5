-- ===== src/Crypto/Cmac/Total.antt =====
-- Both CMAC routines return, and a MAC is a whole block.
use nfc_cpp.Base.{
  ℕ, zero, suc, ◌+◌, ◌-◌, ◌≤◌, ◌<◌, ◌≡◌, refl, sym, ap, ◌∙◌, arith, List, [], ◌∷◌, ◌++◌, length,
  ◌⊎◌, inl, inr, Bool-cases, bit_and, bit_xor,
}
use nfc_cpp.Base.{
  take, drop, leb, ◌==◌, ==→eq, Option, some, Result, ok, set, replicate, get_elem?-in,
}
use nfc_cpp.Base.{
  slice_in, length-drop, length-take, length-replicate, length-append, length-set, length-slice,
}
use nfc_cpp.Crypto.Ciphers.{Ciphers, IsSized}
use nfc_cpp.Crypto.Words.{bytes_to_uint64, uint64_to_bytes, word_of}
use nfc_cpp.Crypto.Words.RoundTrip.{uint64_to_bytes-big_endian}
use nfc_cpp.Crypto.Block.{xor_block, left_shift_one_bit, encrypt_tktdes_block, aes_encrypt_block}
use nfc_cpp.Crypto.Cmac.{
  next_subkey, generate_subkeys, calculate_tktdes_cmac, calculate_aes_cmac, tktdes_cmac_rb,
  aes_cmac_rb,
}
use nfc_cpp.Crypto.Cmac.Reference.{final, absorb, reference_cmac, cmac-reference}

-- A call that returns `true` and fills an array of `n` bytes.
abbrev pub Fills : ℕ → Result (Option (List ℕ)) → Type 0
Fills n r = (out : List ℕ) × (r ≡ ok (some out)) × (length out ≡ n)

length-xor_block :
    (as_ bs : List ℕ) → length as_ ≡ length bs → length (xor_block as_ bs) ≡ length as_
unfolding xor_block
length-xor_block [] bs h = refl
length-xor_block (a ∷ as_) [] h = absurd (omega arith)
length-xor_block (a ∷ as_) (b ∷ bs) h = ap suc (length-xor_block as_ bs (omega arith))

length-left_shift : (bs : List ℕ) → length (left_shift_one_bit bs).0 ≡ length bs
unfolding left_shift_one_bit
length-left_shift [] = refl
length-left_shift (b ∷ bs) = ap suc (length-left_shift bs)

module _ (size rb : ℕ) (pos : 0 < size) where
  next_subkey-Fills :
      (block : List ℕ) → length block ≡ size → Fills size (next_subkey size rb block)
  unfolding next_subkey
  next_subkey-Fills block h =
      let (top, et) = get_elem?-in block 0 (omega arith) in
      let shifted = (left_shift_one_bit block).0 in
      let n : length shifted ≡ size = length-left_shift block ∙ h in
      let (last, el) = get_elem?-in shifted (size - 1) (omega arith) in
      elim (Bool-cases (bit_and top 0x80 == 0)) [
        | inl e ↦ (shifted, rw (et, e) refl, n)
        | inr e ↦ (
          set shifted (size - 1) (bit_xor last rb),
          rw (et, e, el) refl,
          length-set shifted (size - 1) (bit_xor last rb) ∙ n,
        )
      ]

module _ (size rb : ℕ) (pos : 0 < size) (encrypt : List ℕ → Result (Option (List ℕ)))
    (fills : (b : List ℕ) → length b ≡ size → Fills size (encrypt b)) where
  subkeys-fill :
      (k1 k2 : List ℕ) × (generate_subkeys size encrypt rb ≡ ok (some (k1, k2)))
      × (length k1 ≡ size)
      × (length k2 ≡ size)
  unfolding generate_subkeys
  subkeys-fill =
      let (l, el, nl) = fills (replicate size 0x00) (length-replicate size 0x00) in
      let (k1, e1, n1) = next_subkey-Fills size rb pos l nl in
      let (k2, e2, n2) = next_subkey-Fills size rb pos k1 n1 in
      (k1, k2, rw (el, e1, e2) refl, n1, n2)

  length-final :
      (k1 k2 b : List ℕ)
      → length k1 ≡ size
      → length k2 ≡ size
      → length b ≤ size
      → length (final size encrypt (k1, k2) b) ≡ size
  unfolding final
  length-final k1 k2 b h1 h2 h = elim (Bool-cases (length b == size)) [
    | inl e ↦ let n : length b ≡ size = ==→eq _ _ e in rw e (length-xor_block b k1 (n ∙ sym h1) ∙ n)
    | inr e ↦ rw e (
        length-xor_block (set (b ++ replicate (size - length b) 0x00) (length b) 0x80) k2
          (padded ∙ sym h2)
        ∙ padded)
  ]
    where
      padded : length (set (b ++ replicate (size - length b) 0x00) (length b) 0x80) ≡ size
      padded =
          length-set (b ++ replicate (size - length b) 0x00) (length b) 0x80
          ∙ omega (
            arith,
            length-append b (replicate (size - length b) 0x00),
            length-replicate {A = ℕ} (size - length b) 0x00,
          )

  absorb_last-Fills :
      (k1 k2 message x : List ℕ)
      → length k1 ≡ size
      → length k2 ≡ size
      → length x ≡ size
      → length message ≤ size
      → Fills size (encrypt (xor_block x (final size encrypt (k1, k2) message)))
  absorb_last-Fills k1 k2 message x h1 h2 hx h =
      fills (xor_block x (final size encrypt (k1, k2) message))
        (length-xor_block x _ (hx ∙ sym (length-final k1 k2 message h1 h2 h)) ∙ hx)

  absorb-Fills :
      (fuel : ℕ) (k1 k2 message x : List ℕ)
      → length k1 ≡ size
      → length k2 ≡ size
      → length x ≡ size
      → length message ≤ size + fuel
      → Fills size (absorb size encrypt fuel (k1, k2) message x)
  unfolding absorb
  absorb-Fills zero k1 k2 message x h1 h2 hx h =
      absorb_last-Fills k1 k2 message x h1 h2 hx (omega arith)
  absorb-Fills (suc fuel) k1 k2 message x h1 h2 hx h =
      elim (Bool-cases (leb (length message) size)) [
        | inl e ↦ rw (e, absorb) (absorb_last-Fills k1 k2 message x h1 h2 hx (ground arith))
        | inr e ↦
            let long : size < length message = ground arith in
            let head = take size message in
            let nh : length head ≡ size = length-take size message (omega arith) in
            let (x', ex, nx) =
              fills (xor_block x head) (length-xor_block x head (hx ∙ sym nh) ∙ hx) in
            let (out, eo, no') =
              absorb-Fills fuel k1 k2 (drop size message) x' h1 h2 nx
                (omega (arith, length-drop size message)) in
            (out, rw (e, absorb, ex) eo, no')
      ]

  reference_cmac-Fills :
      (iv message : List ℕ)
      → size ≤ length iv
      → Fills size (reference_cmac size encrypt rb iv message)
  unfolding reference_cmac
  reference_cmac-Fills iv message h =
      let (k1, k2, es, n1, n2) = subkeys-fill in
      let (out, eo, no') =
        absorb-Fills (length message) k1 k2 message (take size iv) n1 n2 (length-take size iv h)
          (omega arith) in
      (out, rw es eo, no')

length-uint64_to_bytes : (v : ℕ) → length (uint64_to_bytes v) ≡ 8
length-uint64_to_bytes v = ap length (uint64_to_bytes-big_endian v)

bytes_to_uint64-ok :
    (xs : List ℕ) (off : ℕ)
    → off + 8 ≤ length xs
    → bytes_to_uint64 xs off ≡ ok (word_of 0 (take 8 (drop off xs)))
unfolding bytes_to_uint64
bytes_to_uint64-ok xs off h = rw (slice_in xs off 8 h)

abbrev word_at : List ℕ → ℕ → ℕ
word_at xs off = word_of 0 (take 8 (drop off xs))

module _ (c : Ciphers) (key : List ℕ) where
  abbrev key_word : ℕ → ℕ
  key_word = word_at key

  encrypt_tktdes_block-Fills :
      (key_length : ℕ) (b : List ℕ)
      → (key_length ≡ 16) ⊎ (key_length ≡ 24)
      → key_length ≤ length key
      → length b ≡ 8
      → Fills 8 (encrypt_tktdes_block c key key_length b)
  unfolding encrypt_tktdes_block
  encrypt_tktdes_block-Fills key_length b (inl e) h n = (
    uint64_to_bytes
        (c.des3_cbc_encrypt (c.des3_cbc (key_word 0) (key_word 8) (key_word 0) 0) (word_at b 0)).0,
    rw
        (
          e,
          bytes_to_uint64-ok key 0 (omega arith),
          bytes_to_uint64-ok key 8 (omega arith),
          bytes_to_uint64-ok b 0 (omega arith),
        )
        refl,
    length-uint64_to_bytes _,
  )
  encrypt_tktdes_block-Fills key_length b (inr e) h n = (
    uint64_to_bytes
        (c.des3_cbc_encrypt (c.des3_cbc (key_word 0) (key_word 8) (key_word 16) 0) (word_at b 0)).0,
    rw
        (
          e,
          bytes_to_uint64-ok key 0 (omega arith),
          bytes_to_uint64-ok key 8 (omega arith),
          bytes_to_uint64-ok key 16 (omega arith),
          bytes_to_uint64-ok b 0 (omega arith),
        )
        refl,
    length-uint64_to_bytes _,
  )

  aes_encrypt_block-Fills :
      IsSized c
      → (b : List ℕ) → 16 ≤ length key
      → length b ≡ 16
      → Fills 16 (aes_encrypt_block c key b)
  unfolding aes_encrypt_block
  aes_encrypt_block-Fills sized b h n = (
    c.aes_ecb_encrypt (take 16 (drop 0 key)) (take 16 (drop 0 b)),
    rw (slice_in key 0 16 h, slice_in b 0 16 (omega arith)) refl,
    sized.length-aes_ecb _ _ ∙ length-slice b 0 16 (omega arith),
  )

-- With a key length of 16 or 24 that the key has, and an IV of at least 8 bytes,
-- calculateTktdesCmac returns true and an 8-byte MAC for every message.
pub calculate_tktdes_cmac-Fills :
    (c : Ciphers) (key : List ℕ) (key_length : ℕ) (iv message : List ℕ)
    → (key_length ≡ 16) ⊎ (key_length ≡ 24)
    → key_length ≤ length key
    → 8 ≤ length iv
    → Fills 8 (calculate_tktdes_cmac c key key_length iv message)
calculate_tktdes_cmac-Fills c key key_length iv message k h fits =
    let equal = cmac-reference c key key_length iv (replicate 16 0) message fits (omega arith) in
    rw (equal.0) (
      reference_cmac-Fills 8 tktdes_cmac_rb (omega arith) (encrypt_tktdes_block c key key_length)
        (λ b n. encrypt_tktdes_block-Fills c key key_length b k h n) iv message fits)

-- With a key and an IV of at least 16 bytes and an AES that works in place, calculateAesCmac
-- returns a 16-byte MAC for every message.
pub calculate_aes_cmac-Fills :
    (c : Ciphers) (key iv message : List ℕ)
    → IsSized c
    → 16 ≤ length key
    → 16 ≤ length iv
    → Fills 16 (calculate_aes_cmac c key iv message)
calculate_aes_cmac-Fills c key iv message sized h fits =
    let equal = cmac-reference c key 16 (replicate 8 0) iv message (omega arith) fits in
    rw (equal.1) (
      reference_cmac-Fills 16 aes_cmac_rb (omega arith) (aes_encrypt_block c key)
        (λ b n. aes_encrypt_block-Fills c key sized b h n) iv message fits)
