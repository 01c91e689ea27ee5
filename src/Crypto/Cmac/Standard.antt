-- ===== src/Crypto/Cmac/Standard.antt =====
-- CMAC as NIST SP 800-38B defines it, started from an IV, and the code's routines against it. The
-- subkeys are numbers of a field, with the constants of the standard; a block is combined with
-- another byte by byte.
use nfc_cpp.Base.{
  ℕ, zero, suc, ◌+◌, ◌-◌, ◌≤◌, ◌<◌, ◌≡◌, refl, ap, ◌∙◌, arith, List, [], ◌∷◌, ◌++◌, length, take,
  drop, set, replicate, All, IsByte, bit_xor, leb, ◌==◌, if◌then◌else◌, Bool-cases, inl, inr, true,
  false, leb→le, length-drop, length-replicate, drop, Option, none, some, Result, ok, err, fault,
  on_true, >>=-eq-ok, slice, ◌||◌,
}
use nfc_cpp.Crypto.Ciphers.{Ciphers, IsSized, IsBytewise}
use nfc_cpp.Crypto.Words.{bytes_to_uint64}
use nfc_cpp.Crypto.Words.RoundTrip.{uint64_to_bytes-IsBlock}
use nfc_cpp.Crypto.Block.{xor_block, encrypt_tktdes_block, aes_encrypt_block}
use nfc_cpp.Crypto.Cmac.{next_subkey, generate_subkeys, calculate_tktdes_cmac, calculate_aes_cmac}
use nfc_cpp.Crypto.Cmac.Reference.{on_true_assoc, final, absorb, reference_cmac, cmac-reference}
use nfc_cpp.Crypto.Cmac.Doubling.{from_be, to_be, double, to_be-bytes, next_subkey-double}

unfoldable pub xor_bytes : List ℕ → List ℕ → List ℕ
xor_bytes (a ∷ as_) (b ∷ bs) = bit_xor a b ∷ xor_bytes as_ bs
xor_bytes _ _ = []

module _ (size : ℕ) (encrypt : List ℕ → Result (Option (List ℕ))) where
  -- The last block, with K1 if it is complete, and otherwise padded with one bit and zeros and
  -- with K2.
  unfoldable pub last_input : List ℕ → List ℕ → List ℕ → List ℕ
  last_input k1 k2 block =
      if length block == size
      then xor_bytes block k1
      else xor_bytes (block ++ (0x80 ∷ replicate (size - length block - 1) 0x00)) k2

  -- The chain over the blocks from the front; `fuel` bounds their number.
  unfoldable pub blocks : ℕ → List ℕ → List ℕ → List ℕ → List ℕ → Result (Option (List ℕ))
  blocks zero k1 k2 message x = encrypt (xor_bytes x (last_input k1 k2 message))
  blocks (suc fuel) k1 k2 message x = elim (leb (length message) size) [
    | true ↦ encrypt (xor_bytes x (last_input k1 k2 message))
    | false ↦
        on_true (encrypt (xor_bytes x (take size message)))
          λ x'. blocks fuel k1 k2 (drop size message) x'
  ]

  abbrev pub field_double : ℕ → List ℕ → List ℕ
  field_double rb block = to_be size (double size rb (from_be 0 block)) []

  -- K1 and K2 are the double and the fourfold of the enciphered zero block.
  unfoldable pub standard_cmac : ℕ → List ℕ → List ℕ → Result (Option (List ℕ))
  standard_cmac rb initial_iv message = on_true (encrypt (replicate size 0x00)) λ l.
      blocks (length message) (field_double rb l) (field_double rb (field_double rb l)) message
        (take size initial_iv)

xor_block-xor_bytes : (a b : List ℕ) → xor_block a b ≡ xor_bytes a b
unfolding xor_block xor_bytes
xor_block-xor_bytes [] b = refl
xor_block-xor_bytes (x ∷ xs) [] = refl
xor_block-xor_bytes (x ∷ xs) (y ∷ ys) =
    ap (λ (zs : List ℕ). bit_xor x y ∷ zs) (xor_block-xor_bytes xs ys)

some-inj : {A : Type 0} {a b : A} → ok (some a) ≡ ok (some b) → a ≡ b
some-inj h = cc

set-padding :
    (block : List ℕ) (n : ℕ)
    → set (block ++ replicate (suc n) 0x00) (length block) 0x80 ≡ block ++ (0x80 ∷ replicate n 0x00)
set-padding [] n = refl
set-padding (b ∷ bs) n = ap (λ (xs : List ℕ). b ∷ xs) (set-padding bs n)

on_true-cong :
    {A B : Type 0} (r : Result (Option A)) (f g : A → Result (Option B))
    → ((a : A) → r ≡ ok (some a) → f a ≡ g a)
    → on_true r f ≡ on_true r g
on_true-cong (ok none) f g h = refl
on_true-cong (ok (some a)) f g h = h a refl
on_true-cong (err e) f g h = refl
on_true-cong fault f g h = refl

module _ (size : ℕ) (encrypt : List ℕ → Result (Option (List ℕ))) where
  final-last_input :
      (k1 k2 block : List ℕ)
      → length block ≤ size
      → final size encrypt (k1, k2) block ≡ last_input size encrypt k1 k2 block
  unfolding final last_input
  final-last_input k1 k2 block h = elim (Bool-cases (length block == size)) [
    | inl e ↦ rw e (xor_block-xor_bytes block k1)
    | inr e ↦
        let room : size - length block ≡ suc (size - length block - 1) = ground arith in
        rw e (
          xor_block-xor_bytes _ k2
          ∙ ap (λ (b : List ℕ). xor_bytes b k2)
              (ap (λ (n : ℕ). set (block ++ replicate n 0x00) (length block) 0x80) room
                ∙ set-padding block (size - length block - 1)))
  ]

  last-step :
      (k1 k2 message x : List ℕ)
      → length message ≤ size
      → encrypt (xor_block x (final size encrypt (k1, k2) message))
        ≡ encrypt (xor_bytes x (last_input size encrypt k1 k2 message))
  last-step k1 k2 message x h =
      ap encrypt (xor_block-xor_bytes x _ ∙ ap (xor_bytes x) (final-last_input k1 k2 message h))

  absorb-blocks :
      (fuel : ℕ) (k1 k2 message x : List ℕ)
      → length message ≤ size + fuel
      → 0 < size
      → absorb size encrypt fuel (k1, k2) message x ≡ blocks size encrypt fuel k1 k2 message x
  unfolding absorb blocks
  absorb-blocks zero k1 k2 message x h pos = last-step k1 k2 message x (omega arith)
  absorb-blocks (suc fuel) k1 k2 message x h pos = elim (Bool-cases (leb (length message) size)) [
    | inl short ↦ rw (absorb, blocks, short) (last-step k1 k2 message x (leb→le _ _ short))
    | inr long ↦
        rw (absorb, blocks, long)
          (ap
              (λ (r : Result (Option (List ℕ))).
                on_true r (λ x'. absorb size encrypt fuel (k1, k2) (drop size message) x'))
              (ap encrypt (xor_block-xor_bytes x (take size message)))
            ∙ on_true-cong _ _ _ (λ x' e.
              absorb-blocks fuel k1 k2 (drop size message) x'
                (omega (arith, length-drop size message)) pos))
  ]

-- A block of `n` bytes.
abbrev IsBytes : ℕ → List ℕ → Type 0
IsBytes n block = (length block ≡ n) × All IsByte block

module _ (n rb : ℕ) (rb_fits : rb < 256) (encrypt : List ℕ → Result (Option (List ℕ)))
    (zero_block : (l : List ℕ)
      → encrypt (replicate (suc n) 0x00) ≡ ok (some l)
      → IsBytes (suc n) l) where
  abbrev derived : List ℕ → Result (Option (List ℕ × List ℕ))
  derived l =
      on_true (next_subkey (suc n) rb l)
        λ k1. on_true (next_subkey (suc n) rb k1) λ k2. ok (some (k1, k2))

  subkeys :
      (l : List ℕ)
      → IsBytes (suc n) l
      → derived l
        ≡ ok (
            some (
              field_double (suc n) encrypt rb l,
              field_double (suc n) encrypt rb (field_double (suc n) encrypt rb l),
            ))
  subkeys l (size, bytes) =
      let (size1, bytes1) = to_be-bytes (suc n) (double (suc n) rb (from_be 0 l)) [] tt in
      rw
        (
          next_subkey-double rb rb_fits n l size bytes,
          next_subkey-double rb rb_fits n _ (size1 ∙ omega arith) bytes1,
        )
        refl

  reference_cmac-standard_cmac :
      (iv message : List ℕ)
      → reference_cmac (suc n) encrypt rb iv message ≡ standard_cmac (suc n) encrypt rb iv message
  unfolding reference_cmac generate_subkeys standard_cmac
  reference_cmac-standard_cmac iv message =
      let rest : List ℕ × List ℕ → Result (Option (List ℕ)) =
        λ ks. absorb (suc n) encrypt (length message) ks message (take (suc n) iv) in
      on_true_assoc (encrypt (replicate (suc n) 0x00)) derived rest
      ∙ on_true-cong (encrypt (replicate (suc n) 0x00)) _ _ (λ l e.
        ap (λ (r : Result (Option (List ℕ × List ℕ))). on_true r rest) (subkeys l (zero_block l e))
        ∙ absorb-blocks (suc n) encrypt (length message) _ _ message (take (suc n) iv) (omega arith)
            (omega arith))

zeros-IsBytes : (n : ℕ) → IsBytes n (replicate n 0x00)
zeros-IsBytes n = (length-replicate n 0x00, go n)
  where
    go : (n : ℕ) → All IsByte (replicate n 0x00)
    go zero = tt
    go (suc n) = (omega arith, go n)

module _ (c : Ciphers) (key : List ℕ) where
  tktdes_zero_block :
      (key_length : ℕ) (b l : List ℕ)
      → encrypt_tktdes_block c key key_length b ≡ ok (some l)
      → IsBytes 8 l
  unfolding encrypt_tktdes_block
  tktdes_zero_block key_length b l e =
      elim (Bool-cases ((key_length == 16) || (key_length == 24))) [
        | inl fits ↦
            let run = rw fits at e in
            let (k1, e1, h1) = >>=-eq-ok (bytes_to_uint64 key 0) _ run in
            let (k2, e2, h2) = >>=-eq-ok (bytes_to_uint64 key 8) _ h1 in
            let (k3, e3, h3) =
              >>=-eq-ok (if key_length == 24 then bytes_to_uint64 key 16 else ok k1) _ h2 in
            let (block, e4, h4) = >>=-eq-ok (bytes_to_uint64 b 0) _ h3 in
            rw (← some-inj h4) (uint64_to_bytes-IsBlock _)
        | inr other ↦ let none_made = rw other at e in cc
      ]

  aes_zero_block :
      IsSized c
      → IsBytewise c
      → (l : List ℕ) → aes_encrypt_block c key (replicate 16 0x00) ≡ ok (some l)
      → IsBytes 16 l
  unfolding aes_encrypt_block slice
  aes_zero_block sized bytewise l e =
      let (key_bytes, copied, h) = >>=-eq-ok (slice key 0 16) _ e in
      let is : c.aes_ecb_encrypt key_bytes (replicate 16 0x00) ≡ l = some-inj h in
      rw (← is) (
        sized.length-aes_ecb key_bytes (replicate 16 0x00),
        bytewise.aes_ecb-bytes key_bytes (replicate 16 0x00) (zeros-IsBytes 16).1,
      )

-- With an IV of at least a block, calculateTktdesCmac and calculateAesCmac agree on every key and
-- message with CMAC as NIST SP 800-38B defines it, started from the IV, for their block ciphers:
-- the subkeys are the enciphered zero block times x and x^2 in the fields whose polynomials end in
-- 0x1B and 0x87. Of AES it is used that it works in place and gives bytes for bytes.
pub calculate_cmac-standard_cmac :
    (c : Ciphers) (key : List ℕ) (key_length : ℕ) (iv8 iv16 message : List ℕ)
    → IsSized c
    → IsBytewise c
    → 8 ≤ length iv8
    → 16 ≤ length iv16
    → (calculate_tktdes_cmac c key key_length iv8 message
        ≡ standard_cmac 8 (encrypt_tktdes_block c key key_length) 0x1B iv8 message)
      × (calculate_aes_cmac c key iv16 message
          ≡ standard_cmac 16 (aes_encrypt_block c key) 0x87 iv16 message)
calculate_cmac-standard_cmac c key key_length iv8 iv16 message sized bytewise fits8 fits16 =
    let (tktdes, aes) = cmac-reference c key key_length iv8 iv16 message fits8 fits16 in
    (
      tktdes
          ∙ reference_cmac-standard_cmac 7 0x1B (omega arith)
              (encrypt_tktdes_block c key key_length)
              (tktdes_zero_block c key key_length (replicate 8 0x00)) iv8 message,
      aes
          ∙ reference_cmac-standard_cmac 15 0x87 (omega arith) (aes_encrypt_block c key)
              (aes_zero_block c key sized bytewise) iv16 message,
    )
