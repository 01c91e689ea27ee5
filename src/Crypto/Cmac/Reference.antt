-- ===== src/Crypto/Cmac/Reference.antt =====
-- The indexed loops, with the subkeys that the code derives, as a chain that takes the blocks of a
-- message from the front.
use nfc_cpp.Base.{
  ℕ, zero, suc, ◌+◌, ◌-◌, ◌*◌, ◌/◌, ◌%◌, ◌≤◌, ◌<◌, ◌≡◌, refl, sym, ap, ◌∙◌, arith, true, false,
  List, ◌++◌, length, ◌⊎◌, ◌&&◌, not,
}
use nfc_cpp.Base.{
  take, drop, leb, ◌==◌, if◌then◌else◌, Option, none, some, Result, ok, err, fault, on_true, set,
  replicate,
}
use nfc_cpp.Base.{slice, slice_in, length-drop, drop-drop, le→leb, lt→ltb, lt→leb, take-length}
use mathlib.Core.Path.{fun_ext}
use nfc_cpp.Crypto.Ciphers.{Ciphers}
use nfc_cpp.Crypto.Block.{xor_block, pad_cmac_block, encrypt_tktdes_block, aes_encrypt_block}
use nfc_cpp.Crypto.Cmac.{
  chain, last_block, generate_subkeys, cmac_blocks, calculate_cmac, calculate_tktdes_cmac,
  calculate_aes_cmac, tktdes_cmac_rb, aes_cmac_rb,
}

pub on_true_assoc :
    {A B C : Type 0} (m : Result (Option A)) (k : A → Result (Option B)) (l : B → Result (Option C))
    → on_true (on_true m k) l ≡ on_true m (λ a. on_true (k a) l)
on_true_assoc (ok none) k l = refl
on_true_assoc (ok (some a)) k l = refl
on_true_assoc (err e) k l = refl
on_true_assoc fault k l = refl

-- The shape of a message of `size`-byte blocks: how many stand before the last.
record IsSplit (size : ℕ) (message : List ℕ) (rounds : ℕ) : Type 0 where
  count :
      (if (length message + (size - 1)) / size == 0
          then 1
          else (length message + (size - 1)) / size)
        - 1
      ≡ rounds
  full :
      (not (length message == 0) && (length message % size == 0))
      ≡ (length message == rounds * size + size)
  some_left : (rounds ≡ 0) ⊎ (rounds * size < length message)
  lo : rounds * size ≤ length message
  hi : length message ≤ rounds * size + size
  few : rounds ≤ length message

module _ (size : ℕ) (encrypt : List ℕ → Result (Option (List ℕ))) where
  -- A complete last block is masked by K1; any other is padded with 1000... and masked by K2.
  unfoldable pub final : List ℕ × List ℕ → List ℕ → List ℕ
  final (k1, k2) b =
      if length b == size
      then xor_block b k1
      else xor_block (set (b ++ replicate (size - length b) 0x00) (length b) 0x80) k2

  -- CBC-MAC of a message, block by block from the front; `fuel` bounds the number of blocks.
  unfoldable pub absorb : ℕ → List ℕ × List ℕ → List ℕ → List ℕ → Result (Option (List ℕ))
  absorb zero ks message x = encrypt (xor_block x (final ks message))
  absorb (suc fuel) ks message x = elim (leb (length message) size) [
    | true ↦ encrypt (xor_block x (final ks message))
    | false ↦
        on_true (encrypt (xor_block x (take size message)))
          λ x'. absorb fuel ks (drop size message) x'
  ]

  unfoldable pub reference_cmac : ℕ → List ℕ → List ℕ → Result (Option (List ℕ))
  reference_cmac rb initial_iv message =
      on_true (generate_subkeys size encrypt rb)
        λ ks. absorb (length message) ks message (take size initial_iv)

  absorb_last :
      (fuel : ℕ) (ks : List ℕ × List ℕ) (message x : List ℕ)
      → length message ≤ size
      → absorb fuel ks message x ≡ encrypt (xor_block x (final ks message))
  unfolding absorb
  absorb_last zero ks message x h = refl
  absorb_last (suc fuel) ks message x h = rw (le→leb (length message) size h, absorb)

  absorb-suc :
      (fuel : ℕ) (ks : List ℕ × List ℕ) (message x : List ℕ)
      → size < length message
      → absorb (suc fuel) ks message x
        ≡ on_true
            (encrypt (xor_block x (take size message)))
            λ x'. absorb fuel ks (drop size message) x'
  unfolding absorb
  absorb-suc fuel ks message x h = rw (lt→leb (length message) size h, absorb)

  -- One round of the loop is one block of the reference.
  chain-step :
      (message : List ℕ) (rounds index fuel : ℕ) (ks : List ℕ × List ℕ) (rest x last : List ℕ)
      → rest ≡ drop (index * size) message
      → size < length rest
      → ((x' : List ℕ)
          → on_true
              (chain size encrypt message rounds (index + 1) x')
              (λ y. encrypt (xor_block y (final ks last)))
            ≡ absorb fuel ks (drop size rest) x')
      → on_true
          (chain size encrypt message (suc rounds) index x)
          (λ y. encrypt (xor_block y (final ks last)))
        ≡ absorb (suc fuel) ks rest x
  unfolding chain
  chain-step message rounds index fuel ks rest x last e long further = rw copied (
      on_true_assoc (encrypt (xor_block x (take size rest))) _ _
      ∙ ap (on_true (encrypt (xor_block x (take size rest)))) (fun_ext further)
      ∙ sym (absorb-suc fuel ks rest x long))
    where
      copied : slice message (index * size) size ≡ ok (take size rest)
      copied =
          slice_in message (index * size) size
            (omega (arith, ap length e, length-drop (index * size) message))
          ∙ rw e refl

  -- From block `index` on, with `rounds` blocks before the last.
  chain-absorb :
      (message : List ℕ) (ks : List ℕ × List ℕ) (rounds index fuel : ℕ) (rest x : List ℕ)
      → rest ≡ drop (index * size) message
      → (rounds ≡ 0) ⊎ (rounds * size < length rest)
      → length rest ≤ rounds * size + size
      → rounds ≤ fuel
      → on_true
          (chain size encrypt message rounds index x)
          (λ x'. encrypt (xor_block x' (final ks (drop (rounds * size) rest))))
        ≡ absorb fuel ks rest x
  unfolding chain
  chain-absorb message ks zero index fuel rest x e lo hi f =
      ap (λ (n : ℕ). encrypt (xor_block x (final ks (drop n rest)))) {y = 0} (omega arith)
      ∙ sym (absorb_last fuel ks rest x (omega arith))
  chain-absorb message ks (suc rounds) index zero rest x e lo hi f = absurd (omega arith)
  chain-absorb message ks (suc rounds) index (suc fuel) rest x e lo hi f =
      chain-step message rounds index fuel ks rest x (drop (suc rounds * size) rest) e (omega arith)
        λ x'. rw (← later) (
          chain-absorb message ks rounds (index + 1) fuel (drop size rest) x' shifted
            (omega (arith, length-drop size rest)) (omega (arith, length-drop size rest))
            (omega arith))
    where
      later : drop (rounds * size) (drop size rest) ≡ drop (suc rounds * size) rest
      later =
          drop-drop size (rounds * size) rest
          ∙ ap (λ (n : ℕ). drop n rest) {y = suc rounds * size} (omega arith)

      shifted : drop size rest ≡ drop ((index + 1) * size) message
      shifted =
          ap (drop size) e
          ∙ drop-drop (index * size) size message
          ∙ ap (λ (n : ℕ). drop n message) {y = (index + 1) * size} (omega arith)

  pad_ok :
      (b : List ℕ)
      → length b < size
      → pad_cmac_block size b ≡ ok (set (b ++ replicate (size - length b) 0x00) (length b) 0x80)
  pad_ok b h = unfold pad_cmac_block in rw (lt→ltb (length b) size h)

  -- The last block is the part of the message that the loop leaves, masked.
  last_block-final :
      (message : List ℕ) (ks : List ℕ × List ℕ) (rounds count : ℕ)
      → count - 1 ≡ rounds
      → (not (length message == 0) && (length message % size == 0))
        ≡ (length message == rounds * size + size)
      → rounds * size ≤ length message
      → length message ≤ rounds * size + size
      → last_block size message count ks ≡ ok (final ks (drop (rounds * size) message))
  unfolding last_block final
  last_block-final message (k1, k2) rounds count e full lo hi =
      rw (full, e)
        (ground (arith, remaining, complete, partial, pad_ok (drop (rounds * size) message)))
    where
      remaining : length (drop (rounds * size) message) ≡ length message - rounds * size
      remaining = length-drop (rounds * size) message

      complete :
          length message ≡ rounds * size + size
          → slice message (rounds * size) size ≡ ok (drop (rounds * size) message)
      complete h =
          slice_in message (rounds * size) size (omega arith)
          ∙ ap ok (take-length (drop (rounds * size) message) size (omega (arith, remaining)))

      partial :
          slice message (rounds * size) (length message - rounds * size)
          ≡ ok (drop (rounds * size) message)
      partial =
          slice_in message (rounds * size) (length message - rounds * size) (omega arith)
          ∙ ap ok (take-length (drop (rounds * size) message) _ (omega (arith, remaining)))

  cmac_blocks-absorb :
      (iv message : List ℕ) (rounds : ℕ) (ks : List ℕ × List ℕ)
      → size ≤ length iv
      → IsSplit size message rounds
      → cmac_blocks size encrypt iv message ks ≡ absorb (length message) ks message (take size iv)
  unfolding cmac_blocks
  cmac_blocks-absorb iv message rounds ks fits s =
      rw
        (
          last_block-final message ks rounds _ s.count s.full s.lo s.hi,
          slice_in iv 0 size (omega arith),
          s.count,
        )
        (chain-absorb message ks rounds 0 (length message) message (take size iv)
          (ap (λ (n : ℕ). drop n message) {x = 0} {y = 0 * size} (omega arith)) s.some_left s.hi
          s.few)

  calculate_cmac-reference_cmac :
      (rb : ℕ) (iv message : List ℕ) (rounds : ℕ)
      → size ≤ length iv
      → IsSplit size message rounds
      → calculate_cmac size encrypt rb iv message ≡ reference_cmac rb iv message
  unfolding calculate_cmac reference_cmac
  calculate_cmac-reference_cmac rb iv message rounds fits s =
      ap (on_true (generate_subkeys size encrypt rb))
        (fun_ext λ ks. cmac_blocks-absorb iv message rounds ks fits s)

eight-IsSplit : (message : List ℕ) → IsSplit 8 message ((length message - 1) / 8)
eight-IsSplit message = record {
  count = ground arith;
  full = ground arith;
  some_left = ground arith;
  lo = omega arith;
  hi = omega arith;
  few = omega arith;
}

sixteen-IsSplit : (message : List ℕ) → IsSplit 16 message ((length message - 1) / 16)
sixteen-IsSplit message = record {
  count = ground arith;
  full = ground arith;
  some_left = ground arith;
  lo = omega arith;
  hi = omega arith;
  few = omega arith;
}

-- With an IV of at least a block, the loops of both routines are the chain.
pub cmac-reference :
    (c : Ciphers) (key : List ℕ) (key_length : ℕ) (iv8 iv16 message : List ℕ)
    → 8 ≤ length iv8
    → 16 ≤ length iv16
    → (calculate_tktdes_cmac c key key_length iv8 message
        ≡ reference_cmac 8 (encrypt_tktdes_block c key key_length) tktdes_cmac_rb iv8 message)
      × (calculate_aes_cmac c key iv16 message
          ≡ reference_cmac 16 (aes_encrypt_block c key) aes_cmac_rb iv16 message)
unfolding calculate_tktdes_cmac calculate_aes_cmac
cmac-reference c key key_length iv8 iv16 message fits8 fits16 = (
  calculate_cmac-reference_cmac 8 (encrypt_tktdes_block c key key_length) tktdes_cmac_rb iv8 message
      ((length message - 1) / 8) fits8 (eight-IsSplit message),
  calculate_cmac-reference_cmac 16 (aes_encrypt_block c key) aes_cmac_rb iv16 message
      ((length message - 1) / 16) fits16 (sixteen-IsSplit message),
)
