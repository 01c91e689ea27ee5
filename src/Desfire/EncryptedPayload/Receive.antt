-- ===== src/Desfire/EncryptedPayload/Receive.antt =====
-- The legacy send mode of protectEncryptedPayload, read by a receiver that encrypts each block.
use nfc_cpp.Base.{
  ℕ, zero, suc, ◌+◌, ◌*◌, ◌/◌, ◌%◌, ◌≤◌, ◌<◌, ◌≡◌, ◌≢◌, ◌⊎◌, inl, inr, Bool-cases, leb, leb→le,
  refl, ◌∙◌, arith, true, false, List, [], ◌++◌, length, take, drop, All, IsByte, length-append,
  le→leb, lt→leb, ne→==, push_all_fits, length-slice, slice_in, from_desfire, Result, ok, err,
  ◌>>=◌, slice,
}
use nfc_cpp.Base.Codes.DesfireError
use nfc_cpp.Crypto.Ciphers.{Ciphers, IsSized, IsInverse}
use nfc_cpp.Crypto.Block.{xor_block}
use nfc_cpp.Crypto.Block.Xor.{IsBlock, xor_block-IsBlock, All-take, All-drop}
use nfc_cpp.Crypto.Des.{des_encrypt, des_decrypt}
use nfc_cpp.Crypto.Des.Inverse.{Undoes, des_encrypt-Undoes}
use nfc_cpp.Desfire.Context.{DesfireContext, des}
use nfc_cpp.Desfire.ValuePayload.{send_blocks, block_size}
use nfc_cpp.Desfire.ValuePayload.Receive.{receive_blocks, send_blocks-receive}
use nfc_cpp.Desfire.EncryptedPayload.{
  LegacySendIvSeedMode, append_block, legacy_block, seed_block, protect_legacy, is_unknown,
  protect_encrypted_payload,
}

append_block_room :
    (xs ys : List ℕ) → length ys ≡ 8 → length xs + 8 ≤ 128 → append_block xs ys ≡ ok (xs ++ ys)
unfolding append_block
append_block_room xs ys eight h =
    rw (le→leb (length xs + 8) 128 h, push_all_fits 128 xs ys (omega arith)) refl

append_block_full :
    (xs ys : List ℕ)
    → 128 < length xs + 8
    → append_block xs ys ≡ err (from_desfire DesfireError.length_error)
unfolding append_block
append_block_full xs ys h = rw (lt→leb (length xs + 8) 128 h) refl

≤-cases : (a b : ℕ) → (a ≤ b) ⊎ (b < a)
≤-cases a b = elim (Bool-cases (leb a b)) [
  | inl e ↦ inl (leb→le a b e)
  | inr e ↦ inr (ground arith)
]

module _ (encrypt decrypt : List ℕ → Result (List ℕ)) (undoes : Undoes encrypt decrypt)
    (plaintext : List ℕ) (bytes : All IsByte plaintext) where
  -- The loop stops with an error at the block for which there is no room.
  send_blocks_full :
      (n offset : ℕ) (previous encrypted : List ℕ)
      → IsBlock previous
      → length plaintext ≡ offset + 8 * n
      → length encrypted ≤ 128
      → 128 < length encrypted + 8 * n
      → send_blocks append_block decrypt plaintext n offset previous encrypted
        ≡ err (from_desfire DesfireError.length_error)
  unfolding send_blocks
  send_blocks_full zero offset previous encrypted block_p h fits full = absurd (omega arith)
  send_blocks_full (suc n) offset previous encrypted block_p h fits full =
      let b = take 8 (drop offset plaintext) in
      let block_b : IsBlock b = (
        length-slice plaintext offset 8 (omega arith),
        All-take 8 (drop offset plaintext) (All-drop offset plaintext bytes),
      ) in
      let (x, applied, block_x, undone) =
        undoes (xor_block b previous) (xor_block-IsBlock b previous block_b block_p) in
      let reads : slice plaintext offset 8 ≡ ok b = slice_in plaintext offset 8 (omega arith) in
      elim (≤-cases (length encrypted + 8) 128) [
        | inl room ↦
            rw (reads, applied, append_block_room encrypted x (block_x.0) room)
              (send_blocks_full n (offset + 8) x (encrypted ++ x) block_x (omega arith)
                (omega (arith, length-append encrypted x, block_x.0))
                (omega (arith, length-append encrypted x, block_x.0)))
        | inr none_left ↦ rw (reads, applied, append_block_full encrypted x none_left) refl
      ]

module _ (c : Ciphers) (context : DesfireContext) (plaintext previous : List ℕ) (rounds : ℕ)
    (legacy_seed : LegacySendIvSeedMode) (sized : IsSized c) (inverse : IsInverse c)
    (key_fits : 8 ≤ length context.session_key_enc)
    (seeded : seed_block context legacy_seed ≡ ok previous) (block_p : IsBlock previous)
    (bytes : All IsByte plaintext) (whole : length plaintext ≡ 8 * rounds)
    (some_block : 1 ≤ rounds) where
  legacy_block-des :
      (b : List ℕ) → legacy_block c context des b ≡ des_decrypt c b context.session_key_enc
  unfolding legacy_block
  legacy_block-des b = rw (le→leb 8 (length context.session_key_enc) key_fits) refl

  legacy_block-Undoes :
      Undoes (λ b. des_encrypt c b context.session_key_enc) (legacy_block c context des)
  legacy_block-Undoes b block =
      let (x, applied, block_x, undone) =
        des_encrypt-Undoes c context.session_key_enc sized inverse key_fits b block in
      (x, legacy_block-des b ∙ applied, block_x, undone)

  protects :
      (result : Result (List ℕ))
      → send_blocks append_block (legacy_block c context des) plaintext rounds 0 previous []
        ≡ result
      → protect_encrypted_payload c context plaintext des true legacy_seed ≡ (do
        encrypted ← result
        ok (record {
          encrypted_payload = encrypted;
          request_state = [];
          update_context_iv = false;
        }))
  unfolding protect_encrypted_payload protect_legacy block_size is_unknown
  protects result sends =
      let some_bytes : length plaintext ≢ 0 = λ h. omega arith in
      let aligned : length plaintext % 8 ≡ 0 = omega arith in
      let count : length plaintext / 8 ≡ rounds = omega arith in
      rw (ne→== (length plaintext) 0 some_bytes, aligned, seeded, count, sends) refl

  -- On a single-DES session with at least 8 key bytes and ciphers that are inverse to each other,
  -- the legacy send mode of protectEncryptedPayload sends one to sixteen whole blocks of bytes so
  -- that a receiver that encrypts and chains from the seed, a block of bytes, reads the plaintext
  -- back.
  pub protect_encrypted_payload-receive :
      rounds ≤ 16
      → (sent : List ℕ) × (protect_encrypted_payload c context plaintext des true legacy_seed
          ≡ ok (record { encrypted_payload = sent; request_state = []; update_context_iv = false }))
        × (receive_blocks (λ b. des_encrypt c b context.session_key_enc) rounds previous sent
            ≡ ok plaintext)
  protect_encrypted_payload-receive few =
      let (sent, sends, counted, receives) =
        send_blocks-receive 128 append_block append_block_room
          (λ b. des_encrypt c b context.session_key_enc) (legacy_block c context des)
          legacy_block-Undoes plaintext bytes rounds 0 previous [] block_p (omega arith)
          (omega arith) in
      (sent, protects (ok sent) sends, receives)

  -- On the same sessions and seeds, the legacy send mode of protectEncryptedPayload refuses
  -- seventeen whole blocks of bytes or more with a length error, and no vector overflows.
  pub protect_encrypted_payload_long :
      17 ≤ rounds
      → protect_encrypted_payload c context plaintext des true legacy_seed
        ≡ err (from_desfire DesfireError.length_error)
  protect_encrypted_payload_long many = protects (err (from_desfire DesfireError.length_error)) (
      send_blocks_full (λ b. des_encrypt c b context.session_key_enc) (legacy_block c context des)
        legacy_block-Undoes plaintext bytes rounds 0 previous [] block_p (omega arith) (omega arith)
        (omega arith))
