-- ===== src/Desfire/ValuePayload/Receive.antt =====
-- The legacy send mode, read by a receiver that encrypts each block.
use nfc_cpp.Base.{
  ℕ, zero, suc, ◌+◌, ◌-◌, ◌*◌, ◌/◌, ◌%◌, ◌≤◌, ◌≡◌, refl, sym, ap, ◌∙◌, arith, true, ◌⊎◌, inl, inr,
}
use nfc_cpp.Base.{
  List, [], ◌∷◌, ◌++◌, length, take, drop, replicate, All, IsByte, length-append, length-drop,
  append-nil, append_assoc, length-slice, take-length, le→ltb, drop-drop, take-append-drop,
  take-append_length, drop-append_length, le→leb,
}
use nfc_cpp.Base.{Result, ok, ◌>>=◌, slice, slice_in, push_all, push_all_fits}
use nfc_cpp.Crypto.Ciphers.{Ciphers, IsSized, IsInverse}
use nfc_cpp.Crypto.Block.{xor_block}
use nfc_cpp.Crypto.Block.Xor.{IsBlock, xor_block_cancel, xor_block-IsBlock, All-take, All-drop}
use nfc_cpp.Crypto.Des.{des_encrypt, des_decrypt, des3_encrypt, des3_decrypt}
use nfc_cpp.Crypto.Des.Inverse.{Undoes, des_encrypt-Undoes, des3_encrypt-Undoes}
use nfc_cpp.Desfire.Context.{DesfireContext, des, des3_2k, use_legacy_des_crypto_mode}
use nfc_cpp.Desfire.ValuePayload.{
  Append, send_blocks, encrypt_payload, encrypt_blocks, payload_iv, pending_block, block_size,
}

-- What the card does with `n` blocks: encrypt each one and combine it with the one before.
unfoldable pub receive_blocks : (List ℕ → Result (List ℕ)) → ℕ → List ℕ → List ℕ → Result (List ℕ)
receive_blocks encrypt zero previous ciphertext = ok []
receive_blocks encrypt (suc n) previous ciphertext = do
  block ← slice ciphertext 0 8
  plain ← encrypt block
  rest ← receive_blocks encrypt n block (drop 8 ciphertext)
  ok (xor_block plain previous ++ rest)

empty_length : (xs : List ℕ) → length xs ≡ 0 → xs ≡ []
empty_length [] h = refl
empty_length (x ∷ xs) h = absurd (omega arith)

none_left : (xs : List ℕ) (n : ℕ) → length xs ≡ n → drop n xs ≡ []
none_left xs n h = empty_length (drop n xs) (omega (arith, length-drop n xs))

-- One block, sent.
send_step :
    (append : Append) (decrypt : List ℕ → Result (List ℕ)) (plaintext : List ℕ) (n offset : ℕ)
    (previous encrypted x sent : List ℕ)
    → offset + 8 ≤ length plaintext
    → append encrypted x ≡ ok (encrypted ++ x)
    → decrypt (xor_block (take 8 (drop offset plaintext)) previous) ≡ ok x
    → send_blocks append decrypt plaintext n (offset + 8) x (encrypted ++ x)
      ≡ ok ((encrypted ++ x) ++ sent)
    → send_blocks append decrypt plaintext (suc n) offset previous encrypted
      ≡ ok (encrypted ++ (x ++ sent))
unfolding send_blocks
send_step append decrypt plaintext n offset previous encrypted x sent h k applied rest =
    rw (slice_in plaintext offset 8 h, applied, k) (rest ∙ ap ok (append_assoc encrypted x sent))

-- One block, received.
receive_step :
    (encrypt : List ℕ → Result (List ℕ)) (n : ℕ) (previous b x sent plain : List ℕ)
    → length b ≡ length previous
    → length x ≡ 8
    → encrypt x ≡ ok (xor_block b previous)
    → receive_blocks encrypt n x sent ≡ ok plain
    → receive_blocks encrypt (suc n) previous (x ++ sent) ≡ ok (b ++ plain)
unfolding receive_blocks
receive_step encrypt n previous b x sent plain h k undone rest =
    let first : slice (x ++ sent) 0 8 ≡ ok x =
      slice_in (x ++ sent) 0 8 (omega (arith, length-append x sent))
      ∙ ap ok (take-append_length x sent 8 (sym k)) in
    rw (first, undone, drop-append_length x sent 8 (sym k), rest, xor_block_cancel b previous h)
      refl

-- A vector of capacity `cap` takes every block of 8 bytes that fits.
abbrev pub Takes : ℕ → Append → Type 0
Takes cap append =
    (xs ys : List ℕ) → length ys ≡ 8 → length xs + 8 ≤ cap → append xs ys ≡ ok (xs ++ ys)

module _ (cap : ℕ) (append : Append) (takes : Takes cap append)
    (encrypt decrypt : List ℕ → Result (List ℕ)) (undoes : Undoes encrypt decrypt)
    (plaintext : List ℕ) (bytes : All IsByte plaintext) where
  -- The rest of the loop appends a ciphertext that the receiver reads as the rest of the plaintext.
  pub send_blocks-receive :
      (n offset : ℕ) (previous encrypted : List ℕ)
      → IsBlock previous
      → length plaintext ≡ offset + 8 * n
      → length encrypted + 8 * n ≤ cap
      → (sent : List ℕ) × (send_blocks append decrypt plaintext n offset previous encrypted
          ≡ ok (encrypted ++ sent))
        × (length sent ≡ 8 * n)
        × (receive_blocks encrypt n previous sent ≡ ok (drop offset plaintext))
  unfolding send_blocks receive_blocks
  send_blocks-receive zero offset previous encrypted block_p h fits = (
    [],
    ap ok (sym (append-nil encrypted)),
    refl,
    ap ok (sym (none_left plaintext offset (omega arith))),
  )
  send_blocks-receive (suc n) offset previous encrypted block_p h fits =
      let b = take 8 (drop offset plaintext) in
      let block_b : IsBlock b = (
        length-slice plaintext offset 8 (omega arith),
        All-take 8 (drop offset plaintext) (All-drop offset plaintext bytes),
      ) in
      let (x, applied, block_x, undone) =
        undoes (xor_block b previous) (xor_block-IsBlock b previous block_b block_p) in
      let (sent, sends, counted, receives) =
        send_blocks-receive n (offset + 8) x (encrypted ++ x) block_x (omega arith)
          (omega (arith, length-append encrypted x, block_x.0)) in
      let split : b ++ drop (offset + 8) plaintext ≡ drop offset plaintext =
        ap (λ t. b ++ t) (sym (drop-drop offset 8 plaintext))
        ∙ take-append-drop 8 (drop offset plaintext) in
      (
        x ++ sent,
        send_step append decrypt plaintext n offset previous encrypted x sent (omega arith)
            (takes encrypted x (block_x.0) (omega arith)) applied sends,
        length-append x sent ∙ omega (arith, block_x.0, counted),
        receive_step encrypt n previous b x sent (drop (offset + 8) plaintext)
              (block_b.0 ∙ sym (block_p.0)) (block_x.0) undone receives
            ∙ ap ok split,
      )

-- What `encryptPayload` hands out is read back by a receiver.
pub record IsReceived (encrypt : List ℕ → Result (List ℕ)) (plaintext : List ℕ)
    (result : Result (List ℕ × List ℕ)) : Type 0 where
  pub sent : List ℕ
  pub is_sent : result ≡ ok (sent, drop (length sent - 8) sent)
  pub length-sent : length sent ≡ length plaintext
  pub is_received :
      receive_blocks encrypt (length plaintext / 8) (replicate 8 0) sent ≡ ok plaintext

zeros-IsBlock : IsBlock (replicate 8 0)
zeros-IsBlock = (refl, omega arith)

last_block :
    (sent : List ℕ)
    → 8 ≤ length sent
    → ◌≡◌ {A = Result (List ℕ × List ℕ)}
        (do pending_iv ← pending_block 8 sent; ok (sent, pending_iv))
        (ok (sent, drop (length sent - 8) sent))
unfolding pending_block
last_block sent h =
    let block = drop (length sent - 8) sent in
    let eight : length block ≡ 8 = omega (arith, length-drop (length sent - 8) sent) in
    let copied : slice sent (length sent - 8) 8 ≡ ok block =
      slice_in sent (length sent - 8) 8 (omega arith) ∙ ap ok (take-length block 8 (omega arith)) in
    rw (le→ltb (length sent) 8 h, copied, eight) refl

whole :
    (encrypt decrypt : List ℕ → Result (List ℕ)) (plaintext : List ℕ) (rounds : ℕ)
    → Undoes encrypt decrypt
    → All IsByte plaintext
    → length plaintext ≡ 8 * rounds
    → 1 ≤ rounds
    → rounds ≤ 4
    → IsReceived encrypt plaintext (do
      encrypted ←
          send_blocks (push_all 32) decrypt plaintext (length plaintext / 8) 0 (replicate 8 0) []
      pending_iv ← pending_block 8 encrypted
      ok (encrypted, pending_iv))
whole encrypt decrypt plaintext rounds undoes bytes h some_block few =
    let (sent, sends, counted, receives) =
      send_blocks-receive 32 (push_all 32)
        (λ xs ys eight fits. push_all_fits 32 xs ys (omega arith)) encrypt decrypt undoes plaintext
        bytes rounds 0 (replicate 8 0) [] zeros-IsBlock (omega arith) (omega arith) in
    collected sent sends counted receives
  where
    collected :
        (sent : List ℕ)
        → send_blocks (push_all 32) decrypt plaintext rounds 0 (replicate 8 0) [] ≡ ok sent
        → length sent ≡ 8 * rounds
        → receive_blocks encrypt rounds (replicate 8 0) sent ≡ ok plaintext
        → IsReceived encrypt plaintext (do
          encrypted ←
              send_blocks
                (push_all 32)
                decrypt
                plaintext
                (length plaintext / 8)
                0
                (replicate 8 0)
                []
          pending_iv ← pending_block 8 encrypted
          ok (encrypted, pending_iv))
    collected sent sends counted receives =
        let count : length plaintext / 8 ≡ rounds = omega arith in
        record {
          sent = sent;
          is_sent = rw (count, sends) (last_block sent (omega arith));
          length-sent = omega arith;
          is_received = rw count receives;
        }

module _ (c : Ciphers) (context : DesfireContext) (plaintext : List ℕ) (rounds : ℕ) where
  -- On a single-DES session, with an IV of 8 bytes or none, at least 8 key bytes and ciphers that
  -- are inverse to each other, encryptPayload sends one to four whole blocks of bytes so that a
  -- receiver that encrypts and chains reads the plaintext back; the last block sent becomes the
  -- pending IV.
  pub encrypt_payload_des-IsReceived :
      IsSized c
      → IsInverse c
      → 8 ≤ length context.session_key_enc
      → (length context.iv ≡ 0) ⊎ (length context.iv ≡ 8)
      → All IsByte plaintext
      → length plaintext ≡ 8 * rounds
      → 1 ≤ rounds
      → rounds ≤ 4
      → IsReceived
          (λ b. des_encrypt c b context.session_key_enc)
          plaintext
          (encrypt_payload c plaintext context des)
  unfolding encrypt_payload encrypt_blocks payload_iv block_size
  encrypt_payload_des-IsReceived sized inverse key_fits iv_fits bytes h some_block few =
      let aligned : length plaintext % 8 ≡ 0 = omega arith in
      let received =
        whole (λ b. des_encrypt c b context.session_key_enc)
          (λ b. des_decrypt c b context.session_key_enc) plaintext rounds
          (des_encrypt-Undoes c context.session_key_enc sized inverse key_fits) bytes h some_block
          few in
      elim iv_fits [
        | inl e ↦ rw (aligned, e, le→leb 8 _ key_fits) received
        | inr e ↦ rw (aligned, e, le→leb 8 _ key_fits) received
      ]

  -- On a two-key 3DES session that authenticated the legacy way, with an IV of 8 bytes or none, at
  -- least 16 key bytes and ciphers that are inverse to each other, encryptPayload sends one to
  -- four whole blocks so that a receiver that encrypts and chains reads the plaintext back.
  pub encrypt_payload_legacy-IsReceived :
      IsSized c
      → IsInverse c
      → 16 ≤ length context.session_key_enc
      → use_legacy_des_crypto_mode context des3_2k ≡ true
      → (length context.iv ≡ 0) ⊎ (length context.iv ≡ 8)
      → All IsByte plaintext
      → length plaintext ≡ 8 * rounds
      → 1 ≤ rounds
      → rounds ≤ 4
      → IsReceived
          (λ b. des3_encrypt c b context.session_key_enc)
          plaintext
          (encrypt_payload c plaintext context des3_2k)
  unfolding encrypt_payload encrypt_blocks payload_iv block_size
  encrypt_payload_legacy-IsReceived sized inverse key_fits legacy iv_fits bytes h some_block few =
      let aligned : length plaintext % 8 ≡ 0 = omega arith in
      let received =
        whole (λ b. des3_encrypt c b context.session_key_enc)
          (λ b. des3_decrypt c b context.session_key_enc) plaintext rounds
          (des3_encrypt-Undoes c context.session_key_enc sized inverse key_fits) bytes h some_block
          few in
      elim iv_fits [
        | inl e ↦ rw (aligned, e, le→leb 16 _ key_fits, legacy) received
        | inr e ↦ rw (aligned, e, le→leb 16 _ key_fits, legacy) received
      ]
