-- ===== src/Desfire/Verify/Laws.antt =====
-- What the verification of a response's MAC decides.
use nfc_cpp.Base.{
  ℕ, ◌+◌, ◌≤◌, ◌≡◌, ◌≢◌, refl, sym, ap, ◌∙◌, arith, true, false, ◌&&◌, not, ◌⊎◌, inl, inr,
}
use nfc_cpp.Base.{
  List, [], ◌∷◌, ◌++◌, length, take, drop, Option, none, some, Bool-cases, ==_self, ◌==◌,
}
use nfc_cpp.Base.{le→leb, length-append, drop-append_length, take-append_length, take-length}
use nfc_cpp.Base.{Result, ok, slice, slice_in}
use nfc_cpp.Crypto.Ciphers.{Ciphers, IsSized}
use nfc_cpp.Crypto.Cmac.{calculate_tktdes_cmac, calculate_aes_cmac}
use nfc_cpp.Crypto.Cmac.Total.{calculate_tktdes_cmac-Fills, calculate_aes_cmac-Fills}
use nfc_cpp.Desfire.Context.{DesfireContext}
use nfc_cpp.Desfire.PlainIv.Laws.{mac_matches-Decides}
use nfc_cpp.Desfire.Verify.{cmac_message, fits_message, accept_mac}
use nfc_cpp.Desfire.Verify.{
  verify_aes_authenticated_plain_payload, verify_tktdes_authenticated_plain_payload,
}

cmac_message-append :
    (payload received : List ℕ) (status : ℕ)
    → length payload + 1 ≤ 256
    → cmac_message (payload ++ received) status (length payload) ≡ ok (payload ++ (status ∷ []))
unfolding cmac_message
cmac_message-append payload received status h =
    let whole : slice (payload ++ received) 0 (length payload) ≡ ok payload =
      slice_in (payload ++ received) 0 (length payload)
        (omega (arith, length-append payload received))
      ∙ ap ok (take-append_length payload received _ refl) in
    rw whole (ground arith)

-- The MAC's verdict: the CMAC is handed on if the received bytes are its first ones, and nothing is
-- otherwise.
pub data Verdict (cmac received : List ℕ) (result : Result (Option (List ℕ))) : Type 0 where
  authentic :
      received ≡ take (length received) cmac
      → result ≡ ok (some cmac)
      → Verdict cmac received result
  forged : received ≢ take (length received) cmac → result ≡ ok none → Verdict cmac received result

accept_mac-Verdict :
    (payload received cmac : List ℕ) (size : ℕ)
    → length cmac ≡ size
    → length received ≤ size
    → Verdict cmac received
        (accept_mac (payload ++ received) cmac (length payload) (length received) size)
unfolding accept_mac
accept_mac-Verdict payload received cmac size h k =
    let (b, eb, dec) =
      mac_matches-Decides (payload ++ received) (length payload) cmac (length received)
        (omega (arith, length-append payload received)) (omega arith) in
    let same : take (length received) (drop (length payload) (payload ++ received)) ≡ received =
      ap (take (length received)) (drop-append_length payload received _ refl)
      ∙ take-length received (length received) (omega arith) in
    let whole : slice cmac 0 size ≡ ok cmac =
      slice_in cmac 0 size (omega arith) ∙ ap ok (take-length cmac size (omega arith)) in
    elim (Bool-cases b) [
      | inl t ↦ authentic (sym same ∙ dec.0 t) (rw (eb, t, whole) refl)
      | inr f ↦ forged (λ e. cc (f, dec.1 (same ∙ e))) (rw (eb, f) refl)
    ]

fits_message-append :
    (payload received : List ℕ) (longest : ℕ)
    → length payload + 1 ≤ 256
    → length received ≤ longest
    → fits_message (payload ++ received) (length payload) (length received) longest ≡ true
unfolding fits_message
fits_message-append payload received longest h k =
    rw
      (
        le→leb _ _ k,
        length-append payload received,
        ==_self (length payload + length received),
        le→leb (length payload + 1) 256 h,
      )
      refl

module _ (c : Ciphers) (context : DesfireContext) (payload received request_iv : List ℕ)
    (status : ℕ) where
  -- On an AES session with a key of at least 16 bytes, a 16-byte IV, at most 255 payload bytes and
  -- at most 16 MAC bytes, verifyAesAuthenticatedPlainPayload accepts exactly when the received MAC
  -- is the leading bytes of the CMAC over payload and status code, and then hands out that CMAC as
  -- the next IV.
  pub verify_aes_authenticated_plain_payload-Verdict :
      IsSized c
      → 16 ≤ length context.session_key_enc
      → length request_iv ≡ 16
      → length payload ≤ 255
      → length received ≤ 16
      → (cmac : List ℕ) × (calculate_aes_cmac c context.session_key_enc request_iv
            (payload ++ (status ∷ []))
          ≡ ok (some cmac))
        × Verdict cmac received (
            verify_aes_authenticated_plain_payload c
              (payload ++ received)
              status
              context
              request_iv
              (length payload)
              (length received))
  unfolding verify_aes_authenticated_plain_payload
  verify_aes_authenticated_plain_payload-Verdict sized key_fits iv_fits short mac_fits =
      let (cmac, e, size) =
        calculate_aes_cmac-Fills c context.session_key_enc request_iv (payload ++ (status ∷ []))
          sized key_fits (omega arith) in
      (
        cmac,
        e,
        rw
            (
              le→leb 16 _ key_fits,
              iv_fits,
              fits_message-append payload received 16 (omega arith) mac_fits,
              cmac_message-append payload received status (omega arith),
              e,
            )
            (accept_mac-Verdict payload received cmac 16 size mac_fits),
      )

  -- On a 3DES session with a key of 16 or 24 bytes, an 8-byte IV, at most 255 payload bytes and at
  -- most 8 MAC bytes, verifyTktdesAuthenticatedPlainPayload accepts exactly when the received MAC
  -- is the leading bytes of the CMAC over payload and status code, and then hands out that CMAC as
  -- the next IV.
  pub verify_tktdes_authenticated_plain_payload-Verdict :
      (length context.session_key_enc ≡ 16) ⊎ (length context.session_key_enc ≡ 24)
      → length request_iv ≡ 8
      → length payload ≤ 255
      → length received ≤ 8
      → (cmac : List ℕ) × (calculate_tktdes_cmac c context.session_key_enc
            (length context.session_key_enc)
            request_iv
            (payload ++ (status ∷ []))
          ≡ ok (some cmac))
        × Verdict cmac received (
            verify_tktdes_authenticated_plain_payload c
              (payload ++ received)
              status
              context
              request_iv
              (length payload)
              (length received))
  unfolding verify_tktdes_authenticated_plain_payload
  verify_tktdes_authenticated_plain_payload-Verdict key_fits iv_fits short mac_fits =
      let (cmac, e, size) =
        calculate_tktdes_cmac-Fills c context.session_key_enc (length context.session_key_enc)
          request_iv (payload ++ (status ∷ [])) key_fits (omega arith) (omega arith) in
      (
        cmac,
        e,
        rw
            (
              key_test,
              iv_fits,
              fits_message-append payload received 8 (omega arith) mac_fits,
              cmac_message-append payload received status (omega arith),
              e,
            )
            (accept_mac-Verdict payload received cmac 8 size mac_fits),
      )
    where
      key_test :
          (not (length context.session_key_enc == 16) && not (length context.session_key_enc == 24))
          ≡ false
      key_test = elim key_fits [ inl k ↦ rw k refl | inr k ↦ rw k refl ]
