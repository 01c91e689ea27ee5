-- ===== src/Desfire/FileIds/Chained.antt =====
-- GetFileIDs in an AES session: the MACs of the request and of the answer, and the IV that they
-- leave.
use nfc_cpp.Base.{
  ℕ, ◌+◌, ◌-◌, ◌≤◌, ◌≡◌, refl, sym, subst, ap, ap₂, ◌∙◌, arith, Bool, true, false, ◌&&◌, leb, List,
  [], ◌∷◌, ◌++◌, length, take, All, some, if◌then◌else◌, Option, Result, ok, le→leb, le→ltb,
  length-append, length-take, take-length, take-append_length, slice_in, push_all_fits,
}
use nfc_cpp.Crypto.Ciphers.{Ciphers, IsSized}
use nfc_cpp.Crypto.Cmac.{calculate_aes_cmac}
use nfc_cpp.Crypto.Cmac.Total.{calculate_aes_cmac-Fills}
use nfc_cpp.Desfire.Context.{DesfireContext, SessionCipher, resolve_session_cipher, set_context_iv}
use nfc_cpp.Desfire.PlainIv.{derive_aes_plain_request_iv, initial_iv}
use nfc_cpp.Desfire.Verify.{verify_aes_authenticated_plain_payload}
use nfc_cpp.Desfire.Verify.Laws.{
  Verdict, authentic, forged, verify_aes_authenticated_plain_payload-Verdict,
}
use nfc_cpp.Desfire.Policy.{
  iv_mode, aes_mode, has_no_session, commit_iv, derive_plain_request_iv, try_mac_lengths,
  verify_payload_and_update_context_iv, verify_payload_auto_mac_and_update_context_iv,
}
use nfc_cpp.Desfire.FileIds.{
  GetFileIdsCommand, is_plausible_file_id_payload, are_file_numbers, data_length, try_candidates,
}
use nfc_cpp.Desfire.FileIds.Lengths.{IsFileNumber}

-- An AES session as an authentication leaves it.
pub record IsAesSession (context : DesfireContext) : Type 0 where
  pub authenticated : context.authenticated ≡ true
  pub key_size : 16 ≤ length context.session_key_enc
  pub iv_size : length context.iv ≡ 16

pub if-true : {A : Type 0} (b : Bool) (x y : A) → b ≡ true → (if b then x else y) ≡ x
if-true true x y h = refl
if-true false x y h = cc

some-inj : {A : Type 0} {a b : A} → ok (some a) ≡ ok (some b) → a ≡ b
some-inj h = cc

All-are_file_numbers : (bs : List ℕ) → All IsFileNumber bs → are_file_numbers bs ≡ true
unfolding are_file_numbers
All-are_file_numbers [] h = refl
All-are_file_numbers (b ∷ bs) (h, hs) = rw (le→ltb 0x1F b h) (All-are_file_numbers bs hs)

module _ (c : Ciphers) (sized : IsSized c) (context : DesfireContext)
    (session : IsAesSession context) where
  abbrev mac_of : List ℕ → List ℕ → Result (Option (List ℕ))
  mac_of iv message = calculate_aes_cmac c context.session_key_enc iv message

  aes-resolve_session_cipher : resolve_session_cipher context ≡ SessionCipher.aes
  unfolding resolve_session_cipher
  aes-resolve_session_cipher = rw (session.iv_size, le→leb 16 _ session.key_size) refl

  aes-iv_mode : iv_mode context ≡ aes_mode
  unfolding iv_mode
  aes-iv_mode = rw (iv_mode, aes-resolve_session_cipher) refl

  aes-has_no_session : has_no_session context ≡ false
  unfolding has_no_session
  aes-has_no_session = rw (session.authenticated) (ground (arith, session.key_size))

  pub length-mac :
      (iv message mac : List ℕ)
      → length iv ≡ 16
      → mac_of iv message ≡ ok (some mac)
      → length mac ≡ 16
  length-mac iv message mac h e =
      let (mac', e', size) =
        calculate_aes_cmac-Fills c context.session_key_enc iv message sized session.key_size
          (omega (arith, h)) in
      subst (λ x. length x ≡ 16) (some-inj (sym e' ∙ e)) size

  pub derives :
      (mac : List ℕ)
      → mac_of context.iv (0x6F ∷ []) ≡ ok (some mac)
      → derive_plain_request_iv c context (0x6F ∷ []) true ≡ ok mac
  unfolding derive_plain_request_iv derive_aes_plain_request_iv initial_iv
  derives mac e =
      let size : length mac ≡ 16 = length-mac context.iv (0x6F ∷ []) mac session.iv_size e in
      rw
        (
          aes-iv_mode,
          le→leb 16 _ session.key_size,
          session.iv_size,
          slice_in context.iv 0 16 (omega (arith, session.iv_size)),
          take-length context.iv 16 (omega (arith, session.iv_size)),
          e,
          slice_in mac 0 16 (omega arith),
          take-length mac 16 (omega arith),
        )
        refl

  module _ (ids request_mac mac : List ℕ) (few : length ids ≤ 32) (size : length request_mac ≡ 16)
      (e : mac_of request_mac (ids ++ (0x00 ∷ [])) ≡ ok (some mac)) where
    abbrev sent : List ℕ
    sent = ids ++ take 8 mac

    length-answer_mac : length (take 8 mac) ≡ 8
    length-answer_mac =
        length-take 8 mac (omega (arith, length-mac request_mac (ids ++ (0x00 ∷ [])) mac size e))

    pub length-sent : length sent ≡ length ids + 8
    length-sent = omega (arith, length-append ids (take 8 mac), length-answer_mac)

    Verdict-some :
        (cmac : List ℕ) (r : Result (Option (List ℕ)))
        → mac_of request_mac (ids ++ (0x00 ∷ [])) ≡ ok (some cmac)
        → Verdict cmac (take 8 mac) r
        → r ≡ ok (some mac)
    Verdict-some cmac r e' (authentic same is) = is ∙ ap (λ x. ok (some x)) (some-inj (sym e' ∙ e))
    Verdict-some cmac r e' (forged differs is) =
        elim (differs (rw (length-answer_mac) (ap (take 8) (some-inj (sym e ∙ e'))))) [ ]

    verifies :
        verify_aes_authenticated_plain_payload c sent 0x00 context request_mac (length ids) 8
        ≡ ok (some mac)
    verifies =
        let (cmac, e', v) =
          verify_aes_authenticated_plain_payload-Verdict c context ids (take 8 mac) request_mac 0x00
            sized session.key_size size (omega arith) (omega (arith, length-answer_mac)) in
        subst
          (λ n.
            verify_aes_authenticated_plain_payload c sent 0x00 context request_mac (length ids) n
            ≡ ok (some mac))
          length-answer_mac (Verdict-some cmac _ e' v)

    gap : length sent - length ids ≡ 8
    gap = omega (arith, length-sent)

    commits : set_context_iv context mac ≡ ok (record context { iv = mac })
    unfolding set_context_iv
    commits = rw (push_all_fits 16 [] mac (omega (arith, length-mac request_mac _ mac size e))) refl

    updates :
        verify_payload_and_update_context_iv c context sent 0x00 request_mac (length ids) 8
        ≡ (ok tt, record context { iv = mac })
    unfolding verify_payload_and_update_context_iv commit_iv
    updates =
        rw
          (
            le→ltb (length sent) (length ids) (omega (arith, length-sent)),
            gap,
            aes-has_no_session,
            aes-iv_mode,
            verifies,
            commit_iv,
            commits,
          )
          refl

    accepts :
        verify_payload_auto_mac_and_update_context_iv c context sent 0x00 request_mac (length ids)
        ≡ (ok 8, record context { iv = mac })
    unfolding verify_payload_auto_mac_and_update_context_iv try_mac_lengths
    accepts =
        let room : length ids + 8 - length ids ≡ 8 = omega arith in
        rw
          (
            length-sent,
            le→ltb (length ids + 8) (length ids) (omega arith),
            try_mac_lengths,
            room,
            updates,
          )
          (ap (λ o. (ok 8, o.1)) updates)

  module _ (command : GetFileIdsCommand) (ids request_mac mac : List ℕ) (few : length ids ≤ 32)
      (numbers : All IsFileNumber ids) (size : length request_mac ≡ 16)
      (e : mac_of request_mac (ids ++ (0x00 ∷ [])) ≡ ok (some mac)) where
    abbrev holding : GetFileIdsCommand
    holding = record command {
      raw_payload = sent ids request_mac mac few size e;
      request_iv = request_mac;
      has_request_iv = true;
    }

    abbrev payload : List ℕ
    payload = ids ++ take 8 mac

    length-payload : length payload ≡ length ids + 8
    length-payload = length-sent ids request_mac mac few size e

    plausible : is_plausible_file_id_payload payload (length ids) ≡ true
    unfolding is_plausible_file_id_payload
    plausible =
        rw
          (
            le→ltb 32 (length ids) few,
            le→ltb (length payload) (length ids) (omega (arith, length-payload)),
            take-append_length ids (take 8 mac) (length ids) refl,
          )
          (All-are_file_numbers ids numbers)

    finds_candidate :
        try_candidates c holding context (8 ∷ 4 ∷ 0 ∷ [])
        ≡ (ok (length ids), record context { iv = mac })
    unfolding try_candidates
    finds_candidate =
        let fits : leb 8 (length holding.raw_payload) ≡ true =
          le→leb 8 (length payload) (omega (arith, length-payload)) in
        let left : length holding.raw_payload - 8 ≡ length ids = omega (arith, length-payload) in
        let holds : is_plausible_file_id_payload holding.raw_payload
              (length holding.raw_payload - 8)
            ≡ true =
          subst (λ n. is_plausible_file_id_payload payload n ≡ true) (sym left) plausible in
        let verified : verify_payload_auto_mac_and_update_context_iv c context holding.raw_payload
              0x00 holding.request_iv (length holding.raw_payload - 8)
            ≡ (ok 8, record context { iv = mac }) =
          subst
            (λ n.
              verify_payload_auto_mac_and_update_context_iv c context payload 0x00 request_mac n
              ≡ (ok 8, record context { iv = mac }))
            (sym left) (accepts ids request_mac mac few size e) in
        rw (try_candidates, fits, holds, verified) (ap₂ (λ n o. (ok n, o.1)) left verified)

    pub finds : data_length c holding context ≡ (ok (length ids), record context { iv = mac })
    unfolding data_length
    finds =
        if-true (context.authenticated && true) _ _ (rw (session.authenticated) refl)
        ∙ finds_candidate
