-- ===== src/Desfire/Authenticate/Mutual.antt =====
-- An AES authentication between AuthenticateCommand and a card that has the key.
use nfc_cpp.Base.{
  ℕ, suc, ◌≤◌, ◌≡◌, refl, sym, ◌∙◌, arith, Bool, true, false, List, [], ◌∷◌, ◌++◌, length, drop,
  replicate, Option, none, some, Result, ok, push_all_fits, le→ltb, le→leb, length-append,
  take-append_length, drop-append_length,
}
use nfc_cpp.Crypto.Ciphers.{Ciphers, IsSized, IsAesInverse}
use nfc_cpp.Crypto.Keys.{Draws, generate_random}
use nfc_cpp.Wire.{WireKind}
use nfc_cpp.Desfire.Context.{DesfireContext, SessionCipher, resolve_session_cipher}
use nfc_cpp.Desfire.Command.{DesfireRequest, is_success, is_additional_frame}
use nfc_cpp.Desfire.Card.{Run, execute_round, execute_loop, execute_command, check_status}
use nfc_cpp.Desfire.Card.Round.{conclude, execute_round-after}
use nfc_cpp.Desfire.Authenticate.Keying.{
  AuthenticateCommandOptions, has_key_size, random_size, cipher_block_size,
}
use nfc_cpp.Desfire.Authenticate.Ciphering.{decrypt_challenge}
use nfc_cpp.Desfire.Authenticate.Stages.{
  complete, AuthenticateCommand, authenticate_command, request_of, build_request, answer_challenge,
  check_confirmation, parse_challenge, parse_confirmation, parse_stage, parse_response,
  note_challenge, open_session, authenticate, reset,
}
use nfc_cpp.Desfire.Authenticate.AesCard.{
  AesCard, turn, read_pdu-wrap, judge_token, card_answer, card_transceiver,
}
use nfc_cpp.Desfire.Authenticate.Passes.{
  aes_options, slice_whole, length-turn, same_bytes_self, length-generate_random, rotate_left-turn,
  rotate_right-turn, decrypt_random_aes, generate_auth_response_aes, verify_auth_confirmation_aes,
  derive_session_key_aes, aes_session_key, length-aes_session_key,
}

-- Both sides have authenticated each other and derive one session key.
pub record IsAgreed (rnd_a rnd_b : List ℕ)
    (end : Result (Unit {0}) × Run AuthenticateCommand AesCard) : Type 0 where
  pub success : end.0 ≡ ok tt
  pub authenticated : end.1.context.authenticated ≡ true
  pub session_key : end.1.context.session_key_enc ≡ aes_session_key rnd_a rnd_b
  pub cipher : resolve_session_cipher end.1.context ≡ SessionCipher.aes
  pub opens : end.1.link.reader ≡ some rnd_a

open_session_aes :
    (key : List ℕ) (key_no : ℕ) (session_key challenge : List ℕ) (context : DesfireContext)
    → 16 ≤ length session_key
    → resolve_session_cipher (open_session (aes_options key key_no) session_key challenge context)
      ≡ SessionCipher.aes
unfolding resolve_session_cipher open_session cipher_block_size
open_session_aes key key_no session_key challenge context h =
    rw (le→leb 16 (length session_key) h) refl

module _ (c : Ciphers) (sized : IsSized c) (inverse : IsAesInverse c) (key : List ℕ) (key_no : ℕ)
    (key_fits : length key ≡ 16) (rnd_b : List ℕ) (rnd_b_fits : length rnd_b ≡ 16)
    (draws : Draws) where
  open c use {aes_cbc_encrypt, aes_cbc_decrypt}

  abbrev options : AuthenticateCommandOptions
  options = aes_options key key_no

  abbrev start : AuthenticateCommand
  start = authenticate_command options draws

  abbrev pub drawn : List ℕ
  drawn = generate_random draws 16

  abbrev challenge : List ℕ
  challenge = aes_cbc_encrypt key (replicate 16 0x00) rnd_b

  abbrev token : List ℕ
  token = aes_cbc_encrypt key challenge (drawn ++ turn rnd_b)

  abbrev confirmation : List ℕ
  confirmation = aes_cbc_encrypt key (drop 16 token) (turn drawn)

  drawn_fits : length drawn ≡ 16
  drawn_fits = length-generate_random 16 draws

  challenge_fits : length challenge ≡ 16
  challenge_fits = sized.length-aes_cbc key (replicate 16 0x00) rnd_b ∙ rnd_b_fits

  token_fits : length token ≡ 32
  token_fits = omega (
    arith,
    sized.length-aes_cbc key challenge (drawn ++ turn rnd_b),
    length-append drawn (turn rnd_b),
    drawn_fits,
    length-turn rnd_b,
  )

  confirmation_fits : length confirmation ≡ 16
  confirmation_fits =
      sized.length-aes_cbc key (drop 16 token) (turn drawn) ∙ length-turn drawn ∙ drawn_fits

  abbrev answered : List ℕ × List ℕ × List ℕ × List ℕ
  answered = (challenge, turn rnd_b, drawn, token)

  answer_challenge_aes : answer_challenge c start challenge ≡ ok answered
  unfolding answer_challenge authenticate_command random_size decrypt_challenge
  answer_challenge_aes =
      rw
        (
          slice_whole challenge 16 challenge_fits,
          decrypt_random_aes c sized inverse key key_no key_fits (replicate 16 0x00) rnd_b
              rnd_b_fits,
          rotate_left-turn rnd_b rnd_b_fits,
          generate_auth_response_aes c sized inverse key key_no key_fits challenge drawn
              (turn rnd_b) challenge_fits drawn_fits (length-turn rnd_b ∙ rnd_b_fits),
        )
        refl

  check_confirmation_aes :
      check_confirmation c (note_challenge start answered) confirmation
      ≡ ok (rnd_b, aes_session_key drawn rnd_b)
  unfolding check_confirmation authenticate_command
  check_confirmation_aes =
      rw
        (
          verify_auth_confirmation_aes c sized inverse key key_no key_fits token drawn token_fits
              drawn_fits,
          rotate_right-turn rnd_b rnd_b_fits,
          derive_session_key_aes c sized inverse key key_no key_fits drawn rnd_b drawn_fits
              rnd_b_fits,
        )
        refl

  abbrev card : Bool → Option (List ℕ) → AesCard
  card offered reader = record { key = key; rnd_b = rnd_b; offered = offered; reader = reader }

  -- The card takes the token, and has RndA.
  judge_token_aes :
      (reader : Option (List ℕ))
      → judge_token c (card true reader) token ≡ (0x00 ∷ confirmation, card false (some drawn))
  unfolding judge_token
  judge_token_aes reader =
      rw
        (
          inverse.aes_cbc_decrypt-encrypt key challenge (drawn ++ turn rnd_b)
              (omega (arith, length-append drawn (turn rnd_b), drawn_fits, length-turn rnd_b)),
          take-append_length drawn (turn rnd_b) 16 (sym drawn_fits),
          drop-append_length drawn (turn rnd_b) 16 (sym drawn_fits),
          same_bytes_self (turn rnd_b),
        )
        refl

  module _ (wire : WireKind) (context : DesfireContext) where
    abbrev AuthRun : Type 0
    AuthRun = Run AuthenticateCommand AesCard

    abbrev at : AuthenticateCommand → AesCard → DesfireContext → AuthRun
    at command link now = record { command = command; link = link; context = now }

    abbrev session : DesfireContext
    session = open_session options (aes_session_key drawn rnd_b) challenge context

    abbrev round : AuthRun → Result (Unit {0}) × AuthRun
    round run = execute_round wire (card_transceiver c wire) (authenticate c) run

    first_answer :
        (link : AesCard)
        → conclude wire
            (card_transceiver c wire)
            (authenticate c)
            (0xAF ∷ challenge)
            (at (reset start) link context)
          ≡ (ok tt, at (note_challenge start answered) link context)
    unfolding parse_response parse_stage parse_challenge check_status is_success is_additional_frame
        random_size reset authenticate_command
    first_answer link =
        rw
          (
            push_all_fits 256 [] challenge (omega (arith, challenge_fits)),
            le→ltb (length challenge) 16 (omega (arith, challenge_fits)),
            answer_challenge_aes,
          )
          refl

    second_answer :
        (link : AesCard)
        → conclude wire
            (card_transceiver c wire)
            (authenticate c)
            (0x00 ∷ confirmation)
            (at (note_challenge start answered) link context)
          ≡ (
            ok tt,
            at
                (record (note_challenge start answered) { rnd_b = rnd_b; stage = complete })
                link
                session,
          )
    unfolding parse_response parse_stage parse_confirmation check_status is_success
        is_additional_frame random_size authenticate_command
    second_answer link =
        rw
          (
            push_all_fits 256 [] confirmation (omega (arith, confirmation_fits)),
            le→ltb (length confirmation) 16 (omega (arith, confirmation_fits)),
            check_confirmation_aes,
          )
          refl

    abbrev first_request : DesfireRequest
    first_request = record {
      command_code = 0xAA;
      request_data = key_no ∷ [];
      expected_response_length = 16;
    }

    first_builds : build_request (reset start) context ≡ (ok first_request, reset start)
    unfolding request_of has_key_size random_size reset authenticate_command
    first_builds = rw key_fits refl

    first_round :
        (offered : Bool) (reader : Option (List ℕ))
        → round (at (reset start) (card offered reader) context)
          ≡ (ok tt, at (note_challenge start answered) (card true none) context)
    first_round offered reader =
        let (apdu, wraps, reads) = read_pdu-wrap wire 0xAA (key_no ∷ []) (omega arith) in
        execute_round-after wire (card_transceiver c wire) (authenticate c)
          (at (reset start) (card offered reader) context) (reset start) first_request apdu
          (ok (0xAF ∷ challenge)) (card true none) first_builds (omega arith) wraps
          (rw reads (unfold card_answer in refl))
        ∙ first_answer (card true none)

    abbrev second_request : DesfireRequest
    second_request = record {
      command_code = 0xAF;
      request_data = token;
      expected_response_length = 16;
    }

    second_builds :
        build_request (note_challenge start answered) context
        ≡ (ok second_request, note_challenge start answered)
    unfolding request_of random_size authenticate_command
    second_builds = refl

    abbrev done : AuthenticateCommand
    done = record (note_challenge start answered) { rnd_b = rnd_b; stage = complete }

    second_round :
        round (at (note_challenge start answered) (card true none) context)
        ≡ (ok tt, at done (card false (some drawn)) session)
    second_round =
        let (apdu, wraps, reads) = read_pdu-wrap wire 0xAF token (omega (arith, token_fits)) in
        execute_round-after wire (card_transceiver c wire) (authenticate c)
          (at (note_challenge start answered) (card true none) context)
          (note_challenge start answered) second_request apdu (ok (0x00 ∷ confirmation))
          (card false (some drawn)) second_builds (omega (arith, token_fits)) wraps
          (rw reads (unfold card_answer in rw (judge_token_aes none) refl))
        ∙ second_answer (card false (some drawn))

    runs :
        (n : ℕ) (offered : Bool) (reader : Option (List ℕ))
        → execute_command wire
            (card_transceiver c wire)
            (authenticate c)
            (suc (suc (suc n)))
            start
            (card offered reader)
            context
          ≡ some (ok tt, at done (card false (some drawn)) session)
    unfolding execute_command execute_loop
    runs n offered reader = rw (first_round offered reader, second_round) (unfold reset in refl)

    -- AuthenticateCommand for AES with a 16-byte key, run over either wire with a card that has
    -- the same key and offers any 16-byte random number, succeeds within two exchanges, if AES
    -- works in place and decrypts what it encrypted: the context then is an authenticated AES
    -- session under the key of the two random numbers, and the card has the reader's random
    -- number.
    pub authenticate-IsAgreed :
        (n : ℕ) (offered : Bool) (reader : Option (List ℕ))
        → (end : Result (Unit {0}) × AuthRun) × (execute_command wire
              (card_transceiver c wire)
              (authenticate c)
              (suc (suc (suc n)))
              start
              (card offered reader)
              context
            ≡ some end)
          × IsAgreed drawn rnd_b end
    authenticate-IsAgreed n offered reader = (
      _,
      runs n offered reader,
      (let session_key = aes_session_key drawn rnd_b in
          record {
            success = refl;
            authenticated = unfold open_session in refl;
            session_key = unfold open_session in refl;
            cipher =
                open_session_aes key key_no session_key challenge context
                  (omega (arith, length-aes_session_key drawn rnd_b drawn_fits rnd_b_fits));
            opens = refl;
          }),
    )
