-- ===== src/Desfire/Authenticate/Stages.antt =====
-- AuthenticateCommand: its stages, its requests and what it makes of the card's answers. The static
-- generator of generateRandom is a part of the command's state here: the numbers it has still to
-- give.
use nfc_cpp.Base.{ℕ, ◌+◌, Bool, true, false, not, ◌&&◌, ltb, List, [], ◌∷◌, length}
use nfc_cpp.Base.{replicate, if◌then◌else◌, Result, ok, err, fault, ◌>>=◌, slice, push_all}
use nfc_cpp.Base.{from_desfire}
use nfc_cpp.Base.Codes.DesfireError
use nfc_cpp.Crypto.Ciphers.{Ciphers}
use nfc_cpp.Crypto.Keys.{Draws, generate_random, rotate_left, rotate_right, clear_parity_bits}
use nfc_cpp.Desfire.Context.{DesfireContext, CommMode, SessionAuthScheme}
use nfc_cpp.Desfire.Command.{DesfireRequest, DesfireResult, is_success, is_additional_frame}
use nfc_cpp.Desfire.Command.{IDesfireCommand}
use nfc_cpp.Desfire.Authenticate.Keying.{
  DesfireAuthMode, mode_code, is_aes, AuthenticateCommandOptions, random_size, cipher_block_size,
  has_key_size, derive_session_key,
}
use nfc_cpp.Desfire.Authenticate.Ciphering.{
  decrypt_challenge, generate_auth_response, verify_auth_confirmation,
}

pub data Stage : Type 0 where
  initial challenge_sent response_sent complete : Stage

pub record AuthenticateCommand : Type 0 where
  pub options : AuthenticateCommandOptions
  pub stage : Stage
  pub encrypted_challenge : List ℕ
  pub encrypted_response : List ℕ
  pub rnd_a : List ℕ
  pub rnd_b : List ℕ
  pub current_iv : List ℕ
  pub draws : Draws

-- The constructor: a key that is not for AES loses its parity bits.
unfoldable pub authenticate_command : AuthenticateCommandOptions → Draws → AuthenticateCommand
unfolding clear_parity_bits cipher_block_size
authenticate_command options draws =
    let key = if is_aes options.mode then options.key else clear_parity_bits options.key in
    record {
      options = record options { key = key };
      stage = initial;
      encrypted_challenge = [];
      encrypted_response = [];
      rnd_a = [];
      rnd_b = [];
      current_iv = replicate (cipher_block_size options) 0x00;
      draws = draws;
    }

unfoldable pub request_of : Stage → AuthenticateCommand → Result DesfireRequest
unfolding has_key_size random_size
request_of initial command =
    if not (has_key_size command.options)
    then err (from_desfire DesfireError.parameter_error)
    else ok (record {
      command_code = mode_code command.options.mode;
      request_data = command.options.key_no ∷ [];
      expected_response_length = random_size command.options;
    })
request_of challenge_sent command = ok (record {
  command_code = 0xAF;
  request_data = command.encrypted_response;
  expected_response_length = random_size command.options;
})
request_of _ command = err (from_desfire DesfireError.invalid_state)

-- The command itself is as it was.
abbrev pub build_request :
    AuthenticateCommand → DesfireContext → Result DesfireRequest × AuthenticateCommand
build_request command context = (request_of command.stage command, command)

abbrev pub scheme_of : DesfireAuthMode → SessionAuthScheme
scheme_of DesfireAuthMode.legacy = SessionAuthScheme.legacy
scheme_of DesfireAuthMode.iso = SessionAuthScheme.iso
scheme_of DesfireAuthMode.aes = SessionAuthScheme.aes

-- What a verified confirmation writes into the context.
unfoldable pub open_session :
    AuthenticateCommandOptions → List ℕ → List ℕ → DesfireContext → DesfireContext
unfolding cipher_block_size
open_session options session_key encrypted_challenge context = record context {
  session_key_enc = session_key;
  session_key_mac = session_key;
  iv = replicate (cipher_block_size options) 0x00;
  session_enc_rnd_b = encrypted_challenge;
  authenticated = true;
  key_no = options.key_no;
  comm_mode = CommMode.enciphered;
  auth_scheme = scheme_of options.mode;
}

abbrev pub Parsed : Type 0
Parsed = Result DesfireResult × AuthenticateCommand × DesfireContext

-- The calls of a stage that may fail, and then what the stage leaves.
abbrev pub settle :
    {A : Type 0} → AuthenticateCommand → DesfireContext → Result A → (A → Parsed) → Parsed
settle command context (ok a) leave = leave a
settle command context (err e) leave = (err e, command, context)
settle command context fault leave = (fault, command, context)

-- What Stage::Initial keeps: the challenge, rndB, rndA and the response.
abbrev pub note_challenge :
    AuthenticateCommand → List ℕ × List ℕ × List ℕ × List ℕ → AuthenticateCommand
note_challenge command (encrypted_challenge, rnd_b, rnd_a, encrypted_response) = record command {
  encrypted_challenge = encrypted_challenge;
  rnd_b = rnd_b;
  rnd_a = rnd_a;
  encrypted_response = encrypted_response;
  draws = λ i. command.draws (random_size command.options + i);
  stage = challenge_sent;
}

module _ (c : Ciphers) where
  -- Stage::Initial: the challenge is decrypted and answered.
  unfoldable pub answer_challenge :
      AuthenticateCommand → List ℕ → Result (List ℕ × List ℕ × List ℕ × List ℕ)
  unfolding random_size decrypt_challenge rotate_left generate_random generate_auth_response
  answer_challenge command bytes = do
    encrypted_challenge ← slice bytes 0 (random_size command.options)
    rnd_b ← decrypt_challenge c command.options encrypted_challenge
    rnd_b ← rotate_left rnd_b 1
    let rnd_a = generate_random command.draws (random_size command.options)
    encrypted_response ← generate_auth_response c command.options encrypted_challenge rnd_a rnd_b
    ok (encrypted_challenge, rnd_b, rnd_a, encrypted_response)

  -- Stage::ChallengeSent: the confirmation is verified and the session key derived.
  unfoldable pub check_confirmation : AuthenticateCommand → List ℕ → Result (List ℕ × List ℕ)
  unfolding verify_auth_confirmation rotate_right derive_session_key
  check_confirmation command bytes = do
    verified ←
        verify_auth_confirmation c command.options command.encrypted_response command.rnd_a bytes
    (if not verified then err (from_desfire DesfireError.authentication_failed) else (do
      rnd_b ← rotate_right command.rnd_b 1
      session_key ← derive_session_key command.options command.rnd_a rnd_b
      ok (rnd_b, session_key)))

  -- The cases of the switch on the stage, on the data of an answer whose status is 0x00 or 0xAF.
  unfoldable pub parse_challenge : AuthenticateCommand → List ℕ → DesfireContext → Parsed
  unfolding answer_challenge random_size
  parse_challenge command bytes context =
      if ltb (length bytes) (random_size command.options)
      then (err (from_desfire DesfireError.invalid_response), command, context)
      else settle command context (answer_challenge command bytes) (λ answered. (
        ok (record { status_code = 0xAF; result_data = [] }),
        note_challenge command answered,
        context,
      ))

  unfoldable pub parse_confirmation : AuthenticateCommand → List ℕ → DesfireContext → Parsed
  unfolding check_confirmation open_session random_size
  parse_confirmation command bytes context =
      if ltb (length bytes) (random_size command.options)
      then (err (from_desfire DesfireError.invalid_response), command, context)
      else settle command context (check_confirmation command bytes) (λ confirmed. (
        ok (record { status_code = 0x00; result_data = [] }),
        record command { rnd_b = confirmed.0; stage = complete },
        open_session command.options confirmed.1 command.encrypted_challenge context,
      ))

  unfoldable pub parse_stage : Stage → AuthenticateCommand → List ℕ → DesfireContext → Parsed
  unfolding parse_challenge parse_confirmation
  parse_stage initial command bytes context = parse_challenge command bytes context
  parse_stage challenge_sent command bytes context = parse_confirmation command bytes context
  parse_stage _ command bytes context =
      (err (from_desfire DesfireError.invalid_state), command, context)

  unfoldable pub parse_response : AuthenticateCommand → List ℕ → DesfireContext → Parsed
  unfolding parse_stage is_success is_additional_frame
  parse_response command [] context =
      (err (from_desfire DesfireError.invalid_response), command, context)
  parse_response command (status ∷ response) context =
      let result : DesfireResult = record { status_code = status; result_data = [] } in
      if not (is_success result) && not (is_additional_frame result)
      then (err (from_desfire status), command, context)
      else settle command context (push_all 256 [] response)
          (λ bytes. parse_stage command.stage command bytes context)

abbrev pub is_complete : AuthenticateCommand → Bool
is_complete command = elim command.stage [ complete ↦ true | _ ↦ false ]

unfoldable pub reset : AuthenticateCommand → AuthenticateCommand
unfolding cipher_block_size
reset command = record command {
  stage = initial;
  encrypted_challenge = [];
  encrypted_response = [];
  rnd_a = [];
  rnd_b = [];
  current_iv = replicate (cipher_block_size command.options) 0x00;
}

abbrev pub authenticate : Ciphers → IDesfireCommand
authenticate c = record {
  State = AuthenticateCommand;
  build_request = build_request;
  parse_response = parse_response c;
  is_complete = is_complete;
  reset = reset;
}
