-- ===== src/Desfire/ReadData.antt =====
-- Src/Nfc/Desfire/Commands/ReadDataCommand.cpp: the command, which reads in chunks, a request for
-- each, and takes an answer in several frames.
pub mod Decoding
pub mod Reads
pub mod RoundTrip
pub mod Endless
pub mod Accepts
mod Tests
use nfc_cpp.Base.{ℕ, ◌+◌, ◌-◌, min, Bool, true, false, not, ◌&&◌, ◌||◌, ◌==◌, ltb, leb}
use nfc_cpp.Base.{List, [], ◌∷◌, ◌++◌, length, take, if◌then◌else◌, Option, none, some}
use nfc_cpp.Base.{Result, ok, err, fault, ◌>>=◌, push_all, slice, from_desfire}
use nfc_cpp.Base.Codes.DesfireError
use nfc_cpp.Crypto.Ciphers.{Ciphers}
use nfc_cpp.Crypto.Words.{le24}
use nfc_cpp.Desfire.Context.{DesfireContext, SessionCipher, des, des3_2k, des3_3k, unknown}
use nfc_cpp.Desfire.Context.{SessionAuthScheme, resolve_session_cipher}
use nfc_cpp.Desfire.EncryptedPayload.{is_unknown}
use nfc_cpp.Desfire.Policy.{
  Outcome, has_no_session, derive_plain_request_iv, verify_payload_auto_mac_and_update_context_iv,
  update_context_iv_from_encrypted_ciphertext,
}
use nfc_cpp.Desfire.Command.{DesfireRequest, DesfireResult, IDesfireCommand}
use nfc_cpp.Desfire.WriteData.{effective_chunk_size, has_settings, resolve_communication_settings}
use nfc_cpp.Desfire.ReadData.Decoding.{search_chunk}

pub data Stage : Type 0 where
  initial read_chunk additional_frame completed : Stage

pub record ReadDataOptions : Type 0 where
  pub file_no : ℕ
  pub offset : ℕ
  pub read_length : ℕ
  pub chunk_size : ℕ
  pub communication_settings : ℕ

pub record ReadDataCommand : Type 0 where
  pub options : ReadDataOptions
  pub stage : Stage
  pub current_offset : ℕ
  pub remaining_length : ℕ
  pub last_requested_chunk_length : ℕ
  pub frame_data : List ℕ
  pub bytes : List ℕ
  pub active_settings : ℕ
  pub session_cipher : SessionCipher
  pub request_iv : List ℕ
  pub has_request_iv : Bool

abbrev pub read_data_command_code : ℕ
read_data_command_code = 0xBD

unfoldable pub validate_options : ReadDataOptions → Bool
unfolding has_settings effective_chunk_size
validate_options options =
    if ltb 0x1F options.file_no || ltb 0xFFFFFF options.offset
    then false
    else (if (options.read_length == 0) || ltb 4096 options.read_length
        then false
        else (if ltb 0x1000000 (options.offset + options.read_length)
            then false
            else has_settings options.communication_settings
              && not (effective_chunk_size options.chunk_size == 0)))

abbrev pub refuse : {A : Type 0} → ReadDataCommand → ℕ → Result A × ReadDataCommand
refuse command code = (err (from_desfire code), command)

abbrev pub reset_progress : ReadDataCommand → ReadDataCommand
reset_progress command = record command {
  current_offset = command.options.offset;
  remaining_length = command.options.read_length;
  last_requested_chunk_length = 0;
  frame_data = [];
  bytes = [];
}

abbrev pub start_reading : ReadDataCommand → Result (Unit {0}) × ReadDataCommand
start_reading command = (ok tt, record (reset_progress command) { stage = read_chunk })

-- The cipher as the first stage sets it: known in a session alone.
abbrev pub clear_session : DesfireContext → ReadDataCommand → ReadDataCommand
clear_session context command = record command {
  session_cipher = if has_no_session context then unknown else resolve_session_cipher context;
  request_iv = [];
  has_request_iv = false;
}

abbrev pub open_session : DesfireContext → ReadDataCommand → Result (Unit {0}) × ReadDataCommand
open_session context command =
    if has_no_session context
    then refuse command DesfireError.authentication_error
    else (if is_unknown (resolve_session_cipher context)
        then refuse command DesfireError.invalid_state
        else start_reading command)

abbrev pub open_with : DesfireContext → ℕ → ReadDataCommand → Result (Unit {0}) × ReadDataCommand
open_with context settings command =
    if settings == 0x01
    then refuse command DesfireError.invalid_state
    else (if settings == 0x03
        then open_session context (clear_session context command)
        else start_reading (clear_session context command))

-- The body behind `stage == Stage::Initial`.
unfoldable pub open_stage : DesfireContext → ReadDataCommand → Result (Unit {0}) × ReadDataCommand
unfolding validate_options resolve_communication_settings resolve_session_cipher is_unknown
    has_no_session
open_stage context command =
    let settings = resolve_communication_settings command.options.communication_settings context in
    if not (validate_options command.options)
    then refuse command DesfireError.parameter_error
    else open_with context settings (record command { active_settings = settings })

unfoldable pub is_iso_scheme : SessionAuthScheme → Bool
is_iso_scheme SessionAuthScheme.iso = true
is_iso_scheme _ = false

-- `shouldDeriveRequestIv`
unfoldable pub derives_request_iv : SessionCipher → DesfireContext → Bool
unfolding is_iso_scheme
derives_request_iv SessionCipher.aes context = context.authenticated
derives_request_iv des3_3k context = context.authenticated
derives_request_iv des3_2k context = context.authenticated && is_iso_scheme context.auth_scheme
derives_request_iv _ context = false

-- fileNo, the offset and the length.
abbrev pub chunk_header : ReadDataCommand → ℕ → List ℕ
chunk_header command chunk_length =
    command.options.file_no ∷ (le24 command.current_offset ++ le24 chunk_length)

abbrev pub ask_chunk : ℕ → ReadDataCommand → Result DesfireRequest × ReadDataCommand
ask_chunk chunk_length command = (
  ok (record {
    command_code = read_data_command_code;
    request_data = chunk_header command chunk_length;
    expected_response_length = chunk_length;
  }),
  record command {
    last_requested_chunk_length = chunk_length;
    frame_data = [];
    stage = read_chunk;
  },
)

-- The request, with the IV that was derived for it.
abbrev pub ask_with_iv :
    ℕ → ReadDataCommand → Result (List ℕ) → Result DesfireRequest × ReadDataCommand
ask_with_iv chunk_length command (ok iv) =
    ask_chunk chunk_length (record command { request_iv = iv; has_request_iv = true })
ask_with_iv chunk_length command (err e) = (err e, command)
ask_with_iv chunk_length command fault = (fault, command)

module _ (c : Ciphers) (context : DesfireContext) where
  abbrev pub build_chunk : ℕ → ReadDataCommand → Result DesfireRequest × ReadDataCommand
  build_chunk chunk_length command =
      if derives_request_iv command.session_cipher context
      then ask_with_iv chunk_length command (do
        iv ←
            derive_plain_request_iv c context
              (read_data_command_code ∷ chunk_header command chunk_length) true
        push_all 16 [] iv)
      else ask_chunk chunk_length command

  -- The part of buildRequest for a chunk.
  unfoldable pub build_next : ReadDataCommand → Result DesfireRequest × ReadDataCommand
  unfolding derive_plain_request_iv derives_request_iv effective_chunk_size le24
  build_next command =
      let cap = effective_chunk_size command.options.chunk_size in
      if command.remaining_length == 0
      then refuse (record command { stage = completed }) DesfireError.invalid_state
      else build_chunk (if ltb command.remaining_length cap then command.remaining_length else cap)
          (record command { has_request_iv = false; request_iv = [] })

  abbrev pub build_opened :
      Result (Unit {0}) × ReadDataCommand → Result DesfireRequest × ReadDataCommand
  build_opened (ok done, command) = build_next command
  build_opened (err e, command) = (err e, command)
  build_opened (fault, command) = (fault, command)

  abbrev pub build_staged : Stage → ReadDataCommand → Result DesfireRequest × ReadDataCommand
  build_staged initial command = build_opened (open_stage context command)
  build_staged read_chunk command = build_next command
  build_staged additional_frame command = (
    ok (record { command_code = 0xAF; request_data = []; expected_response_length = 0 }),
    command,
  )
  build_staged completed command = refuse command DesfireError.invalid_state

abbrev pub Parsed : Type 0
Parsed = Result DesfireResult × ReadDataCommand × DesfireContext

abbrev pub reject : ReadDataCommand → DesfireContext → ℕ → Parsed
reject command context code = (err (from_desfire code), command, context)

-- The end of parseResponse, with the bytes appended.
abbrev pub consume : ReadDataCommand → DesfireResult → DesfireContext → ℕ → Parsed
consume command result context consumed =
    if ltb command.remaining_length consumed
    then reject command context DesfireError.invalid_response
    else (
      ok result,
      record command {
        current_offset = command.current_offset + consumed;
        remaining_length = command.remaining_length - consumed;
        frame_data = [];
        request_iv = [];
        has_request_iv = false;
        stage = if command.remaining_length - consumed == 0 then completed else read_chunk;
      },
      context,
    )

abbrev pub append_data :
    ReadDataCommand → DesfireResult → DesfireContext → ℕ → Result (List ℕ) → Parsed
append_data command result context consumed (ok chunk) =
    consume (record command { bytes = command.bytes ++ chunk }) result context consumed
append_data command result context consumed (err e) = (err e, command, context)
append_data command result context consumed fault = (fault, command, context)

-- The tests on the length of the chunk, whose bytes are the first of `source`.
unfoldable pub take_chunk : ReadDataCommand → DesfireResult → List ℕ → ℕ → DesfireContext → Parsed
take_chunk command result source chunk_length context =
    if (chunk_length == 0) || ltb command.last_requested_chunk_length chunk_length
    then reject command context DesfireError.invalid_response
    else (if ltb 4096 (length command.bytes + chunk_length)
        then reject command context DesfireError.length_error
        else append_data command result context chunk_length (slice source 0 chunk_length))

-- The length of plain data that is not verified: a MAC behind it is cut off in a session.
unfoldable pub unverified_length : ReadDataCommand → DesfireContext → ℕ
unverified_length command context =
    let total = length command.frame_data in
    let extra = total - command.last_requested_chunk_length in
    if context.authenticated && ltb command.last_requested_chunk_length total
    then (if (extra == 8) || (extra == 4) then total - extra else total)
    else total

module _ (c : Ciphers) where
  abbrev pub finish_verified : ReadDataCommand → DesfireResult → Outcome ℕ → Parsed
  finish_verified command result (ok mac_length, context) =
      take_chunk command result command.frame_data command.last_requested_chunk_length context
  finish_verified command result (err e, context) =
      reject command context DesfireError.invalid_response
  finish_verified command result (fault, context) = (fault, command, context)

  abbrev pub finish_decoded : ReadDataCommand → DesfireResult → List ℕ → Outcome (Unit {0}) → Parsed
  finish_decoded command result chunk (ok done, context) =
      take_chunk command result chunk (length chunk) context
  finish_decoded command result chunk (err e, context) =
      reject command context DesfireError.invalid_response
  finish_decoded command result chunk (fault, context) = (fault, command, context)

  -- tryDecodeEncryptedChunk, once the loops have ended.
  abbrev pub finish_search :
      ReadDataCommand → DesfireResult → DesfireContext → Result (Option (List ℕ × List ℕ)) → Parsed
  finish_search command result context (ok (some (chunk, ciphertext))) =
      finish_decoded command result chunk
        (update_context_iv_from_encrypted_ciphertext context ciphertext)
  finish_search command result context (ok none) =
      reject command context DesfireError.invalid_response
  finish_search command result context (err e) = (err e, command, context)
  finish_search command result context fault = (fault, command, context)

  -- The part of parseResponse for the last frame of a chunk.
  unfoldable pub finish_chunk : ReadDataCommand → DesfireResult → DesfireContext → Parsed
  unfolding take_chunk unverified_length search_chunk verify_payload_auto_mac_and_update_context_iv
      update_context_iv_from_encrypted_ciphertext
  finish_chunk command result context =
      if command.active_settings == 0x03
      then finish_search command result context (
          search_chunk c context command.session_cipher
            (read_data_command_code ∷ chunk_header command command.last_requested_chunk_length)
            command.last_requested_chunk_length command.frame_data command.has_request_iv
            command.request_iv)
      else (if context.authenticated && command.has_request_iv
          then finish_verified command result (
              verify_payload_auto_mac_and_update_context_iv c context command.frame_data
                result.status_code command.request_iv command.last_requested_chunk_length)
          else take_chunk command result command.frame_data (unverified_length command context)
              context)

  -- `result.data` holds 256 bytes and `frameData` 272: what fits is kept even if the rest does not.
  unfoldable pub parse_frame : ReadDataCommand → List ℕ → DesfireContext → Parsed
  unfolding finish_chunk
  parse_frame command [] context = reject command context DesfireError.invalid_response
  parse_frame command (status ∷ rest) context =
      let room = min 256 (272 - length command.frame_data) in
      let command' = record command { frame_data = command.frame_data ++ take room rest } in
      let result : DesfireResult = record { status_code = status; result_data = rest } in
      if not (status == 0x00) && not (status == 0xAF)
      then reject command context status
      else (if ltb room (length rest)
          then reject command' context DesfireError.length_error
          else (if status == 0xAF
              then (ok result, record command' { stage = additional_frame }, context)
              else finish_chunk command' result context))

  abbrev pub parse_staged : Stage → ReadDataCommand → List ℕ → DesfireContext → Parsed
  parse_staged read_chunk command response context = parse_frame command response context
  parse_staged additional_frame command response context = parse_frame command response context
  parse_staged initial command response context = reject command context DesfireError.invalid_state
  parse_staged completed command response context =
      reject command context DesfireError.invalid_state

  abbrev pub is_completed : Stage → Bool
  is_completed completed = true
  is_completed initial = false
  is_completed read_chunk = false
  is_completed additional_frame = false

  abbrev pub reset : ReadDataCommand → ReadDataCommand
  reset command = record (reset_progress command) {
    stage = initial;
    active_settings = 0x00;
    session_cipher = unknown;
    request_iv = [];
    has_request_iv = false;
  }

  abbrev pub read_data : IDesfireCommand
  read_data = record {
    State = ReadDataCommand;
    build_request = λ command context. build_staged c context command.stage command;
    parse_response =
        λ command response context. parse_staged command.stage command response context;
    is_complete = λ command. is_completed command.stage;
    reset = reset;
  }
