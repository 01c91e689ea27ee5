-- ===== src/Desfire/WriteData.antt =====
-- Src/Nfc/Desfire/Commands/WriteDataCommand.cpp: the command, which writes its bytes in chunks, a
-- request for each. The bytes are behind a pointer, `none` when it is null.
pub mod Ciphering
pub mod Stores
pub mod Ends
mod Tests
use nfc_cpp.Base.{ℕ, ◌+◌, ◌-◌, ◌*◌, ◌/◌, Bool, true, false, not, ◌&&◌, ◌||◌, ◌==◌, ltb, leb}
use nfc_cpp.Base.{List, [], ◌∷◌, ◌++◌, length, if◌then◌else◌, Option, none, some}
use nfc_cpp.Base.{Result, ok, err, fault, ◌>>=◌, push_all, slice, from_desfire}
use nfc_cpp.Base.Codes.DesfireError
use nfc_cpp.Crypto.Ciphers.{Ciphers}
use nfc_cpp.Crypto.Words.{le24}
use nfc_cpp.Desfire.Context.{DesfireContext, SessionCipher, des, des3_2k, unknown}
use nfc_cpp.Desfire.Context.{resolve_session_cipher, is_legacy_des_or_2k_session}
use nfc_cpp.Desfire.ValuePayload.{block_size}
use nfc_cpp.Desfire.EncryptedPayload.{is_unknown}
use nfc_cpp.Desfire.Policy.{Outcome, has_no_session, update_context_iv_for_value_operation_response}
use nfc_cpp.Desfire.Command.{DesfireRequest, DesfireResult, is_success, IDesfireCommand}
use nfc_cpp.Desfire.WriteData.Ciphering.{build_encrypted_chunk_payload}

pub data Stage : Type 0 where
  initial writing completed : Stage

pub record WriteDataOptions : Type 0 where
  pub file_no : ℕ
  pub offset : ℕ
  pub bytes : Option (List ℕ)
  pub chunk_size : ℕ
  pub communication_settings : ℕ

pub record WriteDataCommand : Type 0 where
  pub options : WriteDataOptions
  pub stage : Stage
  pub current_offset : ℕ
  pub current_index : ℕ
  pub last_chunk_length : ℕ
  pub active_settings : ℕ
  pub session_cipher : SessionCipher
  pub pending_iv : List ℕ
  pub update_context_iv : Bool
  pub legacy_des_crypto_mode : Bool

abbrev pub write_data_command_code : ℕ
write_data_command_code = 0x3D

-- `(requested < MAX_CHUNK_SIZE) ? requested : MAX_CHUNK_SIZE`, 240 standing for a size of zero.
unfoldable pub effective_chunk_size : ℕ → ℕ
effective_chunk_size chunk_size =
    let requested : ℕ = if chunk_size == 0 then 240 else chunk_size in
    if ltb requested 240 then requested else 240

unfoldable pub has_settings : ℕ → Bool
has_settings settings =
    (settings == 0x00) || ((settings == 0x01) || ((settings == 0x03) || (settings == 0xFF)))

-- The tests on the length of the data.
unfoldable pub validate_range : ℕ → ℕ → Bool
validate_range offset total =
    if total == 0
    then false
    else (if ltb 0xFFFFFF offset
        then false
        else (if ltb 0xFFFFFF total then false else not (ltb 0x1000000 (offset + total))))

unfoldable pub validate_data : WriteDataOptions → Option (List ℕ) → Bool
unfolding validate_range has_settings effective_chunk_size
validate_data options none = false
validate_data options (some bytes) =
    validate_range options.offset (length bytes)
    && (has_settings options.communication_settings
        && not (effective_chunk_size options.chunk_size == 0))

unfoldable pub validate_options : WriteDataOptions → Bool
unfolding validate_data
validate_options options =
    if ltb 0x1F options.file_no then false else validate_data options options.bytes

unfoldable pub resolve_communication_settings : ℕ → DesfireContext → ℕ
resolve_communication_settings settings context =
    if not (settings == 0xFF) then settings else (if context.authenticated then 0x03 else 0x00)

abbrev pub reset_progress : WriteDataCommand → WriteDataCommand
reset_progress command = record command {
  current_offset = command.options.offset;
  current_index = 0;
  last_chunk_length = 0;
}

abbrev pub refuse : {A : Type 0} → WriteDataCommand → ℕ → Result A × WriteDataCommand
refuse command code = (err (from_desfire code), command)

abbrev pub start_writing : WriteDataCommand → Result (Unit {0}) × WriteDataCommand
start_writing command = (ok tt, record (reset_progress command) { stage = writing })

-- The part of the first stage for enciphered data.
abbrev pub open_session : DesfireContext → WriteDataCommand → Result (Unit {0}) × WriteDataCommand
open_session context command =
    if has_no_session context
    then refuse command DesfireError.authentication_error
    else (if is_unknown (resolve_session_cipher context)
        then refuse (record command { session_cipher = resolve_session_cipher context })
            DesfireError.invalid_state
        else start_writing (record command {
          session_cipher = resolve_session_cipher context;
          legacy_des_crypto_mode = is_legacy_des_or_2k_session context;
        }))

abbrev pub clear_session : WriteDataCommand → WriteDataCommand
clear_session command = record command {
  session_cipher = unknown;
  pending_iv = [];
  update_context_iv = false;
  legacy_des_crypto_mode = false;
}

abbrev pub open_with : DesfireContext → ℕ → WriteDataCommand → Result (Unit {0}) × WriteDataCommand
open_with context settings command =
    if settings == 0x01
    then refuse command DesfireError.invalid_state
    else (if settings == 0x03
        then open_session context (clear_session command)
        else start_writing (clear_session command))

-- The body behind `stage == Stage::Initial`.
unfoldable pub open_stage : DesfireContext → WriteDataCommand → Result (Unit {0}) × WriteDataCommand
unfolding validate_options resolve_communication_settings resolve_session_cipher is_unknown
    has_no_session is_legacy_des_or_2k_session
open_stage context command =
    let settings = resolve_communication_settings command.options.communication_settings context in
    if not (validate_options command.options)
    then refuse command DesfireError.parameter_error
    else open_with context settings (record command { active_settings = settings })

unfoldable pub crc_length : SessionCipher → Bool → ℕ
crc_length des legacy = 2
crc_length des3_2k legacy = if legacy then 2 else 4
crc_length _ legacy = 4

-- 252 bytes of request data less the header of 7.
abbrev pub aligned_ciphertext_length : SessionCipher → ℕ
aligned_ciphertext_length cipher = 245 / block_size cipher * block_size cipher

abbrev pub secure_plain_budget : SessionCipher → Bool → ℕ → ℕ
secure_plain_budget cipher legacy requested =
    if leb (aligned_ciphertext_length cipher) (crc_length cipher legacy)
    then 0
    else (if ltb (aligned_ciphertext_length cipher - crc_length cipher legacy) requested
        then aligned_ciphertext_length cipher - crc_length cipher legacy
        else requested)

unfoldable pub effective_plain_chunk_budget : WriteDataCommand → ℕ
unfolding effective_chunk_size block_size is_unknown crc_length
effective_plain_chunk_budget command =
    if not (command.active_settings == 0x03)
    then effective_chunk_size command.options.chunk_size
    else (if is_unknown command.session_cipher
        then 0
        else secure_plain_budget command.session_cipher command.legacy_des_crypto_mode
            (effective_chunk_size command.options.chunk_size))

-- fileNo, the offset and the length.
abbrev pub chunk_header : WriteDataCommand → ℕ → List ℕ
chunk_header command chunk_length =
    command.options.file_no ∷ (le24 command.current_offset ++ le24 chunk_length)

abbrev pub request_of :
    WriteDataCommand → ℕ → Result (List ℕ) → Result DesfireRequest × WriteDataCommand
request_of command chunk_length (ok request_data) = (
  ok (record {
    command_code = write_data_command_code;
    request_data = request_data;
    expected_response_length = 0;
  }),
  record command { last_chunk_length = chunk_length },
)
request_of command chunk_length (err e) = (err e, command)
request_of command chunk_length fault = (fault, command)

abbrev pub plain_chunk : List ℕ → ℕ → WriteDataCommand → Result DesfireRequest × WriteDataCommand
plain_chunk bytes chunk_length command =
    request_of (record command { update_context_iv = false; pending_iv = [] }) chunk_length
      (do
        chunk ← slice bytes command.current_index chunk_length
        push_all 252 (chunk_header command chunk_length) chunk)

-- `request.data` behind the test of its capacity.
abbrev pub enciphered_data : List ℕ → List ℕ → Result (List ℕ)
enciphered_data header payload =
    if ltb 252 (length header + length payload)
    then err (from_desfire DesfireError.length_error)
    else ok (header ++ payload)

abbrev pub enciphered_chunk :
    ℕ → WriteDataCommand → Result (List ℕ × List ℕ) → Result DesfireRequest × WriteDataCommand
enciphered_chunk chunk_length command (ok (payload, pending_iv)) =
    request_of (record command { pending_iv = pending_iv; update_context_iv = true }) chunk_length
      (enciphered_data (chunk_header command chunk_length) payload)
enciphered_chunk chunk_length command (err e) = (err e, command)
enciphered_chunk chunk_length command fault = (fault, command)

module _ (c : Ciphers) (context : DesfireContext) where
  abbrev pub build_chunk : List ℕ → ℕ → WriteDataCommand → Result DesfireRequest × WriteDataCommand
  build_chunk bytes chunk_length command =
      if command.active_settings == 0x03
      then enciphered_chunk chunk_length command (do
        chunk ← slice bytes command.current_index chunk_length
        build_encrypted_chunk_payload c context command.session_cipher
            command.legacy_des_crypto_mode
            (write_data_command_code ∷ chunk_header command chunk_length) chunk)
      else plain_chunk bytes chunk_length command

  abbrev pub build_bounded :
      List ℕ → ℕ → WriteDataCommand → Result DesfireRequest × WriteDataCommand
  build_bounded bytes chunk_cap command =
      let remaining = length bytes - command.current_index in
      if chunk_cap == 0
      then refuse command DesfireError.length_error
      else build_chunk bytes (if ltb remaining chunk_cap then remaining else chunk_cap) command

  -- The part of buildRequest behind the first stage.
  unfoldable pub build_next :
      Option (List ℕ) → WriteDataCommand → Result DesfireRequest × WriteDataCommand
  unfolding build_encrypted_chunk_payload effective_plain_chunk_budget le24
  build_next none command = refuse (record command { stage = completed }) DesfireError.invalid_state
  build_next (some bytes) command =
      if leb (length bytes) command.current_index
      then refuse (record command { stage = completed }) DesfireError.invalid_state
      else build_bounded bytes (effective_plain_chunk_budget command) command

  abbrev pub build_opened :
      Result (Unit {0}) × WriteDataCommand → Result DesfireRequest × WriteDataCommand
  build_opened (ok done, command) = build_next command.options.bytes command
  build_opened (err e, command) = (err e, command)
  build_opened (fault, command) = (fault, command)

  abbrev pub build_staged : Stage → WriteDataCommand → Result DesfireRequest × WriteDataCommand
  build_staged initial command = build_opened (open_stage context command)
  build_staged writing command = build_next command.options.bytes command
  build_staged completed command = refuse command DesfireError.invalid_state

-- What parseResponse makes of the chunk that the card has taken.
abbrev pub advance : WriteDataCommand → ℕ → WriteDataCommand
advance command total = record command {
  current_index = command.current_index + command.last_chunk_length;
  current_offset = command.current_offset + command.last_chunk_length;
  last_chunk_length = 0;
  stage =
      if leb total (command.current_index + command.last_chunk_length) then completed else writing;
}

unfoldable pub take_progress :
    WriteDataCommand
    → DesfireResult
    → Option (List ℕ)
    → DesfireContext
    → Result DesfireResult × WriteDataCommand × DesfireContext
take_progress command result none context =
    (err (from_desfire DesfireError.invalid_state), command, context)
take_progress command result (some bytes) context =
    if (command.last_chunk_length == 0)
      || ltb (length bytes) (command.current_index + command.last_chunk_length)
    then (err (from_desfire DesfireError.invalid_state), command, context)
    else (ok result, advance command (length bytes), context)

abbrev pub progress_after :
    WriteDataCommand
    → DesfireResult
    → Outcome (Unit {0})
    → Result DesfireResult × WriteDataCommand × DesfireContext
progress_after command result (ok done, context) =
    take_progress command result command.options.bytes context
progress_after command result (err e, context) = (err e, command, context)
progress_after command result (fault, context) = (fault, command, context)

module _ (c : Ciphers) where
  abbrev pub response_update : WriteDataCommand → List ℕ → DesfireContext → Outcome (Unit {0})
  response_update command response context =
      if command.update_context_iv && (command.active_settings == 0x03)
      then update_context_iv_for_value_operation_response c context response command.pending_iv
      else (ok tt, context)

  -- The status, and the data of at most 256 bytes.
  unfoldable pub parse_writing :
      WriteDataCommand
      → List ℕ
      → DesfireContext
      → Result DesfireResult × WriteDataCommand × DesfireContext
  unfolding take_progress
  parse_writing command [] context =
      (err (from_desfire DesfireError.invalid_response), command, context)
  parse_writing command (status ∷ rest) context =
      if not (status == 0x00)
      then (err (from_desfire status), command, context)
      else (if ltb 256 (length rest)
          then (err (from_desfire DesfireError.length_error), command, context)
          else progress_after command (record { status_code = status; result_data = rest })
              (response_update command (status ∷ rest) context))

  abbrev pub parse_staged :
      Stage
      → WriteDataCommand
      → List ℕ
      → DesfireContext
      → Result DesfireResult × WriteDataCommand × DesfireContext
  parse_staged writing command response context = parse_writing command response context
  parse_staged initial command response context =
      (err (from_desfire DesfireError.invalid_state), command, context)
  parse_staged completed command response context =
      (err (from_desfire DesfireError.invalid_state), command, context)

  abbrev pub is_completed : Stage → Bool
  is_completed completed = true
  is_completed initial = false
  is_completed writing = false

  abbrev pub reset : WriteDataCommand → WriteDataCommand
  reset command = record (reset_progress (clear_session command)) {
    stage = initial;
    active_settings = 0x00;
  }

  abbrev pub write_data : IDesfireCommand
  write_data = record {
    State = WriteDataCommand;
    build_request = λ command context. build_staged c context command.stage command;
    parse_response =
        λ command response context. parse_staged command.stage command response context;
    is_complete = λ command. is_completed command.stage;
    reset = reset;
  }
