-- ===== src/Desfire/Command/DataFile.antt =====
-- Src/Nfc/Desfire/Commands/CreateStdDataFileCommand.cpp and CreateBackupDataFileCommand.cpp, which
-- differ in the command code alone, with their part of CreateFileCommandUtils.h.
pub mod Layout
use nfc_cpp.Base.{
  ℕ, ◌+◌, ◌*◌, ◌%◌, Bool, true, false, not, ◌&&◌, ◌||◌, ltb, leb, ◌==◌, List, [], ◌∷◌, ◌++◌,
  if◌then◌else◌,
}
use nfc_cpp.Base.{Option, none, some, Result, ok, err, from_desfire}
use nfc_cpp.Base.Codes.DesfireError
use nfc_cpp.Crypto.Words.{le24}
use nfc_cpp.Desfire.Context.{DesfireContext}
use nfc_cpp.Desfire.Policy.{Outcome}
use nfc_cpp.Desfire.Command.{DesfireRequest, DesfireResult, IDesfireCommand}
use nfc_cpp.Desfire.Command.{read_result, parse_one_answer}

pub record DataFileOptions : Type 0 where
  pub file_no : ℕ
  pub communication_settings : ℕ
  pub read_access : ℕ
  pub write_access : ℕ
  pub read_write_access : ℕ
  pub change_access : ℕ
  pub file_size : ℕ

pub record CreateDataFileCommand : Type 0 where
  pub options : DataFileOptions
  pub complete : Bool

abbrev pub create_std_data_file_command_code : ℕ
create_std_data_file_command_code = 0xCD

abbrev pub create_backup_data_file_command_code : ℕ
create_backup_data_file_command_code = 0xCB

unfoldable pub validate_common_options : DataFileOptions → Bool
validate_common_options options =
    if ltb 0x1F options.file_no
    then false
    else (if not (options.communication_settings == 0x00)
          && (not (options.communication_settings == 0x01)
              && not (options.communication_settings == 0x03))
        then false
        else not (
            ltb 0x0F options.read_access
            || (ltb 0x0F options.write_access
                || (ltb 0x0F options.read_write_access || ltb 0x0F options.change_access))))

unfoldable pub validate_data_file_options : DataFileOptions → Bool
unfolding validate_common_options
validate_data_file_options options =
    if not (validate_common_options options)
    then false
    else not (options.file_size == 0) && leb options.file_size 0xFFFFFF

-- The low and the high byte. Their halves do not overlap, so that `|` adds them.
unfoldable pub build_access_rights_bytes : DataFileOptions → Option (ℕ × ℕ)
unfolding validate_common_options
build_access_rights_bytes options =
    if not (validate_common_options options)
    then none
    else some (
      options.read_write_access % 16 * 16 + options.change_access % 16,
      options.read_access % 16 * 16 + options.write_access % 16,
    )

module _ (command_code : ℕ) where
  abbrev pub build_create_data_file_request : DataFileOptions → ℕ → ℕ → DesfireRequest
  build_create_data_file_request options access_low access_high = record {
    command_code = command_code;
    request_data =
        options.file_no
        ∷ options.communication_settings
        ∷ access_low
        ∷ access_high
        ∷ le24 options.file_size;
    expected_response_length = 0;
  }

  abbrev with_access : DataFileOptions → Option (ℕ × ℕ) → Result DesfireRequest
  with_access options none = err (from_desfire DesfireError.parameter_error)
  with_access options (some (access_low, access_high)) =
      ok (build_create_data_file_request options access_low access_high)

  unfoldable pub build_request :
      CreateDataFileCommand → DesfireContext → Result DesfireRequest × CreateDataFileCommand
  unfolding validate_data_file_options build_access_rights_bytes
  build_request command context = (
    (if command.complete
        then err (from_desfire DesfireError.invalid_state)
        else (if not (validate_data_file_options command.options)
            then err (from_desfire DesfireError.parameter_error)
            else with_access command.options (build_access_rights_bytes command.options))),
    command,
  )

  abbrev pub parse_response :
      CreateDataFileCommand
      → List ℕ
      → DesfireContext
      → Result DesfireResult × CreateDataFileCommand × DesfireContext
  parse_response command response context =
      parse_one_answer command (record command { complete = true }) context
        (λ result. (ok tt, context)) (read_result response)

  abbrev pub create_data_file : IDesfireCommand
  create_data_file = record {
    State = CreateDataFileCommand;
    build_request = build_request;
    parse_response = parse_response;
    is_complete = λ command. command.complete;
    reset = λ command. record command { complete = false };
  }

abbrev pub create_std_data_file : IDesfireCommand
create_std_data_file = create_data_file create_std_data_file_command_code

abbrev pub create_backup_data_file : IDesfireCommand
create_backup_data_file = create_data_file create_backup_data_file_command_code
