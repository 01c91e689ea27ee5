-- ===== src/Desfire/Command/File.antt =====
-- Src/Nfc/Desfire/Commands/DeleteFileCommand.cpp and ClearRecordFileCommand.cpp, which differ in
-- the command code alone.
use nfc_cpp.Base.{ℕ, Bool, true, false, ltb, List, [], ◌∷◌, if◌then◌else◌, Result, ok, err}
use nfc_cpp.Base.{from_desfire}
use nfc_cpp.Base.Codes.DesfireError
use nfc_cpp.Crypto.Ciphers.{Ciphers}
use nfc_cpp.Desfire.Context.{DesfireContext}
use nfc_cpp.Desfire.Policy.{Outcome, update_context_iv_for_plain_command}
use nfc_cpp.Desfire.Command.{DesfireRequest, DesfireResult, is_success, IDesfireCommand}
use nfc_cpp.Desfire.Command.{read_result, parse_one_answer}

pub record FileCommand : Type 0 where
  pub file_no : ℕ
  pub complete : Bool

abbrev pub delete_file_command_code : ℕ
delete_file_command_code = 0xDF

abbrev pub clear_record_file_command_code : ℕ
clear_record_file_command_code = 0xEB

module _ (command_code : ℕ) where
  unfoldable pub build_request : FileCommand → DesfireContext → Result DesfireRequest × FileCommand
  build_request command context =
      if command.complete
      then (err (from_desfire DesfireError.invalid_state), command)
      else (if ltb 0x1F command.file_no
          then (err (from_desfire DesfireError.parameter_error), command)
          else (
            ok (record {
              command_code = command_code;
              request_data = command.file_no ∷ [];
              expected_response_length = 0;
            }),
            command,
          ))

  module _ (c : Ciphers) where
    abbrev pub file_update :
        FileCommand → DesfireContext → List ℕ → DesfireResult → Outcome (Unit {0})
    file_update command context response result =
        if is_success result
        then update_context_iv_for_plain_command c context (command_code ∷ command.file_no ∷ [])
            response 8
        else (ok tt, context)

    abbrev pub parse_response :
        FileCommand → List ℕ → DesfireContext → Result DesfireResult × FileCommand × DesfireContext
    parse_response command response context =
        parse_one_answer command (record command { complete = true }) context
          (file_update command context response) (read_result response)

    abbrev pub file_command : IDesfireCommand
    file_command = record {
      State = FileCommand;
      build_request = build_request;
      parse_response = parse_response;
      is_complete = λ command. command.complete;
      reset = λ command. record command { complete = false };
    }

abbrev pub delete_file : Ciphers → IDesfireCommand
delete_file c = file_command delete_file_command_code c

abbrev pub clear_record_file : Ciphers → IDesfireCommand
clear_record_file c = file_command clear_record_file_command_code c
