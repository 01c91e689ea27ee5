-- ===== src/Desfire/Command/Application.antt =====
-- Src/Nfc/Desfire/Commands/CreateApplicationCommand.cpp, DeleteApplicationCommand.cpp and
-- FormatPiccCommand.cpp, with Include/Nfc/Desfire/DesfireKeyType.h.
pub mod KeySettings
use nfc_cpp.Base.{ℕ, Bool, true, false, ◌||◌, ltb, ◌==◌, bit_and, bit_or, List, [], ◌∷◌, ◌++◌}
use nfc_cpp.Base.{if◌then◌else◌, Option, none, some, Result, ok, err, from_desfire}
use nfc_cpp.Base.Codes.DesfireError
use nfc_cpp.Crypto.Ciphers.{Ciphers}
use nfc_cpp.Desfire.Context.{DesfireContext}
use nfc_cpp.Desfire.Policy.{Outcome, update_context_iv_for_plain_command}
use nfc_cpp.Desfire.Command.{DesfireRequest, DesfireResult, is_success, IDesfireCommand}
use nfc_cpp.Desfire.Command.{read_result, parse_one_answer}

pub data DesfireKeyType : Type 0 where
  aes des des3_2k des3_3k unknown : DesfireKeyType

pub record CreateApplicationOptions : Type 0 where
  pub aid : List ℕ
  pub key_settings1 : ℕ
  pub key_count : ℕ
  pub key_type : DesfireKeyType

pub record CreateApplicationCommand : Type 0 where
  pub options : CreateApplicationOptions
  pub complete : Bool

pub record DeleteApplicationCommand : Type 0 where
  pub aid : List ℕ
  pub complete : Bool

pub record FormatPiccCommand : Type 0 where
  pub complete : Bool

unfoldable pub key_type_bits : DesfireKeyType → Option ℕ
key_type_bits des = some 0x00
key_type_bits des3_2k = some 0x00
key_type_bits des3_3k = some 0x40
key_type_bits aes = some 0x80
key_type_bits unknown = none

abbrev with_key_count : ℕ → Option ℕ → Option ℕ
with_key_count key_count none = none
with_key_count key_count (some bits) = some (bit_or (bit_and key_count 0x0F) bits)

unfoldable pub encode_key_settings2 : CreateApplicationOptions → Option ℕ
unfolding key_type_bits
encode_key_settings2 options =
    if (options.key_count == 0) || ltb 14 options.key_count
    then none
    else with_key_count options.key_count (key_type_bits options.key_type)

abbrev pub create_application_request : CreateApplicationOptions → Option ℕ → Result DesfireRequest
create_application_request options none = err (from_desfire DesfireError.parameter_error)
create_application_request options (some key_settings2) = ok (record {
  command_code = 0xCA;
  request_data = options.aid ++ (options.key_settings1 ∷ key_settings2 ∷ []);
  expected_response_length = 0;
})

unfoldable pub build_create_application :
    CreateApplicationCommand → DesfireContext → Result DesfireRequest × CreateApplicationCommand
unfolding encode_key_settings2
build_create_application command context =
    if command.complete then (err (from_desfire DesfireError.invalid_state), command) else (
      create_application_request command.options (encode_key_settings2 command.options),
      command,
    )

-- CreateApplication and DeleteApplication do not touch the context.
abbrev pub no_update : DesfireContext → DesfireResult → Outcome (Unit {0})
no_update context result = (ok tt, context)

abbrev pub create_application : IDesfireCommand
create_application = record {
  State = CreateApplicationCommand;
  build_request = build_create_application;
  parse_response = λ command response context.
      parse_one_answer command (record command { complete = true }) context (no_update context)
        (read_result response);
  is_complete = λ command. command.complete;
  reset = λ command. record command { complete = false };
}

unfoldable pub build_delete_application :
    DeleteApplicationCommand → DesfireContext → Result DesfireRequest × DeleteApplicationCommand
build_delete_application command context =
    if command.complete then (err (from_desfire DesfireError.invalid_state), command) else (
      ok (record { command_code = 0xDA; request_data = command.aid; expected_response_length = 0 }),
      command,
    )

abbrev pub delete_application : IDesfireCommand
delete_application = record {
  State = DeleteApplicationCommand;
  build_request = build_delete_application;
  parse_response = λ command response context.
      parse_one_answer command (record command { complete = true }) context (no_update context)
        (read_result response);
  is_complete = λ command. command.complete;
  reset = λ command. record command { complete = false };
}

unfoldable pub build_format_picc :
    FormatPiccCommand → DesfireContext → Result DesfireRequest × FormatPiccCommand
build_format_picc command context =
    if command.complete then (err (from_desfire DesfireError.invalid_state), command) else (
      ok (record { command_code = 0xFC; request_data = []; expected_response_length = 0 }),
      command,
    )

module _ (c : Ciphers) where
  abbrev pub format_update : DesfireContext → List ℕ → DesfireResult → Outcome (Unit {0})
  format_update context response result =
      if is_success result
      then update_context_iv_for_plain_command c context (0xFC ∷ []) response 8
      else (ok tt, context)

  abbrev pub format_picc : IDesfireCommand
  format_picc = record {
    State = FormatPiccCommand;
    build_request = build_format_picc;
    parse_response = λ command response context.
        parse_one_answer command (record command { complete = true }) context
          (format_update context response) (read_result response);
    is_complete = λ command. command.complete;
    reset = λ command. record command { complete = false };
  }
