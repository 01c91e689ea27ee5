-- ===== src/Desfire/Command/ValueMutation.antt =====
-- Include/Nfc/Desfire/Commands/ValueMutationCommandUtils.h with CreditCommand, DebitCommand and
-- LimitedCreditCommand, which differ in their command code alone. `value` is the `int32_t` as its
-- 32 bits, so that it is negative from 2^31 on.
use nfc_cpp.Base.{ℕ, ◌^◌, Bool, true, false, not, ◌&&◌, ◌||◌, ◌==◌, ltb, leb, List, [], ◌∷◌}
use nfc_cpp.Base.{if◌then◌else◌, Result, ok, err, fault, from_desfire}
use nfc_cpp.Base.Codes.DesfireError
use nfc_cpp.Crypto.Ciphers.{Ciphers}
use nfc_cpp.Crypto.Words.{le32}
use nfc_cpp.Desfire.Context.{DesfireContext}
use nfc_cpp.Desfire.ValuePayload.{protect_value_operation_request}
use nfc_cpp.Desfire.Policy.{Outcome, update_context_iv_for_value_operation_response}
use nfc_cpp.Desfire.Command.{DesfireRequest, DesfireResult, is_success, IDesfireCommand}
use nfc_cpp.Desfire.Command.{read_result, parse_one_answer}

-- CreditCommandOptions, DebitCommandOptions and LimitedCreditCommandOptions.
pub record ValueOptions : Type 0 where
  pub file_no : ℕ
  pub value : ℕ
  pub communication_settings : ℕ

pub record ValueCommand : Type 0 where
  pub options : ValueOptions
  pub complete : Bool
  pub update_context_iv : Bool
  pub request_state : List ℕ

unfoldable pub validate_options : ValueOptions → Bool
validate_options options =
    if ltb 0x1F options.file_no
    then false
    else (if leb (2 ^ 31) options.value
        then false
        else (options.communication_settings == 0x00)
          || (options.communication_settings == 0x01)
          || (options.communication_settings == 0x03)
          || (options.communication_settings == 0xFF))

unfoldable pub resolve_communication_settings : ValueOptions → DesfireContext → ℕ
resolve_communication_settings options context =
    if not (options.communication_settings == 0xFF)
    then options.communication_settings
    else (if context.authenticated then 0x03 else 0x00)

-- The request behind protectValueOperationRequest.
unfoldable pub enciphered_request :
    ℕ → ValueCommand → Result (List ℕ × List ℕ) → Result DesfireRequest × ValueCommand
enciphered_request command_code command (err e) = (err e, command)
enciphered_request command_code command fault = (fault, command)
enciphered_request command_code command (ok (payload, pending_iv)) = (
  ok (record {
    command_code = command_code;
    request_data = command.options.file_no ∷ payload;
    expected_response_length = 0;
  }),
  record command { request_state = pending_iv; update_context_iv = true },
)

unfoldable pub plain_request : ℕ → ValueCommand → Result DesfireRequest × ValueCommand
unfolding le32
plain_request command_code command = (
  ok (record {
    command_code = command_code;
    request_data = command.options.file_no ∷ le32 command.options.value;
    expected_response_length = 0;
  }),
  record command { update_context_iv = false; request_state = [] },
)

module _ (c : Ciphers) (command_code : ℕ) where
  -- value_mutation_detail::buildRequest
  unfoldable pub build_value_request :
      ValueCommand → DesfireContext → Result DesfireRequest × ValueCommand
  unfolding enciphered_request plain_request resolve_communication_settings
  build_value_request command context =
      let settings = resolve_communication_settings command.options context in
      if settings == 0x03
      then enciphered_request command_code command (
          protect_value_operation_request c context command_code command.options.file_no
            command.options.value)
      else (if settings == 0x01
          then (err (from_desfire DesfireError.invalid_state), command)
          else plain_request command_code command)

  abbrev pub build_request : ValueCommand → DesfireContext → Result DesfireRequest × ValueCommand
  build_request command context =
      if command.complete
      then (err (from_desfire DesfireError.invalid_state), command)
      else (if not (validate_options command.options)
          then (err (from_desfire DesfireError.parameter_error), command)
          else build_value_request command context)

  abbrev pub value_update :
      ValueCommand → DesfireContext → List ℕ → DesfireResult → Outcome (Unit {0})
  value_update command context response result =
      if is_success result && command.update_context_iv
      then update_context_iv_for_value_operation_response c context response command.request_state
      else (ok tt, context)

  -- value_mutation_detail::parseResponse, and `complete = true` behind it.
  abbrev pub parse_response :
      ValueCommand → List ℕ → DesfireContext → Result DesfireResult × ValueCommand × DesfireContext
  parse_response command response context =
      parse_one_answer command (record command { complete = true }) context
        (value_update command context response) (read_result response)

  abbrev pub value_command : IDesfireCommand
  value_command = record {
    State = ValueCommand;
    build_request = build_request;
    parse_response = parse_response;
    is_complete = λ command. command.complete;
    reset = λ command. record command {
      complete = false;
      update_context_iv = false;
      request_state = [];
    };
  }

abbrev pub credit : Ciphers → IDesfireCommand
credit c = value_command c 0x0C

abbrev pub debit : Ciphers → IDesfireCommand
debit c = value_command c 0xDC

abbrev pub limited_credit : Ciphers → IDesfireCommand
limited_credit c = value_command c 0x1C
