-- ===== src/Desfire/Command/Commit.antt =====
-- Src/Nfc/Desfire/Commands/CommitTransactionCommand.cpp.
use nfc_cpp.Base.{ℕ, Bool, true, false, List, [], ◌∷◌, if◌then◌else◌, Result, ok, err}
use nfc_cpp.Base.{from_desfire}
use nfc_cpp.Base.Codes.DesfireError
use nfc_cpp.Crypto.Ciphers.{Ciphers}
use nfc_cpp.Desfire.Context.{DesfireContext}
use nfc_cpp.Desfire.Policy.{Outcome, update_context_iv_for_plain_command}
use nfc_cpp.Desfire.Command.{DesfireRequest, DesfireResult, is_success, IDesfireCommand}
use nfc_cpp.Desfire.Command.{read_result, parse_one_answer}

pub record CommitTransactionCommand : Type 0 where
  pub complete : Bool

abbrev pub commit_transaction_command_code : ℕ
commit_transaction_command_code = 0xC7

abbrev pub build_request :
    CommitTransactionCommand → DesfireContext → Result DesfireRequest × CommitTransactionCommand
build_request command context =
    if command.complete then (err (from_desfire DesfireError.invalid_state), command) else (
      ok (record {
        command_code = commit_transaction_command_code;
        request_data = [];
        expected_response_length = 0;
      }),
      command,
    )

module _ (c : Ciphers) where
  abbrev pub commit_update : DesfireContext → List ℕ → DesfireResult → Outcome (Unit {0})
  commit_update context response result =
      if is_success result
      then update_context_iv_for_plain_command c context (commit_transaction_command_code ∷ [])
          response 8
      else (ok tt, context)

  abbrev pub parse_response :
      CommitTransactionCommand
      → List ℕ
      → DesfireContext
      → Result DesfireResult × CommitTransactionCommand × DesfireContext
  parse_response command response context =
      parse_one_answer command (record command { complete = true }) context
        (commit_update context response) (read_result response)

  abbrev pub commit_transaction : IDesfireCommand
  commit_transaction = record {
    State = CommitTransactionCommand;
    build_request = build_request;
    parse_response = parse_response;
    is_complete = λ command. command.complete;
    reset = λ command. record command { complete = false };
  }
