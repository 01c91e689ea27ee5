-- ===== src/Desfire/Command/Select.antt =====
-- Src/Nfc/Desfire/Commands/SelectApplicationCommand.cpp.
use nfc_cpp.Base.{ℕ, Bool, true, false, List, [], replicate, if◌then◌else◌, Result, ok}
use nfc_cpp.Desfire.Context.{DesfireContext, CommMode, SessionAuthScheme}
use nfc_cpp.Desfire.Policy.{Outcome}
use nfc_cpp.Desfire.Command.{DesfireRequest, DesfireResult, is_success, IDesfireCommand}
use nfc_cpp.Desfire.Command.{read_result, parse_one_answer}

pub record SelectApplicationCommand : Type 0 where
  pub aid : List ℕ
  pub complete : Bool

-- What a successful selection writes into the context.
unfoldable pub enter_application : DesfireContext → List ℕ → DesfireContext
enter_application context aid = record context {
  selected_aid = aid;
  authenticated = false;
  comm_mode = CommMode.plain;
  auth_scheme = SessionAuthScheme.none;
  key_no = 0;
  session_key_enc = [];
  session_key_mac = [];
  iv = replicate 8 0x00;
  session_enc_rnd_b = [];
}

abbrev pub build_request :
    SelectApplicationCommand → DesfireContext → Result DesfireRequest × SelectApplicationCommand
build_request command context = (
  ok (record { command_code = 0x5A; request_data = command.aid; expected_response_length = 0 }),
  command,
)

abbrev pub selection_update :
    SelectApplicationCommand → DesfireContext → DesfireResult → Outcome (Unit {0})
selection_update command context result =
    (ok tt, if is_success result then enter_application context command.aid else context)

abbrev pub parse_response :
    SelectApplicationCommand
    → List ℕ
    → DesfireContext
    → Result DesfireResult × SelectApplicationCommand × DesfireContext
parse_response command response context =
    parse_one_answer command (record command { complete = true }) context
      (selection_update command context) (read_result response)

abbrev pub select_application : IDesfireCommand
select_application = record {
  State = SelectApplicationCommand;
  build_request = build_request;
  parse_response = parse_response;
  is_complete = λ command. command.complete;
  reset = λ command. record command { complete = false };
}
