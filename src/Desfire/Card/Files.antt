-- ===== src/Desfire/Card/Files.antt =====
-- DeleteFile and ClearRecordFile, run on a card.
use nfc_cpp.Base.{
  ℕ, suc, ◌<◌, ◌≡◌, refl, ◌∙◌, true, false, lt→ltb, List, [], ◌∷◌, some, Result, err,
}
use nfc_cpp.Base.{from_desfire}
use nfc_cpp.Base.Codes.DesfireError
use nfc_cpp.Crypto.Ciphers.{Ciphers}
use nfc_cpp.Wire.{WireKind}
use nfc_cpp.Desfire.Context.{DesfireContext}
use nfc_cpp.Desfire.Policy.Frame.{IsFramed, update_context_iv_for_plain_command-IsFramed}
use nfc_cpp.Desfire.Command.{is_success, read_result}
use nfc_cpp.Desfire.Command.File.{FileCommand, file_command, file_update, build_request}
use nfc_cpp.Desfire.Card.{IApduTransceiver, Run, execute_command, execute_round}
use nfc_cpp.Desfire.Card.OneFrame.{
  IsOneFrame, parse_one_answer_completes, execute_command-execute_round,
}
use nfc_cpp.Desfire.Card.Framed.{IsCareful, parse_one_answer-IsMild, execute_command-IsFramed}
use nfc_cpp.Desfire.Card.Session.{guarded-IsCareful}

module _ (c : Ciphers) (command_code : ℕ) where
  file_command-IsOneFrame : IsOneFrame (file_command command_code c)
  file_command-IsOneFrame = record {
    starts = λ s. refl;
    ends = λ s response context.
        parse_one_answer_completes s (record s { complete = true }) context
          (file_update command_code c s context response) (λ s. s.complete ≡ true) refl
          (read_result response);
  }

  file_update-IsCareful :
      (s : FileCommand) (context : DesfireContext) (response : List ℕ)
      → IsCareful context (file_update command_code c s context response)
  file_update-IsCareful s context response =
      guarded-IsCareful context is_success _ (λ result failure. failure)
        (update_context_iv_for_plain_command-IsFramed c context (command_code ∷ s.file_no ∷ [])
          response 8)

  module _ (wire : WireKind) (t : IApduTransceiver) where
    -- DeleteFile and ClearRecordFile, run with any card, end after one round: at most the IV of
    -- the session changes, and an error changes nothing.
    pub file_command-IsFramed :
        (n : ℕ) (command : FileCommand) (link : t.Link) (context : DesfireContext)
        → (end : Result (Unit {0}) × Run FileCommand t.Link) × (execute_command wire t
              (file_command command_code c)
              (suc (suc n))
              command
              link
              context
            ≡ some end)
          × IsFramed context (end.0, end.1.context)
    file_command-IsFramed n command link context =
        execute_command-IsFramed wire t (file_command command_code c) context
          (λ s response.
            parse_one_answer-IsMild s (record s { complete = true }) context
              (file_update command_code c s context response) (read_result response)
              (file_update-IsCareful s context response))
          n command link file_command-IsOneFrame

    -- DeleteFile and ClearRecordFile refuse a file number above 0x1F with ParameterError: nothing
    -- is sent, so the link to the card is as it was, and so is the session.
    pub file_command_refused :
        (n : ℕ) (command : FileCommand) (link : t.Link) (context : DesfireContext)
        → 0x1F < command.file_no
        → execute_command wire t (file_command command_code c) (suc (suc n)) command link context
          ≡ some (
            err (from_desfire DesfireError.parameter_error),
            record {
              command = record { file_no = command.file_no; complete = false };
              link = link;
              context = context;
            },
          )
    unfolding execute_round build_request
    file_command_refused n command link context above =
        execute_command-execute_round wire t (file_command command_code c) file_command-IsOneFrame n
          command link context
        ∙ rw (lt→ltb 0x1F command.file_no above) refl
