-- ===== src/Desfire/Card/Selection.antt =====
-- DesfireCard::selectApplication, over any wire and any card.
use nfc_cpp.Base.{
  ℕ, suc, ◌≤◌, ◌≡◌, refl, arith, true, false, ◌==◌, List, [], ◌∷◌, length, replicate, if◌then◌else◌,
  some, ap, ◌∙◌, Result, ok, err, fault, from_desfire,
}
use nfc_cpp.Base.Codes.DesfireError
use nfc_cpp.Wire.{WireKind, wrap}
use nfc_cpp.Desfire.Context.{DesfireContext, CommMode, SessionAuthScheme}
use nfc_cpp.Desfire.Command.{is_success, read_result}
use nfc_cpp.Desfire.Command.Read.{read_result_fits}
use nfc_cpp.Desfire.Command.Select.{
  SelectApplicationCommand, select_application, selection_update, enter_application,
}
use nfc_cpp.Desfire.Card.{IApduTransceiver, Run, execute_command}
use nfc_cpp.Desfire.Card.{check_status}
use nfc_cpp.Base.Steps.{after}
use nfc_cpp.Desfire.Card.Round.{conclude, execute_round-after}
use nfc_cpp.Desfire.Card.OneFrame.{
  parse_one_answer_completes, IsOneFrame, execute_command-execute_round,
}

pub select_application-IsOneFrame : IsOneFrame select_application
select_application-IsOneFrame = record {
  starts = λ s. refl;
  ends = λ s response context.
      parse_one_answer_completes s (record s { complete = true }) context
        (selection_update s context) (λ s. s.complete ≡ true) refl (read_result response);
}

-- What becomes of a selection, by the card's answer.
unfoldable pub selection_outcome :
    DesfireContext → List ℕ → Result (List ℕ) → Result (Unit {0}) × DesfireContext
selection_outcome context aid fault = (fault, context)
selection_outcome context aid (err e) = (err e, context)
selection_outcome context aid (ok []) = (err (from_desfire DesfireError.invalid_response), context)
selection_outcome context aid (ok (status ∷ bytes)) =
    if status == 0x00
    then (
      ok tt,
      record context {
        selected_aid = aid;
        authenticated = false;
        comm_mode = CommMode.plain;
        auth_scheme = SessionAuthScheme.none;
        key_no = 0;
        session_key_enc = [];
        session_key_mac = [];
        iv = replicate 8 0x00;
        session_enc_rnd_b = [];
      },
    )
    else (if status == 0xAF then (ok tt, context) else (err (from_desfire status), context))

module _ (wire : WireKind) (t : IApduTransceiver) where
  open t use {Link, transceive}

  abbrev Ending : Type 0
  Ending = Result (Unit {0}) × Run SelectApplicationCommand Link

  -- What a run says to its caller, with the context that it leaves.
  abbrev reported : Ending → Result (Unit {0}) × DesfireContext
  reported end = (end.0, end.1.context)

  conclude-outcome :
      (answer : Result (List ℕ)) (run : Run SelectApplicationCommand Link)
      → ((bytes : List ℕ) → answer ≡ ok bytes → length bytes ≤ 257)
      → reported (after (answer, run) (conclude wire t select_application))
        ≡ selection_outcome run.context run.command.aid answer
  unfolding selection_outcome check_status is_success read_result enter_application
  conclude-outcome fault run short = refl
  conclude-outcome (err e) run short = refl
  conclude-outcome (ok []) run short = refl
  conclude-outcome (ok (status ∷ bytes)) run short =
      let fits : length bytes ≤ 256 = omega (arith, short (status ∷ bytes) refl) in
      rw (read_result_fits status bytes fits) (ground arith)

  -- The answer to SelectApplication for a 3-byte AID that was wrapped and sent, any error or at
  -- most 257 bytes, decides what executeCommand reports and the context that it leaves: the
  -- application is entered and the session is dropped on status 0x00 alone, status 0xAF is
  -- reported as success with the context as it was, and any other answer is an error that changes
  -- nothing.
  pub select_application-outcome :
      (n : ℕ) (command : SelectApplicationCommand) (context : DesfireContext) (apdu : List ℕ)
      (link next : Link) (answer : Result (List ℕ))
      → wrap wire (0x5A ∷ command.aid) ≡ ok apdu
      → length command.aid ≡ 3
      → transceive link apdu ≡ (answer, next)
      → ((bytes : List ℕ) → answer ≡ ok bytes → length bytes ≤ 257)
      → (end : Ending) × (execute_command wire t select_application
            (suc (suc n))
            command
            link
            context
          ≡ some end)
        × (reported end ≡ selection_outcome context command.aid answer)
  select_application-outcome n command context apdu link next answer wraps three sends short =
      let start : Run SelectApplicationCommand Link = record {
        command = record command { complete = false };
        link = link;
        context = context;
      } in
      (
        _,
        execute_command-execute_round wire t select_application select_application-IsOneFrame n
            command link context,
        ap reported (
              execute_round-after wire t select_application start start.command _ apdu answer next
                refl (omega arith) wraps sends)
            ∙ conclude-outcome answer (record start { link = next }) short,
      )
