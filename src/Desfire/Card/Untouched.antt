-- ===== src/Desfire/Card/Untouched.antt =====
-- Commands whose parseResponse leaves the context alone, run on a card.
use nfc_cpp.Base.{ℕ, suc, ◌≡◌, refl, true, List, some, Result, ok, err, fault}
use nfc_cpp.Base.Steps.{Step, after, lift}
use nfc_cpp.Wire.{WireKind, wrap}
use nfc_cpp.Desfire.Context.{DesfireContext}
use nfc_cpp.Desfire.Command.{IDesfireCommand, DesfireResult, read_result, parse_one_answer}
use nfc_cpp.Desfire.Command.Application.{
  CreateApplicationCommand, DeleteApplicationCommand, create_application, delete_application,
  no_update,
}
use nfc_cpp.Desfire.Card.{IApduTransceiver, Run, request_pdu, check_status}
use nfc_cpp.Desfire.Card.{execute_round, execute_command}
use nfc_cpp.Desfire.Card.OneFrame.{
  IsOneFrame, parse_one_answer_completes, execute_command-execute_round,
}

module _ (wire : WireKind) (t : IApduTransceiver) (c : IDesfireCommand) (context : DesfireContext)
    (still : (s : c.State) (response : List ℕ)
      → (c.parse_response s response context).2 ≡ context) where
  abbrev at : c.State → t.Link → Run c.State t.Link
  at command link = record { command = command; link = link; context = context }

  after-still :
      {A : Type 0} (r : Result A) (command : c.State) (link : t.Link)
      (rest : A → Step (Run c.State t.Link) (Unit {0}))
      → ((a : A) → (rest a (at command link)).1.context ≡ context)
      → (after (r, at command link) rest).1.context ≡ context
  after-still (ok a) command link rest k = k a
  after-still (err e) command link rest k = refl
  after-still fault command link rest k = refl

  checked-still :
      (parsed : Result DesfireResult × c.State × DesfireContext) (link : t.Link)
      → parsed.2 ≡ context
      → (after {S = Run c.State t.Link}
          (parsed.0, record { command = parsed.1; link = link; context = parsed.2 })
          (λ result. lift (check_status result))).1.context
        ≡ context
  checked-still (ok result, command, context') link h = h
  checked-still (err e, command, context') link h = h
  checked-still (fault, command, context') link h = h

  execute_round-still :
      (command : c.State) (link : t.Link)
      → (execute_round wire t c (at command link)).1.context ≡ context
  unfolding execute_round
  execute_round-still command link =
      let (request, command1) = c.build_request command context in
      after-still request command1 link _ (λ request.
        after-still (request_pdu request) command1 link _ (λ pdu.
          after-still (wrap wire pdu) command1 link _ (λ apdu.
            let (answer, link1) = t.transceive link apdu in
            after-still answer command1 link1 _ (λ answer.
              checked-still (c.parse_response command1 answer context) link1
                (still command1 answer)))))

  execute_command-still :
      (n : ℕ) (command : c.State) (link : t.Link)
      → IsOneFrame c
      → (end : Result (Unit {0}) × Run c.State t.Link) × (execute_command wire t c
            (suc (suc n))
            command
            link
            context
          ≡ some end)
        × (end.1.context ≡ context)
  execute_command-still n command link one = (
    _,
    execute_command-execute_round wire t c one n command link context,
    execute_round-still (c.reset command) link,
  )

parse_one_answer-still :
    {S : Type 0} (command completed : S) (context : DesfireContext) (read : Result DesfireResult)
    → (parse_one_answer command completed context (no_update context) read).2 ≡ context
parse_one_answer-still command completed context (ok result) = refl
parse_one_answer-still command completed context (err e) = refl
parse_one_answer-still command completed context fault = refl

create_application-IsOneFrame : IsOneFrame create_application
create_application-IsOneFrame = record {
  starts = λ s. refl;
  ends = λ s response context.
      parse_one_answer_completes s (record s { complete = true }) context (no_update context)
        (λ s. s.complete ≡ true) refl (read_result response);
}

delete_application-IsOneFrame : IsOneFrame delete_application
delete_application-IsOneFrame = record {
  starts = λ s. refl;
  ends = λ s response context.
      parse_one_answer_completes s (record s { complete = true }) context (no_update context)
        (λ s. s.complete ≡ true) refl (read_result response);
}

module _ (wire : WireKind) (t : IApduTransceiver) (n : ℕ) (link : t.Link)
    (context : DesfireContext) where
  -- CreateApplication and DeleteApplication, run with any card, end after one round and leave
  -- every field of the session as it was, the IV of an authenticated session included.
  pub application_commands-still :
      (create : CreateApplicationCommand) (delete : DeleteApplicationCommand)
      → ((end : Result (Unit {0}) × Run CreateApplicationCommand t.Link) × (execute_command wire t
              create_application
              (suc (suc n))
              create
              link
              context
            ≡ some end)
          × (end.1.context ≡ context))
        × ((end : Result (Unit {0}) × Run DeleteApplicationCommand t.Link) × (execute_command wire t
                delete_application
                (suc (suc n))
                delete
                link
                context
              ≡ some end)
            × (end.1.context ≡ context))
  application_commands-still create delete = (
    execute_command-still wire t create_application context
        (λ s response.
          parse_one_answer-still s (record s { complete = true }) context (read_result response))
        n create link create_application-IsOneFrame,
    execute_command-still wire t delete_application context
        (λ s response.
          parse_one_answer-still s (record s { complete = true }) context (read_result response))
        n delete link delete_application-IsOneFrame,
  )
