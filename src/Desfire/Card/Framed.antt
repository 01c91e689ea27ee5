-- ===== src/Desfire/Card/Framed.antt =====
-- What the commands that update the IV leave of the session, run on a card.
use nfc_cpp.Base.{
  ℕ, suc, ◌≡◌, refl, sym, subst, false, List, some, Result, ok, err, fault, inl, inr, Bool-cases,
}
use nfc_cpp.Base.Steps.{Step, after, lift}
use nfc_cpp.Wire.{WireKind, wrap}
use nfc_cpp.Desfire.Context.{DesfireContext}
use nfc_cpp.Desfire.Policy.{Outcome}
use nfc_cpp.Desfire.Policy.Frame.{IsFramed, kept}
use nfc_cpp.Desfire.Command.{IDesfireCommand, DesfireResult, is_success, finish, parse_one_answer}
use nfc_cpp.Desfire.Card.{IApduTransceiver, Run, request_pdu, check_status}
use nfc_cpp.Desfire.Card.{execute_round, execute_command}
use nfc_cpp.Desfire.Card.OneFrame.{IsOneFrame, execute_command-execute_round}

-- An update that changes the IV at most, and that on success alone.
pub record IsCareful (context : DesfireContext) (update : DesfireResult → Outcome (Unit {0}))
    : Type 0 where
  pub framed : (result : DesfireResult) → IsFramed context (update result)
  pub idle : (result : DesfireResult) → is_success result ≡ false → (update result).1 ≡ context

-- What a parseResponse may do: change the IV of the session at most, and that on success alone.
pub record IsMild {S : Type 0} (context : DesfireContext)
    (parsed : Result DesfireResult × S × DesfireContext) : Type 0 where
  pub framed : IsFramed context (parsed.0, parsed.2)
  pub idle :
      (result : DesfireResult)
      → parsed.0 ≡ ok result
      → is_success result ≡ false
      → parsed.2 ≡ context

ok-inj : {A : Type 0} {a b : A} → ok a ≡ ok b → a ≡ b
ok-inj h = cc

finish-IsMild :
    {S : Type 0} (command completed : S) (context : DesfireContext) (result : DesfireResult)
    (o : Outcome (Unit {0}))
    → IsFramed context o
    → (is_success result ≡ false → o.1 ≡ context)
    → IsMild context (finish command completed result o)
finish-IsMild command completed context result (ok done, context') h quiet = record {
  framed = record { only_iv = h.only_iv; on_error = λ e k. cc };
  idle = λ got k fails. quiet (subst (λ r. is_success r ≡ false) (sym (ok-inj k)) fails);
}
finish-IsMild command completed context result (err x, context') h quiet = record {
  framed = record { only_iv = h.only_iv; on_error = λ e k. h.on_error x refl };
  idle = λ got k fails. cc;
}
finish-IsMild command completed context result (fault, context') h quiet = record {
  framed = record { only_iv = h.only_iv; on_error = λ e k. cc };
  idle = λ got k fails. cc;
}

pub parse_one_answer-IsMild :
    {S : Type 0} (command completed : S) (context : DesfireContext)
    (update : DesfireResult → Outcome (Unit {0})) (read : Result DesfireResult)
    → IsCareful context update
    → IsMild context (parse_one_answer command completed context update read)
parse_one_answer-IsMild command completed context update (ok result) careful =
    finish-IsMild command completed context result (update result) (careful.framed result)
      (careful.idle result)
parse_one_answer-IsMild command completed context update (err e) careful = record {
  framed = kept context (err e);
  idle = λ result h e. refl;
}
parse_one_answer-IsMild command completed context update fault careful = record {
  framed = kept context fault;
  idle = λ result h e. refl;
}

module _ (wire : WireKind) (t : IApduTransceiver) (c : IDesfireCommand) (context : DesfireContext)
    (mild : (s : c.State) (response : List ℕ)
      → IsMild context (c.parse_response s response context)) where
  open c use {State}
  open t use {Link}

  abbrev pub reported : Result (Unit {0}) × Run State Link → Result (Unit {0}) × DesfireContext
  reported end = (end.0, end.1.context)

  abbrev at : State → Link → Run State Link
  at command link = record { command = command; link = link; context = context }

  -- The steps before the answer is judged leave the context alone.
  after-IsFramed :
      {A : Type 0} (r : Result A) (command : State) (link : Link)
      (rest : A → Step (Run State Link) (Unit {0}))
      → ((a : A) → IsFramed context (reported (rest a (at command link))))
      → IsFramed context (reported (after (r, at command link) rest))
  after-IsFramed (ok a) command link rest k = k a
  after-IsFramed (err e) command link rest k = kept context (err e)
  after-IsFramed fault command link rest k = kept context fault

  checked-IsFramed :
      (parsed : Result DesfireResult × State × DesfireContext) (link : Link)
      → IsMild context parsed
      → IsFramed context (
          reported (
            after
              (parsed.0, record { command = parsed.1; link = link; context = parsed.2 })
              (λ result. lift (check_status result))))
  unfolding check_status
  checked-IsFramed (ok result, command, context') link h = elim (Bool-cases (is_success result)) [
    | inl success ↦ rw success (record { only_iv = h.framed.only_iv; on_error = λ e k. cc })
    | inr failure ↦
        subst (λ x. IsFramed context (check_status result, x)) (sym (h.idle result refl failure))
          (kept context (check_status result))
  ]
  checked-IsFramed (err x, command, context') link h = record {
    only_iv = h.framed.only_iv;
    on_error = λ e k. h.framed.on_error x refl;
  }
  checked-IsFramed (fault, command, context') link h = record {
    only_iv = h.framed.only_iv;
    on_error = λ e k. cc;
  }

  execute_round-IsFramed :
      (command : State) (link : Link)
      → IsFramed context (reported (execute_round wire t c (at command link)))
  unfolding execute_round
  execute_round-IsFramed command link =
      let (request, command1) = c.build_request command context in
      after-IsFramed request command1 link _ (λ request.
        after-IsFramed (request_pdu request) command1 link _ (λ pdu.
          after-IsFramed (wrap wire pdu) command1 link _ (λ apdu.
            let (answer, link1) = t.transceive link apdu in
            after-IsFramed answer command1 link1 _ (λ answer.
              checked-IsFramed (c.parse_response command1 answer context) link1
                (mild command1 answer)))))

  -- A run of a command of one answer that updates at most the IV.
  pub execute_command-IsFramed :
      (n : ℕ) (command : State) (link : Link)
      → IsOneFrame c
      → (end : Result (Unit {0}) × Run State Link) × (execute_command wire t c
            (suc (suc n))
            command
            link
            context
          ≡ some end)
        × IsFramed context (reported end)
  execute_command-IsFramed n command link one = (
    _,
    execute_command-execute_round wire t c one n command link context,
    execute_round-IsFramed (c.reset command) link,
  )
