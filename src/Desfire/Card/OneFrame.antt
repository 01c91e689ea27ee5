-- ===== src/Desfire/Card/OneFrame.antt =====
-- Commands that are complete after one answer: the loop of executeCommand runs one round.
use nfc_cpp.Base.{ℕ, suc, ◌≡◌, refl, true, false, List, some}
use nfc_cpp.Base.{Result, ok, err, fault}
use nfc_cpp.Base.Steps.{Step, after, lift}
use nfc_cpp.Wire.{WireKind, wrap}
use nfc_cpp.Desfire.Context.{DesfireContext}
use nfc_cpp.Desfire.Command.{IDesfireCommand, DesfireResult, finish, parse_one_answer}
use nfc_cpp.Desfire.Policy.{Outcome}
use nfc_cpp.Desfire.Card.{IApduTransceiver, Run, request_pdu, check_status, ask, send, judge}
use nfc_cpp.Desfire.Card.{execute_round, execute_loop, execute_command, continue}

pub record IsOneFrame (c : IDesfireCommand) : Type 0 where
  pub starts : (s : c.State) → c.is_complete (c.reset s) ≡ false
  pub ends :
      (s : c.State) (response : List ℕ) (context : DesfireContext) (result : DesfireResult)
      → (c.parse_response s response context).0 ≡ ok result
      → c.is_complete (c.parse_response s response context).1 ≡ true

-- A parseResponse that ends well hands back the completed command.
finish_completes :
    {S : Type 0} (command completed : S) (P : S → Type 0) (result : DesfireResult)
    (o : Outcome (Unit {0})) (got : DesfireResult)
    → P completed
    → (finish command completed result o).0 ≡ ok got
    → P (finish command completed result o).1
finish_completes command completed P result (ok done, context) got h e = h
finish_completes command completed P result (err x, context) got h e = cc
finish_completes command completed P result (fault, context) got h e = cc

pub parse_one_answer_completes :
    {S : Type 0} (command completed : S) (context : DesfireContext)
    (update : DesfireResult → Outcome (Unit {0})) (P : S → Type 0)
    → P completed
    → (read : Result DesfireResult) (got : DesfireResult)
    → (parse_one_answer command completed context update read).0 ≡ ok got
    → P (parse_one_answer command completed context update read).1
parse_one_answer_completes command completed context update P h (ok result) got e =
    finish_completes command completed P result (update result) got h e
parse_one_answer_completes command completed context update P h (err x) got e = cc
parse_one_answer_completes command completed context update P h fault got e = cc

-- What holds of the state that a successful step leaves.
abbrev pub Ends : {S A : Type 0} → (S → Type 0) → Result A × S → Type 0
Ends P (ok a, s) = P s
Ends P (err e, s) = Unit
Ends P (fault, s) = Unit

pub after-Ends :
    {S A B : Type 0} (P : S → Type 0) (first : Result A × S) (rest : A → Step S B)
    → ((a : A) (s : S) → Ends P (rest a s))
    → Ends P (after first rest)
after-Ends P (ok a, s) rest h = h a s
after-Ends P (err e, s) rest h = tt
after-Ends P (fault, s) rest h = tt

result-Ends : {S A : Type 0} (P : S → Type 0) (r : Result A) (s : S) → P s → Ends P (r, s)
result-Ends P (ok a) s h = h
result-Ends P (err e) s h = tt
result-Ends P fault s h = tt

-- A last check keeps what held before it.
pub check-Ends :
    {S A B : Type 0} (P : S → Type 0) (first : Result A × S) (check : A → Result B)
    → Ends P first
    → Ends P (after first (λ a. lift (check a)))
check-Ends P (ok a, s) check h = result-Ends P (check a) s h
check-Ends P (err e, s) check h = tt
check-Ends P (fault, s) check h = tt

module _ (wire : WireKind) (t : IApduTransceiver) (c : IDesfireCommand) (one : IsOneFrame c) where
  open c use {State}
  open t use {Link}

  abbrev IsDone : Run State Link → Type 0
  IsDone run = c.is_complete run.command ≡ true

  parsed-Ends :
      (parsed : Result DesfireResult × State × DesfireContext) (run : Run State Link)
      → ((result : DesfireResult) → parsed.0 ≡ ok result → c.is_complete parsed.1 ≡ true)
      → Ends IsDone (parsed.0, record run { command = parsed.1; context = parsed.2 })
  parsed-Ends (ok result, command, context) run h = h result refl
  parsed-Ends (err e, command, context) run h = tt
  parsed-Ends (fault, command, context) run h = tt

  judge-Ends : (answer : List ℕ) (run : Run State Link) → Ends IsDone (judge wire t c answer run)
  judge-Ends answer run =
      parsed-Ends (c.parse_response run.command answer run.context) run
        (one.ends run.command answer run.context)

  execute_round-Ends : (run : Run State Link) → Ends IsDone (execute_round wire t c run)
  unfolding execute_round
  execute_round-Ends run = after-Ends IsDone (ask wire t c run) _ (λ request s1.
      after-Ends IsDone (request_pdu request, s1) _
        (λ pdu s2.
          after-Ends IsDone (wrap wire pdu, s2) _
            (λ apdu s3. after-Ends IsDone (send wire t c apdu s3) _ (λ answer s4.
              check-Ends IsDone (judge wire t c answer s4) check_status (judge-Ends answer s4)))))

  continue_done :
      (n : ℕ) (round : Result (Unit {0}) × Run State Link)
      → Ends IsDone round
      → continue wire t c (λ next. execute_loop wire t c (suc n) next) round ≡ some round
  unfolding execute_loop
  continue_done n (ok done, run) h = rw (h, execute_loop) refl
  continue_done n (err e, run) h = refl
  continue_done n (fault, run) h = refl

  -- A command that reset makes incomplete and an accepted answer completes is executed in one
  -- round, for every card and wire: two units of fuel are enough, and the result is the result of
  -- the round.
  pub execute_command-execute_round :
      (n : ℕ) (command : State) (link : Link) (context : DesfireContext)
      → execute_command wire t c (suc (suc n)) command link context
        ≡ some (
            execute_round wire t c
              (record { command = c.reset command; link = link; context = context }))
  unfolding execute_command execute_loop
  execute_command-execute_round n command link context =
      rw (one.starts command, execute_loop, execute_command)
        (continue_done n _ (
          execute_round-Ends
            (record { command = c.reset command; link = link; context = context })))
