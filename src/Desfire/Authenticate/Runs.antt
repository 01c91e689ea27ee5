-- ===== src/Desfire/Authenticate/Runs.antt =====
-- AuthenticateCommand, run by DesfireCard::executeCommand with any card.
use nfc_cpp.Base.{
  ℕ, suc, ◌≡◌, refl, sym, subst, List, Option, some, Result, ok, err, fault, >>=-eq-ok, slice,
}
use nfc_cpp.Base.Steps.{after, lift}
use nfc_cpp.Base.Posts.{Post, lift-Post}
use nfc_cpp.Crypto.Ciphers.{Ciphers}
use nfc_cpp.Crypto.Keys.{generate_random, rotate_left}
use nfc_cpp.Wire.{WireKind, wrap}
use nfc_cpp.Desfire.Context.{DesfireContext}
use nfc_cpp.Desfire.Command.{DesfireResult, is_success}
use nfc_cpp.Desfire.Card.{IApduTransceiver, Run, request_pdu, check_status, execute_round}
use nfc_cpp.Desfire.Card.{execute_loop, execute_command, continue}
use nfc_cpp.Desfire.Authenticate.Keying.{random_size}
use nfc_cpp.Desfire.Authenticate.Ciphering.{decrypt_challenge, generate_auth_response}
use nfc_cpp.Desfire.Authenticate.Stages.{
  complete, AuthenticateCommand, answer_challenge, reset, request_of, check_confirmation,
  note_challenge, open_session, parse_response, authenticate, Parsed,
}
use nfc_cpp.Desfire.Authenticate.Guarded.{
  ParsePost, Unchanged, Answered, Confirmed, Proves, check_confirmation-Proves,
  parse_response-Answered, parse_response-Confirmed,
}

-- How a session was opened: the challenge that was answered, the confirmation that was accepted,
-- which decrypts to the RndA that this run drew, and what was written into the context.
pub record Opened (c : Ciphers) (start : AuthenticateCommand) (context context' : DesfireContext)
    : Type 0 where
  pub challenge : List ℕ
  pub confirmation : List ℕ
  pub answered : List ℕ × List ℕ × List ℕ × List ℕ
  pub confirmed : List ℕ × List ℕ
  pub answers : answer_challenge c start challenge ≡ ok answered
  pub confirms : check_confirmation c (note_challenge start answered) confirmation ≡ ok confirmed
  pub proves :
      Proves c start.options answered.3
        (generate_random start.draws (random_size start.options))
        confirmation
  pub opens : context' ≡ open_session start.options confirmed.1 answered.0 context

-- A run that succeeds has opened a session; any other leaves the context as it was.
abbrev pub Granted :
    {L : Type 0} (c : Ciphers) (start : AuthenticateCommand) (context : DesfireContext)
    → Result (Unit {0}) × Run AuthenticateCommand L
    → Type 0
Granted c start context (ok done, run) = Opened c start context run.context
Granted c start context (err e, run) = run.context ≡ context
Granted c start context (fault, run) = run.context ≡ context

module _ (c : Ciphers) where
  -- RndA is drawn afresh.
  answer_challenge-draws :
      (command : AuthenticateCommand) (bytes : List ℕ)
      (answered : List ℕ × List ℕ × List ℕ × List ℕ)
      → answer_challenge c command bytes ≡ ok answered
      → answered.2 ≡ generate_random command.draws (random_size command.options)
  unfolding answer_challenge
  answer_challenge-draws command bytes answered h =
      let (challenge, e1, h1) = >>=-eq-ok (slice bytes 0 (random_size command.options)) _ h in
      let (rnd_b, e2, h2) = >>=-eq-ok (decrypt_challenge c command.options challenge) _ h1 in
      let (turned, e3, h3) = >>=-eq-ok (rotate_left rnd_b 1) _ h2 in
      let (response, e4, h4) =
        >>=-eq-ok
          (generate_auth_response c command.options challenge
            (generate_random command.draws (random_size command.options)) turned)
          _ h3 in
      cc

  module _ (wire : WireKind) (t : IApduTransceiver) where
    open t use {Link}

    abbrev At :
        (DesfireResult → AuthenticateCommand × DesfireContext → Type 0)
        → Unit {0}
        → Run AuthenticateCommand Link
        → Type 0
    At P done run = (result : DesfireResult) × P result (run.command, run.context)

    abbrev Kept : DesfireContext → Run AuthenticateCommand Link → Type 0
    Kept context run = run.context ≡ context

    module _ (P : DesfireResult → AuthenticateCommand × DesfireContext → Type 0)
        (passes : (result : DesfireResult) (s : AuthenticateCommand × DesfireContext)
          → P result s
          → check_status result ≡ ok tt) where
      judged :
          (command : AuthenticateCommand) (context : DesfireContext) (parsed : Parsed) (link : Link)
          → ParsePost P (Unchanged c command context) parsed
          → Post (At P) (Kept context) (
              after
                (parsed.0, record { command = parsed.1; link = link; context = parsed.2 })
                (λ result. lift (check_status result)))
      judged command context (ok result, command', context') link h =
          let run : Run AuthenticateCommand Link = record {
            command = command';
            link = link;
            context = context';
          } in
          subst (λ r. Post (At P) (Kept context) (r, run))
            (sym (passes result (command', context') h)) (result, h)
      judged command context (err e, command', context') link h = h
      judged command context (fault, command', context') link h = h

      -- A round does what parseResponse does, if the check behind it lets every result pass.
      execute_round-Post :
          (command : AuthenticateCommand) (link : Link) (context : DesfireContext)
          → ((response : List ℕ)
              → ParsePost P
                  (Unchanged c command context)
                  (parse_response c command response context))
          → Post (At P) (Kept context) (
              execute_round wire t
                (authenticate c)
                (record { command = command; link = link; context = context }))
      unfolding execute_round
      execute_round-Post command link context parses =
          let run : Run AuthenticateCommand Link = record {
            command = command;
            link = link;
            context = context;
          } in
          lift-Post (At P) (Kept context) (request_of command.stage command) run _ refl (λ request.
            lift-Post (At P) (Kept context) (request_pdu request) run _ refl (λ pdu.
              lift-Post (At P) (Kept context) (wrap wire pdu) run _ refl (λ apdu.
                let (answer, next) = t.transceive link apdu in
                lift-Post (At P) (Kept context) answer (record run { link = next }) _ refl
                  (λ answer.
                    judged command context (parse_response c command answer context) next
                      (parses answer)))))

    challenge_passes :
        (command : AuthenticateCommand) (context : DesfireContext) (result : DesfireResult)
        (s : AuthenticateCommand × DesfireContext)
        → Answered c command context result s
        → check_status result ≡ ok tt
    unfolding check_status is_success
    challenge_passes command context result s (bytes, answered, e, command_is, context_is, status) =
        rw status refl

    confirmation_passes :
        (command : AuthenticateCommand) (context : DesfireContext) (result : DesfireResult)
        (s : AuthenticateCommand × DesfireContext)
        → Confirmed c command context result s
        → check_status result ≡ ok tt
    unfolding check_status is_success
    confirmation_passes command context result s (bytes, confirmed, e, stage, opens, status) =
        rw status refl

    abbrev End : Type 0
    End = Result (Unit {0}) × Run AuthenticateCommand Link

    -- The loop from a round on ends well.
    abbrev EndsGranted : AuthenticateCommand → DesfireContext → Option End → Type 0
    EndsGranted start context run = (end : End) × (run ≡ some end) × Granted c start context end

    finished_loop :
        (n : ℕ) (run : Run AuthenticateCommand Link)
        → run.command.stage ≡ complete
        → execute_loop wire t (authenticate c) (suc n) run ≡ some (ok tt, run)
    unfolding execute_loop
    finished_loop n run h = rw (h, execute_loop) refl

    after_confirmation :
        (n : ℕ) (start : AuthenticateCommand) (context : DesfireContext) (challenge : List ℕ)
        (answered : List ℕ × List ℕ × List ℕ × List ℕ)
        → answer_challenge c start challenge ≡ ok answered
        → (round : End)
        → Post (At (Confirmed c (note_challenge start answered) context)) (Kept context) round
        → EndsGranted start context (
            continue wire t
              (authenticate c)
              (λ next. execute_loop wire t (authenticate c) (suc n) next)
              round)
    after_confirmation n start context challenge answered e (ok done, run)
          (result, (confirmation, confirmed, confirms, finished, opens, status)) =
        (
          (ok tt, run),
          finished_loop n run finished,
          record {
            challenge = challenge;
            confirmation = confirmation;
            answered = answered;
            confirmed = confirmed;
            answers = e;
            confirms = confirms;
            proves =
                subst (λ rnd_a. Proves c start.options answered.3 rnd_a confirmation)
                  (answer_challenge-draws start challenge answered e)
                  (check_confirmation-Proves c (note_challenge start answered) confirmation
                    confirmed confirms);
            opens = opens;
          },
        )
    after_confirmation n start context challenge answered e (err x, run) h = ((err x, run), refl, h)
    after_confirmation n start context challenge answered e (fault, run) h = ((fault, run), refl, h)

    second_loop :
        (n : ℕ) (start : AuthenticateCommand) (context : DesfireContext) (challenge : List ℕ)
        (answered : List ℕ × List ℕ × List ℕ × List ℕ) (link : Link)
        → answer_challenge c start challenge ≡ ok answered
        → EndsGranted start context (
            execute_loop wire t
              (authenticate c)
              (suc (suc n))
              (record { command = note_challenge start answered; link = link; context = context }))
    unfolding execute_loop
    second_loop n start context challenge answered link e =
        let sent = note_challenge start answered in
        after_confirmation n start context challenge answered e _ (
          execute_round-Post (Confirmed c sent context) (confirmation_passes sent context) sent link
            context (parse_response-Confirmed c sent context refl))

    after_challenge :
        (n : ℕ) (start : AuthenticateCommand) (context : DesfireContext) (round : End)
        → Post (At (Answered c start context)) (Kept context) round
        → EndsGranted start context (
            continue wire t
              (authenticate c)
              (λ next. execute_loop wire t (authenticate c) (suc (suc n)) next)
              round)
    after_challenge n start context (ok done, run)
          (result, (challenge, answered, e, command_is, context_is, status)) =
        let loops : AuthenticateCommand → DesfireContext → Type 0 = λ command now.
          EndsGranted start context (
            execute_loop wire t (authenticate c) (suc (suc n))
              (record { command = command; link = run.link; context = now })) in
        subst (λ command. loops command run.context) (sym command_is)
          (subst (loops (note_challenge start answered)) (sym context_is)
            (second_loop n start context challenge answered run.link e))
    after_challenge n start context (err x, run) h = ((err x, run), refl, h)
    after_challenge n start context (fault, run) h = ((fault, run), refl, h)

    -- executeCommand, run on AuthenticateCommand with any card, any wire and any context, ends
    -- within two exchanges; if it succeeds, the context has the session of a confirmation that
    -- decrypts, turned right by one byte, to the RndA that this run drew; if it does not, the
    -- context is as it was.
    pub authenticate-Granted :
        (n : ℕ) (command : AuthenticateCommand) (link : Link) (context : DesfireContext)
        → (end : End) × (execute_command wire t
              (authenticate c)
              (suc (suc (suc n)))
              command
              link
              context
            ≡ some end)
          × Granted c (reset command) context end
    unfolding execute_command execute_loop reset
    authenticate-Granted n command link context = after_challenge n (reset command) context _ (
        execute_round-Post (Answered c (reset command) context)
          (challenge_passes (reset command) context) (reset command) link context
          (parse_response-Answered c (reset command) context refl))
