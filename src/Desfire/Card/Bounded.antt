-- ===== src/Desfire/Card/Bounded.antt =====
-- Commands of several rounds that a measure bounds: the loop of executeCommand ends, whatever the
-- card answers.
use nfc_cpp.Base.{
  ℕ, zero, suc, ◌+◌, ◌<◌, ◌≡◌, refl, ◌⊎◌, inl, inr, arith, true, false, Bool-cases, List, some,
  Result, ok, err, fault,
}
use nfc_cpp.Base.Steps.{Step, after}
use nfc_cpp.Wire.{WireKind, wrap}
use nfc_cpp.Desfire.Context.{DesfireContext}
use nfc_cpp.Desfire.Command.{IDesfireCommand, DesfireRequest, DesfireResult}
use nfc_cpp.Desfire.Card.{
  IApduTransceiver, Run, request_pdu, check_status, execute_round, execute_loop, execute_command,
  continue,
}
use nfc_cpp.Desfire.Card.OneFrame.{Ends, check-Ends}

-- What holds of the command that a successful parseResponse leaves.
abbrev pub Parses : {S : Type 0} → (S → Type 0) → Result DesfireResult × S × DesfireContext → Type 0
Parses P (ok result, s, context) = P s
Parses P (err e, s, context) = Unit
Parses P (fault, s, context) = Unit

-- The command is complete, or its measure is below `n`.
abbrev pub Nearer : (c : IDesfireCommand) (measure : c.State → ℕ) → ℕ → c.State → Type 0
Nearer c measure n s = (c.is_complete s ≡ true) ⊎ (measure s < n)

-- A round that succeeds completes the command or brings its measure down.
pub record IsBounded (c : IDesfireCommand) : Type 0 where
  pub measure : c.State → ℕ
  pub drops :
      (s : c.State) (context : DesfireContext) (request : DesfireRequest) (answer : List ℕ)
      → c.is_complete s ≡ false
      → (c.build_request s context).0 ≡ ok request
      → Parses
          (Nearer c measure (measure s))
          (c.parse_response (c.build_request s context).1 answer context)

module _ (wire : WireKind) (t : IApduTransceiver) (c : IDesfireCommand)
    (bounded : IsBounded c) where
  open c use {State}
  open t use {Link}

  abbrev Progress : ℕ → Run State Link → Type 0
  Progress n run = Nearer c bounded.measure n run.command

  lift-Ends :
      {A B : Type 0} (P : Run State Link → Type 0) (r : Result A) (run : Run State Link)
      (rest : A → Step (Run State Link) B)
      → ((a : A) → r ≡ ok a → Ends P (rest a run))
      → Ends P (after (r, run) rest)
  lift-Ends P (ok a) run rest h = h a refl
  lift-Ends P (err e) run rest h = tt
  lift-Ends P fault run rest h = tt

  judged-Ends :
      (n : ℕ) (parsed : Result DesfireResult × State × DesfireContext) (link : Link)
      → Parses (Nearer c bounded.measure n) parsed
      → Ends (Progress n) (parsed.0, record { command = parsed.1; link = link; context = parsed.2 })
  judged-Ends n (ok result, command, context) link h = h
  judged-Ends n (err e, command, context) link h = tt
  judged-Ends n (fault, command, context) link h = tt

  execute_round-Progress :
      (run : Run State Link)
      → c.is_complete run.command ≡ false
      → Ends (Progress (bounded.measure run.command)) (execute_round wire t c run)
  unfolding execute_round
  execute_round-Progress run going =
      let n = bounded.measure run.command in
      let (built, command1) = c.build_request run.command run.context in
      let run1 : Run State Link = record run { command = command1 } in
      lift-Ends (Progress n) built run1 _ (λ request e.
        lift-Ends (Progress n) (request_pdu request) run1 _ (λ pdu p.
          lift-Ends (Progress n) (wrap wire pdu) run1 _ (λ apdu w.
            let (answered, link1) = t.transceive run.link apdu in
            lift-Ends (Progress n) answered (record run1 { link = link1 }) _
              (λ answer a. check-Ends (Progress n) _ check_status (
                judged-Ends n (c.parse_response command1 answer run.context) link1
                  (bounded.drops run.command run.context request answer going e))))))

  abbrev Stops : ℕ → Run State Link → Type 0
  Stops fuel run =
      (end : Result (Unit {0}) × Run State Link) × (execute_loop wire t c fuel run ≡ some end)

  done-Stops :
      (fuel : ℕ) (run : Run State Link) → c.is_complete run.command ≡ true → Stops (suc fuel) run
  unfolding execute_loop
  done-Stops fuel run h = ((ok tt, run), rw h refl)

  continue-Stops :
      (fuel : ℕ) (round : Result (Unit {0}) × Run State Link)
      → Ends (Stops fuel) round
      → (end : Result (Unit {0}) × Run State Link) × (continue wire t c
            (λ next. execute_loop wire t c fuel next)
            round
          ≡ some end)
  continue-Stops fuel (ok done, run) h = h
  continue-Stops fuel (err e, run) h = ((err e, run), refl)
  continue-Stops fuel (fault, run) h = ((fault, run), refl)

  Ends-map :
      {P Q : Run State Link → Type 0} (round : Result (Unit {0}) × Run State Link)
      → ((run : Run State Link) → P run → Q run)
      → Ends P round
      → Ends Q round
  Ends-map (ok done, run) f h = f run h
  Ends-map (err e, run) f h = tt
  Ends-map (fault, run) f h = tt

  going-Stops :
      (fuel : ℕ) (run : Run State Link)
      → c.is_complete run.command ≡ false
      → Ends (Stops fuel) (execute_round wire t c run)
      → Stops (suc fuel) run
  unfolding execute_loop
  going-Stops fuel run going h =
      let (end, e) = continue-Stops fuel (execute_round wire t c run) h in (end, rw (going, e) refl)

  loop-Stops :
      (fuel : ℕ) (run : Run State Link) → bounded.measure run.command + 1 < fuel → Stops fuel run
  loop-Stops zero run h = absurd (omega arith)
  loop-Stops (suc zero) run h = absurd (omega arith)
  loop-Stops (suc (suc fuel)) run h = elim (Bool-cases (c.is_complete run.command)) [
    | inl done ↦ done-Stops (suc fuel) run done
    | inr going ↦ going-Stops (suc fuel) run going (
        Ends-map (execute_round wire t c run)
          (λ (next : Run State Link) (nearer : Progress (bounded.measure run.command) next).
            elim nearer [
              | inl done ↦ done-Stops fuel next done
              | inr less ↦ loop-Stops (suc fuel) next (omega arith)
            ])
          (execute_round-Progress run going))
  ]

  -- A command with a measure that successful rounds bring down is executed to an end, a success, an
  -- error or a fault, by every card and wire: a fuel two above the measure is enough.
  pub execute_command_stops :
      (fuel : ℕ) (command : State) (link : Link) (context : DesfireContext)
      → bounded.measure (c.reset command) + 1 < fuel
      → (end : Result (Unit {0}) × Run State Link) × (execute_command wire t c fuel command link
            context
          ≡ some end)
  unfolding execute_command
  execute_command_stops fuel command link context h =
      loop-Stops fuel (record { command = c.reset command; link = link; context = context }) h
