-- ===== src/Desfire/Card.antt =====
-- DesfireCard::executeCommand of Src/Nfc/Desfire/DesfireCard.cpp, and the IApduTransceiver that it
-- sends APDUs through. A run keeps the three objects that a round changes.
pub mod Round
pub mod OneFrame
pub mod Untouched
pub mod Selection
pub mod Framed
pub mod Bounded
pub mod Session
pub mod Files
mod Tests
use nfc_cpp.Base.{ℕ, zero, suc, Bool, not, ◌&&◌, ◌==◌, List, [], ◌∷◌, if◌then◌else◌}
use nfc_cpp.Base.{Option, none, some, Result, ok, err, fault, push_all, from_desfire}
use nfc_cpp.Base.Steps.{Step, after, ◌>>=◌, lift}
use nfc_cpp.Wire.{WireKind, wrap}
use nfc_cpp.Desfire.Context.{DesfireContext}
use nfc_cpp.Desfire.Command.{IDesfireCommand, DesfireRequest, DesfireResult, is_success}

pub record IApduTransceiver : Type 1 where
  pub Link : Type 0
  pub transceive : Link → List ℕ → Result (List ℕ) × Link

pub record Run (S L : Type 0) : Type 0 where
  pub command : S
  pub link : L
  pub context : DesfireContext

-- The PDU: the command code and the request's data.
unfoldable pub request_pdu : DesfireRequest → Result (List ℕ)
request_pdu request = push_all 256 (request.command_code ∷ []) request.request_data

-- `!result.isSuccess() && result.statusCode != 0xAF`
unfoldable pub check_status : DesfireResult → Result (Unit {0})
unfolding is_success
check_status result =
    if not (is_success result) && not (result.status_code == 0xAF)
    then err (from_desfire result.status_code)
    else ok tt

module _ (wire : WireKind) (t : IApduTransceiver) (c : IDesfireCommand) where
  open t use {Link, transceive}
  open c use {State, build_request, parse_response, is_complete, reset}

  -- The calls of a round, each on the part of the run that it changes.
  abbrev pub ask : Step (Run State Link) DesfireRequest
  ask run =
      let (request, command) = build_request run.command run.context in
      (request, record run { command = command })

  abbrev pub send : List ℕ → Step (Run State Link) (List ℕ)
  send apdu run =
      let (answer, link) = transceive run.link apdu in (answer, record run { link = link })

  abbrev pub judge : List ℕ → Step (Run State Link) DesfireResult
  judge answer run =
      let (result, command, context) = parse_response run.command answer run.context in
      (result, record run { command = command; context = context })

  -- The body of the loop.
  unfoldable pub execute_round : Step (Run State Link) (Unit {0})
  execute_round = do
    request ← ask
    pdu ← lift (request_pdu request)
    apdu ← lift (wrap wire pdu)
    answer ← send apdu
    result ← judge answer
    lift (check_status result)

  abbrev pub continue :
      (Run State Link → Option (Result (Unit {0}) × Run State Link))
      → Result (Unit {0}) × Run State Link
      → Option (Result (Unit {0}) × Run State Link)
  continue rest (ok done, run) = rest run
  continue rest (err e, run) = some (err e, run)
  continue rest (fault, run) = some (fault, run)

  -- The loop, on fuel: none when the rounds run out.
  unfoldable pub execute_loop : ℕ → Run State Link → Option (Result (Unit {0}) × Run State Link)
  execute_loop zero run = none
  execute_loop (suc fuel) run =
      if is_complete run.command
      then some (ok tt, run)
      else continue (λ next. execute_loop fuel next) (execute_round run)

  unfoldable pub execute_command :
      ℕ → State → Link → DesfireContext → Option (Result (Unit {0}) × Run State Link)
  unfolding execute_loop
  execute_command fuel command link context =
      execute_loop fuel (record { command = reset command; link = link; context = context })
