-- ===== src/Desfire/Card/Round.antt =====
-- One round of executeCommand, from what the card answers on.
use nfc_cpp.Base.{
  ℕ, ◌+◌, ◌≤◌, ◌≡◌, refl, arith, List, ◌∷◌, length, Result, ok, le→leb, push_all_fits, [],
}
use nfc_cpp.Base.Steps.{Step, after, ◌>>=◌, lift}
use nfc_cpp.Wire.{WireKind, native, iso, wrap, native_wrap}
use nfc_cpp.Wire.Iso.{read_command-iso_wrap}
use nfc_cpp.Desfire.Command.{IDesfireCommand, DesfireRequest}
use nfc_cpp.Desfire.Card.{IApduTransceiver, Run, request_pdu, check_status, judge, execute_round}

pub request_pdu_fits :
    (request : DesfireRequest)
    → length request.request_data ≤ 255
    → request_pdu request ≡ ok (request.command_code ∷ request.request_data)
unfolding request_pdu
request_pdu_fits request h = rw (le→leb (1 + length request.request_data) 256 (omega arith)) refl

-- What is left of a round when the request has been sent.
abbrev pub conclude :
    (wire : WireKind) (t : IApduTransceiver) (c : IDesfireCommand)
    → List ℕ
    → Step (Run c.State t.Link) (Unit {0})
conclude wire t c answer = judge wire t c answer >>= λ result. lift (check_status result)

pub execute_round-after :
    (wire : WireKind) (t : IApduTransceiver) (c : IDesfireCommand) (run : Run c.State t.Link)
    (command : c.State) (request : DesfireRequest) (apdu : List ℕ) (answer : Result (List ℕ))
    (next : t.Link)
    → c.build_request run.command run.context ≡ (ok request, command)
    → length request.request_data ≤ 255
    → wrap wire (request.command_code ∷ request.request_data) ≡ ok apdu
    → t.transceive run.link apdu ≡ (answer, next)
    → execute_round wire t c run
      ≡ after (answer, record run { command = command; link = next }) (conclude wire t c)
unfolding execute_round
execute_round-after wire t c run command request apdu answer next builds fits wraps sends =
    rw (builds, request_pdu_fits request fits, wraps, sends) refl

-- Both wires wrap a command code and at most 255 bytes.
pub wrap_fits :
    (wire : WireKind) (ins : ℕ) (ds : List ℕ)
    → length ds ≤ 255
    → (apdu : List ℕ) × (wrap wire (ins ∷ ds) ≡ ok apdu)
unfolding wrap native_wrap
wrap_fits native ins ds h = (_, push_all_fits 261 [] (ins ∷ ds) (omega arith))
wrap_fits iso ins ds h = let (apdu, wraps, reads) = read_command-iso_wrap ins ds h in (apdu, wraps)
