-- ===== src/Pn532/Adapter.antt =====
-- Src/Pn532/Commands/InDataExchange.cpp and Pn532ApduAdapter::transceive of
-- Src/Pn532/Pn532ApduAdapter.cpp, once setWire has been called.
pub mod Chip
pub mod Long
mod Tests
use nfc_cpp.Base.{
  ℕ, Bool, true, ◌==◌, not, List, [], ◌∷◌, if◌then◌else◌, Result, ok, err, fault, ◌>>=◌,
}
use nfc_cpp.Base.{◌>>◌, guard, push_all, from_pn532}
use nfc_cpp.Base.Codes.Pn532Error
use nfc_cpp.Wire.{WireKind, unwrap}
use nfc_cpp.Pn532.{CommandRequest, CommandResponse, Pn532ResponseFrame, request_payload_max}
use nfc_cpp.Pn532.Driver.{IHardwareBus, IPn532Command, execute_command}

pub record InDataExchangeOptions : Type 0 where
  pub target_number : ℕ
  pub payload : List ℕ
  pub response_timeout_ms : ℕ

pub record InDataExchange : Type 0 where
  pub options : InDataExchangeOptions
  pub cached_status_byte : ℕ
  pub cached_response : List ℕ

unfoldable pub build_request : InDataExchange → Result CommandRequest
build_request command = do
  payload ← push_all 256 (command.options.target_number ∷ []) command.options.payload
  payload ← push_all request_payload_max [] payload
  ok (record {
    command_code = 0x40;
    payload = payload;
    response_timeout_ms = command.options.response_timeout_ms;
    expects_data = true;
  })

-- The status byte and the rest of the data are kept whatever the status.
unfoldable pub parse_data : ℕ → List ℕ → InDataExchange → Result CommandResponse × InDataExchange
parse_data code [] command = (err (from_pn532 Pn532Error.invalid_response), command)
parse_data code (status ∷ bytes) command =
    let command' = record command { cached_status_byte = status; cached_response = bytes } in
    if not (status == 0x00)
    then (err (from_pn532 status), command')
    else (ok (record { cmd = code; payload = status ∷ bytes }), command')

abbrev pub parse_response :
    InDataExchange → Pn532ResponseFrame → Result CommandResponse × InDataExchange
parse_response command frame = parse_data frame.command_code frame.payload command

abbrev pub in_data_exchange : IPn532Command
in_data_exchange = record {
  State = InDataExchange;
  build_request = build_request;
  parse_response = parse_response;
}

module _ (b : IHardwareBus) (wire : WireKind) where
  open b use {Bus}

  -- What the adapter makes of the exchange.
  abbrev pub unwrap_answer : Result CommandResponse × InDataExchange × Bus → Result (List ℕ) × Bus
  unwrap_answer (ok response, command, bus) = (
    (do
      guard (command.cached_status_byte == 0x00) (from_pn532 command.cached_status_byte)
      unwrap wire command.cached_response),
    bus,
  )
  unwrap_answer (err e, command, bus) = (err e, bus)
  unwrap_answer (fault, command, bus) = (fault, bus)

  abbrev pub exchange : Result (List ℕ) → Bus → Result (List ℕ) × Bus
  exchange (ok payload) bus = unwrap_answer (
      execute_command b in_data_exchange
        (record {
          options = record { target_number = 1; payload = payload; response_timeout_ms = 5000 };
          cached_status_byte = 0xFF;
          cached_response = [];
        })
        bus)
  exchange (err e) bus = (err e, bus)
  exchange fault bus = (fault, bus)

  -- The APDU is copied into a payload of 255 bytes.
  unfoldable pub adapter_transceive : Bus → List ℕ → Result (List ℕ) × Bus
  unfolding execute_command
  adapter_transceive bus apdu = exchange (push_all 255 [] apdu) bus
