-- ===== src/Desfire/FreeMemory.antt =====
-- Src/Nfc/Desfire/Commands/FreeMemoryCommand.cpp: the free bytes of the card, in three bytes, the
-- lowest first.
pub mod Runs
mod Tests
use nfc_cpp.Base.{
  ℕ, ◌-◌, ◌*◌, ◌^◌, Bool, true, false, ◌&&◌, not, ltb, leb, ◌==◌, bit_or, List, [], ◌∷◌, length,
  take,
}
use nfc_cpp.Base.{if◌then◌else◌, Result, ok, err, fault, ◌>>=◌, read, slice, from_desfire}
use nfc_cpp.Base.Codes.DesfireError
use nfc_cpp.Crypto.Ciphers.{Ciphers}
use nfc_cpp.Desfire.Context.{DesfireContext}
use nfc_cpp.Desfire.Policy.{
  Outcome, refuse, derive_plain_request_iv, verify_payload_auto_mac_and_update_context_iv,
}
use nfc_cpp.Desfire.Command.{DesfireRequest, DesfireResult, IDesfireCommand}

pub data FreeMemoryStage : Type 0 where
  initial finished : FreeMemoryStage

pub record FreeMemoryCommand : Type 0 where
  pub stage : FreeMemoryStage
  pub free_memory_bytes : ℕ
  pub raw_payload : List ℕ
  pub request_iv : List ℕ
  pub has_request_iv : Bool

unfoldable pub parse_le24 : List ℕ → Result ℕ
parse_le24 payload = do
  low ← read payload 0
  middle ← read payload 1
  high ← read payload 2
  ok (bit_or (bit_or low (middle * 2 ^ 8)) (high * 2 ^ 16))

-- An IV that cannot be derived is no error: `hasRequestIv` stays false.
abbrev pub keep_request_iv :
    FreeMemoryCommand → Result (List ℕ) → Result DesfireRequest × FreeMemoryCommand
keep_request_iv command fault = (fault, command)
keep_request_iv command (err e) =
    (ok (record { command_code = 0x6E; request_data = []; expected_response_length = 0 }), command)
keep_request_iv command (ok iv) = (
  ok (record { command_code = 0x6E; request_data = []; expected_response_length = 0 }),
  record command { request_iv = iv; has_request_iv = true },
)

-- The body behind `!decoded`: an answer of 11 or 7 bytes may end in a MAC that is not checked.
unfoldable pub unverified_payload : DesfireContext → List ℕ → Result (List ℕ)
unverified_payload context candidate =
    let n = length candidate in
    let payload_length =
      if not (n == 3) && (context.authenticated && ltb 3 n)
      then (if leb 11 n && (n - 8 == 3)
          then n - 8
          else (if leb 7 n && (n - 4 == 3) then n - 4 else n))
      else n in
    if not (payload_length == 3)
    then err (from_desfire DesfireError.invalid_response)
    else slice candidate 0 3

-- The end of parseResponse.
abbrev pub take_count :
    FreeMemoryCommand
    → List ℕ
    → DesfireContext
    → Result ℕ
    → Result DesfireResult × FreeMemoryCommand × DesfireContext
take_count command payload context (ok n) = (
  ok (record { status_code = 0x00; result_data = payload }),
  record command { raw_payload = payload; free_memory_bytes = n; stage = finished },
  context,
)
take_count command payload context (err e) =
    (err e, record command { raw_payload = payload }, context)
take_count command payload context fault =
    (fault, record command { raw_payload = payload }, context)

abbrev pub take_payload :
    FreeMemoryCommand → Outcome (List ℕ) → Result DesfireResult × FreeMemoryCommand × DesfireContext
take_payload command (ok payload, context) = take_count command payload context (parse_le24 payload)
take_payload command (err e, context) = (err e, command, context)
take_payload command (fault, context) = (fault, command, context)

-- `if (!verifyResult) return unexpected(InvalidResponse);` and the copying loop.
abbrev pub verified_payload : List ℕ → Outcome ℕ → Outcome (List ℕ)
verified_payload candidate (ok n, context) = (slice candidate 0 3, context)
verified_payload candidate (err e, context) = refuse context DesfireError.invalid_response
verified_payload candidate (fault, context) = (fault, context)

module _ (c : Ciphers) where
  unfoldable pub build_free_memory :
      FreeMemoryCommand → DesfireContext → Result DesfireRequest × FreeMemoryCommand
  build_free_memory command context = elim command.stage [
    | finished ↦ (err (from_desfire DesfireError.invalid_state), command)
    | initial ↦
        let cleared = record command { request_iv = []; has_request_iv = false } in
        keep_request_iv cleared (
          if context.authenticated
          then derive_plain_request_iv c context (0x6E ∷ []) false
          else err (from_desfire DesfireError.invalid_state))
  ]

  unfoldable pub decode_payload : FreeMemoryCommand → List ℕ → DesfireContext → Outcome (List ℕ)
  unfolding unverified_payload
  decode_payload command candidate context =
      if context.authenticated && command.has_request_iv
      then verified_payload candidate (
          verify_payload_auto_mac_and_update_context_iv c context candidate 0x00 command.request_iv
            3)
      else (unverified_payload context candidate, context)

  unfoldable pub parse_free_memory :
      FreeMemoryCommand
      → List ℕ
      → DesfireContext
      → Result DesfireResult × FreeMemoryCommand × DesfireContext
  unfolding decode_payload parse_le24
  parse_free_memory command response context = elim command.stage [
    | finished ↦ (err (from_desfire DesfireError.invalid_state), command, context)
    | initial ↦ elim response [
      | [] ↦ (err (from_desfire DesfireError.invalid_response), command, context)
      | status ∷ bytes ↦
          if not (status == 0x00)
          then (err (from_desfire status), command, context)
          else (if ltb 16 (length bytes)
              then (err (from_desfire DesfireError.length_error), command, context)
              else take_payload command (decode_payload command bytes context))
    ]
  ]

  abbrev pub free_memory : IDesfireCommand
  free_memory = record {
    State = FreeMemoryCommand;
    build_request = build_free_memory;
    parse_response = parse_free_memory;
    is_complete = λ command. elim command.stage [ initial ↦ false | finished ↦ true ];
    reset = λ command. record {
      stage = initial;
      free_memory_bytes = 0;
      raw_payload = [];
      request_iv = [];
      has_request_iv = false;
    };
  }
