-- ===== src/Desfire/FileIds.antt =====
-- Src/Nfc/Desfire/Commands/GetFileIdsCommand.cpp: the numbers of an application's files, with a MAC
-- whose length is found by trying. The code keeps 40 bytes of an answer and 32 file numbers.
pub mod Lengths
pub mod Listing
pub mod Chained
pub mod Runs
mod Tests
use nfc_cpp.Base.{ℕ, ◌-◌, Bool, true, false, ◌&&◌, not, ltb, leb, ◌==◌, List, [], ◌∷◌, length}
use nfc_cpp.Base.{take, if◌then◌else◌, Result, ok, err, fault, from_desfire}
use nfc_cpp.Base.Codes.DesfireError
use nfc_cpp.Crypto.Ciphers.{Ciphers}
use nfc_cpp.Desfire.Context.{DesfireContext}
use nfc_cpp.Desfire.Policy.{
  Outcome, refuse, derive_plain_request_iv, verify_payload_auto_mac_and_update_context_iv,
}
use nfc_cpp.Desfire.Command.{DesfireRequest, DesfireResult, IDesfireCommand}

pub data FileIdsStage : Type 0 where
  initial finished : FileIdsStage

pub record GetFileIdsCommand : Type 0 where
  pub stage : FileIdsStage
  pub raw_payload : List ℕ
  pub file_ids : List ℕ
  pub request_iv : List ℕ
  pub has_request_iv : Bool

-- The loop `payload[i] > MAX_FILE_NO`.
unfoldable pub are_file_numbers : List ℕ → Bool
are_file_numbers [] = true
are_file_numbers (b ∷ bs) = if ltb 0x1F b then false else are_file_numbers bs

unfoldable pub is_plausible_file_id_payload : List ℕ → ℕ → Bool
unfolding are_file_numbers
is_plausible_file_id_payload payload n =
    if ltb 32 n
    then false
    else (if ltb (length payload) n then false else are_file_numbers (take n payload))

-- An IV that cannot be derived is no error: `hasRequestIv` stays false.
abbrev pub keep_request_iv :
    GetFileIdsCommand → Result (List ℕ) → Result DesfireRequest × GetFileIdsCommand
keep_request_iv command fault = (fault, command)
keep_request_iv command (err e) =
    (ok (record { command_code = 0x6F; request_data = []; expected_response_length = 0 }), command)
keep_request_iv command (ok iv) = (
  ok (record { command_code = 0x6F; request_data = []; expected_response_length = 0 }),
  record command { request_iv = iv; has_request_iv = true },
)

-- The whole payload, or all but its last 8 or 4 bytes, without a MAC check.
unfoldable pub unverified_length : List ℕ → Result ℕ
unfolding is_plausible_file_id_payload
unverified_length payload =
    let n = length payload in
    if is_plausible_file_id_payload payload n
    then ok n
    else (if leb 8 n && is_plausible_file_id_payload payload (n - 8)
        then ok (n - 8)
        else (if leb 4 n && is_plausible_file_id_payload payload (n - 4)
            then ok (n - 4)
            else err (from_desfire DesfireError.invalid_response)))

-- The copying loop and the end of parseResponse.
abbrev pub list_files :
    GetFileIdsCommand → Outcome ℕ → Result DesfireResult × GetFileIdsCommand × DesfireContext
list_files command (fault, context) = (fault, command, context)
list_files command (err e, context) = (err e, command, context)
list_files command (ok n, context) =
    if ltb 32 n
    then (
      err (from_desfire DesfireError.length_error),
      record command { file_ids = take 32 command.raw_payload },
      context,
    )
    else (
      ok (record { status_code = 0x00; result_data = take n command.raw_payload }),
      record command { file_ids = take n command.raw_payload; stage = finished },
      context,
    )

module _ (c : Ciphers) where
  unfoldable pub build_file_ids :
      GetFileIdsCommand → DesfireContext → Result DesfireRequest × GetFileIdsCommand
  build_file_ids command context = elim command.stage [
    | finished ↦ (err (from_desfire DesfireError.invalid_state), command)
    | initial ↦
        let cleared = record command { request_iv = []; has_request_iv = false } in
        keep_request_iv cleared (
          if context.authenticated
          then derive_plain_request_iv c context (0x6F ∷ []) true
          else err (from_desfire DesfireError.invalid_state))
  ]

  -- The loop over `macCandidates`, with those that are left.
  unfoldable pub try_candidates : GetFileIdsCommand → DesfireContext → List ℕ → Outcome ℕ
  unfolding is_plausible_file_id_payload
  try_candidates command context [] = refuse context DesfireError.invalid_response
  try_candidates command context (mac_length ∷ rest) =
      let n = length command.raw_payload - mac_length in
      elim (leb mac_length (length command.raw_payload)
        && is_plausible_file_id_payload command.raw_payload n) [
          | false ↦ try_candidates command context rest
          | true ↦
              let (verified, context') =
                verify_payload_auto_mac_and_update_context_iv c context command.raw_payload 0x00
                  command.request_iv n in
              elim verified [
                | ok found ↦ (ok n, context')
                | err e ↦ try_candidates command context' rest
                | fault ↦ (fault, context')
              ]
        ]

  -- `dataLength`
  unfoldable pub data_length : GetFileIdsCommand → DesfireContext → Outcome ℕ
  unfolding try_candidates unverified_length is_plausible_file_id_payload
  data_length command context =
      if context.authenticated && command.has_request_iv
      then try_candidates command context (8 ∷ 4 ∷ 0 ∷ [])
      else (if context.authenticated
          then (unverified_length command.raw_payload, context)
          else (if is_plausible_file_id_payload command.raw_payload (length command.raw_payload)
              then (ok (length command.raw_payload), context)
              else refuse context DesfireError.invalid_response))

  abbrev pub take_payload :
      GetFileIdsCommand
      → List ℕ
      → DesfireContext
      → Result DesfireResult × GetFileIdsCommand × DesfireContext
  take_payload command bytes context =
      let command' = record command { raw_payload = take 40 bytes } in
      if ltb 40 (length bytes)
      then (err (from_desfire DesfireError.length_error), command', context)
      else list_files command' (data_length command' context)

  unfoldable pub parse_file_ids :
      GetFileIdsCommand
      → List ℕ
      → DesfireContext
      → Result DesfireResult × GetFileIdsCommand × DesfireContext
  unfolding data_length
  parse_file_ids command response context = elim command.stage [
    | finished ↦ (err (from_desfire DesfireError.invalid_state), command, context)
    | initial ↦ elim response [
      | [] ↦ (err (from_desfire DesfireError.invalid_response), command, context)
      | status ∷ bytes ↦
          if not (status == 0x00)
          then (err (from_desfire status), command, context)
          else take_payload command bytes context
    ]
  ]

  abbrev pub get_file_ids : IDesfireCommand
  get_file_ids = record {
    State = GetFileIdsCommand;
    build_request = build_file_ids;
    parse_response = parse_file_ids;
    is_complete = λ command. elim command.stage [ initial ↦ false | finished ↦ true ];
    reset = λ command. record {
      stage = initial;
      raw_payload = [];
      file_ids = [];
      request_iv = [];
      has_request_iv = false;
    };
  }
