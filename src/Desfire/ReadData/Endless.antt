-- ===== src/Desfire/ReadData/Endless.antt =====
-- ReadData with a card that answers every request by 0xAF and no data.
use nfc_cpp.Base.{
  ℕ, zero, suc, ◌-◌, ◌≤◌, ◌<◌, ◌≡◌, refl, ◌∙◌, arith, true, false, ltb, List, [], ◌∷◌, ◌++◌, min,
  length, take-length, append-nil, le→ltb, ne→==, if◌then◌else◌, none, ok,
}
use nfc_cpp.Crypto.Ciphers.{Ciphers}
use nfc_cpp.Crypto.Words.{le24}
use nfc_cpp.Wire.{WireKind}
use nfc_cpp.Desfire.Context.{DesfireContext}
use nfc_cpp.Desfire.Command.{DesfireRequest, DesfireResult}
use nfc_cpp.Desfire.Card.{
  IApduTransceiver, Run, execute_round, execute_loop, execute_command, check_status,
}
use nfc_cpp.Desfire.Card.Round.{execute_round-after, wrap_fits}
use nfc_cpp.Desfire.WriteData.{effective_chunk_size, resolve_communication_settings}
use nfc_cpp.Desfire.ReadData.{
  ReadDataCommand, Stage, initial, read_chunk, additional_frame, read_data, build_next,
  build_staged, parse_staged, open_stage, reset, derives_request_iv, parse_frame, validate_options,
}

-- Every answer is the status 0xAF alone.
abbrev pub IsEndless : IApduTransceiver → Type 0
IsEndless t =
    (link : t.Link) (apdu : List ℕ)
    → (next : t.Link) × (t.transceive link apdu ≡ (ok (0xAF ∷ []), next))

abbrev more : DesfireResult
more = record { status_code = 0xAF; result_data = [] }

abbrev waiting : ReadDataCommand → Stage → ReadDataCommand
waiting command stage = record command { stage = stage }

module _ (c : Ciphers) (context : DesfireContext) where
  parse_more :
      (command : ReadDataCommand)
      → parse_frame c command (0xAF ∷ []) context
        ≡ (ok more, waiting command additional_frame, context)
  unfolding parse_frame
  parse_more command =
      rw
        (
          take-length {A = ℕ} [] (min 256 (272 - length command.frame_data)) (omega arith),
          append-nil command.frame_data,
          le→ltb (min 256 (272 - length command.frame_data)) 0 (omega arith),
        )
        refl

  module _ (wire : WireKind) (t : IApduTransceiver) (endless : IsEndless t) where
    open t use {Link}

    abbrev run : ReadDataCommand → Link → Run ReadDataCommand Link
    run command link = record { command = command; link = link; context = context }

    -- A round whose answer is 0xAF ends in the stage for another frame.
    round :
        (before asked : ReadDataCommand) (request : DesfireRequest) (link : Link)
        → build_staged c context before.stage before ≡ (ok request, asked)
        → length request.request_data ≤ 255
        → parse_staged c asked.stage asked (0xAF ∷ []) context
          ≡ (ok more, waiting asked additional_frame, context)
        → (next : Link) × (execute_round wire t (read_data c) (run before link)
            ≡ (ok tt, run (waiting asked additional_frame) next))
    unfolding check_status
    round before asked request link builds fits parsed =
        let (apdu, wraps) = wrap_fits wire request.command_code request.request_data fits in
        let (next, sends) = endless link apdu in
        (
          next,
          execute_round-after wire t (read_data c) (run before link) asked request apdu
                (ok (0xAF ∷ [])) next builds fits wraps sends
              ∙ rw parsed refl,
        )

    loop_endless :
        (fuel : ℕ) (command : ReadDataCommand) (link : Link)
        → execute_loop wire t (read_data c) fuel (run (waiting command additional_frame) link)
          ≡ none
    unfolding execute_loop
    loop_endless zero command link = refl
    loop_endless (suc fuel) command link =
        let (next, e) =
          round (waiting command additional_frame) (waiting command additional_frame)
            (record { command_code = 0xAF; request_data = []; expected_response_length = 0 }) link
            refl (omega arith) (parse_more (waiting command additional_frame)) in
        rw e (loop_endless fuel command next)

    first_endless :
        (fuel : ℕ) (command before : ReadDataCommand) (request : DesfireRequest) (link : Link)
        → build_staged c context initial (reset c command) ≡ (ok request, waiting before read_chunk)
        → length request.request_data ≤ 255
        → execute_command wire t (read_data c) fuel command link context ≡ none
    unfolding execute_command execute_loop
    first_endless zero command before request link builds fits = refl
    first_endless (suc fuel) command before request link builds fits =
        let (next, e) =
          round (reset c command) (waiting before read_chunk) request link builds fits
            (parse_more (waiting before read_chunk)) in
        rw e (loop_endless fuel before next)

-- The loop of executeCommand never ends for a plain ReadData outside a session that is valid and
-- asks for at least one byte, if every answer of the card is the status 0xAF with no data: no fuel
-- is enough.
pub read_data_endless :
    (c : Ciphers) (wire : WireKind) (t : IApduTransceiver) (session : DesfireContext) (fuel : ℕ)
    (command : ReadDataCommand) (link : t.Link)
    → IsEndless t
    → validate_options command.options ≡ true
    → 0 < command.options.read_length
    → resolve_communication_settings command.options.communication_settings
        (record session { authenticated = false })
      ≡ 0x00
    → execute_command wire t
        (read_data c)
        fuel
        command
        link
        (record session { authenticated = false })
      ≡ none
unfolding open_stage build_next derives_request_iv le24
read_data_endless c wire t session fuel command link endless valid some_bytes plain =
    let context : DesfireContext = record session { authenticated = false } in
    let total = command.options.read_length in
    let cap = effective_chunk_size command.options.chunk_size in
    let count = if ltb total cap then total else cap in
    first_endless c context wire t endless fuel command
      (record (reset c command) { last_requested_chunk_length = count })
      (record {
        command_code = 0xBD;
        request_data = command.options.file_no ∷ (le24 command.options.offset ++ le24 count);
        expected_response_length = count;
      })
      link (rw (valid, plain, ne→== total 0 (λ h. omega arith)) refl) (omega arith)
