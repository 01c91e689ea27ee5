-- ===== src/Pn532/Adapter/Chip.antt =====
-- A chip on the bus, as the specification that the adapter is measured by: it takes everything that
-- is written and has a queue of frames to be read.
use nfc_cpp.Base.{
  ℕ, zero, suc, ◌+◌, ◌-◌, ◌%◌, ◌^◌, ◌≤◌, ◌<◌, ◌≡◌, refl, arith, Bool, true, false, List, [], ◌∷◌,
  ◌++◌, length, take, replicate, take-length, push_all_fits, lt→ltb, ne→==, lt→leb, some, ◌/◌,
  Result, ok, ltb, if◌then◌else◌,
}
use nfc_cpp.Wire.{WireKind, unwrap}
use nfc_cpp.Pn532.{CommandRequest, tfi_device_to_host}
use nfc_cpp.Pn532.Request.{build}
use nfc_cpp.Pn532.Response.{check_ack, ack_frame, starts_with, parse_response_frame}
use nfc_cpp.Pn532.Adapter.{InDataExchange, build_request, parse_data, adapter_transceive}
use nfc_cpp.Pn532.Checksum.{IsPacket}
use nfc_cpp.Pn532.Response.Laws.{IsQuiet, parse_response_frame-IsPacket}
use nfc_cpp.Pn532.Driver.{
  execute_command, IHardwareBus, wait_for_chip, wait_loop, has_timeout, elapsed_ms, transceive,
  receive_frame,
}

pub record Chip : Type 0 where
  pub written : List (List ℕ)
  pub queue : List (List ℕ)
  pub now : ℕ

abbrev pub head_length : List (List ℕ) → ℕ
head_length [] = 0
head_length (bytes ∷ queue) = length bytes

abbrev pub read_head : Chip → List (List ℕ) → ℕ → Result (List ℕ) × Chip
read_head chip [] count = (ok [], chip)
read_head chip (bytes ∷ queue) count = (ok (take count bytes), record chip { queue = queue })

abbrev pub chip_bus : IHardwareBus
chip_bus = record {
  Bus = Chip;
  write = λ chip bytes. (ok tt, record chip { written = bytes ∷ chip.written });
  read = λ chip count. read_head chip chip.queue count;
  available = λ chip. head_length chip.queue;
  get_tick_ms = λ chip. chip.now % 2 ^ 32;
  delay_ms = λ chip ms. record chip { now = chip.now + ms };
}

abbrev chip : List (List ℕ) → List (List ℕ) → ℕ → Chip
chip written queue now = record { written = written; queue = queue; now = now }

at_once :
    (now timeout : ℕ) → 0 < timeout → has_timeout (now % 2 ^ 32) timeout (now % 2 ^ 32) ≡ false
unfolding has_timeout elapsed_ms
at_once now timeout h =
    lt→leb timeout ((now % 2 ^ 32 + (2 ^ 32 - now % 2 ^ 32)) % 2 ^ 32) (omega arith)

wait_loop_ready :
    (fuel : ℕ) (written queue : List (List ℕ)) (bytes : List ℕ) (now timeout : ℕ)
    → 1 ≤ fuel
    → 0 < length bytes
    → 0 < timeout
    → wait_loop chip_bus fuel (now % 2 ^ 32) timeout (chip written (bytes ∷ queue) now)
      ≡ some (true, chip written (bytes ∷ queue) now)
unfolding wait_loop
wait_loop_ready zero written queue bytes now timeout h some_bytes some_time = absurd (omega arith)
wait_loop_ready (suc fuel) written queue bytes now timeout h some_bytes some_time =
    rw (at_once now timeout some_time, lt→ltb 0 (length bytes) some_bytes) refl

-- Bytes that are there are noticed at once.
wait_for_chip_ready :
    (written queue : List (List ℕ)) (bytes : List ℕ) (now timeout : ℕ)
    → 0 < length bytes
    → 0 < timeout
    → wait_for_chip chip_bus timeout (chip written (bytes ∷ queue) now)
      ≡ (ok true, chip written (bytes ∷ queue) now)
unfolding wait_for_chip
wait_for_chip_ready written queue bytes now timeout some_bytes some_time =
    rw
      (wait_loop_ready (timeout / 10 + 2) written queue bytes now timeout (omega arith) some_bytes
        some_time)
      refl

either :
    (test : Bool) (bytes : List ℕ)
    → length bytes ≤ 261
    → take (if test then length bytes else 261) bytes ≡ bytes
either true bytes h = take-length bytes (length bytes) (omega arith)
either false bytes h = take-length bytes 261 h

all_read :
    (bytes : List ℕ)
    → length bytes ≤ 261
    → take (if ltb (length bytes) 261 then length bytes else 261) bytes ≡ bytes
all_read bytes h = either (ltb (length bytes) 261) bytes h

receive_frame_ready :
    (request : CommandRequest) (written : List (List ℕ)) (bytes : List ℕ) (now : ℕ)
    → 0 < request.response_timeout_ms
    → 0 < length bytes
    → length bytes ≤ 261
    → receive_frame chip_bus request (chip written (bytes ∷ []) now)
      ≡ (parse_response_frame bytes request.command_code, chip written [] (now + 20))
unfolding receive_frame
receive_frame_ready request written bytes now some_time some_bytes short =
    rw
      (
        wait_for_chip_ready written [] bytes now request.response_timeout_ms some_bytes some_time,
        ne→== (length bytes) 0 (λ h. omega arith),
        all_read bytes short,
      )
      refl

acknowledged : check_ack ack_frame ≡ true
unfolding check_ack starts_with
acknowledged = refl

-- The driver's transceive, with a chip that acknowledges and then has a frame of at most 261 bytes
-- ready, sends the built frame and hands out what the received frame parses to.
pub transceive-parse :
    (request : CommandRequest) (frame bytes : List ℕ) (written : List (List ℕ)) (now : ℕ)
    → build request ≡ ok frame
    → request.expects_data ≡ true
    → 0 < request.response_timeout_ms
    → 0 < length bytes
    → length bytes ≤ 261
    → transceive chip_bus request
        (record { written = written; queue = ack_frame ∷ bytes ∷ []; now = now })
      ≡ (
        parse_response_frame bytes request.command_code,
        record { written = frame ∷ replicate 10 0x00 ∷ written; queue = []; now = now + 20 },
      )
unfolding transceive
transceive-parse request frame bytes written now builds expects some_time some_bytes short =
    rw
      (
        builds,
        wait_for_chip_ready (frame ∷ replicate 10 0x00 ∷ written) (bytes ∷ []) ack_frame now 500
            (omega arith) (omega arith),
        acknowledged,
        expects,
      )
      (receive_frame_ready request (frame ∷ replicate 10 0x00 ∷ written) bytes now some_time
        some_bytes short)

module _ (apdu : List ℕ) where
  abbrev pub sent : CommandRequest
  sent = record {
    command_code = 0x40;
    payload = 0x01 ∷ apdu;
    response_timeout_ms = 5000;
    expects_data = true;
  }

  abbrev card_command : InDataExchange
  card_command = record {
    options = record { target_number = 1; payload = apdu; response_timeout_ms = 5000 };
    cached_status_byte = 0xFF;
    cached_response = [];
  }

  pub builds_sent : length apdu ≤ 255 → build_request card_command ≡ ok sent
  unfolding build_request
  builds_sent h =
      rw
        (
          push_all_fits 256 (0x01 ∷ []) apdu (omega arith),
          push_all_fits 300 [] (0x01 ∷ apdu) (omega arith),
        )
        refl

module _ (wire : WireKind) (apdu answer pre packet rest frame : List ℕ) (written : List (List ℕ))
    (now : ℕ) where
  -- Pn532ApduAdapter::transceive answers an APDU of at most 255 bytes whose request can be built
  -- with what the wire unwraps of the answer of the card, if the chip acknowledges the frame and
  -- then has a packet with status 0x00 and that answer ready, in at most 261 bytes, behind a
  -- prefix without 0xFF and before any further bytes.
  pub adapter_transceive-unwrap :
      length apdu ≤ 255
      → build (sent apdu) ≡ ok frame
      → IsQuiet pre
      → IsPacket tfi_device_to_host 0x41 (0x00 ∷ answer) packet
      → 0 < length (pre ++ (packet ++ rest))
      → length (pre ++ (packet ++ rest)) ≤ 261
      → adapter_transceive chip_bus wire
          (chip written (ack_frame ∷ (pre ++ (packet ++ rest)) ∷ []) now)
          apdu
        ≡ (unwrap wire answer, chip (frame ∷ replicate 10 0x00 ∷ written) [] (now + 20))
  unfolding adapter_transceive execute_command parse_data
  adapter_transceive-unwrap fits builds quiet is_packet some_bytes short =
      rw
        (
          push_all_fits 255 [] apdu (omega arith),
          builds_sent apdu fits,
          transceive-parse (sent apdu) frame (pre ++ (packet ++ rest)) written now builds refl
              (omega arith) some_bytes short,
          parse_response_frame-IsPacket pre packet rest (0x00 ∷ answer) 0x40 quiet is_packet,
        )
        refl
