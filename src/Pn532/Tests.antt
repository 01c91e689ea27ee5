-- ===== src/Pn532/Tests.antt =====
-- The theorems on frames at concrete frames: GetFirmwareVersion and its answer.
use nfc_cpp.Base.{ℕ, ◌≡◌, ◌↔◌, refl, arith, List, [], ◌∷◌, ◌++◌, length, replicate, ok, fault, true}
use nfc_cpp.Pn532.{CommandRequest, tfi_host_to_device, tfi_device_to_host}
use nfc_cpp.Pn532.Checksum.{IsPacket}
use nfc_cpp.Pn532.Request.{build}
use nfc_cpp.Pn532.Request.Laws.{build-IsPacket, build_oversize}
use nfc_cpp.Pn532.Response.{parse_response_frame}
use nfc_cpp.Pn532.Response.Laws.{parse_response_frame-IsPacket, IsQuiet}
use nfc_cpp.Pn532.Response.Sound.{
  parse_response_frame-HoldsPacket, parse_response_frame-fault_iff, HoldsPacket, IsLenOne,
}

abbrev data_exchange : CommandRequest
data_exchange = record {
  command_code = 0x40;
  payload = 0x01 ∷ 0x60 ∷ [];
  response_timeout_ms = 500;
  expects_data = true;
}

abbrev too_long : CommandRequest
too_long = record {
  command_code = 0x40;
  payload = replicate 260 0x00;
  response_timeout_ms = 500;
  expects_data = true;
}

build-IsPacket_example :
    (frame : List ℕ) × (build data_exchange ≡ ok (frame ++ 0x00 ∷ []))
    × IsPacket tfi_host_to_device 0x40 (0x01 ∷ 0x60 ∷ []) frame
    × (length (frame ++ 0x00 ∷ []) ≡ 11)
build-IsPacket_example = build-IsPacket data_exchange (omega arith)

build_oversize_example : build too_long ≡ fault
build_oversize_example = build_oversize too_long (omega arith) (omega arith)

-- IC 0x32, version 1.6, all functions.
abbrev firmware : List ℕ
firmware = 0x32 ∷ 0x01 ∷ 0x06 ∷ 0x07 ∷ []

abbrev firmware_packet : List ℕ
firmware_packet =
    0x00 ∷ 0x00 ∷ 0xFF ∷ 0x06 ∷ 0xFA ∷ 0xD5 ∷ 0x03 ∷ 0x32 ∷ 0x01 ∷ 0x06 ∷ 0x07 ∷ 0xE8 ∷ []

abbrev firmware_packet-IsPacket : IsPacket tfi_device_to_host 0x03 firmware firmware_packet
firmware_packet-IsPacket = record {
  len = 0x06;
  lcs = 0xFA;
  dcs = 0xE8;
  bytes = refl;
  counts = refl;
  bounded = omega arith;
  length_zero = refl;
  data_zero = refl;
  lcs_byte = omega arith;
  dcs_byte = omega arith;
}

noise-IsQuiet : IsQuiet (0x01 ∷ [])
noise-IsQuiet = ground arith

parse_response_frame-IsPacket_example :
    parse_response_frame ((0x01 ∷ []) ++ (firmware_packet ++ 0x00 ∷ [])) 0x02
    ≡ ok (record { command_code = 0x03; payload = firmware })
parse_response_frame-IsPacket_example =
    parse_response_frame-IsPacket (0x01 ∷ []) firmware_packet (0x00 ∷ []) firmware 0x02
      noise-IsQuiet firmware_packet-IsPacket

parse_response_frame-HoldsPacket_example :
    HoldsPacket
      (firmware_packet ++ 0x00 ∷ [])
      0x02
      (record { command_code = 0x03; payload = firmware })
parse_response_frame-HoldsPacket_example =
    parse_response_frame-HoldsPacket (firmware_packet ++ 0x00 ∷ []) 0x02
      (record { command_code = 0x03; payload = firmware }) (omega arith) (omega arith)
      (parse_response_frame-IsPacket [] firmware_packet (0x00 ∷ []) firmware 0x02 tt
        firmware_packet-IsPacket)

-- Length 1 with its checksum, and the awaited code.
abbrev len_one : List ℕ
len_one = 0x00 ∷ 0x00 ∷ 0xFF ∷ 0x01 ∷ 0xFF ∷ 0xD5 ∷ 0x03 ∷ 0x00 ∷ []

parse_response_frame-fault_iff_example :
    (parse_response_frame len_one 0x02 ≡ fault) ↔ IsLenOne len_one 0x02
parse_response_frame-fault_iff_example = parse_response_frame-fault_iff len_one 0x02 (omega arith)
