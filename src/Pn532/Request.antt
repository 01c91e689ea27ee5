-- ===== src/Pn532/Request.antt =====
-- Pn532RequestFrame::build, buildAck and buildNack of Src/Pn532/Pn532RequestFrame.cpp.
pub mod Laws
use nfc_cpp.Base.{ℕ, ◌+◌, ◌%◌, ◌^◌, List, [], ◌∷◌, length, leb, Error, from_pn532, if◌then◌else◌}
use nfc_cpp.Base.{Result, ok, ◌>>=◌, ◌>>◌, guard, push, push_all}
use nfc_cpp.Base.Codes.Pn532Error
use nfc_cpp.Pn532.{CommandRequest, pn532_frame_max, pn532_data_max, tfi_host_to_device}
use nfc_cpp.Pn532.Checksum.{calculate_checksum, calculate_length_checksum}

-- `const uint8_t frameLength = 2 + dataLength;` cuts the length to a byte before the test.
unfoldable pub build : CommandRequest → Result (List ℕ)
build request = do
  let frame_length = (2 + length request.payload) % 2 ^ 8
  guard (leb frame_length pn532_data_max) (from_pn532 Pn532Error.invalid_parameter)
  let start : List ℕ = 0x00 ∷ 0x00 ∷ 0xFF ∷ []
  frame ← push_all pn532_frame_max start (
      frame_length
      ∷ calculate_length_checksum frame_length
      ∷ tfi_host_to_device
      ∷ request.command_code
      ∷ [])
  frame ← push_all pn532_frame_max frame request.payload
  let head : List ℕ = tfi_host_to_device ∷ request.command_code ∷ []
  checksum_data ← push_all pn532_data_max head request.payload
  frame ← push pn532_frame_max frame (calculate_checksum checksum_data)
  push pn532_frame_max frame 0x00

abbrev pub build_ack : List ℕ
build_ack = 0x00 ∷ 0x00 ∷ 0xFF ∷ 0x00 ∷ 0xFF ∷ 0x00 ∷ []

abbrev pub build_nack : List ℕ
build_nack = 0x00 ∷ 0x00 ∷ 0xFF ∷ 0xFF ∷ 0x00 ∷ 0x00 ∷ []
