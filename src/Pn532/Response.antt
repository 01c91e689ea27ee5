-- ===== src/Pn532/Response.antt =====
-- Pn532Driver::parseResponseFrame and checkAck of Src/Pn532/Pn532Driver.cpp. Log lines are left out.
pub mod Ack
pub mod Packet
pub mod Shape
pub mod Laws
pub mod Sound
use nfc_cpp.Base.{
  ℕ, ◌+◌, ◌-◌, ◌%◌, ◌^◌, Bool, true, false, ◌&&◌, ◌||◌, not, List, [], ◌∷◌, length, ltb,
}
use nfc_cpp.Base.{leb, ◌==◌, Option, none, some, if◌then◌else◌, Error, from_pn532}
use nfc_cpp.Base.{Result, ok, err, ◌>>=◌, ◌>>◌, guard, read, slice, push_all}
use nfc_cpp.Base.Codes.Pn532Error
use nfc_cpp.Pn532.{Pn532ResponseFrame, pn532_data_max, tfi_device_to_host, response_code_offset}
use nfc_cpp.Pn532.{response_payload_max}
use nfc_cpp.Pn532.Checksum.{byte_sum, negate}

abbrev pub frame_check_failed : Error
frame_check_failed = from_pn532 Pn532Error.frame_check_failed

-- The search for 0x00 0x00 0xFF at `i + 2 < frame.size()`; the list is the frame from `i` on.
unfoldable pub find_start : List ℕ → ℕ → Option ℕ
find_start (a ∷ b ∷ c ∷ rest) i =
    if (a == 0x00) && ((b == 0x00) && (c == 0xFF))
    then some i
    else find_start (b ∷ c ∷ rest) (i + 1)
find_start _ i = none

-- Everything behind the start code, at `index`. `packetLength - 2` is an `int` that is stored in a
-- `size_t`, so it wraps at length 1.
unfoldable pub parse_packet : List ℕ → ℕ → ℕ → Result Pn532ResponseFrame
parse_packet frame index sent = do
  guard (leb (index + 2) (length frame)) frame_check_failed
  packet_length ← read frame index
  guard (not ((packet_length == 0) || ltb pn532_data_max packet_length)) frame_check_failed
  length_checksum ← read frame (index + 1)
  guard ((packet_length + length_checksum) % 2 ^ 8 == 0x00) frame_check_failed
  guard (leb (index + 2 + packet_length + 1) (length frame)) frame_check_failed
  direction_byte ← read frame (index + 2)
  guard (direction_byte == tfi_device_to_host) frame_check_failed
  command_code ← read frame (index + 3)
  guard (command_code == (sent + response_code_offset) % 2 ^ 8)
      (from_pn532 Pn532Error.invalid_response)
  let payload_length = (packet_length + (2 ^ 64 - 2)) % 2 ^ 64
  payload_bytes ← slice frame (index + 4) payload_length
  payload ← push_all response_payload_max [] payload_bytes
  received_checksum ← read frame (index + 4 + payload_length)
  summed ← slice frame (index + 2) packet_length
  guard (received_checksum == negate (byte_sum 0 summed)) frame_check_failed
  ok (record { command_code = command_code; payload = payload })

unfoldable pub parse_response_frame : List ℕ → ℕ → Result Pn532ResponseFrame
parse_response_frame frame sent = elim (find_start frame 0) [
  | none ↦ err frame_check_failed
  | some index ↦ parse_packet frame (index + 3) sent
]

abbrev pub ack_frame : List ℕ
ack_frame = 0x00 ∷ 0x00 ∷ 0xFF ∷ 0x00 ∷ 0xFF ∷ 0x00 ∷ []

-- The comparing loop of checkAck, over the expected bytes.
unfoldable pub starts_with : List ℕ → List ℕ → Bool
starts_with buffer [] = true
starts_with [] (e ∷ es) = false
starts_with (b ∷ bs) (e ∷ es) = (b == e) && starts_with bs es

unfoldable pub check_ack : List ℕ → Bool
unfolding starts_with
check_ack buffer =
    if ltb (length buffer) (length ack_frame) then false else starts_with buffer ack_frame
