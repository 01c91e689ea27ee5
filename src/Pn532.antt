-- ===== src/Pn532.antt =====
-- Include/Pn532 and Src/Pn532: frames, the driver and the commands of the PN532 reader chip.
-- Here are the values that pass between a command and the driver: CommandRequest.h,
-- Pn532ResponseFrame.h, CommandResponse.h and the constants of Pn532Constants.h.
pub mod Checksum
pub mod Request
pub mod Response
pub mod Driver
pub mod Adapter
mod Tests
use nfc_cpp.Base.{ℕ, Bool, List, [], ◌∷◌, length}

abbrev pub pn532_frame_max : ℕ
pn532_frame_max = 261

abbrev pub pn532_data_max : ℕ
pn532_data_max = 254

abbrev pub tfi_host_to_device : ℕ
tfi_host_to_device = 0xD4

abbrev pub tfi_device_to_host : ℕ
tfi_device_to_host = 0xD5

abbrev pub response_code_offset : ℕ
response_code_offset = 0x01

-- CommandRequest::MaxPayloadSize and Pn532ResponseFrame::MaxPayloadSize.
abbrev pub request_payload_max : ℕ
request_payload_max = 300

abbrev pub response_payload_max : ℕ
response_payload_max = 255

pub record CommandRequest : Type 0 where
  pub command_code : ℕ
  pub payload : List ℕ
  pub response_timeout_ms : ℕ
  pub expects_data : Bool

pub record Pn532ResponseFrame : Type 0 where
  pub command_code : ℕ
  pub payload : List ℕ

pub record CommandResponse : Type 0 where
  pub cmd : ℕ
  pub payload : List ℕ
