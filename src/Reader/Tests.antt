-- ===== src/Reader/Tests.antt =====
-- The theorems on the card behind the PN532 at a concrete chip.
use nfc_cpp.Base.{
  ℕ, ◌≡◌, refl, arith, false, List, [], ◌∷◌, ◌++◌, replicate, some, Result, ok, fault,
}
use nfc_cpp.Crypto.Tests.{toy}
use nfc_cpp.Wire.{iso}
use nfc_cpp.Pn532.{tfi_device_to_host}
use nfc_cpp.Pn532.Checksum.{IsPacket}
use nfc_cpp.Pn532.Response.{ack_frame}
use nfc_cpp.Pn532.Adapter.Chip.{Chip, chip_bus}
use nfc_cpp.Desfire.Context.{DesfireContext, CommMode, SessionAuthScheme, unknown}
use nfc_cpp.Desfire.Card.{Run, execute_command}
use nfc_cpp.Desfire.Card.Selection.{selection_outcome}
use nfc_cpp.Desfire.Command.Select.{SelectApplicationCommand, select_application}
use nfc_cpp.Desfire.WriteData.{
  WriteDataCommand, initial, write_data, effective_chunk_size, resolve_communication_settings,
}
use nfc_cpp.Desfire.WriteData.Stores.{write_options}
use nfc_cpp.Reader.{adapter}
use nfc_cpp.Reader.Overflow.{write_data_overflow}
use nfc_cpp.Reader.Selection.{select_application-chip}

abbrev fresh_context : DesfireContext
fresh_context = record {
  authenticated = false;
  comm_mode = CommMode.plain;
  auth_scheme = SessionAuthScheme.none;
  session_key_enc = [];
  session_key_mac = [];
  iv = [];
  session_enc_rnd_b = [];
  key_no = 0;
  selected_aid = 0x00 ∷ 0x00 ∷ 0x00 ∷ [];
}

-- 91 00 behind the status byte of the chip.
abbrev packet : List ℕ
packet = 0x00 ∷ 0x00 ∷ 0xFF ∷ 0x05 ∷ 0xFB ∷ 0xD5 ∷ 0x41 ∷ 0x00 ∷ 0x91 ∷ 0x00 ∷ 0x59 ∷ []

packet-IsPacket : IsPacket tfi_device_to_host 0x41 (0x00 ∷ 0x91 ∷ 0x00 ∷ []) packet
packet-IsPacket = record {
  len = 0x05;
  lcs = 0xFB;
  dcs = 0x59;
  bytes = refl;
  counts = refl;
  bounded = omega arith;
  length_zero = refl;
  data_zero = refl;
  lcs_byte = omega arith;
  dcs_byte = omega arith;
}

select_application-chip_example :
    (end : Result (Unit {0}) × Run SelectApplicationCommand Chip) × (execute_command iso
        (adapter chip_bus iso)
        select_application
        2
        (record { aid = 0x01 ∷ 0x02 ∷ 0x03 ∷ []; complete = false })
        (record { written = []; queue = ack_frame ∷ ([] ++ (packet ++ 0x00 ∷ [])) ∷ []; now = 0 })
        fresh_context
      ≡ some end)
    × ((end.0, end.1.context)
        ≡ selection_outcome fresh_context (0x01 ∷ 0x02 ∷ 0x03 ∷ []) (ok (0x00 ∷ [])))
select_application-chip_example =
    select_application-chip 0x01 0x02 0x03 0x00 0 false fresh_context [] packet (0x00 ∷ []) [] 0 tt
      packet-IsPacket (omega arith) (omega arith)

abbrev writer : WriteDataCommand
writer = record {
  options = write_options 0x01 0 (replicate 300 0x55) 0 0x00;
  stage = initial;
  current_offset = 0;
  current_index = 0;
  last_chunk_length = 0;
  active_settings = 0x00;
  session_cipher = unknown;
  pending_iv = [];
  update_context_iv = false;
  legacy_des_crypto_mode = false;
}

default_size : effective_chunk_size 0 ≡ 240
unfolding effective_chunk_size
default_size = refl

plain : resolve_communication_settings 0x00 fresh_context ≡ 0x00
unfolding resolve_communication_settings
plain = refl

write_data_overflow_example :
    (last : Run WriteDataCommand Chip) × (execute_command iso
        (adapter chip_bus iso)
        (write_data toy)
        3
        writer
        (record { written = []; queue = []; now = 7 })
        fresh_context
      ≡ some (fault, last))
write_data_overflow_example =
    write_data_overflow chip_bus toy 0x01 0 (replicate 300 0x55) 0 0x00 2 fresh_context writer
      (record { written = []; queue = []; now = 7 }) default_size (omega arith) (omega arith)
      (omega arith) (omega arith) plain
