-- ===== src/Desfire/WriteData/Tests.antt =====
-- The theorems on WriteData at a concrete card.
use nfc_cpp.Base.{ℕ, ◌≡◌, refl, arith, false, List, [], ◌∷◌, replicate, some, Result, ok}
use nfc_cpp.Crypto.Tests.{toy}
use nfc_cpp.Wire.{native, iso}
use nfc_cpp.Desfire.Tests.{aes_session}
use nfc_cpp.Desfire.Context.{DesfireContext, unknown}
use nfc_cpp.Desfire.Card.{IApduTransceiver, Run, execute_command}
use nfc_cpp.Desfire.Memory.{overwrite}
use nfc_cpp.Desfire.Memory.PlainCard.{plain_card, plain_file}
use nfc_cpp.Desfire.WriteData.{
  WriteDataCommand, initial, completed, write_data, resolve_communication_settings,
}
use nfc_cpp.Desfire.WriteData.Stores.{at, write_options, write_data-overwrite}
use nfc_cpp.Desfire.WriteData.Ends.{write_data_stops}

abbrev outside : DesfireContext
outside = record aes_session { authenticated = false }

abbrev letters : List ℕ
letters = 0x61 ∷ 0x62 ∷ 0x63 ∷ 0x64 ∷ 0x65 ∷ []

-- Five bytes in chunks of two.
abbrev pub writer : WriteDataCommand
writer = record {
  options = write_options 0x01 0x02 letters 2 0xFF;
  stage = initial;
  current_offset = 0;
  current_index = 0;
  last_chunk_length = 0;
  active_settings = 0x00;
  session_cipher = unknown;
  pending_iv = [];
  update_context_iv = false;
  legacy_des_crypto_mode = false;
}

plain : resolve_communication_settings 0xFF outside ≡ 0x00
unfolding resolve_communication_settings
plain = refl

write_data-overwrite_example :
    (last : List ℕ) × (execute_command native plain_card
        (write_data toy)
        6
        writer
        (replicate 8 0x00)
        outside
      ≡ some (
        ok tt,
        record {
          command = at toy 0x01 0x02 letters 2 0xFF outside 5 completed;
          link = last;
          context = outside;
        },
      ))
    × (last ≡ overwrite (replicate 8 0x00) 0x02 letters)
write_data-overwrite_example =
    write_data-overwrite toy 0x01 0x02 letters 2 0xFF outside native plain_card (plain_file 0x01) 6
      writer (replicate 8 0x00) (omega arith) (omega arith) (omega arith) (omega arith)
      (omega arith) (omega arith) plain

-- A card that answers everything by 0xAF.
abbrev stubborn : IApduTransceiver
stubborn = record { Link = Unit {0}; transceive = λ link apdu. (ok (0xAF ∷ []), link) }

write_data_stops_example :
    (end : Result (Unit {0}) × Run WriteDataCommand (Unit {0})) × (execute_command iso stubborn
        (write_data toy)
        7
        writer
        tt
        aes_session
      ≡ some end)
write_data_stops_example = write_data_stops toy iso stubborn 7 writer tt aes_session (omega arith)
