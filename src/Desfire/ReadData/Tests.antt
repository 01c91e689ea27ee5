-- ===== src/Desfire/ReadData/Tests.antt =====
-- The theorems on ReadData at concrete cards.
use nfc_cpp.Base.{
  ℕ, ◌≡◌, refl, arith, true, false, List, [], ◌∷◌, replicate, take, drop, none, some, ok,
}
use nfc_cpp.Crypto.Tests.{toy, toy-IsSized, toy-IsAesInverse}
use nfc_cpp.Wire.{native, iso}
use nfc_cpp.Desfire.Tests.{aes_session}
use nfc_cpp.Desfire.Context.{DesfireContext, SessionCipher, unknown}
use nfc_cpp.Desfire.Card.{IApduTransceiver, Run, execute_command}
use nfc_cpp.Desfire.Memory.PlainCard.{plain_card, plain_file}
use nfc_cpp.Desfire.WriteData.{Stage as WriteStage}
use nfc_cpp.Desfire.WriteData.{
  WriteDataCommand, write_data, resolve_communication_settings, has_settings, effective_chunk_size,
}
use nfc_cpp.Desfire.WriteData.Stores.{write_options}
use nfc_cpp.Desfire.ReadData.{
  ReadDataCommand, ReadDataOptions, initial, read_data, validate_options,
}
use nfc_cpp.Desfire.ReadData.Decoding.{search_chunk}
use nfc_cpp.Desfire.ReadData.Reads.{read_data-take}
use nfc_cpp.Desfire.ReadData.RoundTrip.{read_options, write_data-read_data}
use nfc_cpp.Desfire.ReadData.Endless.{read_data_endless}
use nfc_cpp.Desfire.ReadData.Accepts.{search_chunk-card_frame, card_frame}

abbrev outside : DesfireContext
outside = record aes_session { authenticated = false }

abbrev file : List ℕ
file = 0x10 ∷ 0x11 ∷ 0x12 ∷ 0x13 ∷ 0x14 ∷ 0x15 ∷ []

abbrev options : ReadDataOptions
options = read_options 0x01 0x01 4 3 0x00

abbrev reader : ReadDataCommand
reader = record {
  options = options;
  stage = initial;
  current_offset = 0;
  remaining_length = 0;
  last_requested_chunk_length = 0;
  frame_data = [];
  bytes = [];
  active_settings = 0x00;
  session_cipher = unknown;
  request_iv = [];
  has_request_iv = false;
}

plain : resolve_communication_settings 0x00 outside ≡ 0x00
unfolding resolve_communication_settings
plain = refl

read_data-take_example :
    (last : Run ReadDataCommand (List ℕ)) × (execute_command native plain_card
        (read_data toy)
        5
        reader
        file
        outside
      ≡ some (ok tt, last))
    × ((last.command.bytes ≡ take 4 (drop 1 file))
        × ((last.link ≡ file) × (last.context ≡ outside)))
read_data-take_example =
    read_data-take toy native plain_card options (plain_file 0x01) aes_session 5 reader file
      (omega arith) (omega arith) (omega arith) (omega arith) (omega arith) (omega arith) plain

abbrev writer : WriteDataCommand
writer = record {
  options = write_options 0x01 0x01 (0x0A ∷ 0x0B ∷ 0x0C ∷ []) 2 0x00;
  stage = WriteStage.initial;
  current_offset = 0;
  current_index = 0;
  last_chunk_length = 0;
  active_settings = 0x00;
  session_cipher = unknown;
  pending_iv = [];
  update_context_iv = false;
  legacy_des_crypto_mode = false;
}

write_data-read_data_example :
    (written : Run WriteDataCommand (List ℕ)) × (execute_command native plain_card
        (write_data toy)
        4
        writer
        file
        outside
      ≡ some (ok tt, written))
    × ((last : Run ReadDataCommand (List ℕ)) × (execute_command native plain_card
            (read_data toy)
            4
            (record reader { options = read_options 0x01 0x01 3 1 0x00 })
            written.link
            written.context
          ≡ some (ok tt, last))
        × (last.command.bytes ≡ 0x0A ∷ 0x0B ∷ 0x0C ∷ []))
write_data-read_data_example =
    write_data-read_data toy native plain_card 0x01 0x01 (0x0A ∷ 0x0B ∷ 0x0C ∷ []) (plain_file 0x01)
      aes_session 4 2 1 0x00 writer reader file (omega arith) (omega arith) (omega arith)
      (omega arith) (omega arith) (omega arith) plain

-- A card that answers everything by 0xAF.
abbrev stubborn : IApduTransceiver
stubborn = record { Link = Unit {0}; transceive = λ link apdu. (ok (0xAF ∷ []), link) }

valid : validate_options options ≡ true
unfolding validate_options has_settings effective_chunk_size
valid = refl

read_data_endless_example :
    execute_command iso stubborn (read_data toy) 1000 reader tt outside ≡ none
read_data_endless_example =
    read_data_endless toy iso stubborn aes_session 1000 reader tt (λ link apdu. (link, refl)) valid
      (omega arith) plain

-- A chunk of twelve bytes fills a block with its checksum.
abbrev twelve : List ℕ
twelve = replicate 12 0x5A

search_chunk-card_frame_example :
    search_chunk toy aes_session SessionCipher.aes
      (0xBD ∷ 0x01 ∷ [])
      12
      (card_frame toy toy-IsSized toy-IsAesInverse aes_session (0xBD ∷ 0x01 ∷ []) twelve 0)
      false
      []
    ≡ ok (
        some (
          twelve,
          card_frame toy toy-IsSized toy-IsAesInverse aes_session (0xBD ∷ 0x01 ∷ []) twelve 0,
        ))
search_chunk-card_frame_example =
    search_chunk-card_frame toy toy-IsSized toy-IsAesInverse aes_session (0xBD ∷ 0x01 ∷ []) twelve 0
      false [] (omega arith) refl (omega arith) refl (omega arith)
