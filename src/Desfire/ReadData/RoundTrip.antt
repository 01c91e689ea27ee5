-- ===== src/Desfire/ReadData/RoundTrip.antt =====
-- WriteData, and then ReadData of the same range.
use nfc_cpp.Base.{
  false, ℕ, ◌+◌, ◌≤◌, ◌<◌, ◌^◌, ◌≡◌, ap, ◌∙◌, arith, List, length, take, drop, some, ok,
}
use nfc_cpp.Crypto.Ciphers.{Ciphers}
use nfc_cpp.Wire.{WireKind}
use nfc_cpp.Desfire.Context.{DesfireContext}
use nfc_cpp.Desfire.Card.{IApduTransceiver, Run, execute_command}
use nfc_cpp.Desfire.Memory.{IsFileCard, take-overwrite, length-overwrite}
use nfc_cpp.Desfire.WriteData.{WriteDataCommand, resolve_communication_settings, write_data}
use nfc_cpp.Desfire.WriteData.Stores.{write_options, write_data-overwrite}
use nfc_cpp.Desfire.ReadData.{ReadDataCommand, ReadDataOptions, read_data}
use nfc_cpp.Desfire.ReadData.Reads.{read_data-take}

abbrev pub read_options : ℕ → ℕ → ℕ → ℕ → ℕ → ReadDataOptions
read_options file_no offset read_length chunk_size settings = record {
  file_no = file_no;
  offset = offset;
  read_length = read_length;
  chunk_size = chunk_size;
  communication_settings = settings;
}

module _ (c : Ciphers) (wire : WireKind) (t : IApduTransceiver) (file_no offset : ℕ)
    (bytes : List ℕ) (card : IsFileCard wire t file_no) (session : DesfireContext) where
  abbrev pub unauthenticated : DesfireContext
  unauthenticated = record session { authenticated = false }

  -- Outside a session, a plain ReadData of the range that a plain WriteData has just written, with
  -- whatever chunk sizes, reads the bytes that were written: 1 to 4096 bytes, in a file of the
  -- card that has room for them. Both calls succeed, with a fuel above the number of bytes.
  pub write_data-read_data :
      (fuel write_chunk read_chunk settings : ℕ) (writer : WriteDataCommand)
      (reader : ReadDataCommand) (link : t.Link)
      → length bytes < fuel
      → file_no ≤ 31
      → 0 < length bytes
      → length bytes ≤ 4096
      → offset + length bytes ≤ 2 ^ 24
      → offset + length bytes ≤ length (card.contents link)
      → resolve_communication_settings settings unauthenticated ≡ 0x00
      → (written : Run WriteDataCommand t.Link) × (execute_command wire t
            (write_data c)
            fuel
            (record writer { options = write_options file_no offset bytes write_chunk settings })
            link
            unauthenticated
          ≡ some (ok tt, written))
        × ((last : Run ReadDataCommand t.Link) × (execute_command wire t
                (read_data c)
                fuel
                (record reader {
                  options = read_options file_no offset (length bytes) read_chunk settings;
                })
                written.link
                written.context
              ≡ some (ok tt, last))
            × (last.command.bytes ≡ bytes))
  write_data-read_data fuel write_chunk read_chunk settings writer reader link enough small
        some_bytes few in_range room plain =
      let (next, wrote, stored) =
        write_data-overwrite c file_no offset bytes write_chunk settings unauthenticated wire t card
          fuel writer link enough small some_bytes (omega arith) in_range room plain in
      let kept : length (card.contents next) ≡ length (card.contents link) =
        ap length stored ∙ length-overwrite (card.contents link) offset bytes room in
      let (last, read, (got, rest)) =
        read_data-take c wire t (read_options file_no offset (length bytes) read_chunk settings)
          card session fuel reader next enough small some_bytes few in_range (omega (arith, kept))
          plain in
      (
        _,
        wrote,
        (
          last,
          read,
          got
              ∙ ap (λ (file : List ℕ). take (length bytes) (drop offset file)) stored
              ∙ take-overwrite (card.contents link) bytes offset room,
        ),
      )
