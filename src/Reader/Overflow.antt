-- ===== src/Reader/Overflow.antt =====
-- Requests that are too long for the ISO wire and the adapter together.
use nfc_cpp.Base.{
  ℕ, suc, ◌+◌, ◌%◌, ◌^◌, ◌-◌, ltb, if◌then◌else◌, ◌≤◌, ◌≡◌, refl, ◌∙◌, ap, arith, List, [], ◌∷◌,
  ◌++◌, length, false, ◌<◌, length-append, some, Result, ok, err, fault,
}
use nfc_cpp.Base.Steps.{Step, after}
use nfc_cpp.Crypto.Ciphers.{Ciphers}
use nfc_cpp.Wire.{iso, wrap, iso_wrap}
use nfc_cpp.Desfire.Context.{DesfireContext}
use nfc_cpp.Desfire.Command.{IDesfireCommand, DesfireRequest}
use nfc_cpp.Desfire.Card.{Run, execute_round, execute_loop, execute_command}
use nfc_cpp.Desfire.Card.Round.{execute_round-after}
use nfc_cpp.Desfire.WriteData.{
  WriteDataCommand, write_data, effective_chunk_size, reset, resolve_communication_settings,
}
use nfc_cpp.Desfire.WriteData.Stores.{
  write_options, opens, validates, builds, asked, request, length-request, size-bounds,
}
use nfc_cpp.Pn532.Driver.{IHardwareBus}
use nfc_cpp.Pn532.Adapter.{adapter_transceive}
use nfc_cpp.Pn532.Adapter.Long.{adapter_transceive_long}
use nfc_cpp.Reader.{adapter}

-- CLA, INS, P1, P2, Lc and Le stand around the data.
length-iso_wrap :
    (ins : ℕ) (ds : List ℕ)
    → 247 ≤ length ds
    → length ds ≤ 255
    → (apdu : List ℕ) × (wrap iso (ins ∷ ds) ≡ ok apdu) × (253 ≤ length apdu)
unfolding wrap iso_wrap
length-iso_wrap ins [] long fits = absurd (omega arith)
length-iso_wrap ins (d ∷ ds) long fits = (
  0x90 ∷ ins ∷ 0x00 ∷ 0x00 ∷ (length (d ∷ ds) % 2 ^ 8) ∷ d ∷ (ds ++ (0x00 ∷ [])),
  ground arith,
  omega (arith, length-append ds (0x00 ∷ [])),
)

after_fault :
    {S A B : Type 0} (first : Result A) (s : S) (rest : A → Step S B)
    → first ≡ fault
    → (after (first, s) rest).0 ≡ fault
after_fault fault s rest h = refl
after_fault (ok a) s rest h = cc
after_fault (err e) s rest h = cc

-- A request with 247 to 255 bytes of data faults over the ISO wire.
pub execute_round_long :
    (b : IHardwareBus) (c : IDesfireCommand) (run : Run c.State b.Bus) (command : c.State)
    (request : DesfireRequest)
    → c.build_request run.command run.context ≡ (ok request, command)
    → 247 ≤ length request.request_data
    → length request.request_data ≤ 255
    → (execute_round iso (adapter b iso) c run).0 ≡ fault
execute_round_long b c run command request builds long fits =
    let (apdu, wraps, big) = length-iso_wrap request.command_code request.request_data long fits in
    let sent = adapter_transceive b iso run.link apdu in
    ap (λ (r : Result (Unit {0}) × Run c.State b.Bus). r.0)
      (execute_round-after iso (adapter b iso) c run command request apdu sent.0 sent.1 builds fits
        wraps refl)
    ∙ after_fault sent.0 _ _ (
        ap (λ (r : Result (List ℕ) × b.Bus). r.0) (adapter_transceive_long b iso run.link apdu big))

-- A fault in the first round ends the call.
command_fault :
    (b : IHardwareBus) (c : IDesfireCommand) (fuel : ℕ) (command : c.State) (bus : b.Bus)
    (context : DesfireContext)
    → c.is_complete (c.reset command) ≡ false
    → (execute_round iso
        (adapter b iso)
        c
        (record { command = c.reset command; link = bus; context = context })).0
      ≡ fault
    → (last : Run c.State b.Bus) × (execute_command iso
          (adapter b iso)
          c
          (suc fuel)
          command
          bus
          context
        ≡ some (fault, last))
unfolding execute_command execute_loop
command_fault b c fuel command bus context going h =
    let start : Run c.State b.Bus = record {
      command = c.reset command;
      link = bus;
      context = context;
    } in
    let faults : execute_round iso (adapter b iso) c start
        ≡ (fault, (execute_round iso (adapter b iso) c start).1) =
      ap (λ (r : Result (Unit {0})). (r, (execute_round iso (adapter b iso) c start).1)) h in
    ((execute_round iso (adapter b iso) c start).1, rw (going, faults) refl)

whole_chunk :
    (total cap : ℕ)
    → cap ≡ 240
    → 240 ≤ total
    → (if ltb (total - 0) cap then total - 0 else cap) ≡ 240
whole_chunk total cap h k = ground arith

-- WriteData of plain data with at least 240 bytes and the default chunk size, or one of at least
-- 240, over the ISO wire: the first request overflows a vector of the adapter or the driver.
pub write_data_overflow :
    (b : IHardwareBus) (c : Ciphers) (file_no offset : ℕ) (bytes : List ℕ)
    (chunk_size settings fuel : ℕ) (context : DesfireContext) (command : WriteDataCommand)
    (bus : b.Bus)
    → effective_chunk_size chunk_size ≡ 240
    → 240 ≤ length bytes
    → file_no ≤ 31
    → length bytes < 2 ^ 24
    → offset + length bytes ≤ 2 ^ 24
    → resolve_communication_settings settings context ≡ 0x00
    → (last : Run WriteDataCommand b.Bus) × (execute_command iso
          (adapter b iso)
          (write_data c)
          (suc fuel)
          (record command { options = write_options file_no offset bytes chunk_size settings })
          bus
          context
        ≡ some (fault, last))
write_data_overflow b c file_no offset bytes chunk_size settings fuel context command bus full long
      small few in_range plain =
    let opened =
      opens c file_no offset bytes chunk_size settings context command
        (validates c file_no offset bytes chunk_size settings context small (omega arith) few
          in_range plain)
        plain in
    let written : WriteDataCommand = record command {
      options = write_options file_no offset bytes chunk_size settings;
    } in
    command_fault b (write_data c) fuel written bus context refl (
      execute_round_long b (write_data c)
        (record { command = reset c written; link = bus; context = context })
        (asked c file_no offset bytes chunk_size settings context 0)
        (request c file_no offset bytes chunk_size settings context 0)
        (rw opened (builds c file_no offset bytes chunk_size settings context 0 (omega arith)))
        (omega (
          arith,
          length-request c file_no offset bytes chunk_size settings context 0 (omega arith),
          whole_chunk (length bytes) (effective_chunk_size chunk_size) full long,
        ))
        (omega (
          arith,
          length-request c file_no offset bytes chunk_size settings context 0 (omega arith),
          size-bounds c file_no offset bytes chunk_size settings context 0 (omega arith),
        )))
