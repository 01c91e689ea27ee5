-- ===== src/Reader/Selection.antt =====
-- DesfireCard::selectApplication from the call down to the bytes on the bus and back.
use nfc_cpp.Base.{
  ℕ, suc, ◌+◌, ◌≤◌, ◌<◌, ◌≡◌, refl, ap, arith, Bool, List, [], ◌∷◌, ◌++◌, length, some, Result, ok,
  slice, replicate, ◌∙◌,
}
use nfc_cpp.Wire.{iso, wrap, iso_wrap, unwrap, iso_unwrap}
use nfc_cpp.Desfire.Context.{DesfireContext}
use nfc_cpp.Desfire.Command.Select.{SelectApplicationCommand, select_application}
use nfc_cpp.Desfire.Card.{Run, execute_command}
use nfc_cpp.Desfire.Card.Selection.{select_application-outcome, selection_outcome}
use nfc_cpp.Pn532.{tfi_device_to_host}
use nfc_cpp.Pn532.Checksum.{IsPacket}
use nfc_cpp.Pn532.Request.Laws.{build-IsPacket}
use nfc_cpp.Pn532.Response.{ack_frame}
use nfc_cpp.Pn532.Response.Laws.{IsQuiet}
use nfc_cpp.Pn532.Adapter.Chip.{Chip, chip_bus, adapter_transceive-unwrap, sent}
use nfc_cpp.Reader.{adapter}

unwraps : (status : ℕ) → unwrap iso (0x91 ∷ status ∷ []) ≡ ok (status ∷ [])
unfolding unwrap iso_unwrap slice
unwraps status = refl

short : (status : ℕ) (bytes : List ℕ) → ok (status ∷ []) ≡ ok bytes → length bytes ≤ 257
short status [] h = omega arith
short status (b ∷ []) h = omega arith
short status (b ∷ b' ∷ bs) h = cc

module _ (a0 a1 a2 status : ℕ) where
  abbrev pub apdu : List ℕ
  apdu = 0x90 ∷ 0x5A ∷ 0x00 ∷ 0x00 ∷ 0x03 ∷ a0 ∷ a1 ∷ a2 ∷ 0x00 ∷ []

  wraps : wrap iso (0x5A ∷ a0 ∷ a1 ∷ a2 ∷ []) ≡ ok apdu
  unfolding wrap iso_wrap
  wraps = refl

  -- With the PN532 on the bus, the ISO wire and a card that answers SelectApplication with the
  -- status word 91xx, in a packet of the chip behind a prefix without 0xFF and before any further
  -- bytes, at most 261 bytes in all, selectApplication ends and reports what that status means:
  -- the application is entered and the session dropped on 0x00 alone.
  pub select_application-chip :
      (fuel : ℕ) (complete : Bool) (context : DesfireContext) (pre packet rest : List ℕ)
      (written : List (List ℕ)) (now : ℕ)
      → IsQuiet pre
      → IsPacket tfi_device_to_host 0x41 (0x00 ∷ 0x91 ∷ status ∷ []) packet
      → 0 < length (pre ++ (packet ++ rest))
      → length (pre ++ (packet ++ rest)) ≤ 261
      → (end : Result (Unit {0}) × Run SelectApplicationCommand Chip) × (execute_command iso
            (adapter chip_bus iso)
            select_application
            (suc (suc fuel))
            (record { aid = a0 ∷ a1 ∷ a2 ∷ []; complete = complete })
            (record {
              written = written;
              queue = ack_frame ∷ (pre ++ (packet ++ rest)) ∷ [];
              now = now;
            })
            context
          ≡ some end)
        × ((end.0, end.1.context)
            ≡ selection_outcome context (a0 ∷ a1 ∷ a2 ∷ []) (ok (status ∷ [])))
  select_application-chip fuel complete context pre packet rest written now quiet is_packet
        some_bytes few =
      let (frame, builds, framed, size) = build-IsPacket (sent apdu) (omega arith) in
      let next : Chip = record {
        written = (frame ++ 0x00 ∷ []) ∷ replicate 10 0x00 ∷ written;
        queue = [];
        now = now + 20;
      } in
      select_application-outcome iso (adapter chip_bus iso) fuel
        (record { aid = a0 ∷ a1 ∷ a2 ∷ []; complete = complete }) context apdu
        (record {
          written = written;
          queue = ack_frame ∷ (pre ++ (packet ++ rest)) ∷ [];
          now = now;
        })
        next (ok (status ∷ [])) wraps refl
        (adapter_transceive-unwrap iso apdu (0x91 ∷ status ∷ []) pre packet rest
            (frame ++ 0x00 ∷ []) written now (omega arith) builds quiet is_packet some_bytes few
          ∙ ap (λ (r : Result (List ℕ)). (r, next)) (unwraps status))
        (short status)
