-- ===== src/Pn532/Adapter/Long.antt =====
-- APDUs that are too long for the adapter.
use nfc_cpp.Base.{
  ℕ, ◌≤◌, ◌<◌, ◌≡◌, refl, arith, inl, inr, Bool-cases, leb, leb→le, List, [], length, push_all,
  push_all_fits, ne→==, ◌∙◌, fault,
}
use nfc_cpp.Wire.{WireKind}
use nfc_cpp.Pn532.Request.{build}
use nfc_cpp.Pn532.Request.Laws.{build_oversize}
use nfc_cpp.Pn532.Driver.{IHardwareBus, transceive, execute_command}
use nfc_cpp.Pn532.Adapter.{adapter_transceive}
use nfc_cpp.Pn532.Adapter.Chip.{sent, builds_sent}

push_all_full : (apdu : List ℕ) → 255 < length apdu → push_all 255 [] apdu ≡ fault
push_all_full apdu h = ground arith

module _ (b : IHardwareBus) (wire : WireKind) (bus : b.Bus) (apdu : List ℕ) where
  wrapped :
      length apdu ≤ 255
      → build (sent apdu) ≡ fault
      → adapter_transceive b wire bus apdu ≡ (fault, bus)
  unfolding adapter_transceive execute_command transceive
  wrapped fits no_frame =
      rw (push_all_fits 255 [] apdu (omega arith), builds_sent apdu fits, no_frame) refl

  overflows : length apdu ≤ 255 → 253 ≤ length apdu → build (sent apdu) ≡ fault
  overflows fits long =
      build_oversize (sent apdu) (omega arith) (omega arith)
      ∙ rw (ne→== (length (sent apdu).payload) 253 (λ h. omega arith)) refl

  -- An APDU of 253 bytes or more overflows a vector of the adapter or the driver before anything
  -- is sent: over every bus the call faults, and the bus is as it was.
  pub adapter_transceive_long :
      253 ≤ length apdu → adapter_transceive b wire bus apdu ≡ (fault, bus)
  unfolding adapter_transceive
  adapter_transceive_long h = elim (Bool-cases (leb (length apdu) 255)) [
    | inl fits ↦
        wrapped (leb→le (length apdu) 255 fits) (overflows (leb→le (length apdu) 255 fits) h)
    | inr long ↦ rw (push_all_full apdu (ground arith)) refl
  ]
