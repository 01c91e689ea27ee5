-- ===== src/Pn532/Adapter/Tests.antt =====
-- The theorems on the driver and the adapter at a concrete chip.
use nfc_cpp.Base.{ℕ, ◌≡◌, refl, arith, Bool, List, [], ◌∷◌, ◌++◌, replicate, ok, fault}
use nfc_cpp.Wire.{native, iso, unwrap}
use nfc_cpp.Pn532.{tfi_device_to_host}
use nfc_cpp.Pn532.Checksum.{IsPacket, calculate_checksum, calculate_length_checksum}
use nfc_cpp.Pn532.Request.{build}
use nfc_cpp.Pn532.Response.{ack_frame}
use nfc_cpp.Pn532.Driver.{wait_for_chip}
use nfc_cpp.Pn532.Driver.Waits.{IsTimely, wait_for_chip-returns}
use nfc_cpp.Pn532.Adapter.{adapter_transceive}
use nfc_cpp.Pn532.Adapter.Chip.{Chip, chip_bus, sent, adapter_transceive-unwrap}
use nfc_cpp.Pn532.Adapter.Long.{adapter_transceive_long}

chip_bus-IsTimely : IsTimely chip_bus
chip_bus-IsTimely = record {
  tick-lt = λ chip. omega arith;
  delays = λ chip ms. (0, omega arith, omega arith);
}

abbrev silent : Chip
silent = record { written = []; queue = []; now = 7 }

wait_for_chip-returns_example :
    (answered : Bool) × (next : Chip) × (wait_for_chip chip_bus 500 silent ≡ (ok answered, next))
wait_for_chip-returns_example =
    wait_for_chip-returns chip_bus 500 silent chip_bus-IsTimely (omega arith)

-- GetVersion, on the native wire, answered with status 0x00.
abbrev apdu : List ℕ
apdu = 0x60 ∷ []

abbrev packet : List ℕ
packet = 0x00 ∷ 0x00 ∷ 0xFF ∷ 0x04 ∷ 0xFC ∷ 0xD5 ∷ 0x41 ∷ 0x00 ∷ 0x00 ∷ 0xEA ∷ []

packet-IsPacket : IsPacket tfi_device_to_host 0x41 (0x00 ∷ 0x00 ∷ []) packet
packet-IsPacket = record {
  len = 0x04;
  lcs = 0xFC;
  dcs = 0xEA;
  bytes = refl;
  counts = refl;
  bounded = omega arith;
  length_zero = refl;
  data_zero = refl;
  lcs_byte = omega arith;
  dcs_byte = omega arith;
}

abbrev frame : List ℕ
frame = 0x00 ∷ 0x00 ∷ 0xFF ∷ 0x04 ∷ 0xFC ∷ 0xD4 ∷ 0x40 ∷ 0x01 ∷ 0x60 ∷ 0x8B ∷ 0x00 ∷ []

builds : build (sent apdu) ≡ ok frame
unfolding build calculate_checksum calculate_length_checksum
builds = refl

adapter_transceive-unwrap_example :
    adapter_transceive chip_bus native
      (record { written = []; queue = ack_frame ∷ ([] ++ (packet ++ 0x00 ∷ [])) ∷ []; now = 0 })
      apdu
    ≡ (
      unwrap native (0x00 ∷ []),
      record { written = frame ∷ replicate 10 0x00 ∷ []; queue = []; now = 20 },
    )
adapter_transceive-unwrap_example =
    adapter_transceive-unwrap native apdu (0x00 ∷ []) [] packet (0x00 ∷ []) frame [] 0 (omega arith)
      builds tt packet-IsPacket (omega arith) (omega arith)

adapter_transceive_long_example :
    adapter_transceive chip_bus iso silent (replicate 253 0x21) ≡ (fault, silent)
adapter_transceive_long_example =
    adapter_transceive_long chip_bus iso silent (replicate 253 0x21) (omega arith)
