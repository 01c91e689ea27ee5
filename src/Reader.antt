-- ===== src/Reader.antt =====
-- DesfireCard::executeCommand over Pn532ApduAdapter, with the wire that both are given: the parts
-- of Src/Nfc/Desfire/DesfireCard.cpp and Src/Pn532/Pn532ApduAdapter.cpp put together.
pub mod Overflow
pub mod Selection
mod Tests
use nfc_cpp.Wire.{WireKind}
use nfc_cpp.Desfire.Card.{IApduTransceiver}
use nfc_cpp.Pn532.Driver.{IHardwareBus}
use nfc_cpp.Pn532.Adapter.{adapter_transceive}

-- Pn532ApduAdapter as an IApduTransceiver.
abbrev pub adapter : IHardwareBus → WireKind → IApduTransceiver
adapter b wire = record { Link = b.Bus; transceive = adapter_transceive b wire }
