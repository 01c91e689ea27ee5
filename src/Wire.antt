-- ===== src/Wire.antt =====
-- Include/Nfc/Wire and Src/Nfc/Wire: the wires that turn a DESFire PDU into the bytes sent to the
-- card and the card's answer into [status][data...], and ApduResponse of Include/Nfc/Apdu.
-- A PDU, an APDU and an answer are byte lists; a push past a vector's capacity is a fault.
pub mod Iso
mod Tests
use nfc_cpp.Base.{ℕ, ◌+◌, ◌*◌, ◌-◌, ◌%◌, ◌^◌, Bool, ◌&&◌, ◌==◌, List, [], ◌∷◌, not}
use nfc_cpp.Base.{length, take, if◌then◌else◌, Error, from_apdu}
use nfc_cpp.Base.{Result, ok, err, ◌>>=◌, ◌>>◌, guard, read, slice, push_all, leb, ltb}
use nfc_cpp.Base.Codes.ApduError

abbrev pub apdu_command_max : ℕ
apdu_command_max = 261

abbrev pub apdu_data_max : ℕ
apdu_data_max = 256

abbrev pub apdu_status_size : ℕ
apdu_status_size = 2

-- IsoWire::wrap. `pdu.size() - 1` is cut to a byte for Lc.
unfoldable pub iso_wrap : List ℕ → Result (List ℕ)
iso_wrap [] = ok []
iso_wrap (ins ∷ []) = push_all apdu_command_max [] (0x90 ∷ ins ∷ 0x00 ∷ 0x00 ∷ 0x00 ∷ [])
iso_wrap (ins ∷ d ∷ ds) = do
  let lc = length (d ∷ ds) % 2 ^ 8
  apdu ← push_all apdu_command_max [] (0x90 ∷ ins ∷ 0x00 ∷ 0x00 ∷ lc ∷ [])
  apdu ← push_all apdu_command_max apdu (d ∷ ds)
  push_all apdu_command_max apdu (0x00 ∷ [])

-- IsoWire::unwrap: [data...][SW1][SW2] becomes [SW2][data...].
unfoldable pub iso_unwrap : List ℕ → Result (List ℕ)
iso_unwrap apdu = do
  guard (leb apdu_status_size (length apdu)) (from_apdu ApduError.wrong_length)
  sw1 ← read apdu (length apdu - 2)
  sw2 ← read apdu (length apdu - 1)
  guard (not (not (sw1 == 0x90) && not (sw1 == 0x91))) (from_apdu ApduError.unknown)
  answer ← slice apdu 0 (length apdu - apdu_status_size)
  push_all apdu_data_max (sw2 ∷ []) answer

-- NativeWire::wrap and NativeWire::unwrap copy their argument.
unfoldable pub native_wrap : List ℕ → Result (List ℕ)
native_wrap pdu = push_all apdu_command_max [] pdu

unfoldable pub native_unwrap : List ℕ → Result (List ℕ)
native_unwrap apdu = push_all apdu_data_max [] apdu

pub data WireKind : Type 0 where
  native iso : WireKind

-- The virtual calls of IWire.
unfoldable pub wrap : WireKind → List ℕ → Result (List ℕ)
wrap native pdu = native_wrap pdu
wrap iso pdu = iso_wrap pdu

unfoldable pub unwrap : WireKind → List ℕ → Result (List ℕ)
unwrap native apdu = native_unwrap apdu
unwrap iso apdu = iso_unwrap apdu

pub record ApduResponse : Type 0 where
  pub answer : List ℕ
  pub sw1 : ℕ
  pub sw2 : ℕ

unfoldable pub is_success : ApduResponse → Bool
is_success r = (r.sw1 == 0x90) && (r.sw2 == 0x00)

-- (sw1 << 8) | sw2
unfoldable pub get_status_word : ApduResponse → ℕ
get_status_word r = r.sw1 * 2 ^ 8 + r.sw2
