-- ===== src/Wire/Tests.antt =====
-- The theorems on the wires at concrete APDUs: GetVersion, a read of a file, and card answers.
use nfc_cpp.Base.{ℕ, ◌≡◌, arith, List, [], ◌∷◌, ◌++◌, some, ok}
use nfc_cpp.Wire.{iso_wrap, iso_unwrap}
use nfc_cpp.Wire.Iso.{read_command, status_answer, read_command-iso_wrap, iso_unwrap-status_answer}

-- ReadData: file 1, offset 0, length 16.
abbrev read_pdu : List ℕ
read_pdu = 0x01 ∷ 0x00 ∷ 0x00 ∷ 0x00 ∷ 0x10 ∷ 0x00 ∷ 0x00 ∷ []

read_command-iso_wrap_example :
    (apdu : List ℕ) × (iso_wrap (0xBD ∷ read_pdu) ≡ ok apdu)
    × (read_command apdu ≡ some (0xBD ∷ read_pdu))
read_command-iso_wrap_example = read_command-iso_wrap 0xBD read_pdu (omega arith)

iso_unwrap-status_answer_example :
    iso_unwrap ((0x04 ∷ 0x01 ∷ []) ++ 0x91 ∷ 0xAF ∷ []) ≡ status_answer (0x04 ∷ 0x01 ∷ []) 0x91 0xAF
iso_unwrap-status_answer_example = iso_unwrap-status_answer (0x04 ∷ 0x01 ∷ []) 0x91 0xAF
