-- ===== src/Base/Codes/DesfireError.antt =====
-- Include/Error/DesfireError.h.
use Prim.Native.Nat.{ℕ}

abbrev pub integrity_error : ℕ
integrity_error = 0x1E

abbrev pub length_error : ℕ
length_error = 0x7E

abbrev pub parameter_error : ℕ
parameter_error = 0x9E

abbrev pub authentication_error : ℕ
authentication_error = 0xAE

abbrev pub additional_frame : ℕ
additional_frame = 0xAF

abbrev pub invalid_state : ℕ
invalid_state = 0xFE

abbrev pub invalid_response : ℕ
invalid_response = 0xFF

abbrev pub authentication_failed : ℕ
authentication_failed = 0xFD
