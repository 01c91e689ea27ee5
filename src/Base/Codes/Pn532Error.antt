-- ===== src/Base/Codes/Pn532Error.antt =====
-- Include/Error/Pn532Error.h.
use Prim.Native.Nat.{ℕ}

abbrev pub timeout : ℕ
timeout = 0x01

abbrev pub invalid_parameter : ℕ
invalid_parameter = 0x10

abbrev pub invalid_ack_frame : ℕ
invalid_ack_frame = 0xF1

abbrev pub frame_check_failed : ℕ
frame_check_failed = 0xF5

abbrev pub invalid_response : ℕ
invalid_response = 0xF6
