-- ===== src/Base/Codes/ApduError.antt =====
-- Include/Error/ApduError.h.
use Prim.Native.Nat.{ℕ}

abbrev pub wrong_length : ℕ
wrong_length = 1

abbrev pub unknown : ℕ
unknown = 6
