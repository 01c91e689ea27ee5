-- ===== src/Base/Codes/CardManagerError.antt =====
-- Include/Error/CardManagerError.h.
use Prim.Native.Nat.{ℕ}

abbrev pub no_card_present : ℕ
no_card_present = 1
