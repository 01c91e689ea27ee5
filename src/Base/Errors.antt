-- ===== src/Base/Errors.antt =====
-- Include/Error/Error.h and the enumerations beside it. `Error` pairs a layer with the layer's
-- code; each factory fixes both, so a constructor stands for a factory. The enumerations have the
-- underlying type `uint8_t` and some codes are cast from a received byte, so a code is a number.
use Prim.Native.Nat.{ℕ}

pub data ErrorLayer : Type 0 where
  hardware link pn532 rc522 card_manager apdu desfire : ErrorLayer

pub data Error : Type 0 where
  from_hardware from_link from_pn532 from_rc522 : ℕ → Error
  from_card_manager from_apdu from_desfire : ℕ → Error

abbrev pub get_layer : Error → ErrorLayer
get_layer (from_hardware e) = hardware
get_layer (from_link e) = link
get_layer (from_pn532 e) = pn532
get_layer (from_rc522 e) = rc522
get_layer (from_card_manager e) = card_manager
get_layer (from_apdu e) = apdu
get_layer (from_desfire e) = desfire
