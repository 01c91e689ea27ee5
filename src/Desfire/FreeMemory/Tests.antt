-- ===== src/Desfire/FreeMemory/Tests.antt =====
-- The theorem on FreeMemory at a concrete card.
use nfc_cpp.Base.{◌≡◌, refl, arith, false, [], ◌∷◌, some, ok}
use nfc_cpp.Crypto.Tests.{toy}
use nfc_cpp.Crypto.Words.{le24}
use nfc_cpp.Wire.{native, wrap, native_wrap}
use nfc_cpp.Desfire.Context.{DesfireContext}
use nfc_cpp.Desfire.Tests.{aes_session}
use nfc_cpp.Desfire.Card.{IApduTransceiver, execute_command}
use nfc_cpp.Desfire.FreeMemory.{FreeMemoryCommand, initial, finished, free_memory}
use nfc_cpp.Desfire.FreeMemory.Runs.{execute_command-free_memory}

abbrev outside : DesfireContext
outside = record aes_session { authenticated = false }

abbrev card : IApduTransceiver
card = record { Link = Unit {0}; transceive = λ link apdu. (ok (0x00 ∷ le24 0x1C00), link) }

abbrev command : FreeMemoryCommand
command = record {
  stage = initial;
  free_memory_bytes = 0;
  raw_payload = [];
  request_iv = [];
  has_request_iv = false;
}

wraps : wrap native (0x6E ∷ []) ≡ ok (0x6E ∷ [])
unfolding wrap native_wrap
wraps = refl

execute_command-free_memory_example :
    execute_command native card (free_memory toy) 2 command tt outside
    ≡ some (
      ok tt,
      record {
        command = record command {
          stage = finished;
          free_memory_bytes = 0x1C00;
          raw_payload = le24 0x1C00;
        };
        link = tt;
        context = outside;
      },
    )
execute_command-free_memory_example =
    execute_command-free_memory toy outside refl native card 0 0x1C00 command (0x6E ∷ []) tt tt
      (omega arith) wraps refl
