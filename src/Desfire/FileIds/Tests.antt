-- ===== src/Desfire/FileIds/Tests.antt =====
-- The theorems on GetFileIDs at concrete cards.
use nfc_cpp.Base.{
  ℕ, Bool, slice, ◌≡◌, refl, arith, true, false, List, [], ◌∷◌, ◌++◌, replicate, take, some, ok,
}
use nfc_cpp.Crypto.Tests.{toy, toy-IsSized}
use nfc_cpp.Crypto.Cmac.{calculate_aes_cmac, next_subkey}
use nfc_cpp.Crypto.Block.{aes_encrypt_block, left_shift_one_bit, pad_cmac_block, xor_block}
use nfc_cpp.Wire.{native, wrap, native_wrap}
use nfc_cpp.Desfire.Tests.{aes_session}
use nfc_cpp.Desfire.Card.{IApduTransceiver, execute_command}
use nfc_cpp.Desfire.FileIds.{GetFileIdsCommand, initial, finished, get_file_ids, parse_file_ids}
use nfc_cpp.Desfire.FileIds.Listing.{IsListed, parse_file_ids-IsListed}
use nfc_cpp.Desfire.FileIds.Chained.{IsAesSession}
use nfc_cpp.Desfire.FileIds.Runs.{execute_command-get_file_ids}

abbrev files : List ℕ
files = 0x01 ∷ 0x02 ∷ []

abbrev request_mac : List ℕ
request_mac = 0x6F ∷ 0x80 ∷ replicate 14 0x00

abbrev answer_mac : List ℕ
answer_mac = 0x6E ∷ 0x82 ∷ 0x00 ∷ 0x80 ∷ replicate 12 0x00

abbrev command : List ℕ → Bool → GetFileIdsCommand
command iv has = record {
  stage = initial;
  raw_payload = [];
  file_ids = [];
  request_iv = iv;
  has_request_iv = has;
}

abbrev card : IApduTransceiver
card = record {
  Link = Unit {0};
  transceive = λ link apdu. (ok (0x00 ∷ (files ++ take 8 answer_mac)), link);
}

aes_session-IsAesSession : IsAesSession aes_session
aes_session-IsAesSession = record { authenticated = refl; key_size = omega arith; iv_size = refl }

request-mac :
    calculate_aes_cmac toy (replicate 16 0x3C) (replicate 16 0) (0x6F ∷ []) ≡ ok (some request_mac)
unfolding calculate_aes_cmac aes_encrypt_block slice next_subkey left_shift_one_bit pad_cmac_block
    xor_block
request-mac = refl

answer-mac :
    calculate_aes_cmac toy (replicate 16 0x3C) request_mac (files ++ (0x00 ∷ []))
    ≡ ok (some answer_mac)
unfolding calculate_aes_cmac aes_encrypt_block slice next_subkey left_shift_one_bit pad_cmac_block
    xor_block
answer-mac = refl

wraps : wrap native (0x6F ∷ []) ≡ ok (0x6F ∷ [])
unfolding wrap native_wrap
wraps = refl

parse_file_ids-IsListed_example : IsListed (0x00 ∷ (files ++ take 8 answer_mac)) aes_session (
    parse_file_ids toy (command request_mac true) (0x00 ∷ (files ++ take 8 answer_mac)) aes_session)
parse_file_ids-IsListed_example =
    parse_file_ids-IsListed toy (command request_mac true) (0x00 ∷ (files ++ take 8 answer_mac))
      aes_session

execute_command-get_file_ids_example :
    execute_command native card (get_file_ids toy) 2 (command [] false) tt aes_session
    ≡ some (
      ok tt,
      record {
        command = record {
          stage = finished;
          raw_payload = files ++ take 8 answer_mac;
          file_ids = files;
          request_iv = request_mac;
          has_request_iv = true;
        };
        link = tt;
        context = record aes_session { iv = answer_mac };
      },
    )
execute_command-get_file_ids_example =
    execute_command-get_file_ids toy toy-IsSized aes_session aes_session-IsAesSession files
      request_mac answer_mac (omega arith) (omega arith, (omega arith, tt)) request-mac answer-mac
      native card 0 (command [] false) (0x6F ∷ []) tt tt wraps refl
