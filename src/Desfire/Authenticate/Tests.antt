-- ===== src/Desfire/Authenticate/Tests.antt =====
-- The theorems on authentication at a concrete card.
use nfc_cpp.Base.{ℕ, ◌≡◌, refl, false, List, replicate, none, some, Result}
use nfc_cpp.Crypto.Keys.{Draws, generate_random}
use nfc_cpp.Crypto.Tests.{toy, toy-IsSized, toy-IsAesInverse}
use nfc_cpp.Wire.{iso}
use nfc_cpp.Desfire.Tests.{legacy_session}
use nfc_cpp.Desfire.Card.{Run, execute_command}
use nfc_cpp.Desfire.Authenticate.Stages.{
  AuthenticateCommand, authenticate_command, authenticate, reset,
}
use nfc_cpp.Desfire.Authenticate.Runs.{Granted, authenticate-Granted}
use nfc_cpp.Desfire.Authenticate.AesCard.{AesCard, card_transceiver}
use nfc_cpp.Desfire.Authenticate.Passes.{aes_options}
use nfc_cpp.Desfire.Authenticate.Mutual.{IsAgreed, authenticate-IsAgreed}

abbrev key : List ℕ
key = replicate 16 0x5A

abbrev rnd_b : List ℕ
rnd_b = replicate 16 0xB7

abbrev draws : Draws
draws = λ i. i

abbrev card : AesCard
card = record { key = key; rnd_b = rnd_b; offered = false; reader = none }

authenticate-IsAgreed_example :
    (end : Result (Unit {0}) × Run AuthenticateCommand AesCard) × (execute_command iso
        (card_transceiver toy iso)
        (authenticate toy)
        3
        (authenticate_command (aes_options key 0) draws)
        card
        legacy_session
      ≡ some end)
    × IsAgreed (generate_random draws 16) rnd_b end
authenticate-IsAgreed_example =
    authenticate-IsAgreed toy toy-IsSized toy-IsAesInverse key 0 refl rnd_b refl draws iso
      legacy_session 0 false none

authenticate-Granted_example :
    (end : Result (Unit {0}) × Run AuthenticateCommand AesCard) × (execute_command iso
        (card_transceiver toy iso)
        (authenticate toy)
        3
        (authenticate_command (aes_options key 0) draws)
        card
        legacy_session
      ≡ some end)
    × Granted toy (reset (authenticate_command (aes_options key 0) draws)) legacy_session end
authenticate-Granted_example =
    authenticate-Granted toy iso (card_transceiver toy iso) 0
      (authenticate_command (aes_options key 0) draws) card legacy_session
