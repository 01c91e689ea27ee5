-- ===== src/Desfire/Authenticate/AesCard.antt =====
-- A card that takes part in an AES authentication, as the specification that AuthenticateCommand is
-- measured by. It keeps the random number that it offers, whether the offer is out, and the
-- reader's random number once the reader has proved that it has the key.
use nfc_cpp.Base.{
  ℕ, ◌≤◌, ◌≡◌, refl, arith, Bool, true, false, List, [], ◌∷◌, ◌++◌, length, take, drop,
}
use nfc_cpp.Base.{replicate, if◌then◌else◌, Option, none, some, Result, ok, err, from_apdu}
use nfc_cpp.Base.{push_all_fits, ◌==◌, ◌&&◌}
use nfc_cpp.Base.Codes.ApduError
use nfc_cpp.Crypto.Ciphers.{Ciphers}
use nfc_cpp.Wire.{WireKind, native, iso, wrap, native_wrap}
use nfc_cpp.Wire.Iso.{read_command, read_command-iso_wrap}
use nfc_cpp.Desfire.Card.{IApduTransceiver}
use nfc_cpp.Desfire.Authenticate.Keying.{same_bytes}

pub record AesCard : Type 0 where
  pub key : List ℕ
  pub rnd_b : List ℕ
  pub offered : Bool
  pub reader : Option (List ℕ)

-- A rotation by one byte to the left.
abbrev pub turn : List ℕ → List ℕ
turn [] = []
turn (b ∷ bs) = bs ++ (b ∷ [])

-- The PDU in an APDU.
unfoldable pub read_pdu : WireKind → List ℕ → Option (List ℕ)
read_pdu native apdu = some apdu
read_pdu iso apdu = read_command apdu

-- A card on either wire reads the PDU that was wrapped.
pub read_pdu-wrap :
    (wire : WireKind) (ins : ℕ) (ds : List ℕ)
    → length ds ≤ 255
    → (apdu : List ℕ) × (wrap wire (ins ∷ ds) ≡ ok apdu) × (read_pdu wire apdu ≡ some (ins ∷ ds))
unfolding wrap native_wrap read_pdu
read_pdu-wrap native ins ds h = (ins ∷ ds, push_all_fits 261 [] (ins ∷ ds) (omega arith), refl)
read_pdu-wrap iso ins ds h = read_command-iso_wrap ins ds h

module _ (c : Ciphers) where
  open c use {aes_cbc_encrypt, aes_cbc_decrypt}

  abbrev pub challenge_of : AesCard → List ℕ
  challenge_of card = aes_cbc_encrypt card.key (replicate 16 0x00) card.rnd_b

  -- The reader's answer is RndA and the turned RndB, chained to the challenge. The confirmation is
  -- the turned RndA, chained to that answer.
  unfoldable pub judge_token : AesCard → List ℕ → List ℕ × AesCard
  judge_token card token =
      let plain = aes_cbc_decrypt card.key (challenge_of card) token in
      if same_bytes (drop 16 plain) (turn card.rnd_b)
      then (
        0x00 ∷ aes_cbc_encrypt card.key (drop 16 token) (turn (take 16 plain)),
        record card { offered = false; reader = some (take 16 plain) },
      )
      else (0xAE ∷ [], record card { offered = false })

  unfoldable pub card_answer : AesCard → List ℕ → List ℕ × AesCard
  unfolding judge_token
  card_answer card [] = (0x7E ∷ [], card)
  card_answer card (code ∷ bytes) =
      if code == 0xAA
      then (0xAF ∷ challenge_of card, record card { offered = true; reader = none })
      else (if (code == 0xAF) && card.offered
          then judge_token card bytes
          else (0x1C ∷ [], record card { offered = false }))

  abbrev pub receive : AesCard → Option (List ℕ) → Result (List ℕ) × AesCard
  receive card none = (err (from_apdu ApduError.wrong_length), card)
  receive card (some pdu) = let (answer, card') = card_answer card pdu in (ok answer, card')

  abbrev pub card_transceiver : WireKind → IApduTransceiver
  card_transceiver wire = record {
    Link = AesCard;
    transceive = λ card apdu. receive card (read_pdu wire apdu);
  }
