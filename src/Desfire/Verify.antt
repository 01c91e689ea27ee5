-- ===== src/Desfire/Verify.antt =====
-- verifyAesAuthenticatedPlainPayload and verifyTktdesAuthenticatedPlainPayload of
-- ValueOperationCryptoUtils.h. The CMAC message is a vector of 256 bytes.
pub mod Laws
use nfc_cpp.Base.{ℕ, ◌+◌, ◌-◌, Bool, true, false, ◌&&◌, ◌||◌, not, List, [], ◌∷◌, length, leb}
use nfc_cpp.Base.{ltb, ◌==◌, if◌then◌else◌, Option, none, some}
use nfc_cpp.Base.{Result, ok, ◌>>=◌, push, push_all, slice, on_true}
use nfc_cpp.Crypto.Ciphers.{Ciphers}
use nfc_cpp.Crypto.Cmac.{calculate_tktdes_cmac, calculate_aes_cmac}
use nfc_cpp.Desfire.Context.{DesfireContext}
use nfc_cpp.Desfire.PlainIv.{mac_matches}

-- The payload and then the status code, in `cmacMessage`.
unfoldable pub cmac_message : List ℕ → ℕ → ℕ → Result (List ℕ)
cmac_message payload_and_mac status_code payload_length = do
  payload ← slice payload_and_mac 0 payload_length
  message ← push_all 256 [] payload
  push 256 message status_code

-- The shape tests of both routines, with the MAC's longest length.
unfoldable pub fits_message : List ℕ → ℕ → ℕ → ℕ → Bool
fits_message payload_and_mac payload_length truncated_cmac_length longest =
    leb truncated_cmac_length longest
    && ((length payload_and_mac == payload_length + truncated_cmac_length)
        && leb (payload_length + 1) 256)

-- The comparison, and the next IV if it holds.
unfoldable pub accept_mac : List ℕ → List ℕ → ℕ → ℕ → ℕ → Result (Option (List ℕ))
accept_mac payload_and_mac cmac payload_length truncated_cmac_length size = do
  same ← mac_matches payload_and_mac payload_length cmac 0 truncated_cmac_length
  if same then (do next_iv ← slice cmac 0 size; ok (some next_iv)) else ok none

module _ (c : Ciphers) where
  unfoldable pub verify_aes_authenticated_plain_payload :
      List ℕ → ℕ → DesfireContext → List ℕ → ℕ → ℕ → Result (Option (List ℕ))
  unfolding fits_message cmac_message accept_mac
  verify_aes_authenticated_plain_payload payload_and_mac status_code context request_iv
        payload_length truncated_cmac_length =
      if not (leb 16 (length context.session_key_enc)) || not (length request_iv == 16)
      then ok none
      else (if fits_message payload_and_mac payload_length truncated_cmac_length 16
          then (do
            message ← cmac_message payload_and_mac status_code payload_length
            on_true (calculate_aes_cmac c context.session_key_enc request_iv message)
                λ cmac. accept_mac payload_and_mac cmac payload_length truncated_cmac_length 16)
          else ok none)

  unfoldable pub verify_tktdes_authenticated_plain_payload :
      List ℕ → ℕ → DesfireContext → List ℕ → ℕ → ℕ → Result (Option (List ℕ))
  unfolding fits_message cmac_message accept_mac
  verify_tktdes_authenticated_plain_payload payload_and_mac status_code context request_iv
        payload_length truncated_cmac_length =
      let key_length = length context.session_key_enc in
      if (not (key_length == 16) && not (key_length == 24)) || not (length request_iv == 8)
      then ok none
      else (if fits_message payload_and_mac payload_length truncated_cmac_length 8
          then (do
            message ← cmac_message payload_and_mac status_code payload_length
            on_true (calculate_tktdes_cmac c context.session_key_enc key_length request_iv message)
                λ cmac. accept_mac payload_and_mac cmac payload_length truncated_cmac_length 8)
          else ok none)
