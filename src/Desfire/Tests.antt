-- ===== src/Desfire/Tests.antt =====
-- The theorems on secure messaging at concrete sessions.
use nfc_cpp.Base.{ℕ, ◌≡◌, refl, arith, inr, true, List, [], ◌∷◌, ◌++◌, replicate, some, ok}
use nfc_cpp.Crypto.Cmac.{calculate_tktdes_cmac, calculate_aes_cmac}
use nfc_cpp.Crypto.Des.{des_encrypt}
use nfc_cpp.Crypto.Tests.{toy, toy-IsSized, toy-IsInverse}
use nfc_cpp.Desfire.Context.{DesfireContext, CommMode, SessionAuthScheme, des}
use nfc_cpp.Desfire.PlainIv.{derive_aes_plain_response_iv}
use nfc_cpp.Desfire.PlainIv.Laws.{derive_aes_plain_response_iv-Judged, Judged}
use nfc_cpp.Desfire.Verify.{
  verify_aes_authenticated_plain_payload, verify_tktdes_authenticated_plain_payload,
}
use nfc_cpp.Desfire.Verify.Laws.{
  verify_aes_authenticated_plain_payload-Verdict, verify_tktdes_authenticated_plain_payload-Verdict,
  Verdict,
}
use nfc_cpp.Desfire.ValuePayload.{encrypt_payload}
use nfc_cpp.Desfire.ValuePayload.Receive.{encrypt_payload_des-IsReceived, IsReceived}
use nfc_cpp.Desfire.Policy.{verify_payload_auto_mac_and_update_context_iv}
use nfc_cpp.Desfire.Policy.Stable.{
  KeepsCipher, verify_payload_auto_mac_and_update_context_iv-KeepsCipher,
}
use nfc_cpp.Desfire.Policy.Frame.{IsFramed}
use nfc_cpp.Desfire.Policy.Frame.{verify_payload_auto_mac_and_update_context_iv-IsFramed}

abbrev pub session : ℕ → ℕ → SessionAuthScheme → DesfireContext
session key_length iv_length scheme = record {
  authenticated = true;
  comm_mode = CommMode.plain;
  auth_scheme = scheme;
  session_key_enc = replicate key_length 0x3C;
  session_key_mac = [];
  iv = replicate iv_length 0x00;
  session_enc_rnd_b = [];
  key_no = 0;
  selected_aid = replicate 3 0x00;
}

abbrev pub aes_session : DesfireContext
aes_session = session 16 16 SessionAuthScheme.aes

abbrev tktdes_session : DesfireContext
tktdes_session = session 24 8 SessionAuthScheme.iso

abbrev pub des_session : DesfireContext
des_session = session 8 8 SessionAuthScheme.legacy

abbrev pub legacy_session : DesfireContext
legacy_session = session 16 8 SessionAuthScheme.legacy

abbrev mac : List ℕ
mac = 0x11 ∷ 0x22 ∷ 0x33 ∷ 0x44 ∷ []

abbrev payload : List ℕ
payload = 0x64 ∷ 0x00 ∷ 0x00 ∷ 0x00 ∷ []

derive_aes_plain_response_iv-Judged_example :
    (cmac : List ℕ) × (calculate_aes_cmac toy (replicate 16 0x3C) (replicate 16 0) (0x00 ∷ [])
      ≡ ok (some cmac))
    × Judged cmac mac 4
        (derive_aes_plain_response_iv toy (0x00 ∷ mac) aes_session (replicate 16 0) 4)
derive_aes_plain_response_iv-Judged_example =
    derive_aes_plain_response_iv-Judged toy aes_session 0x00 mac (replicate 16 0) 4 (inr refl)
      toy-IsSized (omega arith) refl (omega arith)

verify_aes_authenticated_plain_payload-Verdict_example :
    (cmac : List ℕ) × (calculate_aes_cmac toy
        (replicate 16 0x3C)
        (replicate 16 0)
        (payload ++ (0x00 ∷ []))
      ≡ ok (some cmac))
    × Verdict cmac mac (
        verify_aes_authenticated_plain_payload toy
          (payload ++ mac)
          0x00
          aes_session
          (replicate 16 0)
          4
          4)
verify_aes_authenticated_plain_payload-Verdict_example =
    verify_aes_authenticated_plain_payload-Verdict toy aes_session payload mac (replicate 16 0) 0x00
      toy-IsSized (omega arith) refl (omega arith) (omega arith)

verify_tktdes_authenticated_plain_payload-Verdict_example :
    (cmac : List ℕ) × (calculate_tktdes_cmac toy
        (replicate 24 0x3C)
        24
        (replicate 8 0)
        (payload ++ (0x00 ∷ []))
      ≡ ok (some cmac))
    × Verdict cmac mac (
        verify_tktdes_authenticated_plain_payload toy
          (payload ++ mac)
          0x00
          tktdes_session
          (replicate 8 0)
          4
          4)
verify_tktdes_authenticated_plain_payload-Verdict_example =
    verify_tktdes_authenticated_plain_payload-Verdict toy tktdes_session payload mac (replicate 8 0)
      0x00 (inr refl) refl (omega arith) (omega arith)

abbrev pub two_blocks : List ℕ
two_blocks = replicate 8 0x64 ++ replicate 8 0x01

encrypt_payload_des-IsReceived_example :
    IsReceived
      (λ b. des_encrypt toy b (replicate 8 0x3C))
      two_blocks
      (encrypt_payload toy two_blocks des_session des)
encrypt_payload_des-IsReceived_example =
    encrypt_payload_des-IsReceived toy des_session two_blocks 2 toy-IsSized toy-IsInverse
      (omega arith) (inr refl) (omega arith) refl (omega arith) (omega arith)

verify_payload_auto_mac_and_update_context_iv-IsFramed_example : IsFramed aes_session (
    verify_payload_auto_mac_and_update_context_iv toy aes_session
      (payload ++ mac)
      0x00
      (replicate 16 0)
      4)
verify_payload_auto_mac_and_update_context_iv-IsFramed_example =
    verify_payload_auto_mac_and_update_context_iv-IsFramed toy (payload ++ mac) 0x00
      (replicate 16 0) 4 aes_session

verify_payload_auto_mac_and_update_context_iv-KeepsCipher_example : KeepsCipher aes_session (
    verify_payload_auto_mac_and_update_context_iv toy aes_session
      (payload ++ mac)
      0x00
      (replicate 16 0)
      4)
verify_payload_auto_mac_and_update_context_iv-KeepsCipher_example =
    verify_payload_auto_mac_and_update_context_iv-KeepsCipher toy (payload ++ mac) 0x00
      (replicate 16 0) 4 aes_session
