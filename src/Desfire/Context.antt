-- ===== src/Desfire/Context.antt =====
-- Include/Nfc/Desfire/DesfireContext.h, and from ValueOperationCryptoUtils.h the session cipher,
-- useLegacyDesCryptoMode and setContextIv.
use nfc_cpp.Base.{ℕ, Bool, true, false, ◌&&◌, List, [], length, leb, ◌==◌, if◌then◌else◌}
use nfc_cpp.Base.{Result, ok, ◌>>=◌, push_all}

pub data CommMode : Type 0 where
  plain maced enciphered : CommMode

pub data SessionAuthScheme : Type 0 where
  none legacy iso aes : SessionAuthScheme

pub record DesfireContext : Type 0 where
  pub authenticated : Bool
  pub comm_mode : CommMode
  pub auth_scheme : SessionAuthScheme
  pub session_key_enc : List ℕ
  pub session_key_mac : List ℕ
  pub iv : List ℕ
  pub session_enc_rnd_b : List ℕ
  pub key_no : ℕ
  pub selected_aid : List ℕ

pub data SessionCipher : Type 0 where
  des des3_2k des3_3k aes unknown : SessionCipher

unfoldable pub resolve_session_cipher : DesfireContext → SessionCipher
resolve_session_cipher context =
    if (length context.iv == 16) && leb 16 (length context.session_key_enc)
    then SessionCipher.aes
    else (if length context.session_key_enc == 8
        then des
        else (if length context.session_key_enc == 16
            then des3_2k
            else (if length context.session_key_enc == 24 then des3_3k else unknown)))

unfoldable pub is_legacy_scheme : SessionAuthScheme → Bool
is_legacy_scheme legacy = true
is_legacy_scheme _ = false

unfoldable pub use_legacy_des_crypto_mode : DesfireContext → SessionCipher → Bool
unfolding is_legacy_scheme
use_legacy_des_crypto_mode context des = is_legacy_scheme context.auth_scheme
use_legacy_des_crypto_mode context des3_2k = is_legacy_scheme context.auth_scheme
use_legacy_des_crypto_mode context _ = false

-- SecureMessagingPolicy::isLegacyDesOr2KSession
unfoldable pub is_legacy_des_or_2k_session : DesfireContext → Bool
unfolding use_legacy_des_crypto_mode resolve_session_cipher
is_legacy_des_or_2k_session context =
    use_legacy_des_crypto_mode context (resolve_session_cipher context)

-- `context.iv` has room for 16 bytes.
unfoldable pub set_context_iv : DesfireContext → List ℕ → Result DesfireContext
set_context_iv context new_iv = do iv ← push_all 16 [] new_iv; ok (record context { iv = iv })
