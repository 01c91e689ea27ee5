-- ===== src/Desfire/EncryptedPayload/Tests.antt =====
-- The theorems on encrypted payloads at a concrete session.
use nfc_cpp.Base.{ℕ, zero, suc, ◌≡◌, refl, arith, true, false, List, [], replicate, All, IsByte, ok}
use nfc_cpp.Crypto.Des.{des_encrypt}
use nfc_cpp.Crypto.Tests.{toy, toy-IsSized, toy-IsInverse}
use nfc_cpp.Desfire.Tests.{des_session, two_blocks}
use nfc_cpp.Desfire.Context.{des}
use nfc_cpp.Desfire.ValuePayload.Receive.{receive_blocks}
use nfc_cpp.Desfire.EncryptedPayload.{
  LegacySendIvSeedMode, seed_block, is_all_zero, protect_encrypted_payload,
}
use nfc_cpp.Desfire.EncryptedPayload.Receive.{protect_encrypted_payload-receive}

seeded : seed_block des_session LegacySendIvSeedMode.zero ≡ ok (replicate 8 0x00)
unfolding seed_block is_all_zero
seeded = refl

protect_encrypted_payload-receive_example :
    (sent : List ℕ) × (protect_encrypted_payload toy des_session two_blocks des true
        LegacySendIvSeedMode.zero
      ≡ ok (record { encrypted_payload = sent; request_state = []; update_context_iv = false }))
    × (receive_blocks (λ b. des_encrypt toy b (replicate 8 0x3C)) 2 (replicate 8 0x00) sent
        ≡ ok two_blocks)
protect_encrypted_payload-receive_example =
    protect_encrypted_payload-receive toy des_session two_blocks (replicate 8 0x00) 2
      LegacySendIvSeedMode.zero toy-IsSized toy-IsInverse (omega arith) seeded (refl, omega arith)
      (omega arith) refl (omega arith) (omega arith)

long_payload-IsByte : (n : ℕ) → All IsByte (replicate n 0x21)
long_payload-IsByte zero = tt
long_payload-IsByte (suc n) = (omega arith, long_payload-IsByte n)
