-- ===== src/Desfire.antt =====
-- Include/Nfc/Desfire and Src/Nfc/Desfire: the session of a DESFire card and its secure messaging.
pub mod Context
pub mod PlainIv
pub mod Verify
pub mod ValuePayload
pub mod Policy
pub mod EncryptedPayload
pub mod WriteData
pub mod ReadData
pub mod FileIds
pub mod FreeMemory
pub mod Memory
pub mod Command
pub mod Authenticate
pub mod Card
mod Tests
