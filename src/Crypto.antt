-- ===== src/Crypto.antt =====
-- Src/Utils/DesfireCrypto.cpp and the CRC, CMAC and padding helpers of
-- Src/Nfc/Desfire/Detail/ValueOperationCryptoUtils.h. The ciphers themselves are libraries
-- outside the repository, and a parameter (Ciphers).
pub mod Ciphers
pub mod Words
pub mod Des
pub mod Crc
pub mod Keys
pub mod Block
pub mod Cmac
pub mod Tests
