-- ===== src/Desfire/Authenticate.antt =====
-- Include/Nfc/Desfire/Commands/AuthenticateCommand.h and its implementation: the mutual
-- authentication of reader and card in three passes.
pub mod Keying
pub mod Ciphering
pub mod Stages
pub mod Guarded
pub mod Runs
pub mod AesCard
pub mod Passes
pub mod Mutual
mod Tests
