-- ===== src/Base/Codes.antt =====
-- The error codes of Include/Error that the modelled code returns, one module for each enumeration.
pub mod DesfireError
pub mod Pn532Error
pub mod ApduError
pub mod CardManagerError
