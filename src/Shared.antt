-- ===== src/Shared.antt =====
-- The crate shared/: script types, error codes, the token message.
pub mod Script
pub mod Errors
pub mod Token
pub mod Ownership
pub mod Verify
pub mod Bip322
pub mod Sign
