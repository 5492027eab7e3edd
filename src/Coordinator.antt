-- ===== src/Coordinator.antt =====
-- The crate coordinator/.
pub mod Config
pub mod Fee
pub mod Tx
pub mod Utxo
pub mod SigVerify
pub mod Round
pub mod Failure
pub mod State
pub mod Monitor
pub mod Api
pub mod System
pub mod Discovery
pub mod Startup
