-- ===== src/Bot.antt =====
-- The crate liquidity-bot/.
pub mod Strategy
pub mod Run
pub mod Env
