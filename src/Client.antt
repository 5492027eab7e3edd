-- ===== src/Client.antt =====
-- The crate client/: the wallet and the client's side of a round.
pub mod Wallet
pub mod Round
pub mod Discover
pub mod Http
pub mod Main
