-- ===== src/Tests.antt =====
-- Concrete runs of the development, on small stand-ins for the functions of other crates.
pub mod Sample
pub mod Scenario
mod Rounds
mod Handlers
mod Money
mod Machine
pub mod Bans
mod Watch
mod Clients
mod Adverts
mod Bots
mod Progress
pub mod Codec
mod Proofs
mod Parties
mod Starts
