-- ===== src/Coordinator/Round.antt =====
-- coordinator/src/round/: the state machine of a round and what moves it.
pub mod State
pub mod OutPoints
pub mod Manager
pub mod Blame
pub mod InputReg
pub mod OutputReg
pub mod Signing
pub mod Finalize
