-- ===== src/Client/Round.antt =====
-- client/src/round/mod.rs: the state that a client carries between the phases.
pub mod Input
pub mod Register
pub mod Output
pub mod Sign
use blindjoin.Prelude.{ℕ, Option}
use blindjoin.Prelude.Eq.{Bytes}

pub record InputRegState : Type 0 where
  pub round_id : ℕ
  pub session_token : Bytes
  pub blinding_secret : Bytes
  pub msg_randomizer : Option Bytes
  pub message_bytes : Bytes
  pub output_script : Bytes
  pub unblinded_sig : Bytes
  pub pk_hash_at_registration : Bytes
  pub denomination_sats : ℕ
