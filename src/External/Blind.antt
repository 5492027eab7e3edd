-- ===== src/External/Blind.antt =====
-- The client's side of `blind_rsa_signatures`.
use blindjoin.Prelude.{Option}
use blindjoin.Prelude.Eq.{Bytes}

pub record BlindingResult : Type 0 where
  pub blind_message : Bytes
  pub secret : Bytes
  pub msg_randomizer : Option Bytes

-- `PublicKey::from_spki`, `blind` with the bytes of the generator, and `finalize`, which verifies the
-- unblinded signature.
pub record Blind : Type 0 where
  pub from_spki : Bytes → Option Bytes
  pub blind : Bytes → Bytes → Bytes → Option BlindingResult
  pub finalize : Bytes → Bytes → BlindingResult → Bytes → Option Bytes
