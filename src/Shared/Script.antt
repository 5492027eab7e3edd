-- ===== src/Shared/Script.antt =====
-- shared/src/bip322/mod.rs: script types and the errors of proofs.
use blindjoin.Prelude.{ℕ, ◌≡◌, Bool, true, false, Result, ok, err, if◌then◌else◌, arith, ◌↔◌}
use blindjoin.Prelude.Eq.{Eq, Bytes}
use blindjoin.External.{External, Network}

pub data ScriptType : Type 0 where
  p2wpkh p2tr p2sh_p2wpkh : ScriptType

abbrev pub script_type_beq : ScriptType → ScriptType → Bool
script_type_beq p2wpkh p2wpkh = true
script_type_beq p2tr p2tr = true
script_type_beq p2sh_p2wpkh p2sh_p2wpkh = true
script_type_beq _ _ = false

pub script_type_beq_iff : (a b : ScriptType) → (script_type_beq a b ≡ true) ↔ (a ≡ b)
script_type_beq_iff a b = ground arith

instance abbrev pub script_type_eq : Eq ScriptType
script_type_eq = record { same = script_type_beq; same_iff = script_type_beq_iff }

-- The texts that some variants carry are left out.
pub data Bip322Error : Type 0 where
  unsupported_proof_version : ℕ → Bip322Error
  wire_format_mismatch : Bip322Error
  decode_error : Bip322Error
  unrecognised_script_pubkey : Bip322Error
  unsupported_script_type : Bip322Error
  script_type_mismatch : ScriptType → ScriptType → Bip322Error
  invalid_witness_length : ℕ → ℕ → Bip322Error
  crate_verify_failed : Bip322Error
  witness_key_mismatch : Bip322Error
  network_mismatch : Network → Network → Bip322Error
  script_mismatch : Bip322Error

module _ (x : External) where
  unfoldable pub detect_script_type : Bytes → Result Bip322Error ScriptType
  detect_script_type spk =
      if x.is_p2wpkh spk
      then ok p2wpkh
      else if x.is_p2tr spk
      then ok p2tr
      else if x.is_p2sh spk
      then ok p2sh_p2wpkh
      else err unsupported_script_type
