-- ===== src/Shared/Verify.antt =====
-- shared/src/bip322/: verification of BIP-322 ownership proofs.
pub mod Binding
use blindjoin.Prelude.{
  ℕ, Bool, true, false, not, ◌&&◌, Option, none, some, Result, ok, err, ◌>>=◌, ◌>>◌, ok_or, ensure,
  if◌then◌else◌, length, get_elem?,
}
use blindjoin.Prelude.Eq.{Bytes, ◌==◌, nat_eq}
use blindjoin.External.{External, Network, Witness}
use blindjoin.Shared.Script.{
  ScriptType, p2wpkh, p2tr, p2sh_p2wpkh, Bip322Error, unrecognised_script_pubkey,
  invalid_witness_length, witness_key_mismatch, crate_verify_failed,
}

module _ (x : External) where
  -- The guard that binds the key in the witness to the address.
  unfoldable pub key_binding_guard : Bytes → Witness → Result Bip322Error (Unit {0})
  key_binding_guard address witness = do
    ensure (length witness == 2) (invalid_witness_length 2 (length witness))
    pk_bytes ← ok_or (get_elem? witness 1) witness_key_mismatch
    (pubkey, compressed) ← ok_or (x.public_key_from_slice pk_bytes) witness_key_mismatch
    ensure (compressed && x.is_related_to_pubkey address pubkey) witness_key_mismatch

  unfoldable pub verify_via_bip322_crate :
      Bytes → Witness → Bytes → Network → Result Bip322Error (Unit {0})
  unfolding key_binding_guard
  verify_via_bip322_crate spk witness message network = do
    address ← ok_or (x.address_from_script network spk) unrecognised_script_pubkey
    if x.is_p2tr spk then ok tt else key_binding_guard address witness
    ensure (x.bip322_verify_simple address message witness) crate_verify_failed

  -- The `verify` of p2wpkh.rs, p2tr.rs and p2sh_p2wpkh.rs: the number of witness elements first.
  unfoldable pub verify_arity :
      ℕ → Bytes → Witness → Bytes → Network → Result Bip322Error (Unit {0})
  unfolding verify_via_bip322_crate
  verify_arity expected spk witness message network = do
    ensure (length witness == expected) (invalid_witness_length expected (length witness))
    verify_via_bip322_crate spk witness message network

  unfoldable pub verify_simple :
      ScriptType → Bytes → Witness → Bytes → Network → Result Bip322Error (Unit {0})
  unfolding verify_arity
  verify_simple p2wpkh = verify_arity 2
  verify_simple p2tr = verify_arity 1
  verify_simple p2sh_p2wpkh = verify_arity 2
