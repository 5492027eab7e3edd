-- ===== src/Coordinator/Utxo.antt =====
-- coordinator/src/bitcoin/utxo.rs: validation of a UTXO that asks to be registered.
pub mod Owned
use blindjoin.Prelude.{
  ℕ, not, Option, List, [], ◌∷◌, ◌++◌, Result, ok, err, ◌>>=◌, ◌>>◌, ok_or, ensure, map_err, leb,
  if◌then◌else◌, any, add64,
}
use blindjoin.Prelude.Eq.{Bytes, Text, ◌==◌, nat_eq, codes}
use blindjoin.External.{External, Network, OutPoint, Witness, outpoint_eq}
use blindjoin.Shared.Script.{
  ScriptType, script_type_eq, Bip322Error, unsupported_proof_version, wire_format_mismatch,
  decode_error, unsupported_script_type, script_type_mismatch, detect_script_type,
}
use blindjoin.Shared.Ownership.{OwnershipProof}
use blindjoin.Shared.Verify.{verify_simple}
use blindjoin.Coordinator.State.{Rpc, answer, failed}
use blindjoin.Coordinator.Config.{BipConfig, allows}
use blindjoin.Coordinator.Round.OutPoints.{outpoint_text}

-- The `reason` of an invalid proof.
pub data Reason : Type 0 where
  bad_amount bad_script : Reason
  bip322 : Bip322Error → Reason

pub data UtxoError : Type 0 where
  not_found already_registered rpc_unavailable : UtxoError
  insufficient_value : ℕ → ℕ → UtxoError
  invalid_proof : Reason → UtxoError

pub record UtxoDetails : Type 0 where
  pub value_sats : ℕ
  pub script_pubkey : Bytes
  pub script_type : ScriptType

-- The answer of `gettxout`: its value as `Amount::from_btc` reads it, and the script in hex.
pub record GetTxOut : Type 0 where
  pub value : Option ℕ
  pub script_hex : Text

module _ (x : External) where
  unfoldable pub decode_psbt_input_witness : Text → Result Bip322Error Witness
  decode_psbt_input_witness b64 = do
    bytes ← ok_or (x.b64_decode b64) decode_error
    psbt ← ok_or (x.deserialize_psbt bytes) decode_error
    elim psbt.inputs [
      | [] ↦ err wire_format_mismatch
      | input ∷ _ ↦ ok_or input.final_script_witness wire_format_mismatch
    ]

  -- The two branches of `match ownership_proof.version`.
  unfoldable pub dispatch_v1 :
      Bytes → OwnershipProof → Network → BipConfig → Bytes → Result Bip322Error ScriptType
  dispatch_v1 spk proof network bip message = do
    derived ← detect_script_type x spk
    ensure (allows bip derived) unsupported_script_type
    verify_simple x derived spk proof.witness_stack message network
    ok derived

  unfoldable pub dispatch_v2 :
      Bytes → OwnershipProof → Network → BipConfig → Bytes → Result Bip322Error ScriptType
  dispatch_v2 spk proof network bip message = do
    psbt_input_b64 ← ok_or proof.psbt_input_b64 wire_format_mismatch
    declared ← ok_or proof.script_type wire_format_mismatch
    witness ← decode_psbt_input_witness psbt_input_b64
    derived ← detect_script_type x spk
    ensure (declared == derived) (script_type_mismatch declared derived)
    ensure (allows bip derived) unsupported_script_type
    verify_simple x derived spk witness message network
    ok derived

  unfoldable pub dispatch_ownership_proof :
      Bytes → OwnershipProof → Network → BipConfig → Bytes → Result Bip322Error ScriptType
  unfolding dispatch_v1 dispatch_v2
  dispatch_ownership_proof spk proof network bip message =
      if proof.version == 1
      then dispatch_v1 spk proof network bip message
      else if proof.version == 2
      then dispatch_v2 spk proof network bip message
      else err (unsupported_proof_version proof.version)

  -- The message that a proof signs names the round and the outpoint.
  unfoldable pub ownership_message : Text → OutPoint → Bytes
  ownership_message round_id utxo =
      codes "blindjoin:round:" ++ (round_id ++ (codes ":utxo:" ++ outpoint_text x utxo))

  unfoldable pub of_rpc : Rpc (Option GetTxOut) → Result UtxoError (Option GetTxOut)
  of_rpc (answer o) = ok o
  of_rpc failed = err rpc_unavailable

  unfoldable pub check_txout : GetTxOut → ℕ → ℕ → Result UtxoError (ℕ × Bytes)
  check_txout txout denomination_sats fee_share_sats = do
    value_sats ← ok_or txout.value (invalid_proof bad_amount)
    let required = add64 denomination_sats fee_share_sats
    ensure (leb required value_sats) (insufficient_value value_sats required)
    script_pubkey ← ok_or (x.hex_decode txout.script_hex) (invalid_proof bad_script)
    ok (value_sats, script_pubkey)

  unfoldable pub validate_utxo :
      Rpc (Option GetTxOut)
      → OutPoint
      → List OutPoint
      → ℕ
      → ℕ
      → OwnershipProof
      → BipConfig
      → Network
      → Text
      → Result UtxoError UtxoDetails
  unfolding of_rpc check_txout ownership_message
  validate_utxo rpc utxo registered denomination_sats fee_share_sats proof bip network round_id = do
    ensure (not (any (λ r. r == utxo) registered)) already_registered
    found ← of_rpc rpc
    txout ← ok_or found not_found
    (value_sats, script_pubkey) ← check_txout txout denomination_sats fee_share_sats
    derived ←
        map_err (λ e. invalid_proof (bip322 e))
          (dispatch_ownership_proof script_pubkey proof network bip
            (ownership_message round_id utxo))
    ok (record { value_sats = value_sats; script_pubkey = script_pubkey; script_type = derived })
