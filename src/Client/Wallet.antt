-- ===== src/Client/Wallet.antt =====
-- client/src/wallet.rs: the wallet, and how it signs its input of a PSBT.
pub mod Guard
pub mod Proof
pub mod Create
use blindjoin.Prelude.{
  ℕ, suc, ◌&&◌, Bool, true, false, not, Option, none, some, List, [], ◌∷◌, leb, ◌==◌, any, length,
  get_elem?, if◌then◌else◌, Result, ok, ◌>>=◌, ◌>>◌, ok_or, ensure,
}
use blindjoin.Prelude.Eq.{Bytes, Text}
use blindjoin.External.{External, Network, OutPoint, Witness, PsbtInput, Psbt}
use blindjoin.Shared.Script.{ScriptType}
use blindjoin.Shared.Sign.{SignFailure}
use blindjoin.Coordinator.Round.Signing.{position}

-- The `bdk_wallet::Wallet` of a client: `sign` with `trust_witness_utxo`, and what `peek_address`
-- gives at index 0 of the external and the internal keychain.
pub record Wallet : Type 0 where
  pub sign : Psbt → Option Psbt
  pub external_script : Bytes
  pub external_address : Text
  pub internal_script : Bytes
  pub internal_address : Text

pub record ClientWallet : Type 0 where
  pub network : Network
  pub utxo_outpoint : OutPoint
  pub utxo_script_pubkey : Bytes
  pub wif_key : Option Text
  pub external_leaf_sk : Option Bytes
  pub script_type : ScriptType
  pub inner : Wallet

pub data ClientError : Type 0 where
  bad_base64 bad_psbt no_own_output below_anonymity_floor : ClientError
  no_own_input no_witness_utxo outputs_exceed_input fee_above_cap : ClientError
  utxo_not_in_psbt signing_failed no_witness panicked : ClientError
  proof_failed : SignFailure → ClientError
  no_script_sig bad_wif bad_address bad_outpoint wallet_not_created : ClientError
  unknown_wrapper checksum_unsupported multipath_unsupported : ClientError
  wrapper_mismatch : ScriptType → ScriptType → ClientError
  no_key_announced bad_hash key_mismatch bad_key blinding_failed : ClientError
  request_failed finalization_failed file_not_written : ClientError

abbrev pub is_none {ℓ} : {A : Type ℓ} → Option A → Bool
is_none none = true
is_none (some a) = false

-- Inputs of others that carry no signature yet. `k` is the index of the first input.
unfoldable pub guard_indices : ℕ → ℕ → List PsbtInput → List ℕ
guard_indices input_idx k [] = []
guard_indices input_idx k (p ∷ ps) =
    let rest = guard_indices input_idx (suc k) ps in
    if not (k == input_idx) && (is_none p.final_script_sig && is_none p.final_script_witness)
    then k ∷ rest
    else rest

-- `psbt.inputs[i].final_script_witness = ..` for the indices.
unfoldable pub set_witness : List ℕ → Option Witness → ℕ → List PsbtInput → List PsbtInput
set_witness indices witness k [] = []
set_witness indices witness k (p ∷ ps) =
    let rest = set_witness indices witness (suc k) ps in
    if any (λ i. i == k) indices
    then record p { final_script_witness = witness } ∷ rest
    else p ∷ rest

-- What is handed to bdk: the inputs of others are marked as done, for bdk to skip them.
unfoldable pub marked : ℕ → Psbt → Psbt
marked input_idx psbt = record psbt {
  inputs = set_witness (guard_indices input_idx 0 psbt.inputs) (some []) 0 psbt.inputs;
}

module _ (x : External) where
  -- The finalized witness, or one of the first partial signature.
  unfoldable pub own_witness : PsbtInput → Option Bytes
  own_witness input = elim input.final_script_witness [
    | some witness ↦ some (x.encode_witness witness)
    | none ↦ elim input.partial_sigs [
      | [] ↦ none
      | (pk, sig) ∷ _ ↦ some (x.encode_witness (sig ∷ pk ∷ []))
    ]
  ]

  -- The PSBT that the caller holds afterwards, and the witness.
  unfoldable pub sign_psbt_input : ClientWallet → Psbt → Result ClientError (Psbt × Bytes)
  sign_psbt_input wallet psbt = do
    input_idx ← ok_or (position wallet.utxo_outpoint psbt.unsigned_tx.input) utxo_not_in_psbt
    let indices = guard_indices input_idx 0 psbt.inputs
    signed ← ok_or (wallet.inner.sign (marked input_idx psbt)) signing_failed
    ensure (not (any (λ i. leb (length signed.inputs) i) indices)) panicked
    let cleared = set_witness indices none 0 signed.inputs
    input ← ok_or (get_elem? cleared input_idx) panicked
    witness ← ok_or (own_witness input) no_witness
    ok (record signed { inputs = cleared }, witness)
