-- ===== src/Client/Round/Sign.antt =====
-- client/src/round/sign.rs: what a client checks of the PSBT before it signs.
pub mod Protected
pub mod Honest
use blindjoin.Prelude.{
  ℕ, ◌-◌, ◌/◌, ◌%◌, ◌^◌, ◌&&◌, ◌||◌, Bool, not, Option, none, some, List, [], ◌∷◌, ◌++◌, map, ltb,
  any, keep_if, length, get_elem?, Result, ok, ◌>>=◌, ◌>>◌, ok_or, ensure, sum64,
}
use blindjoin.Prelude.Eq.{Bytes, Text, ◌==◌, nat_eq, bytes_eq}
use blindjoin.External.{External, OutPoint, TxOut, Psbt}
use blindjoin.Coordinator.Round.Signing.{position}
use blindjoin.Coordinator.Round.OutPoints.{outpoint_text}
use blindjoin.Coordinator.Api.Tx.{RoundTxResponse}
use blindjoin.Coordinator.Api.Sign.{SignRequest}
use blindjoin.Client.Wallet.{
  ClientWallet, ClientError, bad_base64, bad_psbt, no_own_output, below_anonymity_floor,
  no_own_input, no_witness_utxo, outputs_exceed_input, fee_above_cap, sign_psbt_input,
}
use blindjoin.Client.Round.{InputRegState}

unfoldable pub verify_own_denomination_output : Psbt → Bytes → ℕ → Result ClientError (Unit {0})
verify_own_denomination_output psbt our_script denomination_sats =
    ensure
      (any (λ o. (o.script_pubkey == our_script) && (o.value == denomination_sats))
        psbt.unsigned_tx.output)
      no_own_output

-- The count is a u32: `as u32` drops the high bits.
unfoldable pub verify_anonymity_floor : Psbt → ℕ → ℕ → Result ClientError (Unit {0})
verify_anonymity_floor psbt denomination_sats min_anonymity_set =
    let denominations = keep_if (λ o. o.value == denomination_sats) psbt.unsigned_tx.output in
    ensure (not (ltb (length denominations % 2 ^ 32) min_anonymity_set)) below_anonymity_floor

unfoldable pub verify_fee_within_cap : ℕ → ℕ → ℕ → Result ClientError (Unit {0})
verify_fee_within_cap our_input_value our_received max_fee_sats = do
  ensure (not (ltb our_input_value our_received)) outputs_exceed_input
  ensure (not (ltb max_fee_sats (our_input_value - our_received))) fee_above_cap

abbrev pub witness_utxo_of : Psbt → ℕ → Option TxOut
witness_utxo_of psbt idx = elim (get_elem? psbt.inputs idx) [
  | none ↦ none
  | some i ↦ i.witness_utxo
]

unfoldable pub own_input_value : Psbt → OutPoint → Result ClientError ℕ
own_input_value psbt our_outpoint = do
  idx ← ok_or (position our_outpoint psbt.unsigned_tx.input) no_own_input
  witness_utxo ← ok_or (witness_utxo_of psbt idx) no_witness_utxo
  ok witness_utxo.value

abbrev pub ours : List Bytes → List TxOut → List ℕ
ours our_scripts outputs =
    map (λ o. o.value) (keep_if (λ o. any (λ s. s == o.script_pubkey) our_scripts) outputs)

unfoldable pub our_received_value : Psbt → List Bytes → ℕ
our_received_value psbt our_scripts = sum64 (ours our_scripts psbt.unsigned_tx.output)

-- `max_fee_sats.unwrap_or(state.denomination_sats / 10)`
abbrev pub fee_cap_of : Option ℕ → ℕ → ℕ
fee_cap_of none denomination_sats = denomination_sats / 10
fee_cap_of (some cap) denomination_sats = cap

abbrev pub scripts_of : ClientWallet → InputRegState → List Bytes
scripts_of wallet state = state.output_script ∷ wallet.inner.internal_script ∷ []

module _ (x : External) where
  -- Steps 2 to 4 of `verify_and_sign`.
  unfoldable pub verify_psbt :
      ClientWallet → InputRegState → ℕ → Option ℕ → Psbt → Result ClientError (Unit {0})
  verify_psbt wallet state min_anonymity_set max_fee_sats psbt = do
    verify_own_denomination_output psbt state.output_script state.denomination_sats
    verify_anonymity_floor psbt state.denomination_sats min_anonymity_set
    our_input_value ← own_input_value psbt wallet.utxo_outpoint
    verify_fee_within_cap our_input_value (our_received_value psbt (scripts_of wallet state))
        (fee_cap_of max_fee_sats state.denomination_sats)

  -- The request that is posted. `tx_resp` is what the coordinator answered to `get_tx`.
  unfoldable pub verify_and_sign :
      ClientWallet → InputRegState → ℕ → Option ℕ → RoundTxResponse → Result ClientError SignRequest
  verify_and_sign wallet state min_anonymity_set max_fee_sats tx_resp = do
    psbt_bytes ← ok_or (x.b64_decode tx_resp.psbt) bad_base64
    psbt ← ok_or (x.deserialize_psbt psbt_bytes) bad_psbt
    verify_psbt wallet state min_anonymity_set max_fee_sats psbt
    (after, partial_sig) ← sign_psbt_input x wallet psbt
    ok (record {
      round_id = state.round_id;
      utxo_outpoint = outpoint_text x wallet.utxo_outpoint;
      partial_signature = x.b64_encode partial_sig;
      session_token = x.b64_encode state.session_token;
    })
