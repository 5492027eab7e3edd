-- ===== src/Coordinator/Tx.antt =====
-- coordinator/src/bitcoin/tx.rs: the CoinJoin transaction and its PSBT.
pub mod Share
pub mod Funds
pub mod Order
pub mod Build
pub mod Canonical
pub mod Conserve
use blindjoin.Prelude.{
  ℕ, ◌/◌, Bool, true, false, Option, none, some, List, [], ◌∷◌, ◌++◌, map, ltb, leb, if◌then◌else◌,
  Result, ok, err, ◌>>=◌, ◌>>◌, ok_or, length, add64, sub64, mul64, sum64,
}
use blindjoin.Prelude.Eq.{Bytes}
use blindjoin.External.{
  External, OutPoint, TxOut, TxIn, Transaction, PsbtInput, Psbt, enable_rbf_no_locktime,
}
use blindjoin.Shared.Script.{ScriptType}
use blindjoin.Coordinator.Fee.{tx_overhead_vbytes, script_input_vbytes, script_output_vbytes}

abbrev pub dust_threshold_sats : ℕ
dust_threshold_sats = 294

pub record ParticipantInput : Type 0 where
  pub outpoint : OutPoint
  pub value_sats : ℕ  -- u64
  pub script_pubkey : Bytes
  pub change_address : Bytes
  pub script_type : ScriptType

pub record ParticipantOutput : Type 0 where
  pub script_pubkey : Bytes

-- `panicked` is an index out of range, where the program panics.
pub data TxError : Type 0 where
  insufficient_funds : ℕ → ℕ → TxError
  no_participants psbt panicked : TxError

-- The fee share of the round: the estimate counts a change output for every participant.
unfoldable pub input_vbytes : List ParticipantInput → List ℕ
input_vbytes = map λ inp. script_input_vbytes inp.script_type

unfoldable pub estimated_vsize : List ParticipantInput → ScriptType → ℕ
estimated_vsize inputs output_script_type =
    let n = length inputs in
    add64 (add64 tx_overhead_vbytes (sum64 (input_vbytes inputs)))
      (mul64 (add64 n n) (script_output_vbytes output_script_type))

unfoldable pub round_fee_share : List ParticipantInput → ScriptType → ℕ → ℕ
round_fee_share inputs output_script_type fee_rate =
    mul64 (estimated_vsize inputs output_script_type) fee_rate / length inputs

-- The loop that refuses an input below `denomination_sats + fee_share`.
unfoldable pub check_funds : ℕ → ℕ → List ParticipantInput → Result TxError (Unit {0})
check_funds denomination_sats fee_share [] = ok tt
check_funds denomination_sats fee_share (inp ∷ inputs) =
    let required = add64 denomination_sats fee_share in
    if ltb inp.value_sats required
    then err (insufficient_funds inp.value_sats required)
    else check_funds denomination_sats fee_share inputs

abbrev pub tx_input : ParticipantInput → TxIn
tx_input inp = record {
  previous_output = inp.outpoint;
  script_sig = [];
  sequence = enable_rbf_no_locktime;
  witness = [];
}

abbrev pub denomination_output : ℕ → ParticipantOutput → TxOut
denomination_output denomination_sats out = record {
  value = denomination_sats;
  script_pubkey = out.script_pubkey;
}

-- Change below the dust threshold goes to the fee.
unfoldable pub change_outputs : ℕ → ℕ → List ParticipantInput → List TxOut
change_outputs denomination_sats fee_share [] = []
change_outputs denomination_sats fee_share (inp ∷ inputs) =
    let change = sub64 (sub64 inp.value_sats denomination_sats) fee_share in
    let rest = change_outputs denomination_sats fee_share inputs in
    if leb dust_threshold_sats change
    then record { value = change; script_pubkey = inp.change_address } ∷ rest
    else rest

-- `psbt.inputs[i].witness_utxo = Some(..)` along the inputs; `none` is an index out of range.
unfoldable pub attach_utxos : List ParticipantInput → List PsbtInput → Option (List PsbtInput)
attach_utxos [] ps = some ps
attach_utxos (inp ∷ inputs) [] = none
attach_utxos (inp ∷ inputs) (p ∷ ps) = elim (attach_utxos inputs ps) [
  | none ↦ none
  | some qs ↦ some (
      record p {
        witness_utxo = some (record { value = inp.value_sats; script_pubkey = inp.script_pubkey });
      }
      ∷ qs)
]

module _ (x : External) where
  -- The stable `sort_by_key(|i| i.outpoint)`.
  unfoldable pub insert_ordered : ParticipantInput → List ParticipantInput → List ParticipantInput
  insert_ordered i [] = i ∷ []
  insert_ordered i (j ∷ js) =
      if x.outpoint_leb i.outpoint j.outpoint then i ∷ j ∷ js else j ∷ insert_ordered i js

  unfoldable pub sort_inputs : List ParticipantInput → List ParticipantInput
  unfolding insert_ordered
  sort_inputs [] = []
  sort_inputs (i ∷ is) = insert_ordered i (sort_inputs is)

  -- The transaction, over the inputs in canonical order.
  unfoldable pub coinjoin_tx : List ParticipantInput → List ParticipantOutput → ℕ → ℕ → Transaction
  coinjoin_tx ordered outputs denomination_sats fee_share = record {
    version = 2;
    lock_time = 0;
    input = map tx_input ordered;
    output =
        map (denomination_output denomination_sats) outputs
        ++ change_outputs denomination_sats fee_share ordered;
  }

  unfoldable pub create_psbt : List ParticipantInput → Transaction → Result TxError Psbt
  create_psbt ordered tx = do
    p ← ok_or (x.from_unsigned_tx tx) psbt
    ps ← ok_or (attach_utxos ordered p.inputs) panicked
    ok (record p { inputs = ps })

  unfoldable pub build_coinjoin_psbt :
      List ParticipantInput → List ParticipantOutput → ℕ → ℕ → ScriptType → Result TxError Psbt
  build_coinjoin_psbt [] outputs denomination_sats fee_rate output_script_type = err no_participants
  build_coinjoin_psbt (i ∷ is) outputs denomination_sats fee_rate output_script_type =
      let inputs = i ∷ is in
      let ordered = sort_inputs inputs in
      let fee_share = round_fee_share inputs output_script_type fee_rate in
      do
        check_funds denomination_sats fee_share inputs
        create_psbt ordered (coinjoin_tx ordered outputs denomination_sats fee_share)
