-- ===== src/Coordinator/Round/Signing.antt =====
-- coordinator/src/round/signing.rs: the canonical transaction, and a partial signature under the
-- write lock.
-- pub mod Canonical
use blindjoin.Prelude.{
  ℕ, suc, ◌&&◌, not, Option, none, some, List, [], ◌∷◌, leb, if◌then◌else◌, Result, ok, err, ◌>>=◌,
  ◌>>◌, ok_or, ensure, map_err, length, get_elem?,
}
use blindjoin.Prelude.Eq.{Bytes, Text, ◌==◌, nat_eq, bytes_eq}
use blindjoin.Prelude.Dict.{Dict, keys, values, get, contains_key, insert}
use blindjoin.External.{
  External, Network, OutPoint, TxOut, Witness, TxIn, PsbtInput, Psbt, outpoint_eq,
}
use blindjoin.Shared.Errors.{wrong_phase, session_invalid, invalid_signature, broadcast_rejected}
use blindjoin.Coordinator.Failure.{Failure, panicked, refuse}
use blindjoin.Coordinator.Config.{CoordinatorConfig, parse_bitcoin_network}
use blindjoin.Coordinator.Tx.{ParticipantInput, ParticipantOutput, build_coinjoin_psbt}
use blindjoin.Coordinator.SigVerify.{verify_input_signature}
use blindjoin.Coordinator.Round.State.{
  broadcast, RegisteredInput, RegisteredOutput, RoundStateInner, RoundState, transition_to,
}
use blindjoin.Coordinator.Round.OutPoints.{outpoint_text, parse_outpoint}
use blindjoin.Coordinator.Round.Manager.{verify_session_token}

-- `position(|i| i.previous_output == *utxo)`
unfoldable pub position : OutPoint → List TxIn → Option ℕ
position utxo [] = none
position utxo (i ∷ is) =
    let rest = position utxo is in
    if i.previous_output == utxo then some 0 else elim rest [ none ↦ none | some n ↦ some (suc n) ]

pub record PreparedBroadcast : Type 0 where
  pub tx_hex : Text
  pub input_outpoints : List Text

pub data SignOutcome : Type 0 where
  recorded : SignOutcome
  ready_to_broadcast : PreparedBroadcast → SignOutcome

module _ (x : External) where
  unfoldable pub parse_address_to_script : Text → Network → Option Bytes
  parse_address_to_script addr_str expected_network = x.address_script expected_network addr_str

  -- One turn of the loop over the registered inputs.
  unfoldable pub participant_input :
      Network → RegisteredInput → Text → Result Failure ParticipantInput
  unfolding parse_address_to_script
  participant_input network reg round_id = do
    outpoint ← ok_or (parse_outpoint x reg.utxo_str) (refuse broadcast_rejected round_id)
    change_script ←
        ok_or (parse_address_to_script reg.change_address network)
          (refuse broadcast_rejected round_id)
    ok (record {
      outpoint = outpoint;
      value_sats = reg.value_sats;
      script_pubkey = reg.script_pubkey;
      change_address = change_script;
      script_type = reg.script_type;
    })

  unfoldable pub participant_inputs :
      Network → List RegisteredInput → Text → Result Failure (List ParticipantInput)
  participant_inputs network [] round_id = ok []
  participant_inputs network (reg ∷ regs) round_id = do
    i ← participant_input network reg round_id
    is ← participant_inputs network regs round_id
    ok (i ∷ is)

  unfoldable pub participant_outputs :
      Network → List RegisteredOutput → Text → Result Failure (List ParticipantOutput)
  participant_outputs network [] round_id = ok []
  participant_outputs network (out ∷ outs) round_id = do
    script ←
        ok_or (parse_address_to_script out.address network) (refuse broadcast_rejected round_id)
    os ← participant_outputs network outs round_id
    ok (record { script_pubkey = script } ∷ os)

  unfoldable pub build_canonical_psbt :
      RoundStateInner → CoordinatorConfig → Text → Result Failure Psbt
  build_canonical_psbt inner cfg round_id = do
    network ← map_err (λ _. panicked) (parse_bitcoin_network cfg.network.bitcoin_network)
    inputs ← participant_inputs network (values inner.registered_inputs) round_id
    outputs ← participant_outputs network inner.registered_outputs round_id
    map_err (λ _. refuse broadcast_rejected round_id)
        (build_coinjoin_psbt x inputs outputs cfg.coordinator.denomination_sats
          cfg.coordinator.fee_rate_sat_per_vbyte cfg.bip.output_script_type)

  -- The scriptSig of a P2SH-P2WPKH input: the push of `OP_0 <hash160>`.
  unfoldable pub redeem_script_sig : Bytes → Bytes
  redeem_script_sig pk_bytes = 0x16 ∷ 0x00 ∷ 0x14 ∷ x.hash160 pk_bytes

  abbrev pub sig_from_key : Option Bytes → Option Bytes → Option Bytes
  sig_from_key (some pk_bytes) old =
      if length pk_bytes == 33 then some (redeem_script_sig pk_bytes) else old
  sig_from_key none old = old

  abbrev pub script_sig_of : Option TxOut → Witness → Option Bytes → Option Bytes
  script_sig_of (some o) witness old =
      if x.is_p2sh o.script_pubkey && (length witness == 2)
      then sig_from_key (get_elem? witness 1) old
      else old
  script_sig_of none witness old = old

  -- Sets the witness of an input, and the scriptSig where one is needed.
  unfoldable pub with_witness : PsbtInput → Witness → PsbtInput
  unfolding redeem_script_sig
  with_witness p witness = record p {
    final_script_witness = some witness;
    final_script_sig = script_sig_of p.witness_utxo witness p.final_script_sig;
  }

  -- The loop of `assemble_final_tx_hex`.
  unfoldable pub attach_witnesses :
      Dict Text Bytes → List TxIn → List PsbtInput → Text → Result Failure (List PsbtInput)
  attach_witnesses sigs [] ps round_id = ok ps
  attach_witnesses sigs (i ∷ is) ps round_id = do
    sig_bytes ←
        ok_or (get (outpoint_text x i.previous_output) sigs) (refuse broadcast_rejected round_id)
    witness ← ok_or (x.decode_witness sig_bytes) (refuse broadcast_rejected round_id)
    elim ps [
      | [] ↦ err panicked
      | p ∷ rest ↦ do
        done ← attach_witnesses sigs is rest round_id
        ok (with_witness p witness ∷ done)
    ]

  unfoldable pub assemble_final_tx_hex :
      RoundStateInner → CoordinatorConfig → Text → Result Failure Text
  assemble_final_tx_hex inner cfg round_id = do
    psbt ← build_canonical_psbt inner cfg round_id
    inputs ← attach_witnesses inner.partial_sigs psbt.unsigned_tx.input psbt.inputs round_id
    final_tx ←
        ok_or (x.extract_tx (record psbt { inputs = inputs })) (refuse broadcast_rejected round_id)
    ok (x.serialize_hex final_tx)

  -- `process_sign` as far as the recording of the signature: every check, then the new entry.
  unfoldable pub accept_signature :
      RoundState
      → CoordinatorConfig
      → OutPoint
      → Bytes
      → Bytes
      → Text
      → Result Failure RoundStateInner
  accept_signature s cfg utxo partial_signature session_token round_id = do
    inner ← ok_or s.inner (refuse wrong_phase round_id)
    ensure (verify_session_token x inner.round_secret utxo session_token)
        (refuse session_invalid round_id)
    let utxo_str = outpoint_text x utxo
    ensure (contains_key utxo_str inner.registered_inputs) (refuse session_invalid round_id)
    ensure (not (contains_key utxo_str inner.partial_sigs)) (refuse session_invalid round_id)
    reg ← ok_or (get utxo_str inner.registered_inputs) (refuse session_invalid round_id)
    canonical ← build_canonical_psbt inner cfg round_id
    input_index ←
        ok_or (position utxo canonical.unsigned_tx.input) (refuse broadcast_rejected round_id)
    map_err (λ _. refuse invalid_signature round_id)
        (verify_input_signature x canonical input_index reg.script_type partial_signature)
    ok (record inner { partial_sigs = insert utxo_str partial_signature inner.partial_sigs })

  -- What follows the recording: with the last signature the transaction is assembled, and the round
  -- moves to Broadcast.
  unfoldable pub complete :
      ℕ
      → RoundState
      → RoundStateInner
      → CoordinatorConfig
      → Text
      → Result Failure (SignOutcome × RoundState)
  complete fresh s inner cfg round_id =
      if leb s.participant_count (length inner.partial_sigs)
      then (do
        tx_hex ← assemble_final_tx_hex inner cfg round_id
        s' ← map_err (λ _. refuse broadcast_rejected round_id) (transition_to fresh s broadcast)
        ok (
          ready_to_broadcast
              (record { tx_hex = tx_hex; input_outpoints = keys inner.registered_inputs }),
          s',
        ))
      else ok (recorded, s)

  -- A failure of `complete` leaves the signature recorded.
  abbrev pub settled :
      RoundState
      → Result Failure (SignOutcome × RoundState)
      → Result Failure SignOutcome × RoundState
  settled s (ok (o, s')) = (ok o, s')
  settled s (err e) = (err e, s)

  abbrev pub after_recording :
      ℕ
      → RoundState
      → CoordinatorConfig
      → Text
      → Result Failure RoundStateInner
      → Result Failure SignOutcome × RoundState
  after_recording fresh s cfg round_id (ok inner) =
      let s' : RoundState = record s { inner = some inner } in
      settled s' (complete fresh s' inner cfg round_id)
  after_recording fresh s cfg round_id (err e) = (err e, s)

  -- The outcome, and the state of the round that the call leaves.
  unfoldable pub process_sign :
      ℕ
      → RoundState
      → CoordinatorConfig
      → OutPoint
      → Bytes
      → Bytes
      → Text
      → Result Failure SignOutcome × RoundState
  process_sign fresh s cfg utxo partial_signature session_token round_id =
      after_recording fresh s cfg round_id
        (accept_signature s cfg utxo partial_signature session_token round_id)
