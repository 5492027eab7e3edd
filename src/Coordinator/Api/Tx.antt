-- ===== src/Coordinator/Api/Tx.antt =====
-- `get_tx` of coordinator/src/api/handlers.rs.
pub mod Same
use blindjoin.Prelude.{
  ℕ, ◌%◌, ◌^◌, some, List, [], ◌∷◌, length, Result, ok, ◌>>=◌, ◌>>◌, ok_or, ensure, map_err, mul64,
}
use blindjoin.Prelude.Eq.{Text, codes}
use blindjoin.Prelude.Dict.{values}
use blindjoin.External.{External, Network, Psbt}
use blindjoin.Coordinator.Config.{CoordinatorConfig}
use blindjoin.Coordinator.Fee.{estimate_fee_share}
use blindjoin.Coordinator.Tx.{ParticipantInput, ParticipantOutput, build_coinjoin_psbt}
use blindjoin.Coordinator.Round.State.{
  signing, phase_beq, RegisteredInput, RegisteredOutput, RoundStateInner, RoundState,
}
use blindjoin.Coordinator.Round.OutPoints.{parse_outpoint}
use blindjoin.Coordinator.Round.Signing.{parse_address_to_script}
use blindjoin.Coordinator.Api.{
  bad_request, conflict, internal_server_error, Refusal, panic, api_error, network_of,
  wrong_phase_error,
}

pub record RoundTxResponse : Type 0 where
  pub round_id : ℕ
  pub psbt : Text
  pub fee_total_sats : ℕ
  pub fee_per_participant_sats : ℕ

module _ (x : External) where
  abbrev internal_error : Text → Refusal
  internal_error round_id = api_error internal_server_error (codes "INTERNAL_ERROR") (some round_id)

  abbrev bad_address : Text → Refusal
  bad_address round_id = api_error bad_request (codes "INVALID_ADDRESS") (some round_id)

  unfoldable pub shown_input : Network → RegisteredInput → Text → Result Refusal ParticipantInput
  shown_input network reg round_id = do
    outpoint ← ok_or (parse_outpoint x reg.utxo_str) (internal_error round_id)
    change_script ←
        ok_or (parse_address_to_script x reg.change_address network) (bad_address round_id)
    ok (record {
      outpoint = outpoint;
      value_sats = reg.value_sats;
      script_pubkey = reg.script_pubkey;
      change_address = change_script;
      script_type = reg.script_type;
    })

  unfoldable pub shown_inputs :
      Network → List RegisteredInput → Text → Result Refusal (List ParticipantInput)
  shown_inputs network [] round_id = ok []
  shown_inputs network (reg ∷ regs) round_id = do
    i ← shown_input network reg round_id
    is ← shown_inputs network regs round_id
    ok (i ∷ is)

  unfoldable pub shown_outputs :
      Network → List RegisteredOutput → Text → Result Refusal (List ParticipantOutput)
  shown_outputs network [] round_id = ok []
  shown_outputs network (out ∷ outs) round_id = do
    script ← ok_or (parse_address_to_script x out.address network) (bad_address round_id)
    os ← shown_outputs network outs round_id
    ok (record { script_pubkey = script } ∷ os)

  -- The participants and the PSBT that the handler builds.
  unfoldable pub shown_psbt :
      CoordinatorConfig → RoundStateInner → Text → Result Refusal (List ParticipantInput × Psbt)
  shown_psbt cfg inner round_id = do
    network ← network_of cfg
    inputs ← shown_inputs network (values inner.registered_inputs) round_id
    outputs ← shown_outputs network inner.registered_outputs round_id
    psbt ←
        map_err (λ _. internal_error round_id)
          (build_coinjoin_psbt x inputs outputs cfg.coordinator.denomination_sats
            cfg.coordinator.fee_rate_sat_per_vbyte cfg.bip.output_script_type)
    ok (inputs, psbt)

  unfoldable pub get_tx : CoordinatorConfig → RoundState → Result Refusal RoundTxResponse
  get_tx cfg s = do
    ensure (phase_beq s.phase signing) (wrong_phase_error x s)
    let round_id = x.uuid_text s.round_id
    inner ← ok_or s.inner (api_error conflict (codes "WRONG_PHASE") (some round_id))
    (inputs, psbt) ← shown_psbt cfg inner round_id
    let n = length inputs % 2 ^ 32
    fee ← ok_or (estimate_fee_share cfg.bip n cfg.coordinator.fee_rate_sat_per_vbyte) panic
    ok (record {
      round_id = s.round_id;
      psbt = x.b64_encode (x.serialize_psbt psbt);
      fee_total_sats = mul64 fee n;
      fee_per_participant_sats = fee;
    })
