-- ===== src/Coordinator/System/Inputs.antt =====
-- The checks before the lock give a good input (coordinator/src/api/handlers.rs).
use blindjoin.Prelude.{
  ℕ, ◌^◌, ◌≡◌, ◌<◌, not, none, ok, ok_or, ensure, map_err, sym, Option, >>=-eq-ok, ok_or-eq-ok,
  map_err-eq-ok,
}
use blindjoin.Prelude.Eq.{Text, nat_eq, codes, bytes_eq}
use blindjoin.External.{External, OutPoint, TxidText}
use blindjoin.Shared.Ownership.{WireJson, OwnershipProof}
use blindjoin.Coordinator.Config.{CoordinatorConfig}
use blindjoin.Coordinator.Config.Valid.{Valid}
use blindjoin.Coordinator.State.{Rpc}
use blindjoin.Coordinator.Fee.{estimate_fee_share}
use blindjoin.Coordinator.Utxo.{GetTxOut, UtxoDetails, validate_utxo}
use blindjoin.Coordinator.Utxo.Owned.{validate_utxo-Owned}
use blindjoin.Coordinator.Round.State.{RegisteredInput, input_reg, phase_beq, RoundState}
use blindjoin.Coordinator.Round.OutPoints.{outpoint_text, parse_outpoint}
use blindjoin.Coordinator.Round.OutPoints.RoundTrip.{parse_outpoint-text, vout-bound}
use blindjoin.Coordinator.Round.Blame.{BanList, is_banned}
use blindjoin.Coordinator.Round.InputReg.{Registration, registered_input}
use blindjoin.Coordinator.Round.Signing.{parse_address_to_script}
use blindjoin.Coordinator.Api.{panic, api_error, wrong_phase_error, bad_request, forbidden}
use blindjoin.Coordinator.Api.KnownNetwork.{network_of-eq}
use blindjoin.Coordinator.Api.Input.{
  admit_outpoint, decode_input, check_input, InputRegRequest, utxo_refusal, registered_snapshot,
  validate_request,
}
use blindjoin.Coordinator.System.Wf.{InputOk}

module _ (x : External) (txids : TxidText x) (cfg : CoordinatorConfig) (valid : Valid cfg) where
  admitted :
      (now : ℕ) (seen : RoundState) (bans : BanList) (req : InputRegRequest) {utxo : OutPoint}
      → admit_outpoint x now seen bans req ≡ ok utxo
      → utxo.vout < 2 ^ 32
  unfolding admit_outpoint
  admitted now seen bans req {utxo} h =
      let (_, _, k0) =
        >>=-eq-ok (ensure (phase_beq seen.phase input_reg) (wrong_phase_error x seen)) _ h in
      let bad = api_error bad_request (codes "UTXO_NOT_FOUND") none in
      let (o, named, k1) = >>=-eq-ok (ok_or (parse_outpoint x req.utxo_outpoint) bad) _ k0 in
      let (_, _, end) =
        >>=-eq-ok
          (ensure (not (is_banned x bans (outpoint_text x o) now))
            (api_error forbidden (codes "UTXO_BANNED") none))
          _ k1 in
      let same : o ≡ utxo = cc end in
      let read = ok_or-eq-ok (parse_outpoint x req.utxo_outpoint) bad named in
      vout-bound x req.utxo_outpoint {o = utxo} (cc (read, same))

  -- The input that a request registers, if it passes.
  abbrev entry : Text → Text → UtxoDetails → RegisteredInput
  entry utxo_str change d = record {
    utxo_str = utxo_str;
    change_address = change;
    script_pubkey = d.script_pubkey;
    value_sats = d.value_sats;
    script_type = d.script_type;
  }

  priced :
      (gettxout : OutPoint → Rpc (Option GetTxOut)) (snap : RoundState) (req : InputRegRequest)
      (utxo : OutPoint) (proof : OwnershipProof) {d : UtxoDetails}
      → utxo.vout < 2 ^ 32
      → check_input x cfg gettxout snap req utxo proof ≡ ok d
      → InputOk x cfg valid.network (entry (outpoint_text x utxo) req.change_address d)
  unfolding check_input parse_address_to_script
  priced gettxout snap req utxo proof {d} small h =
      let est =
        estimate_fee_share cfg.bip cfg.coordinator.min_participants
          cfg.coordinator.fee_rate_sat_per_vbyte in
      let (fee, price, k6) = >>=-eq-ok (ok_or est panic) _ h in
      let h' = rw (network_of-eq cfg valid) at k6 in
      let validation =
        validate_utxo x (gettxout utxo) utxo (registered_snapshot x snap.inner)
          cfg.coordinator.denomination_sats fee proof cfg.bip valid.network
          (x.uuid_text snap.round_id) in
      let (details, validated, k8) = >>=-eq-ok (map_err utxo_refusal validation) _ h' in
      let bad = api_error bad_request (codes "INVALID_ADDRESS") none in
      let (script, addressed, k9) =
        >>=-eq-ok (ok_or (x.address_script valid.network req.change_address) bad) _ k8 in
      let owned =
        validate_utxo-Owned x (gettxout utxo) utxo (registered_snapshot x snap.inner)
          cfg.coordinator.denomination_sats fee proof cfg.bip valid.network
          (x.uuid_text snap.round_id) (map_err-eq-ok utxo_refusal validation validated) in
      let same : details ≡ d = cc k9 in
      rw (sym same) (record {
        outpoint = utxo;
        parsed = parse_outpoint-text x utxo (txids.read utxo.txid) small;
        change_script = script;
        change = ok_or-eq-ok (x.address_script valid.network req.change_address) bad addressed;
        allowed = owned.proved.1;
        estimate = fee;
        estimated = ok_or-eq-ok est panic price;
        funded = owned.enough;
      })

  -- A request that passes the checks before the lock registers a good input.
  pub validated-InputOk :
      (json : WireJson) (now : ℕ) (gettxout : OutPoint → Rpc (Option GetTxOut)) (seen : RoundState)
      (bans : BanList) (snap : RoundState) (req : InputRegRequest) {r : Registration}
      → validate_request x json cfg now gettxout seen bans snap req ≡ ok r
      → InputOk x cfg valid.network (registered_input x r)
  unfolding validate_request
  validated-InputOk json now gettxout seen bans snap req {r} h =
      let (utxo, named, k1) = >>=-eq-ok (admit_outpoint x now seen bans req) _ h in
      let ((token, proof), _, k2) = >>=-eq-ok (decode_input x json req) _ k1 in
      let (d, checked, end) = >>=-eq-ok (check_input x cfg gettxout snap req utxo proof) _ k2 in
      let found : Registration = record {
        utxo = utxo;
        blinded_token = token;
        change_address = req.change_address;
        script_pubkey = d.script_pubkey;
        value_sats = d.value_sats;
        script_type = d.script_type;
      } in
      let same : found ≡ r = cc end in
      rw (sym same) (priced gettxout snap req utxo proof (admitted now seen bans req named) checked)
