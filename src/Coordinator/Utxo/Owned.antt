-- ===== src/Coordinator/Utxo/Owned.antt =====
-- What a validated UTXO is (coordinator/src/bitcoin/utxo.rs).
use blindjoin.Prelude.{
  ℕ, ◌≡◌, ◌≤◌, true, false, not, Option, some, List, ok, ok_or, ensure, map_err, leb, any, add64,
  arith, sym, Bool-cases, inl, inr, >>=-eq-ok, ok_or-eq-ok, ensure-eq-ok, map_err-eq-ok, leb→le,
  ◌>>◌,
}
use blindjoin.Prelude.Eq.{Bytes, Text, ◌==◌, nat_eq}
use blindjoin.External.{External, Network, OutPoint, Witness, outpoint_eq}
use blindjoin.Shared.Script.{
  ScriptType, script_type_eq, wire_format_mismatch, unsupported_script_type, script_type_mismatch,
  detect_script_type,
}
use blindjoin.Shared.Ownership.{OwnershipProof}
use blindjoin.Shared.Verify.{verify_simple}
use blindjoin.Coordinator.State.{Rpc, answer, failed}
use blindjoin.Coordinator.Config.{BipConfig, allows}
use blindjoin.Coordinator.Utxo.{
  UtxoDetails, GetTxOut, not_found, already_registered, insufficient_value, bad_amount, bad_script,
  bip322, invalid_proof, of_rpc, decode_psbt_input_witness, dispatch_v1, dispatch_v2,
  dispatch_ownership_proof, ownership_message, check_txout, validate_utxo,
}

module _ (x : External) (spk : Bytes) (network : Network) (bip : BipConfig) (message : Bytes) where
  -- The type is derived from the script, allowed, and a witness of the proof verifies for it.
  abbrev Proved : ScriptType → Type 0
  Proved st =
      (detect_script_type x spk ≡ ok st)
      × (allows bip st ≡ true)
      × (witness : Witness) × (verify_simple x st spk witness message network ≡ ok tt)

  policy :
      (st : ScriptType) (witness : Witness) {t : ScriptType}
      → detect_script_type x spk ≡ ok st
      → (do
        ensure (allows bip st) unsupported_script_type
        verify_simple x st spk witness message network
        ok st)
        ≡ ok t
      → Proved t
  policy st witness {t} derived h =
      let (_, allowed, rest) = >>=-eq-ok (ensure (allows bip st) unsupported_script_type) _ h in
      let (_, verified, end) = >>=-eq-ok (verify_simple x st spk witness message network) _ rest in
      let admitted = ensure-eq-ok (allows bip st) unsupported_script_type allowed in
      let same : st ≡ t = cc end in rw (sym same) (derived, admitted, witness, verified)

  v1-Proved :
      (proof : OwnershipProof) {t : ScriptType}
      → dispatch_v1 x spk proof network bip message ≡ ok t
      → Proved t
  unfolding dispatch_v1
  v1-Proved proof h =
      let (st, derived, rest) = >>=-eq-ok (detect_script_type x spk) _ h in
      policy st proof.witness_stack derived rest

  v2-Proved :
      (proof : OwnershipProof) {t : ScriptType}
      → dispatch_v2 x spk proof network bip message ≡ ok t
      → Proved t
  unfolding dispatch_v2
  v2-Proved proof h =
      let (b64, _, h1) = >>=-eq-ok (ok_or proof.psbt_input_b64 wire_format_mismatch) _ h in
      let (declared, _, h2) = >>=-eq-ok (ok_or proof.script_type wire_format_mismatch) _ h1 in
      let (witness, _, h3) = >>=-eq-ok (decode_psbt_input_witness x b64) _ h2 in
      let (st, derived, h4) = >>=-eq-ok (detect_script_type x spk) _ h3 in
      let (_, _, rest) =
        >>=-eq-ok (ensure (declared == st) (script_type_mismatch declared st)) _ h4 in
      policy st witness derived rest

  -- An accepted proof of either version.
  pub dispatch-Proved :
      (proof : OwnershipProof) {t : ScriptType}
      → dispatch_ownership_proof x spk proof network bip message ≡ ok t
      → Proved t
  unfolding dispatch_ownership_proof
  dispatch-Proved proof h = elim (Bool-cases (proof.version == 1)) [
    | inl one ↦ v1-Proved proof (cc (h, one))
    | inr other ↦ elim (Bool-cases (proof.version == 2)) [
      | inl two ↦ v2-Proved proof (cc (h, other, two))
      | inr none_of_them ↦ absurd (cc (h, other, none_of_them))
    ]
  ]

-- What the coordinator knows of a UTXO that it accepts.
pub record Owned (x : External) (rpc : Rpc (Option GetTxOut)) (utxo : OutPoint)
    (registered : List OutPoint) (required : ℕ) (bip : BipConfig) (network : Network)
    (message : Bytes) (d : UtxoDetails) : Type 0 where
  pub fresh : any (λ r. r == utxo) registered ≡ false
  pub txout : GetTxOut
  pub on_chain : rpc ≡ answer (some txout)
  pub value : txout.value ≡ some d.value_sats
  pub script : x.hex_decode txout.script_hex ≡ some d.script_pubkey
  pub enough : required ≤ d.value_sats
  pub proved : Proved x d.script_pubkey network bip message d.script_type

of_rpc-eq-ok :
    (x : External) (rpc : Rpc (Option GetTxOut)) {o : Option GetTxOut}
    → of_rpc x rpc ≡ ok o
    → rpc ≡ answer o
unfolding of_rpc
of_rpc-eq-ok x (answer o) h = cc
of_rpc-eq-ok x failed h = absurd (cc)

checked :
    (x : External) (txout : GetTxOut) (denomination fee : ℕ) {v : ℕ} {spk : Bytes}
    → check_txout x txout denomination fee ≡ ok (v, spk)
    → (txout.value ≡ some v)
      × (add64 denomination fee ≤ v)
      × (x.hex_decode txout.script_hex ≡ some spk)
unfolding check_txout
checked x txout denomination fee {v} {spk} h =
    let required = add64 denomination fee in
    let (w, h1, k1) = >>=-eq-ok (ok_or txout.value (invalid_proof bad_amount)) _ h in
    let (_, h2, k2) = >>=-eq-ok (ensure (leb required w) (insufficient_value w required)) _ k1 in
    let (s, h3, k3) =
      >>=-eq-ok (ok_or (x.hex_decode txout.script_hex) (invalid_proof bad_script)) _ k2 in
    let value = ok_or-eq-ok txout.value (invalid_proof bad_amount) h1 in
    let enough =
      leb→le required w (ensure-eq-ok (leb required w) (insufficient_value w required) h2) in
    let script = ok_or-eq-ok (x.hex_decode txout.script_hex) (invalid_proof bad_script) h3 in
    let same_value : w ≡ v = cc k3 in
    let same_script : s ≡ spk = cc k3 in
    (cc (value, same_value), rw (sym same_value) enough, cc (script, same_script))

-- A UTXO that validates is not registered in the snapshot, stands on the chain with the value and the
-- script that are recorded and covers the denomination and the fee share. The type of its script is
-- one that the operator allows, derived from the script and not from what the client declares, and a
-- witness of the proof verifies for that script over the message that names the round and the outpoint.
pub validate_utxo-Owned :
    (x : External) (rpc : Rpc (Option GetTxOut)) (utxo : OutPoint) (registered : List OutPoint)
    (denomination fee : ℕ) (proof : OwnershipProof) (bip : BipConfig) (network : Network)
    (round_id : Text) {d : UtxoDetails}
    → validate_utxo x rpc utxo registered denomination fee proof bip network round_id ≡ ok d
    → Owned x rpc utxo registered
        (add64 denomination fee)
        bip
        network
        (ownership_message x round_id utxo)
        d
unfolding validate_utxo
validate_utxo-Owned x rpc utxo registered denomination fee proof bip network round_id {d} h =
    let (_, h0, k0) =
      >>=-eq-ok (ensure (not (any (λ r. r == utxo) registered)) already_registered) _ h in
    let (found, h1, k1) = >>=-eq-ok (of_rpc x rpc) _ k0 in
    let (txout, h2, k2) = >>=-eq-ok (ok_or found not_found) _ k1 in
    let ((v, spk), h3, k3) = >>=-eq-ok (check_txout x txout denomination fee) _ k2 in
    let message = ownership_message x round_id utxo in
    let dispatched = dispatch_ownership_proof x spk proof network bip message in
    let (st, h4, k4) = >>=-eq-ok (map_err (λ e. invalid_proof (bip322 e)) dispatched) _ k3 in
    let (value, enough, script) = checked x txout denomination fee h3 in
    let details : UtxoDetails = record { value_sats = v; script_pubkey = spk; script_type = st } in
    let same : details ≡ d = cc k4 in
    rw (sym same) (record {
      fresh =
          ground
            (arith, ensure-eq-ok (not (any (λ r. r == utxo) registered)) already_registered h0);
      txout = txout;
      on_chain = cc (of_rpc-eq-ok x rpc h1, ok_or-eq-ok found not_found h2);
      value = value;
      script = script;
      enough = enough;
      proved =
          dispatch-Proved x spk network bip message proof
            (map_err-eq-ok (λ e. invalid_proof (bip322 e)) dispatched h4);
    })
