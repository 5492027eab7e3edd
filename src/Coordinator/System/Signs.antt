-- ===== src/Coordinator/System/Signs.antt =====
-- What is checked of a partial signature that is recorded (coordinator/src/api/handlers.rs,
-- coordinator/src/round/signing.rs).
pub mod WellFormed
use blindjoin.Prelude.{
  ℕ, ◌≡◌, not, true, false, some, ok, err, ok_or, ensure, map_err, leb, length, arith, refl, sym,
  subst, Result, Result-cases, Bool-cases, inl, inr, >>=-eq-ok, ok_or-eq-ok, ensure-eq-ok,
  map_err-eq-ok, leb→le,
}
use blindjoin.Prelude.Eq.{Text, Bytes, bytes_eq}
use blindjoin.Prelude.Dict.{get, contains_key, insert, insert-KeysDistinct, All-keys-insert}
use blindjoin.External.{External, Network, OutPoint, Psbt}
use blindjoin.Shared.Errors.{wrong_phase, session_invalid, invalid_signature, broadcast_rejected}
use blindjoin.Coordinator.Failure.{refuse}
use blindjoin.Coordinator.Config.{CoordinatorConfig}
use blindjoin.Coordinator.SigVerify.{verify_input_signature}
use blindjoin.Coordinator.Round.State.{
  signing, broadcast, phase_beq, RegisteredInput, RoundStateInner, RoundState, new_idle,
}
use blindjoin.Coordinator.Round.State.Phases.{phase_beq-eq, transition-broadcast}
use blindjoin.Coordinator.Round.OutPoints.{outpoint_text}
use blindjoin.Coordinator.Round.Manager.{verify_session_token}
use blindjoin.Coordinator.Round.Signing.{
  SignOutcome, position, build_canonical_psbt, assemble_final_tx_hex, accept_signature, complete,
  settled, after_recording, process_sign,
}
use blindjoin.Coordinator.Api.{Refusal}
use blindjoin.Coordinator.Api.Sign.{
  SignRequest, Submission, decode_submission, sign_locked, post_sign,
}
use blindjoin.Coordinator.System.Wf.{Running, Stage, Wf, rests, runs}

-- What the coordinator has checked of a partial signature that it records.
pub record Accepted (x : External) (s : RoundState) (cfg : CoordinatorConfig) (utxo : OutPoint)
    (sig token : Bytes) (round_id : Text) (after : RoundStateInner) : Type 0 where
  pub inner : RoundStateInner
  pub here : s.inner ≡ some inner
  pub session : verify_session_token x inner.round_secret utxo token ≡ true
  pub registered : contains_key (outpoint_text x utxo) inner.registered_inputs ≡ true
  pub first : contains_key (outpoint_text x utxo) inner.partial_sigs ≡ false
  pub reg : RegisteredInput
  pub found : get (outpoint_text x utxo) inner.registered_inputs ≡ some reg
  pub canonical : Psbt
  pub built : build_canonical_psbt x inner cfg round_id ≡ ok canonical
  pub index : ℕ
  pub placed : position utxo canonical.unsigned_tx.input ≡ some index
  pub verified : verify_input_signature x canonical index reg.script_type sig ≡ ok tt
  pub recorded :
      record inner { partial_sigs = insert (outpoint_text x utxo) sig inner.partial_sigs } ≡ after

-- A partial signature is recorded only for a registered input that has none yet, with the session token of
-- that input in this round, and when it verifies, for the type recorded at registration, against the
-- input's place in the canonical PSBT of the round. Nothing else changes.
pub accept_signature-Accepted :
    (x : External) (s : RoundState) (cfg : CoordinatorConfig) (utxo : OutPoint) (sig token : Bytes)
    (round_id : Text) {after : RoundStateInner}
    → accept_signature x s cfg utxo sig token round_id ≡ ok after
    → Accepted x s cfg utxo sig token round_id after
unfolding accept_signature
accept_signature-Accepted x s cfg utxo sig token round_id {after} h =
    let bad = refuse session_invalid round_id in
    let k = outpoint_text x utxo in
    let (inner, here, k0) = >>=-eq-ok (ok_or s.inner (refuse wrong_phase round_id)) _ h in
    let session = verify_session_token x inner.round_secret utxo token in
    let (_, h1, k1) = >>=-eq-ok (ensure session bad) _ k0 in
    let (_, h2, k2) = >>=-eq-ok (ensure (contains_key k inner.registered_inputs) bad) _ k1 in
    let (_, h3, k3) = >>=-eq-ok (ensure (not (contains_key k inner.partial_sigs)) bad) _ k2 in
    let (reg, h4, k4) = >>=-eq-ok (ok_or (get k inner.registered_inputs) bad) _ k3 in
    let (canonical, built, k5) = >>=-eq-ok (build_canonical_psbt x inner cfg round_id) _ k4 in
    let gone = refuse broadcast_rejected round_id in
    let (index, h6, k6) = >>=-eq-ok (ok_or (position utxo canonical.unsigned_tx.input) gone) _ k5 in
    let check = verify_input_signature x canonical index reg.script_type sig in
    let (_, h7, end) = >>=-eq-ok (map_err (λ _. refuse invalid_signature round_id) check) _ k6 in
    record {
      inner = inner;
      here = ok_or-eq-ok s.inner (refuse wrong_phase round_id) here;
      session = ensure-eq-ok session bad h1;
      registered = ensure-eq-ok (contains_key k inner.registered_inputs) bad h2;
      first = ground (arith, ensure-eq-ok (not (contains_key k inner.partial_sigs)) bad h3);
      reg = reg;
      found = ok_or-eq-ok (get k inner.registered_inputs) bad h4;
      canonical = canonical;
      built = built;
      index = index;
      placed = ok_or-eq-ok (position utxo canonical.unsigned_tx.input) gone h6;
      verified = map_err-eq-ok (λ _. refuse invalid_signature round_id) check h7;
      recorded = cc end;
    }
