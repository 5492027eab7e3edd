-- ===== src/Coordinator/System/Refines/Signing.antt =====
-- The handler of a signature is a move of the specification (coordinator/src/api/handlers.rs,
-- coordinator/src/round/signing.rs).
use blindjoin.Prelude.{
  ℕ, suc, ◌≡◌, ◌∙◌, refl, subst, some, ok, err, length, leb, leb→le, arith, Bool-cases,
  Result-cases, Result, inl, inr, >>=-eq-ok,
}
use blindjoin.Prelude.Eq.{Text, Bytes, bytes_eq}
use blindjoin.Prelude.Dict.{insert, length-insert_new}
use blindjoin.External.{External, OutPoint}
use blindjoin.Coordinator.Config.{CoordinatorConfig}
use blindjoin.Coordinator.Config.Valid.{Valid}
use blindjoin.Coordinator.Round.State.{signing, broadcast, RoundStateInner, RoundState, phase_beq}
use blindjoin.Coordinator.Round.State.Phases.{phase_beq-eq, transition-broadcast}
use blindjoin.Coordinator.Round.OutPoints.{outpoint_text}
use blindjoin.Coordinator.Round.Signing.{
  SignOutcome, accept_signature, assemble_final_tx_hex, complete, after_recording, process_sign,
}
use blindjoin.Coordinator.Api.{Refusal}
use blindjoin.Coordinator.Api.Sign.{
  SignRequest, Submission, decode_submission, sign_locked, post_sign,
}
use blindjoin.Coordinator.System.Wf.{Wf}
use blindjoin.Coordinator.System.Signs.{Accepted, accept_signature-Accepted}
use blindjoin.Coordinator.System.Spec.{signs, sends, collecting}
use blindjoin.Coordinator.System.Refines.{view, view_at}
use blindjoin.Coordinator.System.Refines.Timers.{Refines, phase_view}

module _ (x : External) (cfg : CoordinatorConfig) (valid : Valid cfg) where
  -- What a round is once the signature is recorded and the completion, or its refusal, is written back.
  complete-Refines :
      (fresh : ℕ) (s t : RoundState) (i : RoundStateInner) (round_id : Text) (k : ℕ)
      {o : SignOutcome} {t' : RoundState}
      → view s ≡ collecting (length i.registered_inputs) k
      → length i.partial_sigs ≡ suc k
      → t.participant_count ≡ length i.registered_inputs
      → t.phase ≡ signing
      → t.inner ≡ some i
      → complete x fresh t i cfg round_id ≡ ok (o, t')
      → Refines x cfg valid.network s t'
  unfolding complete
  complete-Refines fresh s t i round_id k {o} {t'} before longer counted p here h =
      let n = length i.registered_inputs in
      let sigs = length i.partial_sigs in
      elim (Bool-cases (leb t.participant_count sigs)) [
        | inl all ↦
            let (tx, _, k1) =
              >>=-eq-ok (assemble_final_tx_hex x i cfg round_id) _ (rw (complete, all) at h) in
            let moved : RoundState = record t { phase = broadcast } in
            let last : moved ≡ t' = cc (rw (transition-broadcast fresh t p) at k1) in
            subst (λ u. Refines x cfg valid.network s u) last
              (rw (before, view_at moved broadcast i refl here)
                (inr (
                  sends n k (omega (arith, leb→le t.participant_count sigs all, counted, longer)))))
        | inr some_missing ↦
            let last : t ≡ t' = cc (rw (complete, some_missing) at h) in
            subst (λ u. Refines x cfg valid.network s u) last
              (rw (before, view_at t signing i p here, longer) (inr (signs n k)))
      ]

  recorded-Refines :
      (fresh : ℕ) {s : RoundState} (utxo : OutPoint) (sig token : Bytes) (round_id : Text)
      (after : RoundStateInner)
      → s.phase ≡ signing
      → Accepted x s cfg utxo sig token round_id after
      → Wf x cfg valid.network s
      → Refines x cfg valid.network s (after_recording x fresh s cfg round_id (ok after)).1
  recorded-Refines fresh {s} utxo sig token round_id after p a w =
      let c = phase_view x cfg valid.network signing refl p w in
      let same : c.inner ≡ a.inner = cc (c.here, a.here) in
      let key = outpoint_text x utxo in
      let i : RoundStateInner = record a.inner {
        partial_sigs = insert key sig a.inner.partial_sigs;
      } in
      let k = length a.inner.partial_sigs in
      let longer : length i.partial_sigs ≡ suc k =
        length-insert_new key sig a.inner.partial_sigs a.first ∙ omega arith in
      let counted : s.participant_count ≡ length i.registered_inputs =
        subst (λ q. s.participant_count ≡ length q.registered_inputs) same c.run.counted in
      let before : view s ≡ collecting (length i.registered_inputs) k =
        view_at s signing a.inner p a.here in
      let t : RoundState = record s { inner = some i } in
      subst (λ q. Refines x cfg valid.network s (after_recording x fresh s cfg round_id (ok q)).1)
        a.recorded
        (elim (Result-cases (complete x fresh t i cfg round_id)) [
          | inl ((o, t'), done) ↦
              rw done (complete-Refines fresh s t i round_id k before longer counted p refl done)
          | inr (e, refused) ↦
              rw (refused, before, view_at t signing i p refl, longer)
                (inr (signs (length i.registered_inputs) k))
        ])

  process_sign-Refines :
      (fresh : ℕ) (s : RoundState) (utxo : OutPoint) (sig token : Bytes) (round_id : Text)
      → s.phase ≡ signing
      → Wf x cfg valid.network s
      → Refines x cfg valid.network s (process_sign x fresh s cfg utxo sig token round_id).1
  unfolding process_sign
  process_sign-Refines fresh s utxo sig token round_id p w =
      elim (Result-cases (accept_signature x s cfg utxo sig token round_id)) [
        | inl (after, done) ↦ rw done (
            recorded-Refines fresh utxo sig token round_id after p
              (accept_signature-Accepted x s cfg utxo sig token round_id done) w)
        | inr (e, refused) ↦ rw refused (inl refl)
      ]

  sign_locked-Refines :
      (fresh : ℕ) (s : RoundState) (d : Result Refusal Submission)
      → Wf x cfg valid.network s
      → Refines x cfg valid.network s (sign_locked x fresh cfg s d).1
  sign_locked-Refines fresh s (err e) w = inl refl
  sign_locked-Refines fresh s (ok d) w = elim (Bool-cases (phase_beq s.phase signing)) [
    | inl now ↦
        rw (sign_locked, now)
          (process_sign-Refines fresh s d.utxo d.partial_signature d.session_token
            (x.uuid_text s.round_id) (phase_beq-eq s.phase signing now) w)
    | inr other ↦ rw (sign_locked, other) (inl refl)
  ]

  pub post_sign-Refines :
      (fresh : ℕ) (seen s : RoundState) (req : SignRequest)
      → Wf x cfg valid.network s
      → Refines x cfg valid.network s (post_sign x fresh cfg seen s req).1
  unfolding post_sign
  post_sign-Refines fresh seen s req w =
      sign_locked-Refines fresh s (decode_submission x seen req) w
