-- ===== src/Coordinator/System/Signs/WellFormed.antt =====
-- A signature keeps a round well formed (coordinator/src/api/handlers.rs,
-- coordinator/src/round/signing.rs).
use blindjoin.Prelude.{
  ℕ, ◌≡◌, true, false, some, ok, err, leb, length, arith, refl, sym, subst, Result, Result-cases,
  Bool-cases, inl, inr, >>=-eq-ok, leb→le,
}
use blindjoin.Prelude.Eq.{Text, Bytes, bytes_eq}
use blindjoin.Prelude.Dict.{contains_key, insert, insert-KeysDistinct, All-keys-insert}
use blindjoin.External.{External, Network, OutPoint}
use blindjoin.Coordinator.Config.{CoordinatorConfig}
use blindjoin.Coordinator.Round.State.{
  signing, broadcast, phase_beq, RoundStateInner, RoundState, new_idle,
}
use blindjoin.Coordinator.Round.State.Phases.{phase_beq-eq, transition-broadcast}
use blindjoin.Coordinator.Round.OutPoints.{outpoint_text}
use blindjoin.Coordinator.Round.Signing.{
  SignOutcome, assemble_final_tx_hex, accept_signature, complete, settled, after_recording,
  process_sign,
}
use blindjoin.Coordinator.Api.{Refusal}
use blindjoin.Coordinator.Api.Sign.{
  SignRequest, Submission, decode_submission, sign_locked, post_sign,
}
use blindjoin.Coordinator.System.Wf.{Running, Stage, Wf, rests, runs}
use blindjoin.Coordinator.System.Signs.{Accepted, accept_signature-Accepted}

module _ (x : External) (cfg : CoordinatorConfig) (network : Network) where
  -- The round with the signature recorded.
  signed-Running :
      (n : ℕ) (inner : RoundStateInner) (k : Text) (sig : Bytes)
      → contains_key k inner.registered_inputs ≡ true
      → contains_key k inner.partial_sigs ≡ false
      → Running x cfg network n inner
      → Running x cfg network n (record inner { partial_sigs = insert k sig inner.partial_sigs })
  signed-Running n inner k sig registered first run = record {
    signer = run.signer;
    signs = run.signs;
    counted = run.counted;
    bounded = run.bounded;
    distinct = run.distinct;
    inputs = run.inputs;
    redeemed = run.redeemed;
    once = run.once;
    outputs = run.outputs;
    sigs_distinct = insert-KeysDistinct k sig inner.partial_sigs run.sigs_distinct;
    sigs_registered =
        All-keys-insert (λ j. contains_key j inner.registered_inputs ≡ true) k sig
          inner.partial_sigs first registered run.sigs_registered;
  }

  complete-Wf :
      (fresh : ℕ) (s : RoundState) (inner : RoundStateInner) (round_id : Text) {o : SignOutcome}
      {s' : RoundState}
      → s.phase ≡ signing
      → s.inner ≡ some inner
      → Running x cfg network s.participant_count inner
      → Stage x cfg network signing inner
      → complete x fresh s inner cfg round_id ≡ ok (o, s')
      → Wf x cfg network s'
  unfolding complete
  complete-Wf fresh s inner round_id {o} {s'} p here run staged h =
      let sigs = length inner.partial_sigs in
      elim (Bool-cases (leb s.participant_count sigs)) [
        | inl all ↦
            let (tx, _, k1) =
              >>=-eq-ok (assemble_final_tx_hex x inner cfg round_id) _ (rw (complete, all) at h) in
            let moved : RoundState = record s { phase = broadcast } in
            let last : moved ≡ s' = cc (rw (transition-broadcast fresh s p) at k1) in
            subst (Wf x cfg network) last (
              runs moved inner here run (
                staged.0,
                staged.1,
                omega (arith, leb→le s.participant_count sigs all, run.counted),
              ))
        | inr some_missing ↦
            let last : s ≡ s' = cc (rw (complete, some_missing) at h) in
            subst (Wf x cfg network) last
              (runs s inner here run (subst (λ ph. Stage x cfg network ph inner) (sym p) staged))
      ]

  settled-Wf :
      (fresh : ℕ) (s : RoundState) (inner : RoundStateInner) (round_id : Text)
      → s.phase ≡ signing
      → s.inner ≡ some inner
      → Running x cfg network s.participant_count inner
      → Stage x cfg network signing inner
      → Wf x cfg network (settled x s (complete x fresh s inner cfg round_id)).1
  settled-Wf fresh s inner round_id p here run staged =
      elim (Result-cases (complete x fresh s inner cfg round_id)) [
        | inl ((o, s'), done) ↦ rw done (complete-Wf fresh s inner round_id p here run staged done)
        | inr (e, refused) ↦
            rw refused
              (runs s inner here run (subst (λ ph. Stage x cfg network ph inner) (sym p) staged))
      ]

  recorded-Wf :
      (fresh : ℕ) {s : RoundState} (utxo : OutPoint) (sig token : Bytes) (round_id : Text)
      (after : RoundStateInner)
      → s.phase ≡ signing
      → Accepted x s cfg utxo sig token round_id after
      → Wf x cfg network s
      → Wf x cfg network (after_recording x fresh s cfg round_id (ok after)).1
  unfolding new_idle
  recorded-Wf fresh utxo sig token round_id after p a (rests f) = absurd (cc)
  recorded-Wf fresh utxo sig token round_id after p a (runs s inner here run st) =
      let same : inner ≡ a.inner = cc (here, a.here) in
      let k = outpoint_text x utxo in
      let run' : Running x cfg network s.participant_count a.inner =
        subst (λ i. Running x cfg network s.participant_count i) same run in
      let staged : Stage x cfg network signing a.inner =
        subst (λ i. Stage x cfg network signing i) same
          (subst (λ ph. Stage x cfg network ph inner) p st) in
      let next : RoundStateInner = record a.inner {
        partial_sigs = insert k sig a.inner.partial_sigs;
      } in
      subst (λ i. Wf x cfg network (after_recording x fresh s cfg round_id (ok i)).1) a.recorded
        (settled-Wf fresh (record s { inner = some next }) next round_id p refl
          (signed-Running s.participant_count a.inner k sig a.registered a.first run')
          (staged.0, staged.1))

  process_sign-Wf :
      (fresh : ℕ) (s : RoundState) (utxo : OutPoint) (sig token : Bytes) (round_id : Text)
      → s.phase ≡ signing
      → Wf x cfg network s
      → Wf x cfg network (process_sign x fresh s cfg utxo sig token round_id).1
  unfolding process_sign
  process_sign-Wf fresh s utxo sig token round_id p w =
      elim (Result-cases (accept_signature x s cfg utxo sig token round_id)) [
        | inl (after, done) ↦ rw done (
            recorded-Wf fresh utxo sig token round_id after p
              (accept_signature-Accepted x s cfg utxo sig token round_id done) w)
        | inr (e, refused) ↦ rw refused w
      ]

  sign_locked-Wf :
      (fresh : ℕ) (s : RoundState) (d : Result Refusal Submission)
      → Wf x cfg network s
      → Wf x cfg network (sign_locked x fresh cfg s d).1
  sign_locked-Wf fresh s (err e) w = w
  sign_locked-Wf fresh s (ok d) w = elim (Bool-cases (phase_beq s.phase signing)) [
    | inl now ↦
        rw (sign_locked, now)
          (process_sign-Wf fresh s d.utxo d.partial_signature d.session_token
            (x.uuid_text s.round_id) (phase_beq-eq s.phase signing now) w)
    | inr other ↦ rw (sign_locked, other) w
  ]

  -- A submission leaves the round well formed, accepted or refused.
  pub post_sign-Wf :
      (fresh : ℕ) (seen s : RoundState) (req : SignRequest)
      → Wf x cfg network s
      → Wf x cfg network (post_sign x fresh cfg seen s req).1
  unfolding post_sign
  post_sign-Wf fresh seen s req w = sign_locked-Wf fresh s (decode_submission x seen req) w
