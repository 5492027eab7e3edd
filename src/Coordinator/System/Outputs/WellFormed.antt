-- ===== src/Coordinator/System/Outputs/WellFormed.antt =====
-- The registration of an output keeps a round well formed (coordinator/src/api/handlers.rs,
-- coordinator/src/round/output_reg.rs).
use blindjoin.Prelude.{
  [], ◌∷◌, ℕ, ◌≡◌, ◌≤◌, some, none, ok, ok_or, leb, length, List, arith, refl, sym, subst,
  Bool-cases, inl, inr, >>=-eq-ok, ok_or-eq-ok, leb→le, lt→ltb, length-append, All-append,
}
use blindjoin.Prelude.Eq.{Bytes, nat_eq, codes, bytes_eq}
use blindjoin.External.{External}
use blindjoin.Coordinator.Config.{CoordinatorConfig}
use blindjoin.Coordinator.Config.Valid.{Valid}
use blindjoin.Coordinator.Round.State.{
  RegisteredOutput, output_reg, signing, RoundStateInner, RoundState, new_idle,
}
use blindjoin.Coordinator.Round.State.Phases.{attempt-signing}
use blindjoin.Coordinator.Round.OutputReg.{Token}
use blindjoin.Coordinator.Round.Signing.{parse_address_to_script}
use blindjoin.Coordinator.Api.{api_error, network_of, bad_request}
use blindjoin.Coordinator.Api.KnownNetwork.{network_of-eq}
use blindjoin.Coordinator.Api.Output.{
  OutputRegRequest, OutputRegResponse, decode_token, decode_request, advance_when_complete,
  redeem_locked, post_output,
}
use blindjoin.Coordinator.System.Wf.{OutputOk, Running, Stage, Wf, rests, runs}
use blindjoin.Coordinator.System.Outputs.{
  Redeemed, with_output, output_of, redeem_locked-Redemption,
}

module _ (x : External) (cfg : CoordinatorConfig) (valid : Valid cfg) where
  output-Running :
      (n : ℕ) (inner : RoundStateInner) (pk : Bytes) (token : Token) (script : Bytes)
      (out : RegisteredOutput) (after : List Bytes)
      → Redeemed x pk inner.redeemed_tokens token cfg.coordinator.denomination_sats out.amount_sats
          script after
      → x.address_script valid.network out.address ≡ some script
      → Running x cfg valid.network n inner
      → Running x cfg valid.network n (with_output inner after out)
  output-Running n inner pk token script out after r addressed run = record {
    signer = run.signer;
    signs = run.signs;
    counted = run.counted;
    bounded = run.bounded;
    distinct = run.distinct;
    inputs = run.inputs;
    redeemed =
        rw r.recorded
          (omega (arith, run.redeemed, length-append inner.registered_outputs (out ∷ [])));
    once = rw r.recorded (r.unused, run.once);
    outputs =
        All-append (OutputOk x cfg valid.network) inner.registered_outputs (out ∷ []) run.outputs
          (record { denomination = r.worth; script = script; address = addressed }, tt);
    sigs_distinct = run.sigs_distinct;
    sigs_registered = run.sigs_registered;
  }

  -- With the last output the round moves on.
  complete-Wf :
      (fresh : ℕ) (s : RoundState) (inner : RoundStateInner)
      → s.phase ≡ output_reg
      → s.inner ≡ some inner
      → Running x cfg valid.network s.participant_count inner
      → inner.partial_sigs ≡ []
      → cfg.coordinator.min_participants ≤ length inner.registered_inputs
      → length inner.registered_outputs ≤ length inner.registered_inputs
      → Wf x cfg valid.network (advance_when_complete x fresh s inner)
  complete-Wf fresh s inner p here run no_sigs quorum within =
      let outs = length inner.registered_outputs in
      elim (Bool-cases (leb s.participant_count outs)) [
        | inl done ↦
            let reached = leb→le s.participant_count outs done in
            let some_one =
              lt→ltb 0 s.participant_count (omega (arith, run.counted, quorum, valid.quorum)) in
            rw (done, some_one, attempt-signing fresh s p)
              (runs (record s { phase = signing }) inner here run
                (quorum, omega (arith, reached, run.counted, within)))
        | inr waiting ↦ rw waiting (
            runs s inner here run (
              subst (λ ph. Stage x cfg valid.network ph inner) (sym p)
                (no_sigs, quorum, ground (arith, run.counted))))
      ]

  -- The script of an output comes from its address.
  decoded :
      (seen : RoundState) (req : OutputRegRequest) {token : Token} {script : Bytes}
      → decode_request x cfg seen req ≡ ok (token, script)
      → x.address_script valid.network req.output_address ≡ some script
  unfolding decode_request parse_address_to_script
  decoded seen req {token} {script} h =
      let (t, _, k0) = >>=-eq-ok (decode_token x seen req) _ h in
      let (network, netted, k1) = >>=-eq-ok (network_of cfg) _ k0 in
      let off = api_error bad_request (codes "INVALID_ADDRESS") none in
      let (script', addressed, end) =
        >>=-eq-ok (ok_or (x.address_script network req.output_address) off) _ k1 in
      let same : script' ≡ script = cc end in
      let known : network ≡ valid.network = cc (netted, network_of-eq cfg valid) in
      cc (ok_or-eq-ok (x.address_script network req.output_address) off addressed, same, known)

  with_output-Wf :
      (fresh : ℕ) {s : RoundState} (inner : RoundStateInner) (pk : Bytes) (token : Token)
      (script : Bytes) (out : RegisteredOutput) (after : List Bytes)
      → s.phase ≡ output_reg
      → s.inner ≡ some inner
      → Redeemed x pk inner.redeemed_tokens token cfg.coordinator.denomination_sats out.amount_sats
          script after
      → x.address_script valid.network out.address ≡ some script
      → Wf x cfg valid.network s
      → Wf x cfg valid.network (
          advance_when_complete x fresh
            (record s { inner = some (with_output inner after out) })
            (with_output inner after out))
  unfolding new_idle
  with_output-Wf fresh inner pk token script out after p here r addressed (rests f) = absurd (cc)
  with_output-Wf fresh inner pk token script out after p here r addressed
        (runs s inner' here' run st) =
      let same : inner' ≡ inner = cc (here, here') in
      let run' : Running x cfg valid.network s.participant_count inner =
        subst (λ i. Running x cfg valid.network s.participant_count i) same run in
      let staged : Stage x cfg valid.network output_reg inner =
        subst (λ i. Stage x cfg valid.network output_reg i) same
          (subst (λ ph. Stage x cfg valid.network ph inner') p st) in
      let inner'' : RoundStateInner = with_output inner after out in
      complete-Wf fresh (record s { inner = some inner'' }) inner'' p refl
        (output-Running s.participant_count inner pk token script out after r addressed run')
        staged.0 staged.1
        (omega (arith, staged.2, length-append inner.registered_outputs (out ∷ [])))

  locked-Wf :
      (fresh : ℕ) (s : RoundState) (req : OutputRegRequest) (token : Token) (script : Bytes)
      {response : OutputRegResponse} {s' : RoundState}
      → x.address_script valid.network req.output_address ≡ some script
      → redeem_locked x fresh cfg s req token script ≡ ok (response, s')
      → Wf x cfg valid.network s
      → Wf x cfg valid.network s'
  locked-Wf fresh s req token script {response} {s'} addressed h w =
      let r = redeem_locked-Redemption x cfg fresh s req token script h in
      subst (λ t. Wf x cfg valid.network t) r.moved
        (with_output-Wf fresh r.inner r.public_key token script (output_of req) r.after r.phased
          r.here r.redeemed addressed w)

  -- An accepted output leaves the round well formed.
  pub post_output-Wf :
      (seen : RoundState) (fresh : ℕ) (s : RoundState) (req : OutputRegRequest)
      {response : OutputRegResponse} {s' : RoundState}
      → post_output x cfg seen fresh s req ≡ ok (response, s')
      → Wf x cfg valid.network s
      → Wf x cfg valid.network s'
  unfolding post_output
  post_output-Wf seen fresh s req h w =
      let ((token, script), read, done) = >>=-eq-ok (decode_request x cfg seen req) _ h in
      locked-Wf fresh s req token script (decoded seen req read) done w
