-- ===== src/Coordinator/System/Registers.antt =====
-- The registration of an input keeps a round well formed (coordinator/src/api/handlers.rs,
-- coordinator/src/round/input_reg.rs).
use blindjoin.Prelude.{
  [], ℕ, ◌≡◌, ◌<◌, false, some, ok, leb, length, arith, refl, sym, subst, Option, Bool-cases, inl,
  inr, >>=-eq-ok, leb→le, All-imp, add32, add32-eq,
}
use blindjoin.Prelude.Eq.{nat_eq, bytes_eq}
use blindjoin.Prelude.Dict.{
  keys, contains_key, length-insert_new, insert-KeysDistinct, All-values-insert,
  contains_key-insert_old,
}
use blindjoin.External.{External, OutPoint, TxidText}
use blindjoin.Shared.Ownership.{WireJson}
use blindjoin.Coordinator.Config.{CoordinatorConfig}
use blindjoin.Coordinator.Config.Valid.{Valid}
use blindjoin.Coordinator.State.{Rpc}
use blindjoin.Coordinator.Utxo.{GetTxOut}
use blindjoin.Coordinator.Round.State.{input_reg, output_reg, RoundStateInner, RoundState, new_idle}
use blindjoin.Coordinator.Round.State.Phases.{attempt-output_reg}
use blindjoin.Coordinator.Round.OutPoints.{outpoint_text}
use blindjoin.Coordinator.Round.Blame.{BanList}
use blindjoin.Coordinator.Round.InputReg.{Registration, registered_input, with_input, insert_input}
use blindjoin.Coordinator.Api.Input.{
  InputRegRequest, InputRegResponse, validate_request, advance_when_full, register_locked,
  post_input,
}
use blindjoin.Coordinator.System.Wf.{InputOk, Running, Stage, Wf, rests, runs}
use blindjoin.Coordinator.System.Joined.{register_locked-Joined}
use blindjoin.Coordinator.System.Inputs.{validated-InputOk}

module _ (x : External) (txids : TxidText x) (cfg : CoordinatorConfig) (valid : Valid cfg) where
  -- The state after the insertion runs, whether or not the round is full now.
  inserted-Running :
      (s : RoundState) (inner : RoundStateInner) (r : Registration)
      → contains_key (outpoint_text x r.utxo) inner.registered_inputs ≡ false
      → InputOk x cfg valid.network (registered_input x r)
      → length inner.registered_inputs < cfg.coordinator.max_participants
      → Running x cfg valid.network s.participant_count inner
      → Running x cfg valid.network (add32 s.participant_count 1) (with_input x inner r)
  unfolding with_input
  inserted-Running s inner r absent good below run =
      let k = outpoint_text x r.utxo in
      let longer = length-insert_new k (registered_input x r) inner.registered_inputs absent in
      let counted = add32-eq s.participant_count 1 (omega (arith, run.counted, valid.cap, below)) in
      record {
        signer = run.signer;
        signs = run.signs;
        counted = omega (arith, counted, longer, run.counted);
        bounded = omega (arith, longer, below);
        distinct =
            insert-KeysDistinct k (registered_input x r) inner.registered_inputs run.distinct;
        inputs =
            All-values-insert (InputOk x cfg valid.network) k (registered_input x r)
              inner.registered_inputs absent good run.inputs;
        redeemed = run.redeemed;
        once = run.once;
        outputs = run.outputs;
        sigs_distinct = run.sigs_distinct;
        sigs_registered =
            All-imp
              (λ j. contains_key-insert_old k j (registered_input x r) inner.registered_inputs)
              (keys inner.partial_sigs) run.sigs_registered;
      }

  full-Wf :
      (fresh : ℕ) (s : RoundState) (inner : RoundStateInner)
      → s.phase ≡ input_reg
      → s.inner ≡ some inner
      → Running x cfg valid.network s.participant_count inner
      → inner.registered_outputs ≡ []
      → inner.partial_sigs ≡ []
      → Wf x cfg valid.network (advance_when_full x fresh cfg s)
  full-Wf fresh s inner p here run no_outputs no_sigs =
      let max = cfg.coordinator.max_participants in
      elim (Bool-cases (leb max s.participant_count)) [
        | inl full ↦
            let many = leb→le max s.participant_count full in
            let outs : length inner.registered_outputs ≡ 0 = rw no_outputs in
            rw (full, attempt-output_reg fresh s p)
              (runs (record s { phase = output_reg }) inner here run
                (
                  no_sigs,
                  omega (arith, many, run.counted, valid.room),
                  omega (arith, outs, many, run.counted, valid.room, valid.quorum),
                ))
        | inr below ↦ rw below (
            runs s inner here run (
              subst (λ ph. Stage x cfg valid.network ph inner) (sym p)
                (no_outputs, no_sigs, ground (arith, run.counted))))
      ]

  inserted-Wf :
      (fresh : ℕ) {s : RoundState} (r : Registration) (inner : RoundStateInner)
      → s.phase ≡ input_reg
      → s.participant_count < cfg.coordinator.max_participants
      → s.inner ≡ some inner
      → contains_key (outpoint_text x r.utxo) inner.registered_inputs ≡ false
      → InputOk x cfg valid.network (registered_input x r)
      → Wf x cfg valid.network s
      → Wf x cfg valid.network (advance_when_full x fresh cfg (insert_input x s inner r))
  unfolding insert_input with_input new_idle
  inserted-Wf fresh r inner p below here absent good (rests f) = absurd (cc)
  inserted-Wf fresh r inner p below here absent good (runs s inner' here' run st) =
      let same : inner' ≡ inner = cc (here, here') in
      let run' : Running x cfg valid.network s.participant_count inner =
        subst (λ i. Running x cfg valid.network s.participant_count i) same run in
      let staged : Stage x cfg valid.network input_reg inner =
        subst (λ i. Stage x cfg valid.network input_reg i) same
          (subst (λ ph. Stage x cfg valid.network ph inner') p st) in
      full-Wf fresh (insert_input x s inner r) (with_input x inner r) p refl
        (inserted-Running s inner r absent good staged.2 run') staged.0 staged.1

  locked-Wf :
      (fresh : ℕ) (s : RoundState) (r : Registration) {response : InputRegResponse}
      {s' : RoundState}
      → InputOk x cfg valid.network (registered_input x r)
      → register_locked x fresh cfg s r ≡ ok (response, s')
      → Wf x cfg valid.network s
      → Wf x cfg valid.network s'
  locked-Wf fresh s r {response} {s'} good h w =
      let j = register_locked-Joined x cfg fresh s r h in
      subst (λ t. Wf x cfg valid.network t) j.moved
        (inserted-Wf fresh r j.inner j.phased j.below j.here j.absent good w)

  -- An accepted registration leaves the round well formed.
  pub post_input-Wf :
      (json : WireJson) (now : ℕ) (gettxout : OutPoint → Rpc (Option GetTxOut)) (seen : RoundState)
      (bans : BanList) (snap : RoundState) (fresh : ℕ) (s : RoundState) (req : InputRegRequest)
      {response : InputRegResponse} {s' : RoundState}
      → post_input x json cfg now gettxout seen bans snap fresh s req ≡ ok (response, s')
      → Wf x cfg valid.network s
      → Wf x cfg valid.network s'
  unfolding post_input
  post_input-Wf json now gettxout seen bans snap fresh s req h w =
      let (r, checked, done) =
        >>=-eq-ok (validate_request x json cfg now gettxout seen bans snap req) _ h in
      locked-Wf fresh s r
        (validated-InputOk x txids cfg valid json now gettxout seen bans snap req checked) done w
