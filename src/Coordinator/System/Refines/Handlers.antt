-- ===== src/Coordinator/System/Refines/Handlers.antt =====
-- The start of a round and the handlers are moves of the specification (coordinator/src/run.rs,
-- coordinator/src/api/handlers.rs).
use blindjoin.Prelude.{
  ℕ, suc, Option, ◌≡◌, ◌<◌, ◌∙◌, ◌==◌, refl, subst, some, ok, err, [], ◌∷◌, length, leb, leb→le,
  lt→ltb, arith, Bool-cases, Result, inl, inr, >>=-eq-ok, length-append, add32-eq,
}
use blindjoin.Prelude.Eq.{Bytes, bytes_eq}
use blindjoin.Prelude.Dict.{length-insert_new}
use blindjoin.External.{External, OutPoint}
use blindjoin.Shared.Ownership.{WireJson}
use blindjoin.Coordinator.Config.{CoordinatorConfig}
use blindjoin.Coordinator.Config.Valid.{Valid}
use blindjoin.Coordinator.State.{Rpc}
use blindjoin.Coordinator.Utxo.{GetTxOut}
use blindjoin.Coordinator.Round.State.{
  input_reg, output_reg, signing, RoundStateInner, RoundState, new_idle,
}
use blindjoin.Coordinator.Round.State.Phases.{attempt-output_reg, attempt-signing}
use blindjoin.Coordinator.Round.Manager.{RoundMaterial, StartRoundError, fresh_inner}
use blindjoin.Coordinator.Round.Blame.{BanList}
use blindjoin.Coordinator.Round.OutPoints.{outpoint_text}
use blindjoin.Coordinator.Round.InputReg.{Registration, registered_input, with_input, insert_input}
use blindjoin.Coordinator.Round.OutputReg.{Token}
use blindjoin.Coordinator.Monitor.{Monitor, install_tick, install_if_idle}
use blindjoin.Coordinator.Api.Input.{
  InputRegRequest, InputRegResponse, validate_request, post_input,
}
use blindjoin.Coordinator.Api.Output.{
  OutputRegRequest, OutputRegResponse, decode_request, post_output,
}
use blindjoin.Coordinator.System.Wf.{Wf, rests, runs, running_not_idle}
use blindjoin.Coordinator.System.Start.{install_round-idle}
use blindjoin.Coordinator.System.Joined.{Joined, register_locked-Joined}
use blindjoin.Coordinator.System.Outputs.{
  with_output, output_of, Redemption, redeem_locked-Redemption,
}
use blindjoin.Coordinator.System.Spec.{
  opens, joins, fills, redeems, completes, joining, redeeming, collecting,
}
use blindjoin.Coordinator.System.Refines.{view, view_at}
use blindjoin.Coordinator.System.Refines.Timers.{Refines, phase_view}

module _ (x : External) (cfg : CoordinatorConfig) (valid : Valid cfg) where
  install_if_idle-Refines :
      (fresh round_id : ℕ) (m : Monitor) (material : RoundMaterial) {s : RoundState}
      → Wf x cfg valid.network s
      → Refines x cfg valid.network s (install_if_idle fresh round_id m s material).1
  unfolding new_idle fresh_inner
  install_if_idle-Refines fresh round_id m material (rests f) = elim (Bool-cases (f == round_id)) [
    | inl same ↦
        rw
          (
            same,
            install_round-idle x cfg valid.network (omega (arith, valid.quorum, valid.room)) fresh
                material f,
          )
          (inr opens)
    | inr other ↦ rw other (inl refl)
  ]
  install_if_idle-Refines fresh round_id m material (runs s inner here run st) =
      rw (running_not_idle x cfg valid.network s.phase inner st) (inl refl)

  pub install-Refines :
      (fresh round_id : ℕ) (m : Monitor) (r : Result StartRoundError RoundMaterial) {s : RoundState}
      → Wf x cfg valid.network s
      → Refines x cfg valid.network s (install_tick fresh round_id m s r).1
  unfolding install_tick
  install-Refines fresh round_id m (ok material) w =
      install_if_idle-Refines fresh round_id m material w
  install-Refines fresh round_id m (err e) w = inl refl

  -- A participant joins, and the last one ends the registration of inputs.
  Joined-Refines :
      (fresh : ℕ) (s : RoundState) (r : Registration) {s' : RoundState}
      → Joined x cfg fresh s r s'
      → Wf x cfg valid.network s
      → Refines x cfg valid.network s s'
  unfolding insert_input with_input
  Joined-Refines fresh s r {s'} j w =
      let a = phase_view x cfg valid.network input_reg refl j.phased w in
      let same : a.inner ≡ j.inner = cc (a.here, j.here) in
      let n = length j.inner.registered_inputs in
      let t : RoundState = insert_input x s j.inner r in
      let i : RoundStateInner = with_input x j.inner r in
      let longer : length i.registered_inputs ≡ suc n =
        length-insert_new (outpoint_text x r.utxo) (registered_input x r) j.inner.registered_inputs
          j.absent
        ∙ omega arith in
      let counted : s.participant_count ≡ n =
        subst (λ k. s.participant_count ≡ length k.registered_inputs) same a.run.counted in
      let up : t.participant_count ≡ suc n =
        add32-eq s.participant_count 1 (omega (arith, valid.cap, j.below)) ∙ omega arith in
      let none_yet : length j.inner.registered_outputs ≡ 0 =
        subst (λ k. length k.registered_outputs ≡ 0) same (rw a.stage.0) in
      let before : view s ≡ joining n = view_at s input_reg j.inner j.phased j.here in
      subst (λ u. Refines x cfg valid.network s u) j.moved
        (elim (Bool-cases (leb cfg.coordinator.max_participants t.participant_count)) [
          | inl full ↦
              let after : view (record t { phase = output_reg }) ≡ redeeming (suc n) 0 =
                view_at (record t { phase = output_reg }) output_reg i refl refl
                ∙ rw (longer, none_yet) in
              rw (full, attempt-output_reg fresh t j.phased, before, after)
                (inr (
                  fills n (
                    omega (
                      arith,
                      up,
                      j.below,
                      leb→le cfg.coordinator.max_participants t.participant_count full,
                      counted,
                    ))))
          | inr below ↦
              let after : view t ≡ joining (suc n) =
                view_at t input_reg i j.phased refl ∙ rw longer in
              rw (below, before, after) (inr (joins n (ground (arith, up))))
        ])

  pub post_input-Refines :
      (json : WireJson) (now : ℕ) (gettxout : OutPoint → Rpc (Option GetTxOut)) (seen : RoundState)
      (bans : BanList) (snap : RoundState) (fresh : ℕ) (s : RoundState) (req : InputRegRequest)
      {response : InputRegResponse} {s' : RoundState}
      → post_input x json cfg now gettxout seen bans snap fresh s req ≡ ok (response, s')
      → Wf x cfg valid.network s
      → Refines x cfg valid.network s s'
  unfolding post_input
  post_input-Refines json now gettxout seen bans snap fresh s req h w =
      let (r, _, done) =
        >>=-eq-ok (validate_request x json cfg now gettxout seen bans snap req) _ h in
      Joined-Refines fresh s r (register_locked-Joined x cfg fresh s r done) w

  -- An output is registered, and the last one ends the registration of outputs.
  redeemed-Refines :
      (fresh : ℕ) (s : RoundState) (req : OutputRegRequest) (token : Token) (script : Bytes)
      {s' : RoundState}
      → Redemption x cfg fresh s req token script s'
      → Wf x cfg valid.network s
      → Refines x cfg valid.network s s'
  redeemed-Refines fresh s req token script {s'} r w =
      let a = phase_view x cfg valid.network output_reg refl r.phased w in
      let same : a.inner ≡ r.inner = cc (a.here, r.here) in
      let n = length r.inner.registered_inputs in
      let k = length r.inner.registered_outputs in
      let i : RoundStateInner = with_output r.inner r.after (output_of req) in
      let t : RoundState = record s { inner = some i } in
      let longer : length i.registered_outputs ≡ suc k =
        length-append r.inner.registered_outputs (output_of req ∷ []) ∙ omega arith in
      let counted : s.participant_count ≡ n =
        subst (λ c. s.participant_count ≡ length c.registered_inputs) same a.run.counted in
      let short : k < n =
        subst (λ c. length c.registered_outputs < length c.registered_inputs) same a.stage.2 in
      let unsigned : length r.inner.partial_sigs ≡ 0 =
        subst (λ c. length c.partial_sigs ≡ 0) same (rw a.stage.0) in
      let before : view s ≡ redeeming n k = view_at s output_reg r.inner r.phased r.here in
      subst (λ u. Refines x cfg valid.network s u) r.moved
        (elim (Bool-cases (leb s.participant_count (length i.registered_outputs))) [
          | inl full ↦
              let last : suc k ≡ n = omega (
                arith,
                leb→le s.participant_count (length i.registered_outputs) full,
                longer,
                counted,
                short,
              ) in
              let some_one = lt→ltb 0 s.participant_count (omega (arith, last, counted)) in
              let after : view (record t { phase = signing }) ≡ collecting n 0 =
                view_at (record t { phase = signing }) signing i refl refl ∙ rw unsigned in
              rw (full, some_one, attempt-signing fresh t r.phased, before, after)
                (inr (completes n k last))
          | inr waiting ↦
              let after : view t ≡ redeeming n (suc k) =
                view_at t output_reg i r.phased refl ∙ rw longer in
              rw (waiting, before, after) (inr (redeems n k (ground (arith, longer, counted))))
        ])

  pub post_output-Refines :
      (seen : RoundState) (fresh : ℕ) (s : RoundState) (req : OutputRegRequest)
      {response : OutputRegResponse} {s' : RoundState}
      → post_output x cfg seen fresh s req ≡ ok (response, s')
      → Wf x cfg valid.network s
      → Refines x cfg valid.network s s'
  unfolding post_output
  post_output-Refines seen fresh s req h w =
      let ((token, script), _, done) = >>=-eq-ok (decode_request x cfg seen req) _ h in
      redeemed-Refines fresh s req token script
        (redeem_locked-Redemption x cfg fresh s req token script done) w
