-- ===== src/Coordinator/System/Refines/Timers.antt =====
-- The timers and the end of a broadcast are moves of the specification (coordinator/src/run.rs,
-- coordinator/src/round/signing.rs).
use blindjoin.Prelude.{
  ℕ, ◌≡◌, ◌&&◌, ◌==◌, Bool, true, leb, leb→le, refl, some, length, arith, Bool-cases, false, inl,
  inr, subst, ◌∙◌,
}
use blindjoin.Prelude.Eq.{Text}
use blindjoin.External.{External, Network}
use blindjoin.Coordinator.Config.{CoordinatorConfig}
use blindjoin.Coordinator.State.{AppState}
use blindjoin.Coordinator.Round.State.{
  Phase, idle, input_reg, output_reg, signing, broadcast, blame, RoundStateInner, RoundState,
  phase_beq, new_idle,
}
use blindjoin.Coordinator.Round.State.Phases.{
  attempt-output_reg, attempt-no_quorum, attempt-published, blamed_signing,
}
use blindjoin.Coordinator.Round.Blame.{Json, on_signing_timeout}
use blindjoin.Coordinator.Round.Signing.{PreparedBroadcast}
use blindjoin.Coordinator.Round.Finalize.{finalize_broadcast, Node, still_current}
use blindjoin.Coordinator.Round.Finalize.Ends.{finalize_broadcast_stale, finalize_broadcast_current}
use blindjoin.Coordinator.Monitor.{
  on_input_reg_timer, on_output_reg_timer, on_signing_timer, broadcast_watchdog_force_idle, fire,
}
use blindjoin.Coordinator.System.Wf.{Stage, Wf, rests, runs, Running}
use blindjoin.Coordinator.System.Ends.{guard_phase, missing, count_outcome-round}
use blindjoin.Coordinator.System.Spec.{Moves, closes, empties, lapses, expires, ends, redeeming}
use blindjoin.Coordinator.System.Refines.{view, view_inner, view_at}

module _ (x : External) (cfg : CoordinatorConfig) (network : Network) where
  abbrev pub Refines : RoundState → RoundState → Type 0
  Refines s t =
      Moves cfg.coordinator.min_participants cfg.coordinator.max_participants (view s) (view t)

  -- A round under way in a known phase, with what its phase promises.
  pub record At (s : RoundState) (p : Phase) : Type 0 where
    pub inner : RoundStateInner
    pub here : s.inner ≡ some inner
    pub run : Running x cfg network s.participant_count inner
    pub stage : Stage x cfg network p inner
    pub seen : view s ≡ view_inner p inner

  pub phase_view :
      {s : RoundState} (p : Phase)
      → (phase_beq p idle ≡ false)
      → s.phase ≡ p
      → Wf x cfg network s
      → At s p
  unfolding new_idle
  phase_view p busy e (rests f) = absurd (cc)
  phase_view p busy e (runs s inner here run st) = record {
    inner = inner;
    here = here;
    run = run;
    stage = subst (λ ph. Stage x cfg network ph inner) e st;
    seen = view_at s p inner e here;
  }

  closes_lem :
      {s : RoundState}
      → s.phase ≡ input_reg
      → leb cfg.coordinator.min_participants s.participant_count ≡ true
      → Wf x cfg network s
      → Refines s (record s { phase = output_reg })
  closes_lem {s} p enough w =
      let a = phase_view input_reg refl p w in
      let n = length a.inner.registered_inputs in
      let next : view (record s { phase = output_reg }) ≡ redeeming n 0 =
        view_at (record s { phase = output_reg }) output_reg a.inner refl a.here ∙ rw a.stage.0 in
      rw (a.seen, next)
        (inr (
          closes n (
            omega (
              arith,
              leb→le cfg.coordinator.min_participants s.participant_count enough,
              a.run.counted,
            ))))

  empties_lem :
      (fresh : ℕ) {s : RoundState}
      → s.phase ≡ input_reg
      → leb cfg.coordinator.min_participants s.participant_count ≡ false
      → Wf x cfg network s
      → Refines s (new_idle fresh)
  unfolding new_idle
  empties_lem fresh {s} p few w =
      let a = phase_view input_reg refl p w in
      rw a.seen (inr (empties (length a.inner.registered_inputs) (ground (arith, a.run.counted))))

  -- Every phase after the first is given up by a move.
  lapses_lem :
      (fresh : ℕ) {s : RoundState}
      → s.phase ≡ output_reg
      → Wf x cfg network s
      → Refines s (new_idle fresh)
  unfolding new_idle
  lapses_lem fresh p w =
      let a = phase_view output_reg refl p w in
      rw a.seen
        (inr (lapses (length a.inner.registered_inputs) (length a.inner.registered_outputs)))

  expires_lem :
      (fresh : ℕ) {s : RoundState}
      → s.phase ≡ signing
      → Wf x cfg network s
      → Refines s (new_idle fresh)
  unfolding new_idle
  expires_lem fresh p w =
      let a = phase_view signing refl p w in
      rw a.seen (inr (expires (length a.inner.registered_inputs) (length a.inner.partial_sigs)))

  ends_lem :
      (fresh : ℕ) {s : RoundState}
      → s.phase ≡ broadcast
      → Wf x cfg network s
      → Refines s (new_idle fresh)
  unfolding new_idle
  ends_lem fresh p w =
      let a = phase_view broadcast refl p w in
      rw a.seen (inr (ends (length a.inner.registered_inputs)))

  input_timer-Refines :
      (fresh round_id : ℕ) {s : RoundState}
      → Wf x cfg network s
      → Refines s (on_input_reg_timer fresh cfg round_id s)
  unfolding on_input_reg_timer
  input_timer-Refines fresh round_id {s} w =
      elim (Bool-cases ((s.round_id == round_id) && phase_beq s.phase input_reg)) [
        | inr other ↦ rw other (inl refl)
        | inl guard ↦
            let p = guard_phase x cfg network fresh s round_id input_reg guard in
            elim (Bool-cases (leb cfg.coordinator.min_participants s.participant_count)) [
              | inl enough ↦
                  rw (guard, enough, attempt-output_reg fresh s p) (closes_lem p enough w)
              | inr few ↦ rw (guard, few, attempt-no_quorum fresh s p) (empties_lem fresh p few w)
            ]
      ]

  output_timer-Refines :
      (fresh round_id : ℕ) {s : RoundState}
      → Wf x cfg network s
      → Refines s (on_output_reg_timer fresh round_id s)
  unfolding on_output_reg_timer
  output_timer-Refines fresh round_id {s} w =
      elim (Bool-cases ((s.round_id == round_id) && phase_beq s.phase output_reg)) [
        | inr other ↦ rw other (inl refl)
        | inl guard ↦
            let p = guard_phase x cfg network fresh s round_id output_reg guard in
            rw (guard, missing x cfg network fresh p w) (lapses_lem fresh p w)
      ]

  watchdog-Refines :
      (fresh round_id : ℕ) {s : RoundState}
      → Wf x cfg network s
      → Refines s (broadcast_watchdog_force_idle fresh s round_id)
  unfolding broadcast_watchdog_force_idle
  watchdog-Refines fresh round_id {s} w =
      elim (Bool-cases ((s.round_id == round_id) && phase_beq s.phase broadcast)) [
        | inr other ↦ rw other (inl refl)
        | inl guard ↦
            let p = guard_phase x cfg network fresh s round_id broadcast guard in
            rw (guard, attempt-published fresh s p) (ends_lem fresh p w)
      ]

module _ (x : External) (json : Json) (writable : Text → Bool) (cfg : CoordinatorConfig)
    (network : Network) (now fresh : ℕ) where
  signing_timer-Refines :
      (round_id : ℕ) (a : AppState)
      → Wf x cfg network a.round
      → Refines x cfg network a.round
          (on_signing_timer x json writable now fresh cfg round_id a).round
  unfolding on_signing_timer on_signing_timeout
  signing_timer-Refines round_id a w =
      elim (Bool-cases ((a.round.round_id == round_id) && phase_beq a.round.phase signing)) [
        | inr other ↦ rw other (inl refl)
        | inl guard ↦
            let p = guard_phase x cfg network fresh a.round round_id signing guard in
            rw
              (
                guard,
                count_outcome-round x json writable cfg network now fresh _ _,
                blamed_signing fresh a.round p,
              )
              (expires_lem x cfg network fresh p w)
      ]

  pub fire-Refines :
      (phase : Phase) (round_id : ℕ) (a : AppState)
      → Wf x cfg network a.round
      → Refines x cfg network a.round (fire x json writable now fresh cfg phase round_id a).round
  unfolding fire
  fire-Refines input_reg r a w = input_timer-Refines x cfg network fresh r w
  fire-Refines output_reg r a w = output_timer-Refines x cfg network fresh r w
  fire-Refines signing r a w = signing_timer-Refines r a w
  fire-Refines broadcast r a w = watchdog-Refines x cfg network fresh r w
  fire-Refines idle r a w = inl refl
  fire-Refines blame r a w = inl refl

  -- The end of a broadcast: the round ends, or has ended before.
  pub finalize-Refines :
      (node : Node) (prepared : PreparedBroadcast) (round_id : ℕ) (a : AppState)
      → Wf x cfg network a.round
      → Refines x cfg network a.round
          (finalize_broadcast x json writable node now fresh cfg prepared round_id a).1.round
  finalize-Refines node prepared round_id a w =
      elim (Bool-cases (still_current x json writable round_id a.round)) [
        | inr other ↦
            rw
              (finalize_broadcast_stale x json writable node now fresh cfg prepared round_id a
                other)
              (inl refl)
        | inl guard ↦
            let p = guard_phase x cfg network fresh a.round round_id broadcast guard in
            rw
              (finalize_broadcast_current x json writable node now fresh cfg prepared round_id a
                guard).0
              (ends_lem x cfg network fresh p w)
      ]
