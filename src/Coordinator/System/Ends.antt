-- ===== src/Coordinator/System/Ends.antt =====
-- Timers and the end of the broadcast keep a round well formed (coordinator/src/run.rs,
-- coordinator/src/round/signing.rs).
use blindjoin.External.{External, Network}
use blindjoin.Coordinator.Config.{CoordinatorConfig}
use blindjoin.Coordinator.Round.State.Phases.{
  phase_beq-eq, attempt-output_reg, attempt-no_quorum, attempt-published, blamed, blamed_broadcast,
  blamed_signing,
}
use blindjoin.Coordinator.Round.OutputReg.{on_output_reg_timeout}
use blindjoin.Coordinator.Round.Signing.{PreparedBroadcast}
use blindjoin.Coordinator.System.Wf.{Stage, Wf, rests, runs}
use blindjoin.Coordinator.Round.Finalize.{
  on_broadcast, on_broadcast_failure, finalize_broadcast, apply_broadcast_failure_blame, Node,
  still_current, count_blame, count_unattributed, broadcast_outcome,
}
use blindjoin.Coordinator.Monitor.{
  on_input_reg_timer, on_output_reg_timer, on_signing_timer, broadcast_watchdog_force_idle, fire,
  count_outcome,
}
use blindjoin.Coordinator.Round.Blame.{
  BlameOutcome, full_abort, restart_without, Json, on_signing_timeout, has_missing_outputs,
}
use blindjoin.Coordinator.Round.State.{
  Phase, idle, input_reg, output_reg, signing, broadcast, blame, RoundStateInner, RoundState,
  phase_beq, new_idle, attempt,
}
use blindjoin.Coordinator.State.{AppState}
use blindjoin.Prelude.{
  ℕ, ◌≡◌, ◌≤◌, ◌<◌, Bool, true, ◌&&◌, leb, refl, some, List, [], ◌∷◌, length, arith, Bool-cases,
  Option-cases, inl, inr, ◌==◌, subst, sym, ◌∙◌, lt→ltb, leb→le,
}
use blindjoin.Prelude.Eq.{Text}

module _ (x : External) (cfg : CoordinatorConfig) (network : Network) (fresh : ℕ) where
  idle_phase : (f : ℕ) → (new_idle f).phase ≡ idle
  unfolding new_idle
  idle_phase f = refl

  -- The guard of a timer: the phase that it is for.
  pub guard_phase :
      (s : RoundState) (r : ℕ) (p : Phase)
      → ((s.round_id == r) && phase_beq s.phase p) ≡ true
      → s.phase ≡ p
  guard_phase s r p h = phase_beq-eq s.phase p (ground arith)

  -- The round has its quorum when the time for inputs is over.
  quorum-Wf :
      0 < cfg.coordinator.min_participants
      → {s : RoundState} → s.phase ≡ input_reg
      → leb cfg.coordinator.min_participants s.participant_count ≡ true
      → Wf x cfg network s
      → Wf x cfg network (record s { phase = output_reg })
  unfolding new_idle
  quorum-Wf positive p enough (rests f) = absurd (cc)
  quorum-Wf positive p enough (runs s inner here r st) =
      let staged : Stage x cfg network input_reg inner =
        subst (λ ph. Stage x cfg network ph inner) p st in
      let many = leb→le cfg.coordinator.min_participants s.participant_count enough in
      let reached : cfg.coordinator.min_participants ≤ length inner.registered_inputs =
        rw (sym r.counted) many in
      let none_yet : length inner.registered_outputs ≡ 0 = rw staged.0 in
      runs (record s { phase = output_reg }) inner here r (staged.1, reached, omega arith)

  pub input_timer-Wf :
      0 < cfg.coordinator.min_participants
      → (round_id : ℕ) {s : RoundState} → Wf x cfg network s
      → Wf x cfg network (on_input_reg_timer fresh cfg round_id s)
  unfolding on_input_reg_timer
  input_timer-Wf positive round_id {s} w =
      elim (Bool-cases ((s.round_id == round_id) && phase_beq s.phase input_reg)) [
        | inr other ↦ rw other w
        | inl guard ↦
            let p = guard_phase s round_id input_reg guard in
            elim (Bool-cases (leb cfg.coordinator.min_participants s.participant_count)) [
              | inl enough ↦
                  rw (guard, enough, attempt-output_reg fresh s p) (quorum-Wf positive p enough w)
              | inr few ↦ rw (guard, few, attempt-no_quorum fresh s p) (rests fresh)
            ]
      ]

  has_missing : (inputs outputs : ℕ) → outputs < inputs → has_missing_outputs inputs outputs ≡ true
  unfolding has_missing_outputs
  has_missing inputs outputs h = lt→ltb outputs inputs h

  timeout_blames :
      (s : RoundState) (inner : RoundStateInner)
      → s.inner ≡ some inner
      → has_missing_outputs (length inner.registered_inputs) (length inner.registered_outputs)
        ≡ true
      → (on_output_reg_timeout fresh s).1 ≡ attempt fresh (attempt fresh s blame) idle
  unfolding on_output_reg_timeout
  timeout_blames s inner here short = simp (here, short)

  -- An output is missing whenever the time for outputs runs out: the last one ends the phase itself.
  pub missing :
      {s : RoundState}
      → s.phase ≡ output_reg
      → Wf x cfg network s
      → (on_output_reg_timeout fresh s).1 ≡ new_idle fresh
  missing p (rests f) = absurd (cc (p, idle_phase f))
  missing p (runs s inner here r st) =
      let staged : Stage x cfg network output_reg inner =
        subst (λ ph. Stage x cfg network ph inner) p st in
      timeout_blames s inner here
        (has_missing (length inner.registered_inputs) (length inner.registered_outputs) staged.2)
      ∙ blamed fresh s p

  pub output_timer-Wf :
      (round_id : ℕ) {s : RoundState}
      → Wf x cfg network s
      → Wf x cfg network (on_output_reg_timer fresh round_id s)
  unfolding on_output_reg_timer
  output_timer-Wf round_id {s} w =
      elim (Bool-cases ((s.round_id == round_id) && phase_beq s.phase output_reg)) [
        | inr other ↦ rw other w
        | inl guard ↦ rw (guard, missing (guard_phase s round_id output_reg guard) w) (rests fresh)
      ]

  pub watchdog-Wf :
      (round_id : ℕ) {s : RoundState}
      → Wf x cfg network s
      → Wf x cfg network (broadcast_watchdog_force_idle fresh s round_id)
  unfolding broadcast_watchdog_force_idle
  watchdog-Wf round_id {s} w =
      elim (Bool-cases ((s.round_id == round_id) && phase_beq s.phase broadcast)) [
        | inr other ↦ rw other w
        | inl guard ↦
            rw (guard, attempt-published fresh s (guard_phase s round_id broadcast guard))
              (rests fresh)
      ]

module _ (x : External) (json : Json) (writable : Text → Bool) (cfg : CoordinatorConfig)
    (network : Network) (now fresh : ℕ) where
  pub count_outcome-round :
      (o : BlameOutcome) (a : AppState) → (count_outcome cfg now o a).round ≡ a.round
  unfolding count_outcome
  count_outcome-round full_abort a = ground arith
  count_outcome-round (restart_without us) a = refl

  signing_timer-Wf :
      (round_id : ℕ) (a : AppState)
      → Wf x cfg network a.round
      → Wf x cfg network (on_signing_timer x json writable now fresh cfg round_id a).round
  unfolding on_signing_timer on_signing_timeout
  signing_timer-Wf round_id a w =
      elim (Bool-cases ((a.round.round_id == round_id) && phase_beq a.round.phase signing)) [
        | inr other ↦ rw other w
        | inl guard ↦
            rw
              (
                guard,
                count_outcome-round _ _,
                blamed_signing fresh a.round
                    (guard_phase x cfg network fresh a.round round_id signing guard),
              )
              (rests fresh)
      ]

  -- A timer that goes off, for whatever phase and round, leaves the round well formed.
  pub fire-Wf :
      0 < cfg.coordinator.min_participants
      → (phase : Phase) (round_id : ℕ) (a : AppState) → Wf x cfg network a.round
      → Wf x cfg network (fire x json writable now fresh cfg phase round_id a).round
  unfolding fire
  fire-Wf positive input_reg r a w = input_timer-Wf x cfg network fresh positive r w
  fire-Wf positive output_reg r a w = output_timer-Wf x cfg network fresh r w
  fire-Wf positive signing r a w = signing_timer-Wf r a w
  fire-Wf positive broadcast r a w = watchdog-Wf x cfg network fresh r w
  fire-Wf positive idle r a w = w
  fire-Wf positive blame r a w = w

  pub count_blame-round :
      (us : List Text) (a : AppState) → (count_blame cfg now us a).round ≡ a.round
  unfolding count_unattributed
  count_blame-round [] a = ground arith
  count_blame-round (u ∷ us) a = refl

  failure-Wf :
      (round_id : ℕ) (banned : List Text) (a : AppState)
      → Wf x cfg network a.round
      → Wf x cfg network
          (on_broadcast_failure x json writable now fresh cfg round_id banned a).round
  unfolding on_broadcast_failure apply_broadcast_failure_blame
  failure-Wf round_id banned a w =
      elim (Bool-cases (still_current x json writable round_id a.round)) [
        | inr other ↦ rw other w
        | inl guard ↦
            rw
              (
                guard,
                count_blame-round _ _,
                blamed_broadcast fresh a.round
                    (guard_phase x cfg network fresh a.round round_id broadcast guard),
              )
              (rests fresh)
      ]

  success-Wf :
      (round_id : ℕ) (a : AppState)
      → Wf x cfg network a.round
      → Wf x cfg network (on_broadcast x json writable fresh round_id a).round
  unfolding on_broadcast
  success-Wf round_id a w = elim (Bool-cases (still_current x json writable round_id a.round)) [
    | inr other ↦ rw other w
    | inl guard ↦
        rw
          (
            guard,
            attempt-published fresh a.round
                (guard_phase x cfg network fresh a.round round_id broadcast guard),
          )
          (rests fresh)
  ]

  -- So does the end of the broadcast.
  pub finalize-Wf :
      (node : Node) (prepared : PreparedBroadcast) (round_id : ℕ) (a : AppState)
      → Wf x cfg network a.round
      → Wf x cfg network
          (finalize_broadcast x json writable node now fresh cfg prepared round_id a).1.round
  unfolding finalize_broadcast
  finalize-Wf node prepared round_id a w =
      elim (Option-cases (broadcast_outcome x node prepared.tx_hex)) [
        | inl none_sent ↦ rw (finalize_broadcast, none_sent) (failure-Wf round_id _ a w)
        | inr (txid, sent) ↦ rw (finalize_broadcast, sent) (success-Wf round_id a w)
      ]
