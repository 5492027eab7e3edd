-- ===== src/Coordinator/System/Start.antt =====
-- A round starts well formed (coordinator/src/round/manager.rs, coordinator/src/run.rs).
use blindjoin.Prelude.{ℕ, ◌≡◌, ◌<◌, refl, Result, ok, err, some, Bool-cases, inl, inr, ◌==◌, arith}
use blindjoin.External.{External, Network}
use blindjoin.Coordinator.Config.{CoordinatorConfig}
use blindjoin.Coordinator.Round.State.{
  input_reg, RoundState, transition_to, can_transition_to, new_idle,
}
use blindjoin.Coordinator.Round.Manager.{RoundMaterial, StartRoundError, fresh_inner, install_round}
use blindjoin.Coordinator.Monitor.{Monitor, install_tick, install_if_idle}
use blindjoin.Coordinator.System.Wf.{Wf, rests, runs, running_not_idle}

module _ (x : External) (cfg : CoordinatorConfig) (network : Network)
    (room : 0 < cfg.coordinator.max_participants) (fresh : ℕ) (material : RoundMaterial) where
  -- The round that an Idle coordinator starts.
  abbrev pub started_round : ℕ → RoundState
  started_round f = record (new_idle f) {
    phase = input_reg;
    rsa_pubkey_der = some material.pk_der;
    rsa_pubkey_hash = some material.pk_hash;
    inner = some (fresh_inner material);
  }

  started_round-Wf : (f : ℕ) → Wf x cfg network (started_round f)
  unfolding new_idle fresh_inner
  started_round-Wf f =
      runs (started_round f) (fresh_inner material) refl
        (record {
          signer = material.signer;
          signs = refl;
          counted = refl;
          bounded = omega arith;
          distinct = tt;
          inputs = tt;
          redeemed = refl;
          once = tt;
          outputs = tt;
          sigs_distinct = tt;
          sigs_registered = tt;
        })
        (refl, refl, room)

  pub install_round-idle :
      (f : ℕ) → install_round fresh (new_idle f) material ≡ ok (started_round f)
  unfolding install_round transition_to can_transition_to new_idle
  install_round-idle f = refl

  install_if_idle-Wf :
      (round_id : ℕ) (m : Monitor) {s : RoundState}
      → Wf x cfg network s
      → Wf x cfg network (install_if_idle fresh round_id m s material).1
  unfolding new_idle
  install_if_idle-Wf round_id m (rests f) = elim (Bool-cases (f == round_id)) [
    | inl same ↦ rw (same, install_round-idle f) (started_round-Wf f)
    | inr other ↦ rw other (rests f)
  ]
  install_if_idle-Wf round_id m (runs s inner here r st) =
      rw (running_not_idle x cfg network s.phase inner st) (runs s inner here r st)

-- The monitor leaves the round well formed when a key arrives, and when none does.
pub install-Wf :
    (x : External) (cfg : CoordinatorConfig) (network : Network)
    → 0 < cfg.coordinator.max_participants
    → (fresh round_id : ℕ) (m : Monitor) (r : Result StartRoundError RoundMaterial) {s : RoundState}
    → Wf x cfg network s
    → Wf x cfg network (install_tick fresh round_id m s r).1
unfolding install_tick
install-Wf x cfg network room fresh round_id m (ok material) w =
    install_if_idle-Wf x cfg network room fresh material round_id m w
install-Wf x cfg network room fresh round_id m (err e) w = w
