-- ===== src/Coordinator/System/Expiry.antt =====
-- Timers bring every round to its end (coordinator/src/run.rs).
use blindjoin.Prelude.{
  ℕ, ◌≡◌, ◌<◌, ◌⊎◌, ◌&&◌, ◌==◌, Bool, true, refl, inl, inr, leb, arith, Bool-cases, subst,
}
use blindjoin.Prelude.Eq.{Text}
use blindjoin.External.{External, TxidText, Network}
use blindjoin.Coordinator.Config.{CoordinatorConfig}
use blindjoin.Coordinator.Config.Valid.{Valid}
use blindjoin.Coordinator.State.{AppState}
use blindjoin.Coordinator.Round.State.{
  Phase, idle, input_reg, output_reg, signing, broadcast, blame, phase_beq, new_idle,
}
use blindjoin.Coordinator.Round.State.Phases.{
  attempt-output_reg, attempt-no_quorum, attempt-published, blamed_signing,
}
use blindjoin.Coordinator.Round.Blame.{Json, on_signing_timeout}
use blindjoin.Coordinator.Monitor.{
  on_input_reg_timer, on_output_reg_timer, on_signing_timer, broadcast_watchdog_force_idle, fire,
}
use blindjoin.Coordinator.System.{Site, Reach}
use blindjoin.Coordinator.System.Wf.{Stage, Wf, rests, runs}
use blindjoin.Coordinator.System.Ends.{missing, count_outcome-round, fire-Wf}
use blindjoin.Coordinator.System.Reachable.{reachable-Wf}

current : (p : Phase) (r : ℕ) → ((r == r) && phase_beq p p) ≡ true
current idle r = ground arith
current input_reg r = ground arith
current output_reg r = ground arith
current signing r = ground arith
current broadcast r = ground arith
current blame r = ground arith

-- The timer of the phase and the round that the state is in.
abbrev pub expire :
    External → Json → (Text → Bool) → CoordinatorConfig → ℕ → ℕ → AppState → AppState
expire x json writable cfg now fresh a =
    fire x json writable now fresh cfg a.round.phase a.round.round_id a

module _ (x : External) (json : Json) (writable : Text → Bool) (cfg : CoordinatorConfig)
    (network : Network) where
  guarded :
      (a : AppState) (p : Phase)
      → a.round.phase ≡ p
      → ((a.round.round_id == a.round.round_id) && phase_beq a.round.phase p) ≡ true
  guarded a p e = rw e (current p a.round.round_id)

  fire_now : ℕ → ℕ → AppState → Phase → AppState
  fire_now now fresh a p = fire x json writable now fresh cfg p a.round.round_id a

  -- The time for inputs ends in the registration of outputs, or in Idle.
  input_fires :
      (now fresh : ℕ) (a : AppState)
      → a.round.phase ≡ input_reg
      → ((fire_now now fresh a input_reg).round.phase ≡ output_reg)
        ⊎ ((fire_now now fresh a input_reg).round.phase ≡ idle)
  unfolding fire_now fire on_input_reg_timer new_idle
  input_fires now fresh a e =
      let g = guarded a input_reg e in
      elim (Bool-cases (leb cfg.coordinator.min_participants a.round.participant_count)) [
        | inl enough ↦ inl (rw (g, enough, attempt-output_reg fresh a.round e))
        | inr few ↦ inr (rw (g, few, attempt-no_quorum fresh a.round e))
      ]

  output_fires :
      (now fresh : ℕ) (a : AppState)
      → a.round.phase ≡ output_reg
      → Wf x cfg network a.round
      → (fire_now now fresh a output_reg).round.phase ≡ idle
  unfolding fire_now fire on_output_reg_timer new_idle
  output_fires now fresh a e w = rw (guarded a output_reg e, missing x cfg network fresh e w)

  signing_fires :
      (now fresh : ℕ) (a : AppState)
      → a.round.phase ≡ signing
      → (fire_now now fresh a signing).round.phase ≡ idle
  unfolding fire_now fire on_signing_timer on_signing_timeout new_idle
  signing_fires now fresh a e = rw (
    guarded a signing e,
    count_outcome-round x json writable cfg network now fresh _ _,
    blamed_signing fresh a.round e,
  )

  broadcast_fires :
      (now fresh : ℕ) (a : AppState)
      → a.round.phase ≡ broadcast
      → (fire_now now fresh a broadcast).round.phase ≡ idle
  unfolding fire_now fire broadcast_watchdog_force_idle new_idle
  broadcast_fires now fresh a e = rw (guarded a broadcast e, attempt-published fresh a.round e)

  -- One timer ends the round, or leads from the registration of inputs to that of outputs.
  Ended : AppState → Phase → Type 0
  Ended b p = (b.round.phase ≡ idle) ⊎ ((p ≡ input_reg) × (b.round.phase ≡ output_reg))

  fires :
      (now fresh : ℕ) (a : AppState) (p : Phase)
      → a.round.phase ≡ p
      → Wf x cfg network a.round
      → Ended (fire_now now fresh a p) p
  unfolding Ended fire_now fire new_idle
  fires now fresh a input_reg e w = elim (input_fires now fresh a e) [
    | inl outputs ↦ inr (refl, outputs)
    | inr over ↦ inl over
  ]
  fires now fresh a output_reg e w = inl (output_fires now fresh a e w)
  fires now fresh a signing e w = inl (signing_fires now fresh a e)
  fires now fresh a broadcast e w = inl (broadcast_fires now fresh a e)
  fires now fresh a idle e w = inl e
  fires now fresh a blame e (rests f) = absurd (cc)
  fires now fresh a blame e (runs s inner here run st) =
      absurd (subst (λ ph. Stage x cfg network ph inner) e st)

  pub two_timers :
      (now later fresh again : ℕ) (a : AppState)
      → 0 < cfg.coordinator.min_participants
      → Wf x cfg network a.round
      → (expire x json writable cfg later again
          (expire x json writable cfg now fresh a)).round.phase
        ≡ idle
  unfolding Ended fire_now
  two_timers now later fresh again a positive w =
      let b = expire x json writable cfg now fresh a in
      let w' : Wf x cfg network b.round =
        fire-Wf x json writable cfg network now fresh positive a.round.phase a.round.round_id a w in
      elim (fires later again b b.round.phase refl w') [
        | inl over ↦ over
        | inr (inputs, _) ↦ elim (fires now fresh a a.round.phase refl w) [
          | inl over ↦ absurd (cc)
          | inr (_, outputs) ↦ absurd (cc)
        ]
      ]

-- With a configuration that validates, in every state that is reached from startup, the timer of the phase
-- and round that the state is in, followed by the timer of the phase and round that this leaves, bring the
-- coordinator to Idle.
pub timers-rest :
    (x : External)
    → TxidText x
    → (site : Site) → Valid site.cfg
    → (now later fresh again : ℕ) {a : AppState} → Reach x site a
    → let once = expire x site.ban_json site.writable site.cfg now fresh a in
      (expire x site.ban_json site.writable site.cfg later again once).round.phase ≡ idle
timers-rest x txids site valid now later fresh again {a} r =
    two_timers x site.ban_json site.writable site.cfg valid.network now later fresh again a
      (omega (arith, valid.quorum)) (reachable-Wf x txids site valid r)
