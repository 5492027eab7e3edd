-- ===== src/Coordinator/System/Refines/Steps.antt =====
-- The coordinator refines the specification of a round (coordinator/src/api/handlers.rs,
-- coordinator/src/run.rs, coordinator/src/round/signing.rs).
use blindjoin.Prelude.{ℕ, inl, inr, subst}
use blindjoin.External.{External, TxidText}
use blindjoin.Coordinator.Config.Valid.{Valid}
use blindjoin.Coordinator.State.{AppState}
use blindjoin.Coordinator.Round.State.{new_idle}
use blindjoin.Coordinator.System.{
  Site, Step, installs, registers, redeems, signs, finalizes, expires, Reach, boots, steps,
}
use blindjoin.Coordinator.System.Reachable.{reachable-Wf}
use blindjoin.Coordinator.System.Wf.{Wf}
use blindjoin.Coordinator.System.Spec.{Spec, Moves, Allowed, begins, goes}
use blindjoin.Coordinator.System.Refines.{view}
use blindjoin.Coordinator.System.Refines.Timers.{Refines, fire-Refines, finalize-Refines}
use blindjoin.Coordinator.System.Refines.Handlers.{
  install-Refines, post_input-Refines, post_output-Refines,
}
use blindjoin.Coordinator.System.Refines.Signing.{post_sign-Refines}

module _ (x : External) (txids : TxidText x) (site : Site) (valid : Valid site.cfg) where
  pub Step-Refines :
      {a b : AppState}
      → Step x site a b
      → Wf x site.cfg valid.network a.round
      → Refines x site.cfg valid.network a.round b.round
  Step-Refines (installs fresh r m material a) w =
      install-Refines x site.cfg valid fresh r m material w
  Step-Refines (registers now fresh gettxout seen snap bans req a response s h) w =
      post_input-Refines x site.cfg valid site.wire now gettxout seen bans snap fresh a.round req h
        w
  Step-Refines (redeems fresh seen req a response s h) w =
      post_output-Refines x site.cfg valid seen fresh a.round req h w
  Step-Refines (signs fresh seen req a) w =
      post_sign-Refines x site.cfg valid fresh seen a.round req w
  Step-Refines (finalizes node now fresh prepared r a) w =
      finalize-Refines x site.ban_json site.writable site.cfg valid.network now fresh node prepared
        r a w
  Step-Refines (expires now fresh phase r a) w =
      fire-Refines x site.ban_json site.writable site.cfg valid.network now fresh phase r a w

  -- Every step that the coordinator takes from a reachable state, of whichever handler, task or timer, is seen
  -- from outside as no step or as one move of the specification: a round opens, takes up participants to its
  -- maximum, closes only with its quorum, takes one output for every input and only then signatures, sends only
  -- when there is a signature for every input, and rests again from any phase.
  pub Step-Moves :
      {a b : AppState}
      → Reach x site a
      → Step x site a b
      → Moves site.cfg.coordinator.min_participants site.cfg.coordinator.max_participants
          (view a.round)
          (view b.round)
  Step-Moves r s = Step-Refines s (reachable-Wf x txids site valid r)

  extended : {min max : ℕ} {s t : Spec} → Allowed min max s → Moves min max s t → Allowed min max t
  extended {min} {max} a (inl same) = subst (λ u. Allowed min max u) same a
  extended a (inr move) = goes a move

  -- So every run of the coordinator is a run of the specification.
  pub reachable-Allowed :
      {a : AppState}
      → Reach x site a
      → Allowed site.cfg.coordinator.min_participants site.cfg.coordinator.max_participants
          (view a.round)
  unfolding new_idle
  reachable-Allowed (boots fresh bans file) = begins
  reachable-Allowed (steps r s) = extended (reachable-Allowed r) (Step-Moves r s)
