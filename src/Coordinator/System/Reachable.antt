-- ===== src/Coordinator/System/Reachable.antt =====
-- Every state that the coordinator reaches is well formed.
use blindjoin.Prelude.{arith}
use blindjoin.External.{External, TxidText}
use blindjoin.Coordinator.Config.Valid.{Valid}
use blindjoin.Coordinator.State.{AppState}
use blindjoin.Coordinator.System.{
  Site, Step, installs, registers, redeems, signs, finalizes, expires, Reach, boots, steps,
}
use blindjoin.Coordinator.System.Wf.{Wf, rests}
use blindjoin.Coordinator.System.Start.{install-Wf}
use blindjoin.Coordinator.System.Ends.{fire-Wf, finalize-Wf}
use blindjoin.Coordinator.System.Registers.{post_input-Wf}
use blindjoin.Coordinator.System.Outputs.WellFormed.{post_output-Wf}
use blindjoin.Coordinator.System.Signs.WellFormed.{post_sign-Wf}

module _ (x : External) (txids : TxidText x) (site : Site) (valid : Valid site.cfg) where
  -- Every step, of whichever handler, task or timer, keeps the round well formed.
  pub Step-Wf :
      {a b : AppState}
      → Step x site a b
      → Wf x site.cfg valid.network a.round
      → Wf x site.cfg valid.network b.round
  Step-Wf (installs fresh r m material a) w =
      install-Wf x site.cfg valid.network (omega (arith, valid.quorum, valid.room)) fresh r m
        material w
  Step-Wf (registers now fresh gettxout seen snap bans req a response s h) w =
      post_input-Wf x txids site.cfg valid site.wire now gettxout seen bans snap fresh a.round req h
        w
  Step-Wf (redeems fresh seen req a response s h) w =
      post_output-Wf x site.cfg valid seen fresh a.round req h w
  Step-Wf (signs fresh seen req a) w =
      post_sign-Wf x site.cfg valid.network fresh seen a.round req w
  Step-Wf (finalizes node now fresh prepared r a) w =
      finalize-Wf x site.ban_json site.writable site.cfg valid.network now fresh node prepared r a w
  Step-Wf (expires now fresh phase r a) w =
      fire-Wf x site.ban_json site.writable site.cfg valid.network now fresh
        (omega (arith, valid.quorum)) phase r a w

  -- With a configuration that validates, and texts of transaction identifiers that read back, every state
  -- that is reached from startup is well formed: the count of participants is that of the inputs and within
  -- the limit, nobody is registered, redeemed or signed for twice, every input and output passed its checks,
  -- each phase has what it needs of inputs, outputs and signatures, Idle keeps nothing of the last round, and
  -- nobody ever sees Blame.
  pub reachable-Wf : {a : AppState} → Reach x site a → Wf x site.cfg valid.network a.round
  reachable-Wf (boots fresh bans file) = rests fresh
  reachable-Wf (steps r s) = Step-Wf s (reachable-Wf r)
