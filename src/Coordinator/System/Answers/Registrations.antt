-- ===== src/Coordinator/System/Answers/Registrations.antt =====
-- The requests that register inputs and outputs (coordinator/src/api/handlers.rs).
use blindjoin.Prelude.{ℕ, Option}
use blindjoin.External.{External, OutPoint, TxidText}
use blindjoin.Coordinator.Config.Valid.{Valid}
use blindjoin.Coordinator.State.{AppState, Rpc}
use blindjoin.Coordinator.Utxo.{GetTxOut}
use blindjoin.Coordinator.Round.State.{RoundState}
use blindjoin.Coordinator.Api.Input.{InputRegRequest, post_input}
use blindjoin.Coordinator.Api.Output.{OutputRegRequest, post_output}
use blindjoin.Coordinator.System.{Site, Reach}
use blindjoin.Coordinator.System.Reachable.{reachable-Wf}
use blindjoin.Coordinator.System.Answers.{Answers}
use blindjoin.Coordinator.System.Answers.Inputs.{post_input-Answers}
use blindjoin.Coordinator.System.Answers.Outputs.{post_output-Answers}

-- With a configuration that validates, in every state that is reached from startup, whatever the request,
-- the node's answer and the rounds that were read before the lock: a request to register an input and one to
-- register an output end with a response or with an HTTP error, and never with a panic of an `expect`.
pub registrations-Answers :
    (x : External)
    → TxidText x
    → (site : Site) (valid : Valid site.cfg) (now fresh : ℕ)
      (gettxout : OutPoint → Rpc (Option GetTxOut)) (seen snap : RoundState)
      (input : InputRegRequest) (output : OutputRegRequest) {a : AppState}
    → Reach x site a
    → Answers
        (post_input x site.wire site.cfg now gettxout seen a.ban_list snap fresh a.round input)
      × Answers (post_output x site.cfg seen fresh a.round output)
registrations-Answers x txids site valid now fresh gettxout seen snap input output {a} r =
    let w = reachable-Wf x txids site valid r in
    (
      post_input-Answers x site.cfg valid site.wire now gettxout seen a.ban_list snap fresh a.round
          input w,
      post_output-Answers x site.cfg valid seen fresh a.round output w,
    )
