-- ===== src/Tests/Progress.antt =====
-- How the round of the scenario moves on and ends.
use blindjoin.Prelude.{◌≡◌, ok, []}
use blindjoin.Coordinator.Round.State.{idle}
use blindjoin.Coordinator.Api.Input.{post_input}
use blindjoin.Coordinator.Api.Output.{post_output}
use blindjoin.Coordinator.System.{boots, installs}
use blindjoin.Coordinator.System.Spec.{Moves}
use blindjoin.Coordinator.System.Refines.{view}
use blindjoin.Coordinator.System.Refines.Steps.{Step-Moves}
use blindjoin.Coordinator.System.Expiry.{expire, timers-rest}
use blindjoin.Coordinator.System.Answers.{Answers}
use blindjoin.Coordinator.System.Answers.Registrations.{registrations-Answers}
use blindjoin.Tests.Sample.{sample, sample_txids, sample_cfg}
use blindjoin.Tests.Scenario.{
  sample_site, sample_wire, sample_json, sample_material, untouched, chain, state0, state1, state5,
  state5-Reach, input_request, output_request,
}
use blindjoin.Tests.Rounds.{sample_valid}
use blindjoin.Prelude.Eq.{codes}

Step-Moves_example : Moves 2 2 (view state0.round) (view state1.round)
Step-Moves_example =
    Step-Moves sample sample_txids sample_site sample_valid (boots 0 [] [])
      (installs 1 0 untouched (ok sample_material) state0)

registrations-Answers_example :
    Answers (
      post_input sample sample_wire sample_cfg 0 chain state5.round [] state5.round 2 state5.round
        (input_request (codes "1:0")))
    × Answers (post_output sample sample_cfg state5.round 2 state5.round (output_request 65))
registrations-Answers_example =
    registrations-Answers sample sample_txids sample_site sample_valid 0 2 chain state5.round
      state5.round (input_request (codes "1:0")) (output_request 65) state5-Reach

timers-rest_example :
    (expire sample sample_json sample_site.writable sample_cfg 7 8
      (expire sample sample_json sample_site.writable sample_cfg 5 6 state5)).round.phase
    ≡ idle
timers-rest_example = timers-rest sample sample_txids sample_site sample_valid 5 7 6 8 state5-Reach
