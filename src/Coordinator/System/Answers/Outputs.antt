-- ===== src/Coordinator/System/Answers/Outputs.antt =====
-- The registration of an output never panics (coordinator/src/api/handlers.rs).
use blindjoin.Prelude.{ℕ, none, some, Option, List}
use blindjoin.Prelude.Eq.{Text, Bytes, nat_eq, bytes_eq}
use blindjoin.External.{External}
use blindjoin.Coordinator.Config.{CoordinatorConfig}
use blindjoin.Coordinator.Config.Valid.{Valid}
use blindjoin.Coordinator.Round.State.{RoundState}
use blindjoin.Coordinator.Round.OutputReg.{Token, register_output_logic}
use blindjoin.Coordinator.Api.Output.{
  OutputRegRequest, decode_token, decode_randomizer, decode_request, redeem_locked, post_output,
}
use blindjoin.Coordinator.System.Wf.{Wf}
use blindjoin.Coordinator.System.Answers.Key.{signer-Answers}
use blindjoin.Coordinator.System.Answers.{
  Answers, replies, Quiet, map_failure-Answers, network_of-Answers, answers, quiets,
}

module _ (x : External) where
  logic-Quiet :
      (pk : Bytes) (redeemed : List Bytes) (token : Token) (d a : ℕ) (script : Bytes)
      → Quiet (register_output_logic x pk redeemed token d a script)
  unfolding register_output_logic
  logic-Quiet pk redeemed token d a script = search quiets

  randomizer-Answers : (r : Option Text) → Answers (decode_randomizer x r)
  unfolding decode_randomizer
  randomizer-Answers none = replies none
  randomizer-Answers (some t) = search answers

  token-Answers : (seen : RoundState) (req : OutputRegRequest) → Answers (decode_token x seen req)
  unfolding decode_token
  token-Answers seen req = search (answers, randomizer-Answers) depth 12

module _ (x : External) (cfg : CoordinatorConfig) (valid : Valid cfg) where
  decode_request-Answers :
      (seen : RoundState) (req : OutputRegRequest) → Answers (decode_request x cfg seen req)
  unfolding decode_request
  decode_request-Answers seen req = search (answers, token-Answers, network_of-Answers cfg valid)

  redeem_locked-Answers :
      (fresh : ℕ) (s : RoundState) (req : OutputRegRequest) (token : Token) (script : Bytes)
      → Wf x cfg valid.network s
      → Answers (redeem_locked x fresh cfg s req token script)
  unfolding redeem_locked
  redeem_locked-Answers fresh s req token script wf =
      search (answers, map_failure-Answers, logic-Quiet, signer-Answers x cfg valid.network s) depth
        12

  pub post_output-Answers :
      (seen : RoundState) (fresh : ℕ) (s : RoundState) (req : OutputRegRequest)
      → Wf x cfg valid.network s
      → Answers (post_output x cfg seen fresh s req)
  unfolding post_output
  post_output-Answers seen fresh s req wf =
      search (answers, decode_request-Answers, redeem_locked-Answers)
