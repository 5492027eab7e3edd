-- ===== src/Coordinator/System/Answers/Inputs.antt =====
-- The registration of an input never panics (coordinator/src/api/handlers.rs).
use blindjoin.Prelude.{ℕ, ◌≡◌, ◌≢◌, true, none, ok_or, Option, Option-cases, inl, inr, arith}
use blindjoin.Prelude.Eq.{Text, nat_eq, bytes_eq}
use blindjoin.External.{External, OutPoint}
use blindjoin.Shared.Script.{ScriptType}
use blindjoin.Shared.Ownership.{WireJson, OwnershipProof}
use blindjoin.Coordinator.Config.{CoordinatorConfig, BipConfig, allows, allowed_set}
use blindjoin.Coordinator.Config.Valid.{Valid}
use blindjoin.Coordinator.State.{Rpc}
use blindjoin.Coordinator.Fee.{max?, script_input_vbytes, estimate_fee_share}
use blindjoin.Coordinator.Utxo.{
  UtxoError, GetTxOut, not_found, already_registered, insufficient_value, rpc_unavailable,
  invalid_proof,
}
use blindjoin.Coordinator.Round.State.{RoundState}
use blindjoin.Coordinator.Round.Blame.{BanList}
use blindjoin.Coordinator.Round.InputReg.{Registration, register_input}
use blindjoin.Coordinator.Api.{panic}
use blindjoin.Coordinator.Api.Input.{
  InputRegRequest, utxo_refusal, admit_outpoint, decode_input, check_input, validate_request,
  register_locked, post_input,
}
use blindjoin.Coordinator.System.Wf.{Wf}
use blindjoin.Coordinator.System.Answers.Key.{signer-Quiet}
use blindjoin.Coordinator.System.Answers.{
  IsHttp, Answers, replies, Quiet, map_failure-Answers, map_err-Answers, network_of-Answers,
  api_error-IsHttp, answers, quiets,
}

utxo_refusal-IsHttp : (e : UtxoError) → IsHttp (utxo_refusal e)
unfolding utxo_refusal
utxo_refusal-IsHttp not_found = api_error-IsHttp _ _ _
utxo_refusal-IsHttp already_registered = api_error-IsHttp _ _ _
utxo_refusal-IsHttp (insufficient_value v r) = api_error-IsHttp _ _ _
utxo_refusal-IsHttp (invalid_proof r) = api_error-IsHttp _ _ _
utxo_refusal-IsHttp rpc_unavailable = api_error-IsHttp _ _ _

-- A type that is allowed has a price.
priced-ne-none :
    (bip : BipConfig) (st : ScriptType) (m r : ℕ)
    → allows bip st ≡ true
    → estimate_fee_share bip m r ≢ none
unfolding estimate_fee_share max? script_input_vbytes allowed_set allows
priced-ne-none bip st m r h = ground arith

price-Answers :
    (bip : BipConfig) (st : ScriptType) (m r : ℕ)
    → allows bip st ≡ true
    → Answers (ok_or (estimate_fee_share bip m r) panic)
price-Answers bip st m r h = elim (Option-cases (estimate_fee_share bip m r)) [
  | inl e ↦ absurd (priced-ne-none bip st m r h e)
  | inr (fee, e) ↦ rw e (replies fee)
]

module _ (x : External) where
  admit-Answers :
      (now : ℕ) (seen : RoundState) (bans : BanList) (req : InputRegRequest)
      → Answers (admit_outpoint x now seen bans req)
  unfolding admit_outpoint
  admit-Answers now seen bans req = search answers depth 12

  decode-Answers : (json : WireJson) (req : InputRegRequest) → Answers (decode_input x json req)
  unfolding decode_input
  decode-Answers json req = search answers depth 12

module _ (x : External) (cfg : CoordinatorConfig) (valid : Valid cfg) where
  check-Answers :
      (gettxout : OutPoint → Rpc (Option GetTxOut)) (snap : RoundState) (req : InputRegRequest)
      (utxo : OutPoint) (proof : OwnershipProof)
      → Answers (check_input x cfg gettxout snap req utxo proof)
  unfolding check_input
  check-Answers gettxout snap req utxo proof =
      search
        (
          answers,
          price-Answers cfg.bip cfg.bip.output_script_type,
          valid.output_allowed,
          network_of-Answers cfg valid,
          map_err-Answers,
          utxo_refusal-IsHttp,
        )
        depth 12

  register_input-Quiet :
      (s : RoundState) (r : Registration) (round_id : Text)
      → Wf x cfg valid.network s
      → Quiet (register_input x s r round_id)
  unfolding register_input
  register_input-Quiet s r round_id wf =
      search (quiets, signer-Quiet x cfg valid.network s) depth 12

  register_locked-Answers :
      (fresh : ℕ) (s : RoundState) (r : Registration)
      → Wf x cfg valid.network s
      → Answers (register_locked x fresh cfg s r)
  unfolding register_locked
  register_locked-Answers fresh s r wf =
      search (answers, map_failure-Answers, register_input-Quiet s) depth 12

  pub post_input-Answers :
      (json : WireJson) (now : ℕ) (gettxout : OutPoint → Rpc (Option GetTxOut)) (seen : RoundState)
      (bans : BanList) (snap : RoundState) (fresh : ℕ) (s : RoundState) (req : InputRegRequest)
      → Wf x cfg valid.network s
      → Answers (post_input x json cfg now gettxout seen bans snap fresh s req)
  unfolding post_input validate_request
  post_input-Answers json now gettxout seen bans snap fresh s req wf =
      search (answers, admit-Answers, decode-Answers, check-Answers, register_locked-Answers) depth
        12
