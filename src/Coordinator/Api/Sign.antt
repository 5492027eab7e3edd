-- ===== src/Coordinator/Api/Sign.antt =====
-- `post_sign` of coordinator/src/api/handlers.rs, as far as the release of the write lock.
use blindjoin.Prelude.{
  ℕ, true, false, none, length, Result, ok, err, ◌>>=◌, ◌>>◌, ok_or, ensure, map_err,
}
use blindjoin.Prelude.Eq.{Bytes, Text, ◌==◌, nat_eq, codes}
use blindjoin.External.{External, OutPoint}
use blindjoin.Shared.Errors.{ErrorCode, session_invalid, wrong_phase, rpc_unavailable}
use blindjoin.Coordinator.Failure.{Failure}
use blindjoin.Coordinator.Config.{CoordinatorConfig}
use blindjoin.Coordinator.Round.State.{signing, phase_beq, RoundState}
use blindjoin.Coordinator.Round.OutPoints.{parse_outpoint}
use blindjoin.Coordinator.Round.Signing.{SignOutcome, process_sign}
use blindjoin.Coordinator.Api.{
  Status, bad_request, unauthorized, conflict, service_unavailable, Refusal, api_error, map_failure,
  wrong_phase_error,
}

pub record SignRequest : Type 0 where
  pub round_id : ℕ
  pub utxo_outpoint : Text
  pub partial_signature : Text
  pub session_token : Text

unfoldable pub sign_status : ErrorCode → Status
sign_status session_invalid = unauthorized
sign_status wrong_phase = conflict
sign_status rpc_unavailable = service_unavailable
sign_status _ = bad_request

-- The decoded request.
pub record Submission : Type 0 where
  pub utxo : OutPoint
  pub partial_signature : Bytes
  pub session_token : Bytes

module _ (x : External) where
  abbrev session_error : Refusal
  session_error = api_error bad_request (codes "SESSION_INVALID") none

  unfoldable pub decode_submission : RoundState → SignRequest → Result Refusal Submission
  decode_submission seen req = do
    ensure (phase_beq seen.phase signing) (wrong_phase_error x seen)
    utxo ← ok_or (parse_outpoint x req.utxo_outpoint) session_error
    partial_signature ← ok_or (x.b64_decode req.partial_signature) session_error
    session_token ← ok_or (x.b64_decode req.session_token) session_error
    ensure (length session_token == 32) session_error
    ok (record {
      utxo = utxo;
      partial_signature = partial_signature;
      session_token = session_token;
    })

  abbrev pub answered :
      Text → Result Failure SignOutcome × RoundState → Result Refusal SignOutcome × RoundState
  answered round_id (r, s) = (map_err (map_failure sign_status round_id) r, s)

  abbrev pub sign_locked :
      ℕ
      → CoordinatorConfig
      → RoundState
      → Result Refusal Submission
      → Result Refusal SignOutcome × RoundState
  sign_locked fresh cfg s (err e) = (err e, s)
  sign_locked fresh cfg s (ok d) = elim (phase_beq s.phase signing) [
    | false ↦ (err (wrong_phase_error x s), s)
    | true ↦
        let round_id = x.uuid_text s.round_id in
        answered round_id
          (process_sign x fresh s cfg d.utxo d.partial_signature d.session_token round_id)
  ]

  -- `seen` is the round at the first look, `s` under the write lock. An outcome that is ready to
  -- broadcast starts `finalize_broadcast`.
  unfoldable pub post_sign :
      ℕ
      → CoordinatorConfig
      → RoundState
      → RoundState
      → SignRequest
      → Result Refusal SignOutcome × RoundState
  unfolding decode_submission
  post_sign fresh cfg seen s req = sign_locked fresh cfg s (decode_submission seen req)
