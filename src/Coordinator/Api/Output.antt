-- ===== src/Coordinator/Api/Output.antt =====
-- `post_output` of coordinator/src/api/handlers.rs.
use blindjoin.Prelude.{
  ℕ, Bool, ◌&&◌, Option, none, some, [], ◌∷◌, ◌++◌, ltb, leb, if◌then◌else◌, length, Result, ok,
  ◌>>=◌, ◌>>◌, ok_or, ensure, map_err,
}
use blindjoin.Prelude.Eq.{Bytes, Text, ◌==◌, nat_eq, codes}
use blindjoin.External.{External}
use blindjoin.Shared.Errors.{ErrorCode, token_already_used}
use blindjoin.Coordinator.Config.{CoordinatorConfig}
use blindjoin.Coordinator.Round.State.{
  output_reg, signing, phase_beq, RegisteredOutput, RoundStateInner, RoundState, attempt,
}
use blindjoin.Coordinator.Round.OutputReg.{Token, register_output_logic}
use blindjoin.Coordinator.Round.Signing.{parse_address_to_script}
use blindjoin.Coordinator.Api.{
  Status, bad_request, conflict, Refusal, panic, api_error, map_failure, network_of,
  wrong_phase_error,
}

pub record OutputRegRequest : Type 0 where
  pub unblinded_token : Text
  pub signature : Text
  pub output_address : Text
  pub amount_sats : ℕ  -- u64
  pub msg_randomizer : Option Text

pub record OutputRegResponse : Type 0 where
  pub accepted : Bool
  pub round_id : ℕ

unfoldable pub output_status : ErrorCode → Status
output_status token_already_used = conflict
output_status _ = bad_request

module _ (x : External) where
  abbrev invalid_token_error : Refusal
  invalid_token_error = api_error bad_request (codes "INVALID_TOKEN") none

  unfoldable pub decode_randomizer : Option Text → Result Refusal (Option Bytes)
  decode_randomizer none = ok none
  decode_randomizer (some b64_str) = do
    bytes ← ok_or (x.b64_decode b64_str) invalid_token_error
    ensure (length bytes == 32) invalid_token_error
    ok (some bytes)

  unfoldable pub decode_token : RoundState → OutputRegRequest → Result Refusal Token
  unfolding decode_randomizer
  decode_token seen req = do
    ensure (phase_beq seen.phase output_reg) (wrong_phase_error x seen)
    token_msg ← ok_or (x.b64_decode req.unblinded_token) invalid_token_error
    ensure (length token_msg == 32) invalid_token_error
    sig_bytes ← ok_or (x.b64_decode req.signature) invalid_token_error
    randomizer ← decode_randomizer req.msg_randomizer
    ok (record { message = token_msg; signature = sig_bytes; randomizer = randomizer })

  -- What the handler does before the write lock: the token, and the script of the output.
  unfoldable pub decode_request :
      CoordinatorConfig → RoundState → OutputRegRequest → Result Refusal (Token × Bytes)
  decode_request cfg seen req = do
    token ← decode_token seen req
    network ← network_of cfg
    output_script ←
        ok_or (parse_address_to_script x req.output_address network)
          (api_error bad_request (codes "INVALID_ADDRESS") none)
    ok (token, output_script)

  abbrev pub advance_when_complete : ℕ → RoundState → RoundStateInner → RoundState
  advance_when_complete fresh s inner =
      if leb s.participant_count (length inner.registered_outputs) && ltb 0 s.participant_count
      then attempt fresh s signing
      else s

  -- Under the write lock.
  unfoldable pub redeem_locked :
      ℕ
      → CoordinatorConfig
      → RoundState
      → OutputRegRequest
      → Token
      → Bytes
      → Result Refusal (OutputRegResponse × RoundState)
  redeem_locked fresh cfg s req token output_script = do
    ensure (phase_beq s.phase output_reg) (wrong_phase_error x s)
    let round_id = x.uuid_text s.round_id
    inner ← ok_or s.inner (api_error conflict (codes "WRONG_PHASE") (some round_id))
    signer ← ok_or inner.rsa_signer panic
    redeemed ← map_err (map_failure output_status round_id) (
        register_output_logic x signer.public_key inner.redeemed_tokens token
          cfg.coordinator.denomination_sats req.amount_sats output_script)
    let out : RegisteredOutput = record {
      address = req.output_address;
      amount_sats = req.amount_sats;
    }
    let inner' : RoundStateInner = record inner {
      redeemed_tokens = redeemed;
      registered_outputs = inner.registered_outputs ++ out ∷ [];
    }
    let response : OutputRegResponse = record { accepted = Bool.true; round_id = s.round_id }
    ok (response, advance_when_complete fresh (record s { inner = some inner' }) inner')

  -- `seen` is the round at the first look, `s` under the write lock.
  unfoldable pub post_output :
      CoordinatorConfig
      → RoundState
      → ℕ
      → RoundState
      → OutputRegRequest
      → Result Refusal (OutputRegResponse × RoundState)
  unfolding decode_request redeem_locked
  post_output cfg seen fresh s req = do
    (token, output_script) ← decode_request cfg seen req
    redeem_locked fresh cfg s req token output_script
