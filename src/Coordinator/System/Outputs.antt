-- ===== src/Coordinator/System/Outputs.antt =====
-- What is checked of an output that is registered (coordinator/src/api/handlers.rs,
-- coordinator/src/round/output_reg.rs).
pub mod WellFormed
use blindjoin.Prelude.{
  [], ◌∷◌, ◌++◌, ℕ, ◌≡◌, ◌≤◌, not, any, true, false, some, none, ok, ok_or, ensure, map_err, leb,
  length, List, arith, refl, sym, subst, Bool-cases, inl, inr, >>=-eq-ok, ok_or-eq-ok, ensure-eq-ok,
  map_err-eq-ok, leb→le, lt→ltb, length-append, All-append,
}
use blindjoin.Prelude.Eq.{Bytes, ◌==◌, nat_eq, codes, bytes_eq}
use blindjoin.External.{External}
use blindjoin.Shared.Errors.{wrong_denomination, invalid_token, token_already_used}
use blindjoin.Shared.Token.{compute_blind_token_message}
use blindjoin.Coordinator.Failure.{refuse_anon}
use blindjoin.Coordinator.Config.{CoordinatorConfig}
use blindjoin.Coordinator.Config.Valid.{Valid}
use blindjoin.Coordinator.Round.State.{
  RegisteredOutput, output_reg, signing, phase_beq, RoundStateInner, RoundState, new_idle,
}
use blindjoin.Coordinator.Round.State.Phases.{phase_beq-eq, attempt-signing}
use blindjoin.Coordinator.Round.OutputReg.{Token, redeem, register_output_logic}
use blindjoin.Coordinator.Round.Signing.{parse_address_to_script}
use blindjoin.Coordinator.Api.{
  panic, api_error, network_of, wrong_phase_error, map_failure, bad_request, conflict,
}
use blindjoin.Coordinator.Api.KnownNetwork.{network_of-eq}
use blindjoin.Coordinator.Api.Output.{
  OutputRegRequest, OutputRegResponse, output_status, decode_token, decode_request,
  advance_when_complete, redeem_locked, post_output,
}
use blindjoin.Coordinator.System.Wf.{OutputOk, Running, Stage, Wf, rests, runs}

-- What the coordinator has checked of a token that it redeems.
pub record Redeemed (x : External) (pk : Bytes) (redeemed : List Bytes) (token : Token)
    (denomination amount : ℕ) (script : Bytes) (after : List Bytes) : Type 0 where
  pub worth : amount ≡ denomination
  pub signed : x.verify_blind pk token.signature token.randomizer token.message ≡ true
  pub bound : compute_blind_token_message x script amount ≡ token.message
  pub unused : any (λ m. m == token.message) redeemed ≡ false
  pub recorded : after ≡ token.message ∷ redeemed

-- A token is redeemed only for the denomination, with a signature of the round's key, for the output
-- and the amount that its message names, and once; its message is then recorded.
pub register_output_logic-Redeemed :
    (x : External) (pk : Bytes) (redeemed : List Bytes) (token : Token) (denomination amount : ℕ)
    (script : Bytes) {after : List Bytes}
    → register_output_logic x pk redeemed token denomination amount script ≡ ok after
    → Redeemed x pk redeemed token denomination amount script after
unfolding register_output_logic redeem
register_output_logic-Redeemed x pk redeemed token denomination amount script {after} h =
    let (_, h1, k1) =
      >>=-eq-ok (ensure (amount == denomination) (refuse_anon wrong_denomination)) _ h in
    let signature = x.verify_blind pk token.signature token.randomizer token.message in
    let (_, h2, k2) = >>=-eq-ok (ensure signature (refuse_anon invalid_token)) _ k1 in
    let binding = compute_blind_token_message x script amount == token.message in
    let (_, h3, k3) = >>=-eq-ok (ensure binding (refuse_anon invalid_token)) _ k2 in
    let used = any (λ m. m == token.message) redeemed in
    let (_, h4, k4) = >>=-eq-ok (ensure (not used) (refuse_anon token_already_used)) _ k3 in
    let same : token.message ∷ redeemed ≡ after = cc k4 in
    record {
      worth =
          ground (arith, ensure-eq-ok (amount == denomination) (refuse_anon wrong_denomination) h1);
      signed = ensure-eq-ok signature (refuse_anon invalid_token) h2;
      bound =
          (bytes_eq.same_iff (compute_blind_token_message x script amount) token.message).0
            (ensure-eq-ok binding (refuse_anon invalid_token) h3);
      unused = ground (arith, ensure-eq-ok (not used) (refuse_anon token_already_used) h4);
      recorded = sym same;
    }

-- The output with its token, in a round under way.
abbrev pub with_output : RoundStateInner → List Bytes → RegisteredOutput → RoundStateInner
with_output inner redeemed out = record inner {
  redeemed_tokens = redeemed;
  registered_outputs = inner.registered_outputs ++ out ∷ [];
}

abbrev pub output_of : OutputRegRequest → RegisteredOutput
output_of req = record { address = req.output_address; amount_sats = req.amount_sats }

-- A redemption that succeeded under the lock.
pub record Redemption (x : External) (cfg : CoordinatorConfig) (fresh : ℕ) (s : RoundState)
    (req : OutputRegRequest) (token : Token) (script : Bytes) (s' : RoundState) : Type 0 where
  pub inner : RoundStateInner
  pub here : s.inner ≡ some inner
  pub phased : s.phase ≡ output_reg
  pub public_key : Bytes
  pub after : List Bytes
  pub redeemed :
      Redeemed x public_key inner.redeemed_tokens token cfg.coordinator.denomination_sats
        req.amount_sats script after
  pub moved :
      advance_when_complete x fresh
        (record s { inner = some (with_output inner after (output_of req)) })
        (with_output inner after (output_of req))
      ≡ s'

pub redeem_locked-Redemption :
    (x : External) (cfg : CoordinatorConfig) (fresh : ℕ) (s : RoundState) (req : OutputRegRequest)
    (token : Token) (script : Bytes) {response : OutputRegResponse} {s' : RoundState}
    → redeem_locked x fresh cfg s req token script ≡ ok (response, s')
    → Redemption x cfg fresh s req token script s'
unfolding redeem_locked
redeem_locked-Redemption x cfg fresh s req token script {response} {s'} h =
    let round_id = x.uuid_text s.round_id in
    let no_inner = api_error conflict (codes "WRONG_PHASE") (some round_id) in
    let (_, phased, k0) =
      >>=-eq-ok (ensure (phase_beq s.phase output_reg) (wrong_phase_error x s)) _ h in
    let (inner, here, k1) = >>=-eq-ok (ok_or s.inner no_inner) _ k0 in
    let (signer, _, k2) = >>=-eq-ok (ok_or inner.rsa_signer panic) _ k1 in
    let logic =
      register_output_logic x signer.public_key inner.redeemed_tokens token
        cfg.coordinator.denomination_sats req.amount_sats script in
    let (after, done, end) = >>=-eq-ok (map_err (map_failure output_status round_id) logic) _ k2 in
    record {
      inner = inner;
      here = ok_or-eq-ok s.inner no_inner here;
      phased =
          phase_beq-eq s.phase output_reg
            (ensure-eq-ok (phase_beq s.phase output_reg) (wrong_phase_error x s) phased);
      public_key = signer.public_key;
      after = after;
      redeemed =
          register_output_logic-Redeemed x signer.public_key inner.redeemed_tokens token
            cfg.coordinator.denomination_sats req.amount_sats script
            (map_err-eq-ok (map_failure output_status round_id) logic done);
      moved = cc end;
    }
