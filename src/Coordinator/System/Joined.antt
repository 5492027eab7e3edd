-- ===== src/Coordinator/System/Joined.antt =====
-- What the write lock has checked of a registration that succeeds (coordinator/src/api/handlers.rs,
-- coordinator/src/round/input_reg.rs).
use blindjoin.Prelude.{
  ℕ, ◌≡◌, ◌<◌, not, false, some, ok, ok_or, ensure, map_err, ltb, arith, sym, subst, >>=-eq-ok,
  ok_or-eq-ok, ensure-eq-ok, map_err-eq-ok, ltb→lt,
}
use blindjoin.Prelude.Eq.{Text, nat_eq, codes, bytes_eq}
use blindjoin.Prelude.Dict.{contains_key}
use blindjoin.External.{External}
use blindjoin.Shared.Errors.{utxo_already_registered, wrong_phase, invalid_token}
use blindjoin.Coordinator.Failure.{refuse, panicked}
use blindjoin.Coordinator.Config.{CoordinatorConfig}
use blindjoin.Coordinator.Round.State.{input_reg, phase_beq, RoundStateInner, RoundState}
use blindjoin.Coordinator.Round.State.Phases.{phase_beq-eq}
use blindjoin.Coordinator.Round.OutPoints.{outpoint_text}
use blindjoin.Coordinator.Round.InputReg.{
  InputRegResult, Registration, insert_input, register_input,
}
use blindjoin.Coordinator.Api.{api_error, wrong_phase_error, map_failure, conflict}
use blindjoin.Coordinator.Api.Input.{
  InputRegResponse, input_status, advance_when_full, register_locked,
}

-- A registration that succeeded under the lock.
pub record Joined (x : External) (cfg : CoordinatorConfig) (fresh : ℕ) (s : RoundState)
    (r : Registration) (s' : RoundState) : Type 0 where
  pub inner : RoundStateInner
  pub here : s.inner ≡ some inner
  pub phased : s.phase ≡ input_reg
  pub below : s.participant_count < cfg.coordinator.max_participants
  pub absent : contains_key (outpoint_text x r.utxo) inner.registered_inputs ≡ false
  pub moved : advance_when_full x fresh cfg (insert_input x s inner r) ≡ s'

module _ (x : External) (cfg : CoordinatorConfig) where
  registered :
      (s : RoundState) (r : Registration) (round_id : Text) {res : InputRegResult} {s' : RoundState}
      → register_input x s r round_id ≡ ok (res, s')
      → (inner : RoundStateInner) × (s.inner ≡ some inner)
        × (contains_key (outpoint_text x r.utxo) inner.registered_inputs ≡ false)
        × (insert_input x s inner r ≡ s')
  unfolding register_input
  registered s r round_id {res} {s'} h =
      let (inner, here, k0) = >>=-eq-ok (ok_or s.inner (refuse wrong_phase round_id)) _ h in
      let k = outpoint_text x r.utxo in
      let (_, new, k1) =
        >>=-eq-ok
          (ensure (not (contains_key k inner.registered_inputs))
            (refuse utxo_already_registered round_id))
          _ k0 in
      let (signer, _, k2) = >>=-eq-ok (ok_or inner.rsa_signer panicked) _ k1 in
      let (sig, _, end) =
        >>=-eq-ok
          (ok_or (x.blind_sign signer.secret_key r.blinded_token) (refuse invalid_token round_id)) _
          k2 in
      let absent =
        ensure-eq-ok (not (contains_key k inner.registered_inputs))
          (refuse utxo_already_registered round_id) new in
      (
        inner,
        ok_or-eq-ok s.inner (refuse wrong_phase round_id) here,
        ground (arith, absent),
        cc end,
      )

  pub register_locked-Joined :
      (fresh : ℕ) (s : RoundState) (r : Registration) {response : InputRegResponse}
      {s' : RoundState}
      → register_locked x fresh cfg s r ≡ ok (response, s')
      → Joined x cfg fresh s r s'
  unfolding register_locked
  register_locked-Joined fresh s r {response} {s'} h =
      let round_id = x.uuid_text s.round_id in
      let full = api_error conflict (codes "ROUND_FULL") (some round_id) in
      let no_inner = api_error conflict (codes "WRONG_PHASE") (some round_id) in
      let (_, phased, k0) =
        >>=-eq-ok (ensure (phase_beq s.phase input_reg) (wrong_phase_error x s)) _ h in
      let (_, room, k1) =
        >>=-eq-ok (ensure (ltb s.participant_count cfg.coordinator.max_participants) full) _ k0 in
      let (_, _, k2) = >>=-eq-ok (ok_or s.inner no_inner) _ k1 in
      let ((res, s1), done, end) =
        >>=-eq-ok (map_err (map_failure input_status round_id) (register_input x s r round_id)) _
          k2 in
      let (inner, here, absent, same) =
        registered s r round_id (
          map_err-eq-ok (map_failure input_status round_id) (register_input x s r round_id) done) in
      let last : advance_when_full x fresh cfg s1 ≡ s' = cc end in
      record {
        inner = inner;
        here = here;
        phased =
            phase_beq-eq s.phase input_reg
              (ensure-eq-ok (phase_beq s.phase input_reg) (wrong_phase_error x s) phased);
        below =
            ltb→lt s.participant_count cfg.coordinator.max_participants
              (ensure-eq-ok (ltb s.participant_count cfg.coordinator.max_participants) full room);
        absent = absent;
        moved = subst (λ t. advance_when_full x fresh cfg t ≡ s') (sym same) last;
      }
