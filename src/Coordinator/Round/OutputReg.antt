-- ===== src/Coordinator/Round/OutputReg.antt =====
-- coordinator/src/round/output_reg.rs: the redemption of tokens, and the end of the time for outputs.
-- pub mod Redeem
use blindjoin.Prelude.{
  ℕ, Option, none, some, not, if◌then◌else◌, List, ◌∷◌, any, length, Result, ok, ◌>>◌, ensure,
}
use blindjoin.Prelude.Eq.{Bytes, ◌==◌, nat_eq, bytes_eq}
use blindjoin.External.{External}
use blindjoin.Shared.Errors.{wrong_denomination, invalid_token, token_already_used}
use blindjoin.Shared.Token.{compute_blind_token_message}
use blindjoin.Coordinator.Failure.{Failure, refuse_anon}
use blindjoin.Coordinator.Round.State.{idle, blame, signing, RoundStateInner, RoundState, attempt}
use blindjoin.Coordinator.Round.Blame.{has_missing_outputs}

pub data OutputRegOutcome : Type 0 where
  advance_to_signing blame_restart : OutputRegOutcome

abbrev pub counts : Option RoundStateInner → ℕ × ℕ
counts none = (0, 0)
counts (some inner) = (length inner.registered_inputs, length inner.registered_outputs)

unfoldable pub on_output_reg_timeout : ℕ → RoundState → OutputRegOutcome × RoundState
unfolding has_missing_outputs
on_output_reg_timeout fresh s =
    let (input_count, output_count) = counts s.inner in
    if has_missing_outputs input_count output_count
    then (blame_restart, attempt fresh (attempt fresh s blame) idle)
    else (advance_to_signing, attempt fresh s signing)

-- A token as it is redeemed: its message, the signature and the randomizer.
pub record Token : Type 0 where
  pub message : Bytes
  pub signature : Bytes
  pub randomizer : Option Bytes

-- `HashSet::insert` of an element that is not there; the order of the list stands for the set's.
unfoldable pub redeem : List Bytes → Bytes → List Bytes
redeem redeemed m = m ∷ redeemed

-- Returns the set of redeemed tokens with the new one.
unfoldable pub register_output_logic :
    External → Bytes → List Bytes → Token → ℕ → ℕ → Bytes → Result Failure (List Bytes)
unfolding redeem
register_output_logic x pk redeemed token denomination amount_sats output_script = do
  ensure (amount_sats == denomination) (refuse_anon wrong_denomination)
  ensure (x.verify_blind pk token.signature token.randomizer token.message)
      (refuse_anon invalid_token)
  ensure (compute_blind_token_message x output_script amount_sats == token.message)
      (refuse_anon invalid_token)
  ensure (not (any (λ m. m == token.message) redeemed)) (refuse_anon token_already_used)
  ok (redeem redeemed token.message)
