-- ===== src/Shared/Errors.antt =====
-- shared/src/errors.rs. The human-readable message of an error is not modelled.
use blindjoin.Prelude.{Option}
use blindjoin.Prelude.Eq.{Text}

pub data ErrorCode : Type 0 where
  utxo_spent utxo_not_found utxo_insufficient_value utxo_already_registered : ErrorCode
  invalid_ownership_proof wrong_phase token_already_used invalid_token : ErrorCode
  wrong_denomination round_full rpc_unavailable broadcast_rejected : ErrorCode
  session_invalid dust_output utxo_banned invalid_signature : ErrorCode

pub record ApiError : Type 0 where
  pub code : ErrorCode
  pub round_id : Option Text
