-- ===== src/Coordinator/Api.antt =====
-- coordinator/src/api/handlers.rs: the answers of the server, and what the handlers share.
pub mod Limits
pub mod KnownNetwork
pub mod Input
pub mod Output
pub mod Tx
pub mod Sign
use blindjoin.Prelude.{
  ℕ, ◌+◌, Option, none, some, List, ltb, if◌then◌else◌, Result, ok, err, map_err,
}
use blindjoin.Prelude.Eq.{Bytes, Text, codes}
use blindjoin.External.{External, Network}
use blindjoin.Shared.Script.{ScriptType}
use blindjoin.Shared.Errors.{
  ErrorCode, ApiError, utxo_spent, utxo_not_found, utxo_insufficient_value, utxo_already_registered,
  invalid_ownership_proof, wrong_phase, token_already_used, invalid_token, wrong_denomination,
  round_full, rpc_unavailable, broadcast_rejected, session_invalid, dust_output, utxo_banned,
  invalid_signature,
}
use blindjoin.Coordinator.Failure.{Failure, api, panicked}
use blindjoin.Coordinator.Config.{CoordinatorConfig, parse_bitcoin_network, supported}
use blindjoin.Coordinator.Round.State.{Phase, RoundState, as_str}

pub data Status : Type 0 where
  bad_request unauthorized forbidden conflict internal_server_error service_unavailable : Status

-- The answer that `api_error` builds, without the message.
pub record HttpError : Type 0 where
  pub status : Status
  pub code : Text
  pub round_id : Option Text

-- How a handler ends without its answer.
pub data Refusal : Type 0 where
  http : HttpError → Refusal
  panic : Refusal

unfoldable pub api_error : Status → Text → Option Text → Refusal
api_error status code round_id = http (record { status = status; code = code; round_id = round_id })

-- The code as `serde` writes it.
unfoldable pub code_str : ErrorCode → Text
code_str utxo_spent = codes "UTXO_SPENT"
code_str utxo_not_found = codes "UTXO_NOT_FOUND"
code_str utxo_insufficient_value = codes "UTXO_INSUFFICIENT_VALUE"
code_str utxo_already_registered = codes "UTXO_ALREADY_REGISTERED"
code_str invalid_ownership_proof = codes "INVALID_OWNERSHIP_PROOF"
code_str wrong_phase = codes "WRONG_PHASE"
code_str token_already_used = codes "TOKEN_ALREADY_USED"
code_str invalid_token = codes "INVALID_TOKEN"
code_str wrong_denomination = codes "WRONG_DENOMINATION"
code_str round_full = codes "ROUND_FULL"
code_str rpc_unavailable = codes "RPC_UNAVAILABLE"
code_str broadcast_rejected = codes "BROADCAST_REJECTED"
code_str session_invalid = codes "SESSION_INVALID"
code_str dust_output = codes "DUST_OUTPUT"
code_str utxo_banned = codes "UTXO_BANNED"
code_str invalid_signature = codes "INVALID_SIGNATURE"

-- An error of the round's logic as the answer of a handler that chooses the status by the code.
abbrev pub map_failure : (ErrorCode → Status) → Text → Failure → Refusal
map_failure status_of round_id (api e) =
    api_error (status_of e.code) (code_str e.code) (some round_id)
map_failure status_of round_id panicked = panic

-- `parse_bitcoin_network` of handlers.rs, which panics on a name that `validate` refuses.
unfoldable pub network_of : CoordinatorConfig → Result Refusal Network
network_of cfg = map_err (λ _. panic) (parse_bitcoin_network cfg.network.bitcoin_network)

-- A handler of another phase answers with the phase that it found.
abbrev pub wrong_phase_error : External → RoundState → Refusal
wrong_phase_error x s = api_error conflict (codes "WRONG_PHASE") (some (x.uuid_text s.round_id))

pub record InfoResponse : Type 0 where
  pub network : Text
  pub denomination_sats : ℕ
  pub min_participants : ℕ
  pub max_participants : ℕ
  pub round_state : Text
  pub participants_registered : ℕ
  pub rsa_pubkey_hash : Option Text
  pub rsa_pubkey_der_b64 : Option Text
  pub round_id : Option ℕ
  pub supported_script_types : List ScriptType
  pub output_script_type : ScriptType

abbrev pub option_map : (Bytes → Text) → Option Bytes → Option Text
option_map f none = none
option_map f (some b) = some (f b)

unfoldable pub get_info : External → CoordinatorConfig → RoundState → InfoResponse
unfolding as_str supported
get_info x cfg s = record {
  network = cfg.network.bitcoin_network;
  denomination_sats = cfg.coordinator.denomination_sats;
  min_participants = cfg.coordinator.min_participants;
  max_participants = cfg.coordinator.max_participants;
  round_state = as_str s.phase;
  participants_registered = s.participant_count;
  rsa_pubkey_hash = option_map x.hex_encode s.rsa_pubkey_hash;
  rsa_pubkey_der_b64 = option_map x.b64_encode s.rsa_pubkey_der;
  round_id = some s.round_id;
  supported_script_types = supported cfg.bip;
  output_script_type = cfg.bip.output_script_type;
}
