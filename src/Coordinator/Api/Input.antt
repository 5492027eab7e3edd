-- ===== src/Coordinator/Api/Input.antt =====
-- `post_input` of coordinator/src/api/handlers.rs.
use blindjoin.Prelude.{
  ℕ, not, ◌||◌, Option, none, some, List, [], ◌∷◌, ltb, leb, if◌then◌else◌, length, Result, ok,
  ◌>>=◌, ◌>>◌, ok_or, ensure, map_err,
}
use blindjoin.Prelude.Eq.{Bytes, Text, ◌==◌, nat_eq, codes}
use blindjoin.Prelude.Dict.{keys}
use blindjoin.External.{External, OutPoint}
use blindjoin.Shared.Errors.{ErrorCode, wrong_phase, utxo_already_registered}
use blindjoin.Shared.Ownership.{OwnershipProof, WireJson, from_json_hex_str}
use blindjoin.Coordinator.Config.{CoordinatorConfig}
use blindjoin.Coordinator.State.{Rpc}
use blindjoin.Coordinator.Fee.{estimate_fee_share}
use blindjoin.Coordinator.Utxo.{
  UtxoDetails, UtxoError, GetTxOut, validate_utxo, not_found, already_registered,
  insufficient_value, rpc_unavailable, invalid_proof,
}
use blindjoin.Coordinator.Round.State.{
  input_reg, output_reg, phase_beq, RoundStateInner, RoundState, attempt,
}
use blindjoin.Coordinator.Round.OutPoints.{outpoint_text, parse_outpoint}
use blindjoin.Coordinator.Round.Blame.{BanList, is_banned}
use blindjoin.Coordinator.Round.InputReg.{Registration, register_input}
use blindjoin.Coordinator.Round.Signing.{parse_address_to_script}
use blindjoin.Coordinator.Api.{
  Status, bad_request, forbidden, conflict, service_unavailable, Refusal, panic, api_error,
  map_failure, network_of, wrong_phase_error,
}

pub record InputRegRequest : Type 0 where
  pub utxo_outpoint : Text
  pub ownership_proof : Text
  pub blinded_token : Text
  pub change_address : Text

pub record InputRegResponse : Type 0 where
  pub blind_signature : Text
  pub round_id : ℕ
  pub session_token : Text

-- The answer to a UTXO that does not validate.
unfoldable pub utxo_refusal : UtxoError → Refusal
unfolding api_error
utxo_refusal not_found = api_error bad_request (codes "UTXO_NOT_FOUND") none
utxo_refusal already_registered = api_error conflict (codes "UTXO_ALREADY_REGISTERED") none
utxo_refusal (insufficient_value v r) = api_error bad_request (codes "UTXO_INSUFFICIENT_VALUE") none
utxo_refusal (invalid_proof r) = api_error bad_request (codes "INVALID_PROOF") none
utxo_refusal rpc_unavailable = api_error service_unavailable (codes "RPC_UNAVAILABLE") none

unfoldable pub input_status : ErrorCode → Status
input_status wrong_phase = conflict
input_status utxo_already_registered = conflict
input_status _ = bad_request

module _ (x : External) where
  -- `filter_map(|s| parse_outpoint(s))`
  unfoldable pub parse_all : List Text → List OutPoint
  parse_all [] = []
  parse_all (s ∷ ss) = elim (parse_outpoint x s) [ none ↦ parse_all ss | some o ↦ o ∷ parse_all ss ]

  abbrev pub registered_snapshot : Option RoundStateInner → List OutPoint
  registered_snapshot none = []
  registered_snapshot (some inner) = parse_all (keys inner.registered_inputs)

  -- The checks of the phase, the outpoint and the ban.
  unfoldable pub admit_outpoint :
      ℕ → RoundState → BanList → InputRegRequest → Result Refusal OutPoint
  admit_outpoint now seen bans req = do
    ensure (phase_beq seen.phase input_reg) (wrong_phase_error x seen)
    utxo ←
        ok_or (parse_outpoint x req.utxo_outpoint)
          (api_error bad_request (codes "UTXO_NOT_FOUND") none)
    ensure (not (is_banned x bans (outpoint_text x utxo) now))
        (api_error forbidden (codes "UTXO_BANNED") none)
    ok utxo

  -- The blinded token, of the size of an RSA modulus, and the proof.
  unfoldable pub decode_input : WireJson → InputRegRequest → Result Refusal (Bytes × OwnershipProof)
  decode_input json req = do
    blinded_token ←
        ok_or (x.b64_decode req.blinded_token) (api_error bad_request (codes "INVALID_TOKEN") none)
    ensure ((length blinded_token == 256) || (length blinded_token == 512))
        (api_error bad_request (codes "INVALID_TOKEN") none)
    proof ←
        ok_or (from_json_hex_str x json req.ownership_proof)
          (api_error bad_request (codes "INVALID_PROOF") none)
    ok (blinded_token, proof)

  -- The UTXO against the chain, at the price of the smallest round, and the change address.
  unfoldable pub check_input :
      CoordinatorConfig
      → (OutPoint → Rpc (Option GetTxOut))
      → RoundState
      → InputRegRequest
      → OutPoint
      → OwnershipProof
      → Result Refusal UtxoDetails
  check_input cfg gettxout snap req utxo proof = do
    fee_share ←
        ok_or
          (estimate_fee_share cfg.bip cfg.coordinator.min_participants
            cfg.coordinator.fee_rate_sat_per_vbyte)
          panic
    network ← network_of cfg
    details ← map_err utxo_refusal (
        validate_utxo x (gettxout utxo) utxo (registered_snapshot snap.inner)
          cfg.coordinator.denomination_sats fee_share proof cfg.bip network
          (x.uuid_text snap.round_id))
    change_script ←
        ok_or (parse_address_to_script x req.change_address network)
          (api_error bad_request (codes "INVALID_ADDRESS") none)
    ok details

  -- What the handler does before it takes the write lock. The round is read twice, as `seen` and
  -- then as `snap`; `gettxout` is the node's answer.
  unfoldable pub validate_request :
      WireJson
      → CoordinatorConfig
      → ℕ
      → (OutPoint → Rpc (Option GetTxOut))
      → RoundState
      → BanList
      → RoundState
      → InputRegRequest
      → Result Refusal Registration
  validate_request json cfg now gettxout seen bans snap req = do
    utxo ← admit_outpoint now seen bans req
    (blinded_token, proof) ← decode_input json req
    details ← check_input cfg gettxout snap req utxo proof
    ok (record {
      utxo = utxo;
      blinded_token = blinded_token;
      change_address = req.change_address;
      script_pubkey = details.script_pubkey;
      value_sats = details.value_sats;
      script_type = details.script_type;
    })

  -- The last participant moves the round on.
  abbrev pub advance_when_full : ℕ → CoordinatorConfig → RoundState → RoundState
  advance_when_full fresh cfg s =
      if leb cfg.coordinator.max_participants s.participant_count
      then attempt fresh s output_reg
      else s

  -- What it does under the write lock.
  unfoldable pub register_locked :
      ℕ
      → CoordinatorConfig
      → RoundState
      → Registration
      → Result Refusal (InputRegResponse × RoundState)
  register_locked fresh cfg s r = do
    ensure (phase_beq s.phase input_reg) (wrong_phase_error x s)
    let round_id = x.uuid_text s.round_id
    ensure (ltb s.participant_count cfg.coordinator.max_participants)
        (api_error conflict (codes "ROUND_FULL") (some round_id))
    inner ← ok_or s.inner (api_error conflict (codes "WRONG_PHASE") (some round_id))
    (result, s') ← map_err (map_failure input_status round_id) (register_input x s r round_id)
    let response : InputRegResponse = record {
      blind_signature = result.blind_signature_b64;
      round_id = s.round_id;
      session_token = result.session_token_b64;
    }
    ok (response, advance_when_full fresh cfg s')

  -- The answer with the new state of the round; a refusal changes nothing.
  unfoldable pub post_input :
      WireJson
      → CoordinatorConfig
      → ℕ
      → (OutPoint → Rpc (Option GetTxOut))
      → RoundState
      → BanList
      → RoundState
      → ℕ
      → RoundState
      → InputRegRequest
      → Result Refusal (InputRegResponse × RoundState)
  unfolding validate_request register_locked
  post_input json cfg now gettxout seen bans snap fresh s req = do
    r ← validate_request json cfg now gettxout seen bans snap req
    register_locked fresh cfg s r
