-- ===== src/Tests/Scenario.antt =====
-- A round with two participants, from startup to the phase of the signatures.
use blindjoin.Prelude.{
  add32, add64, mul64, ℕ, zero, suc, ◌≡◌, refl, Bool, true, false, Option, none, some, [], ◌∷◌,
  ◌++◌, Result, ok, err,
}
use blindjoin.Prelude.Eq.{Bytes, Text, codes}
use blindjoin.Prelude.Dict.{get, contains_key, insert}
use blindjoin.External.{OutPoint}
use blindjoin.Shared.Script.{detect_script_type}
use blindjoin.Shared.Token.{le_bytes, compute_blind_token_message}
use blindjoin.Shared.Ownership.{WireJson, from_json_hex_str, decode_all}
use blindjoin.Shared.Verify.{
  verify_simple, verify_arity, verify_via_bip322_crate, key_binding_guard,
}
use blindjoin.Coordinator.Config.{allows, parse_bitcoin_network, allowed_set, allowed_of}
use blindjoin.Coordinator.State.{AppState, Rpc, answer}
use blindjoin.Coordinator.Fee.{max?, script_input_vbytes, script_output_vbytes, estimate_fee_share}
use blindjoin.Coordinator.Utxo.{
  GetTxOut, of_rpc, dispatch_v1, dispatch_v2, dispatch_ownership_proof, ownership_message,
  check_txout, validate_utxo,
}
use blindjoin.Coordinator.Round.State.{
  signing, RoundState, new_idle, can_transition_to, transition_to, attempt,
}
use blindjoin.Coordinator.Round.OutPoints.{
  show_digits, decimal, read_digits, parse_u32, rsplit_colon, outpoint_text, parse_outpoint,
}
use blindjoin.Coordinator.Round.Manager.{
  RoundMaterial, generate_session_token, fresh_inner, install_round,
}
use blindjoin.Coordinator.Round.Blame.{hash_utxo_str, is_banned, Json}
use blindjoin.Coordinator.Round.InputReg.{with_input, insert_input, register_input}
use blindjoin.Coordinator.Round.OutputReg.{redeem, register_output_logic}
use blindjoin.Coordinator.Round.Signing.{parse_address_to_script}
use blindjoin.Coordinator.Monitor.{Monitor, install_tick}
use blindjoin.Coordinator.Api.{network_of, Refusal}
use blindjoin.Coordinator.Api.Input.{
  InputRegRequest, InputRegResponse, parse_all, admit_outpoint, decode_input, check_input,
  validate_request, register_locked, post_input,
}
use blindjoin.Coordinator.Api.Output.{
  OutputRegRequest, OutputRegResponse, decode_randomizer, decode_token, decode_request,
  redeem_locked, post_output,
}
use blindjoin.Coordinator.System.{Site, installs, registers, redeems, Reach, boots, steps}
use blindjoin.Tests.Sample.{sample, sample_cfg, padded}

abbrev pub zeros : ℕ → Bytes
zeros zero = []
zeros (suc n) = 0 ∷ zeros n

abbrev pub is_ok {ℓ κ} : {E : Type ℓ} {A : Type κ} → Result E A → Bool
is_ok (ok a) = true
is_ok (err e) = false

abbrev pub value_or {ℓ κ} : {E : Type ℓ} {A : Type κ} → A → Result E A → A
value_or d (ok a) = a
value_or d (err e) = d

pub ok_value {ℓ κ} :
    {E : Type ℓ} {A : Type κ} (d : A) (r : Result E A) → is_ok r ≡ true → r ≡ ok (value_or d r)
ok_value d (ok a) h = refl
ok_value d (err e) h = cc

-- An array of the proof, twice.
abbrev pub sample_wire : WireJson
sample_wire = record { strings = λ t. some (t ∷ t ∷ []); proof = λ t. none }

abbrev pub sample_json : Json
sample_json = record { to_string = λ r. 123 ∷ r.utxo_hash; from_str = λ t. none }

abbrev pub sample_site : Site
sample_site = record {
  cfg = sample_cfg;
  wire = sample_wire;
  ban_json = sample_json;
  writable = λ u. true;
}

abbrev pub sample_material : RoundMaterial
sample_material = record {
  signer = record { public_key = 1 ∷ []; secret_key = 2 ∷ [] };
  sk_der = 2 ∷ [];
  pk_der = 1 ∷ [];
  pk_hash = 1 ∷ [];
  round_secret = 7 ∷ [];
}

abbrev pub untouched : Monitor
untouched = record {
  last_idle_start_round = none;
  last_input_reg_round = none;
  last_output_reg_round = none;
  last_signing_round = none;
  last_broadcast_round = none;
}

-- Every outpoint holds 20000 satoshis, for a key named after the transaction.
abbrev pub chain : OutPoint → Rpc (Option GetTxOut)
chain o = answer (some (record { value = some 20000; script_hex = 0 ∷ o.txid ∷ [] }))

abbrev pub input_request : Text → InputRegRequest
input_request utxo = record {
  utxo_outpoint = utxo;
  ownership_proof = 0 ∷ [];
  blinded_token = zeros 256;
  change_address = 5 ∷ utxo;
}

abbrev pub output_request : ℕ → OutputRegRequest
output_request a = record {
  unblinded_token = padded (codes "blindjoin-v1" ++ a ∷ 16 ∷ 39 ∷ 0 ∷ 0 ∷ 0 ∷ 0 ∷ 0 ∷ 0 ∷ []);
  signature = 9 ∷ [];
  output_address = a ∷ [];
  amount_sats = 10000;
  msg_randomizer = none;
}

abbrev pub state0 : AppState
state0 = record {
  round = new_idle 0;
  ban_list = [];
  ban_file = [];
  blame_round_count = 0;
  round_paused_until = 0;
}

abbrev pub state1 : AppState
state1 = record state0 { round = (install_tick 1 0 untouched state0.round (ok sample_material)).1 }

abbrev no_response : InputRegResponse
no_response = record { blind_signature = []; round_id = 0; session_token = [] }

abbrev pub try_input : AppState → Text → Result Refusal (InputRegResponse × RoundState)
try_input a utxo =
    post_input sample sample_wire sample_cfg 0 chain a.round [] a.round 2 a.round
      (input_request utxo)

abbrev pub after_input : AppState → Text → AppState
after_input a utxo = record a { round = (value_or (no_response, a.round) (try_input a utxo)).1 }

abbrev pub state2 : AppState
state2 = after_input state1 (codes "1:0")

abbrev pub state3 : AppState
state3 = after_input state2 (codes "2:7")

abbrev pub try_output : AppState → ℕ → Result Refusal (OutputRegResponse × RoundState)
try_output a name = post_output sample sample_cfg a.round 3 a.round (output_request name)

abbrev pub after_output : AppState → ℕ → AppState
after_output a name = record a {
  round = (value_or (record { accepted = false; round_id = 0 }, a.round) (try_output a name)).1;
}

abbrev pub state4 : AppState
state4 = after_output state3 65

abbrev pub state5 : AppState
state5 = after_output state4 66

first_input : is_ok (try_input state1 (codes "1:0")) ≡ true
unfolding post_input admit_outpoint decode_input check_input validate_request register_locked
    register_input insert_input with_input parse_outpoint parse_u32 read_digits rsplit_colon
    outpoint_text decimal show_digits is_banned hash_utxo_str get contains_key insert
    from_json_hex_str decode_all estimate_fee_share max? script_input_vbytes script_output_vbytes
    allowed_set allowed_of network_of parse_bitcoin_network validate_utxo of_rpc check_txout
    dispatch_ownership_proof dispatch_v1 dispatch_v2 detect_script_type allows verify_simple
    verify_arity verify_via_bip322_crate key_binding_guard ownership_message parse_address_to_script
    generate_session_token le_bytes install_tick install_round fresh_inner transition_to
    can_transition_to new_idle attempt parse_all add32 add64 mul64
first_input = refl

second_input : is_ok (try_input state2 (codes "2:7")) ≡ true
unfolding post_input admit_outpoint decode_input check_input validate_request register_locked
    register_input insert_input with_input parse_outpoint parse_u32 read_digits rsplit_colon
    outpoint_text decimal show_digits is_banned hash_utxo_str get contains_key insert
    from_json_hex_str decode_all estimate_fee_share max? script_input_vbytes script_output_vbytes
    allowed_set allowed_of network_of parse_bitcoin_network validate_utxo of_rpc check_txout
    dispatch_ownership_proof dispatch_v1 dispatch_v2 detect_script_type allows verify_simple
    verify_arity verify_via_bip322_crate key_binding_guard ownership_message parse_address_to_script
    generate_session_token le_bytes install_tick install_round fresh_inner transition_to
    can_transition_to new_idle attempt parse_all add32 add64 mul64
second_input = refl

first_output : is_ok (try_output state3 65) ≡ true
unfolding post_input admit_outpoint decode_input check_input validate_request register_locked
    register_input insert_input with_input parse_outpoint parse_u32 read_digits rsplit_colon
    outpoint_text decimal show_digits is_banned hash_utxo_str get contains_key insert
    from_json_hex_str decode_all estimate_fee_share max? script_input_vbytes script_output_vbytes
    allowed_set allowed_of network_of parse_bitcoin_network validate_utxo of_rpc check_txout
    dispatch_ownership_proof dispatch_v1 dispatch_v2 detect_script_type allows verify_simple
    verify_arity verify_via_bip322_crate key_binding_guard ownership_message parse_address_to_script
    generate_session_token le_bytes install_tick install_round fresh_inner transition_to
    can_transition_to new_idle attempt parse_all add32 add64 mul64 post_output decode_randomizer
    decode_token decode_request redeem_locked register_output_logic redeem
    compute_blind_token_message
first_output = refl

second_output : is_ok (try_output state4 66) ≡ true
unfolding post_input admit_outpoint decode_input check_input validate_request register_locked
    register_input insert_input with_input parse_outpoint parse_u32 read_digits rsplit_colon
    outpoint_text decimal show_digits is_banned hash_utxo_str get contains_key insert
    from_json_hex_str decode_all estimate_fee_share max? script_input_vbytes script_output_vbytes
    allowed_set allowed_of network_of parse_bitcoin_network validate_utxo of_rpc check_txout
    dispatch_ownership_proof dispatch_v1 dispatch_v2 detect_script_type allows verify_simple
    verify_arity verify_via_bip322_crate key_binding_guard ownership_message parse_address_to_script
    generate_session_token le_bytes install_tick install_round fresh_inner transition_to
    can_transition_to new_idle attempt parse_all add32 add64 mul64 post_output decode_randomizer
    decode_token decode_request redeem_locked register_output_logic redeem
    compute_blind_token_message
second_output = refl

pub all_registered : state5.round.phase ≡ signing
unfolding post_input admit_outpoint decode_input check_input validate_request register_locked
    register_input insert_input with_input parse_outpoint parse_u32 read_digits rsplit_colon
    outpoint_text decimal show_digits is_banned hash_utxo_str get contains_key insert
    from_json_hex_str decode_all estimate_fee_share max? script_input_vbytes script_output_vbytes
    allowed_set allowed_of network_of parse_bitcoin_network validate_utxo of_rpc check_txout
    dispatch_ownership_proof dispatch_v1 dispatch_v2 detect_script_type allows verify_simple
    verify_arity verify_via_bip322_crate key_binding_guard ownership_message parse_address_to_script
    generate_session_token le_bytes install_tick install_round fresh_inner transition_to
    can_transition_to new_idle attempt parse_all add32 add64 mul64 post_output decode_randomizer
    decode_token decode_request redeem_locked register_output_logic redeem
    compute_blind_token_message
all_registered = refl

pub state5-Reach : Reach sample sample_site state5
state5-Reach =
    let r0 : Reach sample sample_site state0 = boots 0 [] [] in
    let r1 : Reach sample sample_site state1 =
      steps r0 (installs 1 0 untouched (ok sample_material) state0) in
    let r2 : Reach sample sample_site state2 = steps r1 (
      registers 0 2 chain state1.round state1.round [] (input_request (codes "1:0")) state1 _ _
        (ok_value _ (try_input state1 (codes "1:0")) first_input)) in
    let r3 : Reach sample sample_site state3 = steps r2 (
      registers 0 2 chain state2.round state2.round [] (input_request (codes "2:7")) state2 _ _
        (ok_value _ (try_input state2 (codes "2:7")) second_input)) in
    let r4 : Reach sample sample_site state4 = steps r3 (
      redeems 3 state3.round (output_request 65) state3 _ _
        (ok_value _ (try_output state3 65) first_output)) in
    steps r4 (
      redeems 3 state4.round (output_request 66) state4 _ _
        (ok_value _ (try_output state4 66) second_output))
