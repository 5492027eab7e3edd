-- ===== src/Tests/Handlers.antt =====
-- Runs of the parts of the handlers, each against its theorem.
use blindjoin.Coordinator.SigVerify.{
  verify_p2wpkh, verify_p2tr, verify_p2sh_p2wpkh, verify_input_signature, split_taproot_sig,
  sig_and_key, prevouts_of, parse_ecdsa_sig,
}
use blindjoin.Coordinator.Fee.{script_output_vbytes, script_input_vbytes}
use blindjoin.Coordinator.Tx.{
  sort_inputs, insert_ordered, input_vbytes, estimated_vsize, create_psbt, coinjoin_tx,
  change_outputs, attach_utxos, round_fee_share, check_funds, build_coinjoin_psbt,
}
use blindjoin.Coordinator.Round.OutPoints.{
  show_digits, read_digits, parse_u32, rsplit_colon, parse_outpoint, decimal, outpoint_text,
}
use blindjoin.Coordinator.Round.Manager.{generate_session_token, verify_session_token}
use blindjoin.Prelude.{
  get_elem?, ℕ, ◌≡◌, refl, true, none, some, [], ◌∷◌, ◌++◌, Result, add64, mul64, sum64, sub64,
}
use blindjoin.Prelude.Eq.{Bytes, Text, codes, bytes_eq}
use blindjoin.Prelude.Dict.{get, contains_key, insert}
use blindjoin.External.{signet, OutPoint}
use blindjoin.Shared.Script.{p2wpkh, detect_script_type}
use blindjoin.Shared.Token.{le_bytes, compute_blind_token_message}
use blindjoin.Shared.Ownership.{OwnershipProof}
use blindjoin.Shared.Verify.{
  verify_simple, verify_arity, verify_via_bip322_crate, key_binding_guard,
}
use blindjoin.Shared.Verify.Binding.{accepted-bound}
use blindjoin.Coordinator.Failure.{Failure}
use blindjoin.Coordinator.Config.{parse_bitcoin_network, allows}
use blindjoin.Coordinator.Utxo.{
  UtxoDetails, of_rpc, dispatch_v1, dispatch_ownership_proof, ownership_message, check_txout,
  validate_utxo,
}
use blindjoin.Coordinator.Utxo.Owned.{Owned, validate_utxo-Owned}
use blindjoin.Coordinator.Round.State.{RegisteredInput, RoundStateInner, RoundState, signing}
use blindjoin.Coordinator.Round.OutputReg.{Token, register_output_logic, redeem}
use blindjoin.Coordinator.Round.Signing.{
  position, parse_address_to_script, participant_outputs, participant_input, participant_inputs,
  build_canonical_psbt, accept_signature,
}
use blindjoin.Coordinator.Api.Tx.{RoundTxResponse}
use blindjoin.Coordinator.System.Outputs.{Redeemed, register_output_logic-Redeemed}
use blindjoin.Coordinator.System.Signs.{Accepted, accept_signature-Accepted}
use blindjoin.Tests.Sample.{sample, sample_cfg, open_bip, padded}
use blindjoin.Tests.Scenario.{is_ok, value_or, ok_value, chain}

abbrev plain_proof : OwnershipProof
plain_proof = record {
  version = 1;
  witness_stack = (9 ∷ []) ∷ (8 ∷ []) ∷ [];
  psbt_input_b64 = none;
  script_type = none;
}

abbrev coin : OutPoint
coin = record { txid = 1; vout = 0 }

abbrev coin_details : UtxoDetails
coin_details = record { value_sats = 20000; script_pubkey = 0 ∷ 1 ∷ []; script_type = p2wpkh }

validate_utxo-Owned_example :
    Owned sample
      (chain coin)
      coin
      []
      (add64 10000 158)
      open_bip
      signet
      (ownership_message sample (codes "1") coin)
      coin_details
unfolding validate_utxo of_rpc check_txout dispatch_ownership_proof dispatch_v1 detect_script_type
    allows verify_simple verify_arity verify_via_bip322_crate key_binding_guard add64
validate_utxo-Owned_example =
    validate_utxo-Owned sample (chain coin) coin [] 10000 158 plain_proof open_bip signet
      (codes "1") refl

abbrev good_token : Token
good_token = record {
  message = padded (codes "blindjoin-v1" ++ 65 ∷ 16 ∷ 39 ∷ 0 ∷ 0 ∷ 0 ∷ 0 ∷ 0 ∷ 0 ∷ []);
  signature = 9 ∷ [];
  randomizer = none;
}

register_output_logic-Redeemed_example :
    Redeemed sample (1 ∷ []) [] good_token 10000 10000 (65 ∷ []) (good_token.message ∷ [])
unfolding register_output_logic redeem compute_blind_token_message le_bytes
register_output_logic-Redeemed_example =
    register_output_logic-Redeemed sample (1 ∷ []) [] good_token 10000 10000 (65 ∷ []) refl

-- A round of two inputs in Signing.
abbrev coin_input : ℕ → Text → RegisteredInput
coin_input n utxo = record {
  utxo_str = utxo;
  change_address = 5 ∷ [];
  script_pubkey = 0 ∷ n ∷ [];
  value_sats = 20000;
  script_type = p2wpkh;
}

abbrev two_inputs : RoundStateInner
two_inputs = record {
  rsa_signing_key = [];
  rsa_signer = none;
  round_secret = 7 ∷ [];
  registered_inputs =
      (codes "1:0", coin_input 1 (codes "1:0")) ∷ (codes "2:7", coin_input 2 (codes "2:7")) ∷ [];
  redeemed_tokens = [];
  registered_outputs =
      record { address = 65 ∷ []; amount_sats = 10000 }
      ∷ record { address = 66 ∷ []; amount_sats = 10000 }
      ∷ [];
  partial_sigs = [];
}

abbrev signing_round : RoundState
signing_round = record {
  phase = signing;
  round_id = 3;
  rsa_pubkey_hash = none;
  rsa_pubkey_der = none;
  participant_count = 2;
  inner = some two_inputs;
}

abbrev session : Bytes
session = padded (7 ∷ 1 ∷ 0 ∷ 0 ∷ 0 ∷ 0 ∷ [])

abbrev try_sign : Result Failure RoundStateInner
try_sign = accept_signature sample signing_round sample_cfg coin (0 ∷ 1 ∷ []) session (codes "3")

sign_passes : is_ok try_sign ≡ true
unfolding accept_signature verify_session_token contains_key outpoint_text decimal get
    build_canonical_psbt parse_bitcoin_network participant_inputs participant_input parse_outpoint
    rsplit_colon parse_u32 participant_outputs build_coinjoin_psbt check_funds add64 round_fee_share
    script_input_vbytes script_output_vbytes generate_session_token read_digits show_digits
    parse_address_to_script position parse_ecdsa_sig prevouts_of sig_and_key split_taproot_sig
    verify_input_signature verify_p2sh_p2wpkh verify_p2tr verify_p2wpkh attach_utxos change_outputs
    coinjoin_tx create_psbt estimated_vsize input_vbytes insert_ordered sort_inputs insert mul64
    sub64 sum64 le_bytes
sign_passes = refl

accept_signature-Accepted_example :
    Accepted sample signing_round sample_cfg coin
      (0 ∷ 1 ∷ [])
      session
      (codes "3")
      (value_or two_inputs try_sign)
accept_signature-Accepted_example =
    accept_signature-Accepted sample signing_round sample_cfg coin (0 ∷ 1 ∷ []) session (codes "3")
      (ok_value two_inputs try_sign sign_passes)

abbrev blank_response : RoundTxResponse
blank_response = record {
  round_id = 0;
  psbt = [];
  fee_total_sats = 0;
  fee_per_participant_sats = 0;
}

accepted-bound_example :
    (address pk_bytes pubkey : Bytes) × (sample.address_from_script signet (0 ∷ 1 ∷ [])
      ≡ some address)
    × (sample.bip322_verify_simple address (codes "hello") plain_proof.witness_stack ≡ true)
    × (get_elem? plain_proof.witness_stack 1 ≡ some pk_bytes)
    × (sample.public_key_from_slice pk_bytes ≡ some (pubkey, true))
    × (sample.is_related_to_pubkey address pubkey ≡ true)
unfolding verify_simple
accepted-bound_example =
    accepted-bound sample (0 ∷ 1 ∷ []) (codes "hello") plain_proof.witness_stack signet p2wpkh refl
      refl
