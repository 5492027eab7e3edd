-- ===== src/Tests/Clients.antt =====
-- Runs of the client against small PSBTs.
use blindjoin.Prelude.{
  add64, sum64, ℕ, ◌≡◌, ◌⊎◌, ◌&&◌, refl, false, some, none, Option, [], ◌∷◌, ok, get_elem?,
}
use blindjoin.Prelude.Eq.{Bytes, Text, codes, nat_eq, bytes_eq}
use blindjoin.External.{
  External, PsbtCreation, PsbtText, Witness, regtest, TxIn, TxOut, PsbtInput, Psbt,
}
use blindjoin.Shared.Script.{p2wpkh}
use blindjoin.Coordinator.Round.Signing.{position}
use blindjoin.Coordinator.Round.OutPoints.{show_digits, outpoint_text, decimal}
use blindjoin.Coordinator.Api.Tx.{RoundTxResponse}
use blindjoin.Client.Wallet.{
  ClientWallet, is_none, guard_indices, set_witness, marked, own_witness, sign_psbt_input,
}
use blindjoin.Client.Wallet.Guard.{marked-elem}
use blindjoin.Client.Round.{InputRegState}
use blindjoin.Client.Round.Output.{output_request}
use blindjoin.Client.Round.Output.SameKey.{token_of, request-decodes}
use blindjoin.Coordinator.Round.State.{RoundState, output_reg}
use blindjoin.Coordinator.Api.{InfoResponse}
use blindjoin.Coordinator.Api.Output.{OutputRegRequest, decode_token}
use blindjoin.Client.Round.Input.Envelope.{envelope}
use blindjoin.Client.Round.Sign.{
  verify_own_denomination_output, verify_anonymity_floor, verify_fee_within_cap, own_input_value,
  our_received_value, fee_cap_of, verify_psbt, verify_and_sign,
}
use blindjoin.Client.Round.Sign.Protected.{Protected, verify_and_sign-Protected}
use blindjoin.Tests.Sample.{sample, padded}

abbrev blank : ℕ → PsbtInput
blank v = record {
  witness_utxo = some (record { value = v; script_pubkey = 0 ∷ v ∷ [] });
  final_script_sig = none;
  final_script_witness = none;
  partial_sigs = [];
  tap_key_sig = none;
}

abbrev spend : ℕ → TxIn
spend t = record {
  previous_output = record { txid = t; vout = 0 };
  script_sig = [];
  sequence = 0;
  witness = [];
}

abbrev pay : ℕ → ℕ → TxOut
pay s v = record { value = v; script_pubkey = 0 ∷ s ∷ [] }

-- Two inputs of 150 and 130, two denomination outputs of 100, and change.
abbrev pub offered : Psbt
offered = record {
  unsigned_tx = record {
    version = 2;
    lock_time = 0;
    input = spend 1 ∷ spend 2 ∷ [];
    output = pay 7 100 ∷ pay 8 100 ∷ pay 9 45 ∷ pay 6 25 ∷ [];
  };
  inputs = blank 150 ∷ blank 130 ∷ [];
}

-- A signer that signs each input that is not marked.
abbrev sign_input : PsbtInput → PsbtInput
sign_input p = record p { partial_sigs = (1 ∷ [], 2 ∷ []) ∷ [] }

abbrev pub signer : Psbt → Option Psbt
signer p = elim p.inputs [ [] ↦ none | i ∷ is ↦ some (record p { inputs = sign_input i ∷ is }) ]

abbrev purse : ClientWallet
purse = record {
  network = regtest;
  utxo_outpoint = record { txid = 1; vout = 0 };
  utxo_script_pubkey = 0 ∷ 150 ∷ [];
  wif_key = none;
  external_leaf_sk = none;
  script_type = p2wpkh;
  inner = record {
    sign = signer;
    external_script = 0 ∷ 7 ∷ [];
    external_address = 6 ∷ [];
    internal_script = 0 ∷ 9 ∷ [];
    internal_address = 5 ∷ [];
  };
}

abbrev joined : InputRegState
joined = record {
  round_id = 4;
  session_token = 5 ∷ [];
  blinding_secret = [];
  msg_randomizer = none;
  message_bytes = [];
  output_script = 0 ∷ 7 ∷ [];
  unblinded_sig = [];
  pk_hash_at_registration = [];
  denomination_sats = 100;
}

abbrev reading : External
reading = record sample { deserialize_psbt = λ b. some offered }

abbrev answered : RoundTxResponse
answered = record { round_id = 4; psbt = []; fee_total_sats = 10; fee_per_participant_sats = 5 }

verify_and_sign-Protected_example :
    (psbt_bytes : Bytes) × (psbt : Psbt) × (after : Psbt) × (partial_sig : Bytes)
    × (reading.b64_decode [] ≡ some psbt_bytes)
    × (reading.deserialize_psbt psbt_bytes ≡ some psbt)
    × Protected purse joined 2 (fee_cap_of none 100) psbt
    × (sign_psbt_input reading purse psbt ≡ ok (after, partial_sig))
    × (codes "1:0" ≡ outpoint_text reading purse.utxo_outpoint)
    × (4 ≡ joined.round_id)
    × ([] ≡ reading.b64_encode partial_sig)
unfolding verify_and_sign verify_psbt verify_own_denomination_output verify_anonymity_floor
    own_input_value position verify_fee_within_cap our_received_value sum64 add64 sign_psbt_input
    marked set_witness guard_indices own_witness outpoint_text decimal show_digits
verify_and_sign-Protected_example =
    verify_and_sign-Protected reading purse joined 2 none answered
      {req = record {
        round_id = 4;
        utxo_outpoint = codes "1:0";
        partial_signature = [];
        session_token = 5 ∷ [];
      }}
      refl

abbrev own_index : ℕ
own_index = 0

abbrev other_index : ℕ
other_index = 1

abbrev skipped : PsbtInput
skipped = record (blank 130) { final_script_witness = some [] }

marked-elem_example :
    ((other_index ≡ own_index) × (get_elem? offered.inputs other_index ≡ some skipped))
    ⊎ ((is_none skipped.final_script_sig && is_none skipped.final_script_witness) ≡ false)
unfolding marked set_witness guard_indices
marked-elem_example = marked-elem own_index other_index offered {q = skipped} refl

abbrev proof : Witness
proof = (1 ∷ []) ∷ (2 ∷ []) ∷ []

abbrev enveloping : External
enveloping = record sample { deserialize_psbt = λ b. some (envelope proof none) }

enveloping_creation : PsbtCreation enveloping
enveloping_creation = record { created = λ tx u. refl }

enveloping_text : PsbtText enveloping (envelope proof none)
enveloping_text = record { base64 = λ b. refl; psbt = refl }

abbrev thirty_two : Bytes
thirty_two = padded (7 ∷ [])

abbrev key_der : Bytes
key_der = 3 ∷ 1 ∷ []

abbrev registered : InputRegState
registered = record joined {
  message_bytes = thirty_two;
  unblinded_sig = 2 ∷ [];
  msg_randomizer = some thirty_two;
  pk_hash_at_registration = padded key_der;
}

abbrev advertised : InfoResponse
advertised = record {
  network = codes "regtest";
  denomination_sats = 100;
  min_participants = 2;
  max_participants = 3;
  round_state = codes "OutputReg";
  participants_registered = 2;
  rsa_pubkey_hash = none;
  rsa_pubkey_der_b64 = some key_der;
  round_id = some 4;
  supported_script_types = p2wpkh ∷ [];
  output_script_type = p2wpkh;
}

abbrev collecting : RoundState
collecting = record {
  phase = output_reg;
  round_id = 4;
  rsa_pubkey_hash = none;
  rsa_pubkey_der = none;
  participant_count = 2;
  inner = none;
}

abbrev asked : OutputRegRequest
asked = record {
  unblinded_token = thirty_two;
  signature = 2 ∷ [];
  output_address = codes "a";
  amount_sats = 100;
  msg_randomizer = some thirty_two;
}

request-decodes_example :
    (decode_token sample collecting asked ≡ ok (token_of registered))
    × (b64 : Text) × (der : Bytes) × (advertised.rsa_pubkey_der_b64 ≡ some b64)
    × (sample.b64_decode b64 ≡ some der)
    × (sample.sha256 der ≡ registered.pk_hash_at_registration)
unfolding output_request
request-decodes_example =
    request-decodes sample (λ b. refl) registered advertised (codes "a") collecting {req = asked}
      refl refl refl refl
