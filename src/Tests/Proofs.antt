-- ===== src/Tests/Proofs.antt =====
-- A wallet registers its input with the coordinator.
use blindjoin.Shared.Sign.{sign_simple}
use blindjoin.Client.Wallet.Proof.{sign_bip322}
use blindjoin.Prelude.{◌≡◌, refl, true, false, Option, none, some, [], ◌∷◌, ok, inl}
use blindjoin.Prelude.Eq.{Bytes, Text, codes, nat_eq, bytes_eq}
use blindjoin.External.{regtest}
use blindjoin.External.Keys.{Keys}
use blindjoin.External.Blind.{Blind, BlindingResult}
use blindjoin.Shared.Token.{compute_blind_token_message}
use blindjoin.Coordinator.Api.{InfoResponse}
use blindjoin.Coordinator.Api.Input.{InputRegRequest, InputRegResponse}
use blindjoin.Client.Round.{InputRegState}
use blindjoin.Client.Round.Register.Commitment.{
  Finalizes, Committed, Redeemable, registered-Redeemable,
}
use blindjoin.Shared.Script.{ScriptType, p2wpkh, p2tr, p2sh_p2wpkh, detect_script_type}
use blindjoin.Shared.Ownership.{OwnershipProof, from_json_hex_str}
use blindjoin.Shared.Ownership.RoundTrip.{HexText}
use blindjoin.Shared.Sign.Laws.{script_of, Signatures, Scripts, Bip322Crate}
use blindjoin.Prelude.Strings.{split_once}
use blindjoin.Coordinator.Round.OutPoints.{parse_u32}
use blindjoin.Coordinator.Config.{allows}
use blindjoin.Coordinator.Utxo.{dispatch_ownership_proof, ownership_message}
use blindjoin.Client.Wallet.{Wallet, ClientWallet}
use blindjoin.Client.Wallet.Create.{Bdk, client_outpoint, from_wif}
use blindjoin.Client.Wallet.Create.Sound.{Created, by_wif}
use blindjoin.Client.Round.Register.{RoundKey, bip322_message, prove_ownership, register_input}
use blindjoin.Client.Round.Register.Accepted.{proof-accepted}
use blindjoin.Tests.Sample.{open_bip, padded}
use blindjoin.Tests.Codec.{wired, wired_creation, wired_text, wired_json, wired_wire, wired_laws}

-- A public key is the secret key behind a zero.
abbrev pub keys : Keys
keys = record {
  public_key = λ key. 0 ∷ key;
  sign_ecdsa = λ m key. m;
  sign_ecdsa_with_noncedata = λ m key e. e;
  serialize_der = λ s. s;
  tweaked_xonly = λ key. key;
  new_p2tr_tweaked = λ key. 81 ∷ key;
  sign_schnorr_no_aux_rand = λ m key. m;
  compute_txid = λ tx. 3;
  from_wif = some;
  derive_priv = λ key path. some key;
}

sample-Signatures : Signatures wired keys
sample-Signatures = record {
  ecdsa = λ m key. refl;
  ecdsa_noncedata = λ m key e. refl;
  schnorr = λ m key. refl;
}

detects :
    (st : ScriptType) (key : Bytes) → detect_script_type wired (script_of wired keys st key) ≡ ok st
unfolding detect_script_type
detects p2wpkh key = refl
detects p2tr key = refl
detects p2sh_p2wpkh key = refl

abbrev sample_scripts : Scripts wired keys regtest
sample_scripts = record {
  detects = detects;
  address = script_of wired keys;
  from_script = λ st key. refl;
  taproot = λ key. refl;
  compressed = λ key. refl;
  related = λ key. refl;
  related_wrapped = λ key. refl;
  sighash = λ spk message code. 0 ∷ code;
  sighashes = λ spk message code. refl;
  taproot_digest = λ spk message. 0 ∷ [];
  taproot_sighashes = λ spk message. refl;
}

sample_crate : Bip322Crate wired keys regtest sample_scripts
sample_crate = record {
  ecdsa = λ key message sig h. refl;
  wrapped = λ key message sig h. refl;
  schnorr = λ key message sig h. refl;
}

sample_hex : HexText wired
sample_hex = record { read = λ b. refl }

abbrev pub plain : Wallet
plain = record {
  sign = some;
  external_script = 7 ∷ [];
  external_address = 6 ∷ [];
  internal_script = 9 ∷ [];
  internal_address = 5 ∷ [];
}

abbrev pub bdk : Bdk
bdk = record { create = λ d i n. some plain; create_single = λ d n. some plain }

abbrev pub purse : ClientWallet
purse = record {
  network = regtest;
  utxo_outpoint = record { txid = 1; vout = 0 };
  utxo_script_pubkey = 0 ∷ 8 ∷ [];
  wif_key = some (8 ∷ []);
  external_leaf_sk = none;
  script_type = p2wpkh;
  inner = plain;
}

purse-Created : Created wired keys bdk purse
unfolding from_wif client_outpoint split_once parse_u32
purse-Created = by_wif (8 ∷ []) (codes "1:0") regtest refl

proof-accepted_example :
    (text : Text) × (proof : OwnershipProof) × (prove_ownership wired keys wired_wire purse false
        (bip322_message wired (some 4) purse.utxo_outpoint)
      ≡ ok text)
    × (from_json_hex_str wired wired_json text ≡ some proof)
    × (dispatch_ownership_proof wired
          (0 ∷ 8 ∷ [])
          proof
          regtest
          open_bip
          (ownership_message wired (wired.uuid_text 4) purse.utxo_outpoint)
        ≡ ok p2wpkh)
unfolding allows
proof-accepted_example =
    proof-accepted wired keys regtest sample-Signatures sample_scripts sample_crate open_bip
      wired_creation wired_text sample_hex wired_json wired_wire wired_laws bdk purse 4
      purse-Created (inl (8 ∷ [], refl)) refl

abbrev blinding : BlindingResult
blinding = record { blind_message = 6 ∷ []; secret = 2 ∷ []; msg_randomizer = none }

abbrev pub blind : Blind
blind = record {
  from_spki = some;
  blind = λ pk m rng. some blinding;
  finalize = λ pk sig r m. some sig;
}

pub sample-Finalizes : Finalizes wired blind
sample-Finalizes = record { verified = λ pk blind_sig m sig r h. refl }

abbrev pub info : InfoResponse
info = record {
  network = codes "regtest";
  denomination_sats = 100;
  min_participants = 2;
  max_participants = 2;
  round_state = codes "input_reg";
  participants_registered = 0;
  rsa_pubkey_hash = some (padded (1 ∷ []));
  rsa_pubkey_der_b64 = some (1 ∷ []);
  round_id = some 4;
  supported_script_types = p2wpkh ∷ [];
  output_script_type = p2wpkh;
}

abbrev pub accept : InputRegRequest → Option InputRegResponse
accept r = some (record { blind_signature = 3 ∷ []; round_id = 4; session_token = 5 ∷ [] })

abbrev joined : InputRegState
joined = record {
  round_id = 4;
  session_token = 5 ∷ [];
  blinding_secret = 2 ∷ [];
  msg_randomizer = none;
  message_bytes = compute_blind_token_message wired (7 ∷ []) 100;
  output_script = 7 ∷ [];
  unblinded_sig = 3 ∷ [];
  pk_hash_at_registration = padded (1 ∷ []);
  denomination_sats = 100;
}

registered : register_input wired keys wired_wire blind [] accept purse info true ≡ ok joined
unfolding register_input sign_bip322 sign_simple
registered = refl

registered-Redeemable_example :
    (key : RoundKey) × Committed wired blind info key
    × (padded (1 ∷ []) ≡ key.pk_hash)
    × (7 ∷ [] ≡ plain.external_script)
    × (100 ≡ info.denomination_sats)
    × Redeemable wired key.pk joined
registered-Redeemable_example =
    registered-Redeemable wired blind sample-Finalizes keys wired_wire [] accept purse info true
      registered
