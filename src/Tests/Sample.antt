-- ===== src/Tests/Sample.antt =====
-- Small stand-ins for the functions of other crates, and a configuration.
use blindjoin.Prelude.{
  ℕ, ◌+◌, ◌-◌, ◌≡◌, refl, Bool, true, false, Option, none, some, [], ◌∷◌, ◌++◌, map, take, arith,
  leb, ltb, ◌==◌, if◌then◌else◌,
}
use blindjoin.Prelude.Eq.{Bytes, Text, codes}
use blindjoin.External.{
  External, OutPoint, Transaction, Psbt, blank_input, OutPointOrder, PsbtCreation, TxidText,
}
use blindjoin.Shared.Script.{p2wpkh}
use blindjoin.Coordinator.Config.Defaults.{default_discovery}
use blindjoin.Coordinator.Config.{CoordinatorConfig, CoordinatorSection, BipConfig}

abbrev pub leads_with : ℕ → Bytes → Bool
leads_with n [] = false
leads_with n (b ∷ bs) = b == n

-- Thirty-two bytes that begin with the text.
abbrev pub padded : Bytes → Bytes
padded b = take 32 (
    b
    ++ 0 ∷ 0 ∷ 0 ∷ 0 ∷ 0 ∷ 0 ∷ 0 ∷ 0 ∷ 0 ∷ 0 ∷ 0 ∷ 0 ∷ 0 ∷ 0 ∷ 0 ∷ 0 ∷ 0 ∷ 0 ∷ 0 ∷ 0 ∷ 0 ∷ 0 ∷ 0 ∷ 0
      ∷ 0 ∷ 0 ∷ 0 ∷ 0 ∷ 0 ∷ 0 ∷ 0 ∷ 0 ∷ [])

-- A transaction identifier is one character.
abbrev pub one_char : Text → Option ℕ
one_char [] = none
one_char (c ∷ []) = some (c - 48)
one_char (c ∷ d ∷ cs) = none

abbrev pub before : OutPoint → OutPoint → Bool
before a b = if a.txid == b.txid then leb a.vout b.vout else ltb a.txid b.txid

abbrev pub address_of : Text → Option Bytes
address_of [] = none
address_of (c ∷ cs) = some (c ∷ cs)

abbrev pub blank_psbt : Transaction → Psbt
blank_psbt tx = record { unsigned_tx = tx; inputs = map blank_input tx.input }

-- A signature is accepted when it repeats the script of the key.
abbrev pub sample : External
sample = record {
  txid_text = λ t. (48 + t) ∷ [];
  parse_txid = one_char;
  txid_bytes = λ t. t ∷ [];
  outpoint_leb = before;
  address_script = λ n a. address_of a;
  is_p2wpkh = leads_with 0;
  is_p2tr = leads_with 81;
  is_p2sh = leads_with 169;
  from_unsigned_tx = λ tx. some (blank_psbt tx);
  extract_tx = λ p. some p.unsigned_tx;
  serialize_hex = λ tx. codes "tx";
  decode_witness = λ b. some ((b ++ 1 ∷ []) ∷ b ∷ []);
  encode_witness = λ w. [];
  decode_pubkey = some;
  decode_der = some;
  decode_schnorr = some;
  decode_xonly = some;
  new_p2wpkh = λ k. k;
  new_p2sh = λ r. 169 ∷ r;
  hash160 = λ b. b;
  p2wpkh_sighash = λ tx i spk v. some (i ∷ spk);
  taproot_sighash = λ tx i os t. some (i ∷ []);
  verify_ecdsa = λ m s k. true;
  verify_schnorr = λ m s k. true;
  address_from_script = λ n spk. some spk;
  is_related_to_pubkey = λ a k. true;
  public_key_from_slice = λ k. some (k, true);
  bip322_verify_simple = λ a m w. true;
  b64_encode = λ b. b;
  b64_decode = some;
  hex_decode = some;
  deserialize_psbt = λ b. none;
  serialize_psbt = λ p. codes "psbt";
  uuid_text = λ n. (48 + n) ∷ [];
  sha256 = padded;
  hmac_sha256 = λ k m. padded (k ++ m);
  hex_encode = λ b. b;
  blind_sign = λ k m. some m;
  verify_blind = λ k s r m. true;
  secret_to_der = some;
  to_spki = some;
}

pub sample_txids : TxidText sample
sample_txids = record { read = λ t. ap_some (omega arith) }
  where
    ap_some : {m n : ℕ} → m ≡ n → some m ≡ some n
    ap_some h = cc

pub sample_creation : PsbtCreation sample
sample_creation = record { created = λ tx u. refl }

pub sample_order : OutPointOrder sample
sample_order = record {
  total = λ a b. ground arith;
  trans = λ a b c h k. ground arith;
  antisym = λ a b h k. ground arith;
}

-- Every script type is allowed; two or three participants.
abbrev pub open_bip : BipConfig
open_bip = record {
  allow_p2wpkh = true;
  allow_p2tr = true;
  allow_p2sh_p2wpkh = true;
  output_script_type = p2wpkh;
}

abbrev pub small_rounds : CoordinatorSection
small_rounds = record {
  denomination_sats = 10000;
  min_participants = 2;
  max_participants = 2;
  round_timeout_input_reg_secs = 60;
  round_timeout_output_reg_secs = 60;
  round_timeout_signing_secs = 60;
  blame_ban_duration_secs = 3600;
  fee_rate_sat_per_vbyte = 1;
  listen_addr = [];
  ban_file_path = [];
  rate_limit_info_per_min = 60;
  rate_limit_writes_per_min = 60;
  request_timeout_secs = 30;
  max_concurrent_connections = 10;
  tor_mode = true;
  blame_full_abort_backoff_secs = 600;
}

abbrev pub sample_cfg : CoordinatorConfig
sample_cfg = record {
  network = record {
    bitcoin_network = codes "signet";
    bitcoin_rpc_url = [];
    bitcoin_rpc_user = [];
    bitcoin_rpc_pass = [];
  };
  coordinator = small_rounds;
  discovery = default_discovery;
  bip = open_bip;
}
