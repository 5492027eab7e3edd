-- ===== src/Client/Round/Register.antt =====
-- `register_input` of client/src/round/input.rs.
pub mod Accepted
pub mod Commitment
use blindjoin.Prelude.{
  ℕ, Bool, true, false, Option, none, some, [], ◌∷◌, ◌++◌, Result, ok, err, ◌>>=◌, ◌>>◌, ok_or,
  ensure,
}
use blindjoin.Prelude.Eq.{Bytes, Text, codes, ◌==◌, bytes_eq}
use blindjoin.External.{External, OutPoint}
use blindjoin.External.Keys.{Keys}
use blindjoin.External.Blind.{Blind, BlindingResult}
use blindjoin.Shared.Ownership.{OwnershipProof, WireText, to_json_hex_str}
use blindjoin.Shared.Token.{compute_blind_token_message}
use blindjoin.Coordinator.Round.OutPoints.{decimal}
use blindjoin.Coordinator.Api.{InfoResponse}
use blindjoin.Coordinator.Api.Input.{InputRegRequest, InputRegResponse}
use blindjoin.Client.Wallet.{
  ClientWallet, ClientError, bad_base64, bad_psbt, no_key_announced, bad_hash, key_mismatch,
  bad_key, blinding_failed, request_failed, finalization_failed,
}
use blindjoin.Client.Wallet.Proof.{Bip322SignedProof, sign_bip322}
use blindjoin.Client.Round.{InputRegState}
use blindjoin.Client.Round.Input.{build_v2_psbt_input_b64}

-- The coordinator's key and its hash.
pub record RoundKey : Type 0 where
  pub pk : Bytes
  pub pk_hash : Bytes

-- `info.round_id.map(|id| id.to_string()).unwrap_or_default()`
abbrev pub round_id_str : External → Option ℕ → Text
round_id_str x none = []
round_id_str x (some id) = x.uuid_text id

module _ (x : External) where
  -- The announced key has the announced hash.
  unfoldable pub check_round_key : Blind → InfoResponse → Result ClientError RoundKey
  check_round_key b info = do
    pk_der_b64 ← ok_or info.rsa_pubkey_der_b64 no_key_announced
    pk_der ← ok_or (x.b64_decode pk_der_b64) bad_base64
    let pk_hash_actual = x.sha256 pk_der
    announced_hash ← ok_or info.rsa_pubkey_hash no_key_announced
    announced_bytes ← ok_or (x.hex_decode announced_hash) bad_hash
    ensure (announced_bytes == pk_hash_actual) key_mismatch
    pk ← ok_or (b.from_spki pk_der) bad_key
    ok (record { pk = pk; pk_hash = pk_hash_actual })

  -- `format!("blindjoin:round:{}:utxo:{}:{}", ..)`
  unfoldable pub bip322_message : Option ℕ → OutPoint → Bytes
  bip322_message round_id o =
      codes "blindjoin:round:"
      ++ (round_id_str x round_id
          ++ (codes ":utxo:" ++ (x.txid_text o.txid ++ (b':' ∷ decimal o.vout))))

  -- The older envelope for a coordinator of version 1.3, and the newer one for the others.
  unfoldable pub ownership_proof_of : Bool → Bip322SignedProof → Result ClientError OwnershipProof
  ownership_proof_of true signed = ok (record {
    version = 1;
    witness_stack = signed.witness_stack;
    psbt_input_b64 = none;
    script_type = none;
  })
  ownership_proof_of false signed = do
    psbt_input_b64 ←
        ok_or (build_v2_psbt_input_b64 x signed.witness signed.final_script_sig) bad_psbt
    ok (record {
      version = 2;
      witness_stack = signed.witness_stack;
      psbt_input_b64 = some psbt_input_b64;
      script_type = some signed.script_type;
    })

module _ (x : External) (k : Keys) (text : WireText) where
  -- The text of the proof that a wallet gives.
  unfoldable pub prove_ownership : ClientWallet → Bool → Bytes → Result ClientError Text
  unfolding ownership_proof_of
  prove_ownership wallet is_legacy message = do
    signed ← sign_bip322 x k wallet message
    proof ← ownership_proof_of x is_legacy signed
    ok (to_json_hex_str x text proof)

  -- The request, with what the end of the registration needs; `rng` are the bytes of the generator.
  unfoldable pub input_request :
      Blind
      → Bytes
      → ClientWallet
      → InfoResponse
      → Bool
      → Result ClientError (InputRegRequest × RoundKey × BlindingResult)
  unfolding check_round_key bip322_message prove_ownership
  input_request b rng wallet info is_legacy = do
    key ← check_round_key x b info
    let message = compute_blind_token_message x wallet.inner.external_script info.denomination_sats
    blinding ← ok_or (b.blind key.pk message rng) blinding_failed
    ownership_proof ←
        prove_ownership wallet is_legacy (bip322_message x info.round_id wallet.utxo_outpoint)
    let o = wallet.utxo_outpoint
    let request : InputRegRequest = record {
      utxo_outpoint = x.txid_text o.txid ++ (b':' ∷ decimal o.vout);
      ownership_proof = ownership_proof;
      blinded_token = x.b64_encode blinding.blind_message;
      change_address = wallet.inner.internal_address;
    }
    ok (request, key, blinding)

  -- The end: the blind signature is unblinded and verified at once.
  unfoldable pub finish_registration :
      Blind
      → ClientWallet
      → InfoResponse
      → RoundKey
      → BlindingResult
      → InputRegResponse
      → Result ClientError InputRegState
  finish_registration b wallet info key blinding resp = do
    let output_script = wallet.inner.external_script
    let message = compute_blind_token_message x output_script info.denomination_sats
    blind_sig ← ok_or (x.b64_decode resp.blind_signature) bad_base64
    sig ← ok_or (b.finalize key.pk blind_sig blinding message) finalization_failed
    session_token ← ok_or (x.b64_decode resp.session_token) bad_base64
    ok (record {
      round_id = resp.round_id;
      session_token = session_token;
      blinding_secret = blinding.secret;
      msg_randomizer = blinding.msg_randomizer;
      message_bytes = message;
      output_script = output_script;
      unblinded_sig = sig;
      pk_hash_at_registration = key.pk_hash;
      denomination_sats = info.denomination_sats;
    })

  -- `post` is the answer of the coordinator to the request, if there is one.
  unfoldable pub register_input :
      Blind
      → Bytes
      → (InputRegRequest → Option InputRegResponse)
      → ClientWallet
      → InfoResponse
      → Bool
      → Result ClientError InputRegState
  unfolding input_request finish_registration
  register_input b rng post wallet info is_legacy = do
    (request, key, blinding) ← input_request b rng wallet info is_legacy
    resp ← ok_or (post request) request_failed
    finish_registration b wallet info key blinding resp
