-- ===== src/Coordinator/Round/Manager.antt =====
-- coordinator/src/round/manager.rs: starting a round, and session tokens.
use blindjoin.Prelude.{
  ℕ, Bool, Option, none, some, [], ◌++◌, Result, ok, ◌>>=◌, ◌>>◌, ok_or, ensure, map_err,
}
use blindjoin.Prelude.Eq.{Bytes, ◌==◌, bytes_eq}
use blindjoin.External.{External, OutPoint}
use blindjoin.Shared.Token.{le_bytes}
use blindjoin.Coordinator.Round.State.{
  Phase, idle, input_reg, RsaBlindSigner, RoundStateInner, RoundState, TransitionError, phase_beq,
  transition_to,
}

pub record RoundMaterial : Type 0 where
  pub signer : RsaBlindSigner
  pub sk_der : Bytes
  pub pk_der : Bytes
  pub pk_hash : Bytes
  pub round_secret : Bytes

-- `panicked` is the `expect` of `public_key_hash`.
pub data StartRoundError : Type 0 where
  key_gen key_serialize panicked : StartRoundError
  wrong_phase : Phase → StartRoundError
  transition : TransitionError → StartRoundError

module _ (x : External) where
  -- The SHA-256 of the SPKI encoding; `none` is a panic.
  unfoldable pub public_key_hash : RsaBlindSigner → Option Bytes
  public_key_hash signer = elim (x.to_spki signer.public_key) [
    | none ↦ none
    | some spki ↦ some (x.sha256 spki)
  ]

  -- `generated` is what `RsaBlindSigner::generate` returned, `secret` what the generator drew.
  unfoldable pub generate_round_material :
      Option RsaBlindSigner → Bytes → Result StartRoundError RoundMaterial
  unfolding public_key_hash
  generate_round_material generated secret = do
    signer ← ok_or generated key_gen
    sk_der ← ok_or (x.secret_to_der signer.secret_key) key_serialize
    pk_der ← ok_or (x.to_spki signer.public_key) key_serialize
    pk_hash ← ok_or (public_key_hash signer) panicked
    ok (record {
      signer = signer;
      sk_der = sk_der;
      pk_der = pk_der;
      pk_hash = pk_hash;
      round_secret = secret;
    })

  unfoldable pub generate_session_token : Bytes → OutPoint → Bytes
  unfolding le_bytes
  generate_session_token round_secret utxo =
      x.hmac_sha256 round_secret (x.txid_bytes utxo.txid ++ le_bytes 4 utxo.vout)

  unfoldable pub verify_session_token : Bytes → OutPoint → Bytes → Bool
  unfolding generate_session_token
  verify_session_token round_secret utxo token = generate_session_token round_secret utxo == token

-- The state of a round that has just got its key.
unfoldable pub fresh_inner : RoundMaterial → RoundStateInner
fresh_inner m = record {
  rsa_signing_key = m.sk_der;
  rsa_signer = some m.signer;
  round_secret = m.round_secret;
  registered_inputs = [];
  redeemed_tokens = [];
  registered_outputs = [];
  partial_sigs = [];
}

unfoldable pub install_round : ℕ → RoundState → RoundMaterial → Result StartRoundError RoundState
unfolding fresh_inner transition_to
install_round fresh s m = do
  ensure (phase_beq s.phase idle) (wrong_phase s.phase)
  map_err transition (
      transition_to fresh
        (record s {
          rsa_pubkey_der = some m.pk_der;
          rsa_pubkey_hash = some m.pk_hash;
          inner = some (fresh_inner m);
        })
        input_reg)

unfoldable pub start_round :
    External → ℕ → RoundState → Option RsaBlindSigner → Bytes → Result StartRoundError RoundState
unfolding generate_round_material install_round
start_round x fresh s generated secret = do
  ensure (phase_beq s.phase idle) (wrong_phase s.phase)
  m ← generate_round_material x generated secret
  install_round fresh s m
