-- ===== src/Client/Round/Register/Accepted.antt =====
-- The coordinator accepts the proof that a client sends, from client/src/round/input.rs to
-- coordinator/src/bitcoin/utxo.rs.
use blindjoin.Prelude.{ℕ, ◌≡◌, ◌⊎◌, inl, inr, true, false, Option, none, some, ok, refl, sym}
use blindjoin.Prelude.Eq.{Bytes, Text, nat_eq}
use blindjoin.External.{External, Network, OutPoint, Witness, PsbtCreation, PsbtText}
use blindjoin.External.Keys.{Keys}
use blindjoin.Shared.Script.{
  ScriptType, p2wpkh, script_type_eq, script_type_beq_iff, detect_script_type,
}
use blindjoin.Shared.Ownership.{
  OwnershipProof, WireJson, WireText, from_json_hex_str, to_json_hex_str,
}
use blindjoin.Shared.Ownership.RoundTrip.{JsonText, HexText, from_json-to_json}
use blindjoin.Shared.Sign.Laws.{script_of, Signatures, Scripts, Bip322Crate}
use blindjoin.Shared.Sign.Verifies.{sign_simple-verifies}
use blindjoin.Shared.Verify.{verify_simple}
use blindjoin.Coordinator.Config.{BipConfig, allows}
use blindjoin.Coordinator.Utxo.{
  decode_psbt_input_witness, dispatch_ownership_proof, ownership_message,
}
use blindjoin.Client.Wallet.{ClientWallet}
use blindjoin.Client.Wallet.Proof.{Bip322SignedProof, signed_proof, script_sig_for, sign_bip322}
use blindjoin.Client.Wallet.Create.{Bdk}
use blindjoin.Client.Wallet.Create.Sound.{Sound, Created, Created-Sound}
use blindjoin.Client.Round.Input.Envelope.{envelope, envelope-decodes}
use blindjoin.Client.Round.Register.{bip322_message, ownership_proof_of, prove_ownership}
use blindjoin.Coordinator.Round.OutPoints.{outpoint_text}

-- The wallet holds a key: that of a WIF, or that of its first address.
abbrev pub HoldsKey : ClientWallet → Type 0
HoldsKey w =
    ((wif : Text) × (w.wif_key ≡ some wif))
    ⊎ ((sk : Bytes) × (w.wif_key ≡ none) × (w.external_leaf_sk ≡ some sk))

module _ (x : External) (k : Keys) (network : Network) (signatures : Signatures x k)
    (scripts : Scripts x k network) (crate : Bip322Crate x k network scripts) where
  -- The proof of a wallet that holds a key is signed, and verifies for its output.
  abbrev Proves : ClientWallet → Bytes → Type 0
  Proves w message =
      (p : Bip322SignedProof) × (sign_bip322 x k w message ≡ ok p)
      × (p.script_type ≡ w.script_type)
      × (verify_simple x w.script_type w.utxo_script_pubkey p.witness message network ≡ ok tt)
      × ((sk : Bytes) × (w.utxo_script_pubkey ≡ script_of x k w.script_type sk))

  wif-Proves :
      (w : ClientWallet) (message : Bytes) {wif : Text}
      → Sound x k w
      → w.wif_key ≡ some wif
      → Proves w message
  unfolding sign_bip322
  wif-Proves w message {wif} sound held =
      let (sk, read, pays, type) = sound.wif wif held in
      let (witness, signed, verified) =
        sign_simple-verifies x k network signatures scripts crate p2wpkh sk message in
      (
        signed_proof witness none p2wpkh,
        rw (held, read, pays, signed) refl,
        sym type,
        rw (type, pays) verified,
        (sk, rw type pays),
      )

  leaf-Proves :
      (w : ClientWallet) (message : Bytes) {sk : Bytes}
      → Sound x k w
      → w.wif_key ≡ none
      → w.external_leaf_sk ≡ some sk
      → Proves w message
  unfolding sign_bip322
  leaf-Proves w message {sk} sound without held =
      let pays = sound.leaf sk held in
      let (witness, signed, verified) =
        sign_simple-verifies x k network signatures scripts crate w.script_type sk message in
      (
        signed_proof witness (script_sig_for x w.script_type (k.public_key sk)) w.script_type,
        rw (without, held, pays, signed) refl,
        refl,
        rw pays verified,
        (sk, pays),
      )

  holds-Proves : (w : ClientWallet) (message : Bytes) → Sound x k w → HoldsKey w → Proves w message
  holds-Proves w message sound (inl (wif, held)) = wif-Proves w message sound held
  holds-Proves w message sound (inr (sk, without, held)) = leaf-Proves w message sound without held

  module _ (bip : BipConfig) where
    -- A proof of version 2 whose witness decodes and verifies.
    v2-accepted :
        (spk : Bytes) (st : ScriptType) (sk message : Bytes) (stack : Witness) (b64 : Text)
        (witness : Witness)
        → spk ≡ script_of x k st sk
        → allows bip st ≡ true
        → decode_psbt_input_witness x b64 ≡ ok witness
        → verify_simple x st spk witness message network ≡ ok tt
        → dispatch_ownership_proof x spk
            (record {
              version = 2;
              witness_stack = stack;
              psbt_input_b64 = some b64;
              script_type = some st;
            })
            network
            bip
            message
          ≡ ok st
    unfolding dispatch_ownership_proof
    v2-accepted spk st sk message stack b64 witness pays allowed decoded verified =
        let detected : detect_script_type x spk ≡ ok st = rw pays (scripts.detects st sk) in
        let same = (script_type_beq_iff st st).1 refl in
        rw (decoded, detected, same, allowed, verified) refl

    -- The client and the coordinator name the round and the outpoint in the same way.
    same_message :
        (id : ℕ) (o : OutPoint)
        → bip322_message x (some id) o ≡ ownership_message x (x.uuid_text id) o
    unfolding bip322_message ownership_message outpoint_text
    same_message id o = refl

    -- A wallet that one of the constructors has made and that holds a key, that of a WIF or that of its first
    -- address, of a type that the coordinator allows, always makes a proof for a round in the newer envelope; the coordinator reads the proof from the
    -- text that is sent, and accepts it for the wallet's output and the message of that round, as of the
    -- wallet's type.
    pub proof-accepted :
        PsbtCreation x
        → ((witness : Witness) (sig : Option Bytes) → PsbtText x (envelope witness sig))
        → HexText x
        → (json : WireJson) (wire : WireText) → JsonText json wire
        → (bdk : Bdk) (w : ClientWallet) (id : ℕ) → Created x k bdk w
        → HoldsKey w
        → allows bip w.script_type ≡ true
        → (text : Text) × (proof : OwnershipProof) × (prove_ownership x k wire w false
              (bip322_message x (some id) w.utxo_outpoint)
            ≡ ok text)
          × (from_json_hex_str x json text ≡ some proof)
          × (dispatch_ownership_proof x w.utxo_script_pubkey proof network bip
                (ownership_message x (x.uuid_text id) w.utxo_outpoint)
              ≡ ok w.script_type)
    unfolding prove_ownership ownership_proof_of
    proof-accepted creation texts hex json wire laws bdk w id created held allowed =
        let message = ownership_message x (x.uuid_text id) w.utxo_outpoint in
        let (p, signed, type, verified, (sk, pays)) =
          holds-Proves w message (Created-Sound x k bdk created) held in
        let (b64, built, decoded) =
          envelope-decodes x creation p.witness p.final_script_sig
            (texts p.witness p.final_script_sig) in
        let proof : OwnershipProof = record {
          version = 2;
          witness_stack = p.witness_stack;
          psbt_input_b64 = some b64;
          script_type = some w.script_type;
        } in
        (
          to_json_hex_str x wire proof,
          proof,
          rw (same_message id w.utxo_outpoint, signed, built, type) refl,
          from_json-to_json x json wire hex laws proof,
          v2-accepted w.utxo_script_pubkey w.script_type sk message p.witness_stack b64 p.witness
              pays allowed decoded verified,
        )
