-- ===== src/Client/Wallet/Proof.antt =====
-- client/src/wallet.rs: the ownership proof of a wallet.
use blindjoin.Prelude.{
  Option, none, some, List, [], ◌∷◌, get_elem?, Result, ok, err, ◌>>=◌, ok_or, map_err,
}
use blindjoin.Prelude.Eq.{Bytes}
use blindjoin.External.{External, Witness, PsbtInput, Psbt}
use blindjoin.External.Keys.{Keys}
use blindjoin.Shared.Script.{ScriptType, p2wpkh, p2tr, p2sh_p2wpkh}
use blindjoin.Shared.Bip322.{p2sh_p2wpkh_final_script_sig, to_sign_of}
use blindjoin.Shared.Sign.{sign_simple}
use blindjoin.Client.Wallet.{
  ClientWallet, ClientError, bad_psbt, signing_failed, no_witness, no_script_sig, panicked,
  proof_failed,
}

pub record Bip322SignedProof : Type 0 where
  pub witness_stack : List Bytes
  pub witness : Witness
  pub final_script_sig : Option Bytes
  pub script_type : ScriptType

-- `witness_stack` repeats the elements of the witness.
abbrev pub signed_proof : Witness → Option Bytes → ScriptType → Bip322SignedProof
signed_proof witness final_script_sig script_type = record {
  witness_stack = witness;
  witness = witness;
  final_script_sig = final_script_sig;
  script_type = script_type;
}

-- The finalized witness, or one of the first partial signature.
abbrev pub ecdsa_of : PsbtInput → Option Witness
ecdsa_of input = elim input.final_script_witness [
  | some w ↦ some w
  | none ↦ elim input.partial_sigs [ [] ↦ none | (pk, sig) ∷ _ ↦ some (sig ∷ pk ∷ []) ]
]

-- The finalized witness, or one of the signature of the key path.
abbrev pub taproot_of : PsbtInput → Option Witness
taproot_of input = elim input.final_script_witness [
  | some w ↦ some w
  | none ↦ elim input.tap_key_sig [ none ↦ none | some sig ↦ some (sig ∷ []) ]
]

-- What the signer of bdk has left in the input, by the script type.
unfoldable pub extract_witness :
    ScriptType → PsbtInput → Result ClientError (Witness × Option Bytes)
extract_witness p2wpkh input = do w ← ok_or (ecdsa_of input) no_witness; ok (w, none)
extract_witness p2tr input = do w ← ok_or (taproot_of input) no_witness; ok (w, none)
extract_witness p2sh_p2wpkh input = do
  w ← ok_or input.final_script_witness no_witness
  ssig ← ok_or input.final_script_sig no_script_sig
  ok (w, some ssig)

-- `psbt.inputs[0].witness_utxo = ..`; an index out of range panics.
abbrev pub with_utxo : Bytes → Psbt → Result ClientError Psbt
with_utxo spk psbt = elim psbt.inputs [
  | [] ↦ err panicked
  | p ∷ ps ↦ ok (record psbt {
    inputs = record p { witness_utxo = some (record { value = 0; script_pubkey = spk }) } ∷ ps;
  })
]

-- The `scriptSig` beside the witness of a wrapped input.
abbrev pub script_sig_for : External → ScriptType → Bytes → Option Bytes
script_sig_for x p2sh_p2wpkh pubkey = some (p2sh_p2wpkh_final_script_sig x pubkey)
script_sig_for x p2wpkh pubkey = none
script_sig_for x p2tr pubkey = none

module _ (x : External) (k : Keys) where
  -- A key of the wallet signs.
  unfoldable pub sign_with_key :
      ClientWallet → ScriptType → Bytes → Bytes → Result ClientError Bip322SignedProof
  sign_with_key wallet script_type key message = do
    witness ←
        map_err proof_failed (sign_simple x k script_type wallet.utxo_script_pubkey key message)
    ok (signed_proof witness (script_sig_for x script_type (k.public_key key)) script_type)

  -- The signer of bdk signs the transaction of the proof.
  unfoldable pub sign_with_bdk : ClientWallet → Bytes → Result ClientError Bip322SignedProof
  unfolding extract_witness
  sign_with_bdk wallet message = do
    psbt ← ok_or (x.from_unsigned_tx (to_sign_of x k wallet.utxo_script_pubkey message)) bad_psbt
    offered ← with_utxo wallet.utxo_script_pubkey psbt
    signed ← ok_or (wallet.inner.sign offered) signing_failed
    input ← ok_or (get_elem? signed.inputs 0) panicked
    (witness, final_script_sig) ← extract_witness wallet.script_type input
    ok (signed_proof witness final_script_sig wallet.script_type)

  -- Panics for a wallet without a WIF key, and for a text that is no WIF.
  unfoldable pub secret_key_for_signing : ClientWallet → Result ClientError Bytes
  secret_key_for_signing wallet = do
    wif ← ok_or wallet.wif_key panicked
    ok_or (k.from_wif wif) panicked

  -- A WIF wallet proves with its key, as P2WPKH; a descriptor wallet with the key of its first address,
  -- when it holds that; and otherwise bdk signs.
  unfoldable pub sign_bip322 : ClientWallet → Bytes → Result ClientError Bip322SignedProof
  unfolding sign_with_key sign_with_bdk secret_key_for_signing
  sign_bip322 wallet message = elim wallet.wif_key [
    | some wif ↦ do sk ← secret_key_for_signing wallet; sign_with_key wallet p2wpkh sk message
    | none ↦ elim wallet.external_leaf_sk [
      | some leaf_sk ↦ sign_with_key wallet wallet.script_type leaf_sk message
      | none ↦ sign_with_bdk wallet message
    ]
  ]
