-- ===== src/Coordinator/SigVerify.antt =====
-- coordinator/src/bitcoin/sig_verify.rs: verification of a partial signature.
pub mod Ecdsa
pub mod Schnorr
pub mod Sound
use blindjoin.Prelude.{
  ℕ, Option, none, some, List, [], ◌∷◌, Result, ok, err, ◌>>=◌, ◌>>◌, ok_or, ensure, if◌then◌else◌,
  length, get_elem?, take, drop, split_last,
}
use blindjoin.Prelude.Eq.{Bytes, ◌==◌, nat_eq, bytes_eq}
use blindjoin.External.{External, TxOut, Witness, PsbtInput, Psbt, TapSighashType, default, all}
use blindjoin.Shared.Script.{ScriptType, p2wpkh, p2tr, p2sh_p2wpkh}

-- The kinds of failure; `panicked` is an index out of range.
pub data SigVerifyError : Type 0 where
  undecodable no_witness_utxo wrong_arity : SigVerifyError
  empty_signature not_sighash_all malformed_der bad_pubkey script_mismatch : SigVerifyError
  sighash_failed bad_taproot_sighash bad_taproot_length malformed_schnorr : SigVerifyError
  missing_prevout not_p2tr bad_xonly verification_failed panicked : SigVerifyError

abbrev pub sighash_all_byte : ℕ
sighash_all_byte = 1

-- The `witness_utxo` of every input, or none if one is missing.
unfoldable pub prevouts_of : List PsbtInput → Option (List TxOut)
prevouts_of [] = some []
prevouts_of (i ∷ is) = elim i.witness_utxo [
  | none ↦ none
  | some o ↦ elim (prevouts_of is) [ none ↦ none | some os ↦ some (o ∷ os) ]
]

-- A signature of 64 bytes implies the default sighash; one of 65 must name ALL.
unfoldable pub split_taproot_sig : Bytes → Result SigVerifyError (Bytes × TapSighashType)
split_taproot_sig sig_elem =
    if length sig_elem == 64
    then ok (sig_elem, default)
    else if length sig_elem == 65
    then (do
      flag ← ok_or (get_elem? sig_elem 64) panicked
      ensure (flag == sighash_all_byte) bad_taproot_sighash
      ok (take 64 sig_elem, all))
    else err bad_taproot_length

module _ (x : External) where
  unfoldable pub parse_ecdsa_sig : Bytes → Result SigVerifyError Bytes
  parse_ecdsa_sig sig_elem = do
    (der, flag) ← ok_or (split_last sig_elem) empty_signature
    ensure (flag == sighash_all_byte) not_sighash_all
    ok_or (x.decode_der der) malformed_der

  -- The signature and the key of a witness of two elements.
  unfoldable pub sig_and_key : Witness → Result SigVerifyError (Bytes × Bytes)
  unfolding parse_ecdsa_sig
  sig_and_key witness = do
    ensure (length witness == 2) wrong_arity
    sig_elem ← ok_or (get_elem? witness 0) panicked
    sig ← parse_ecdsa_sig sig_elem
    pubkey_bytes ← ok_or (get_elem? witness 1) panicked
    pubkey ← ok_or (x.decode_pubkey pubkey_bytes) bad_pubkey
    ok (sig, pubkey)

  unfoldable pub verify_p2wpkh : Psbt → ℕ → Witness → Bytes → ℕ → Result SigVerifyError (Unit {0})
  unfolding sig_and_key
  verify_p2wpkh psbt input_index witness spk value = do
    (sig, pubkey) ← sig_and_key witness
    ensure (x.new_p2wpkh pubkey == spk) script_mismatch
    sighash ← ok_or (x.p2wpkh_sighash psbt.unsigned_tx input_index spk value) sighash_failed
    ensure (x.verify_ecdsa sighash sig pubkey) verification_failed

  unfoldable pub verify_p2sh_p2wpkh :
      Psbt → ℕ → Witness → Bytes → ℕ → Result SigVerifyError (Unit {0})
  unfolding sig_and_key
  verify_p2sh_p2wpkh psbt input_index witness spk value = do
    (sig, pubkey) ← sig_and_key witness
    let redeem = x.new_p2wpkh pubkey
    ensure (x.new_p2sh redeem == spk) script_mismatch
    sighash ← ok_or (x.p2wpkh_sighash psbt.unsigned_tx input_index redeem value) sighash_failed
    ensure (x.verify_ecdsa sighash sig pubkey) verification_failed

  unfoldable pub verify_p2tr : Psbt → ℕ → Witness → Result SigVerifyError (Unit {0})
  unfolding split_taproot_sig prevouts_of
  verify_p2tr psbt input_index witness = do
    ensure (length witness == 1) wrong_arity
    sig_elem ← ok_or (get_elem? witness 0) panicked
    (sig_bytes, sighash_type) ← split_taproot_sig sig_elem
    sig ← ok_or (x.decode_schnorr sig_bytes) malformed_schnorr
    prevouts ← ok_or (prevouts_of psbt.inputs) missing_prevout
    prevout ← ok_or (get_elem? prevouts input_index) panicked
    let spk = prevout.script_pubkey
    ensure (x.is_p2tr spk) not_p2tr
    xonly ← ok_or (x.decode_xonly (take 32 (drop 2 spk))) bad_xonly
    sighash ←
        ok_or (x.taproot_sighash psbt.unsigned_tx input_index prevouts sighash_type) sighash_failed
    ensure (x.verify_schnorr sighash sig xonly) verification_failed

  -- `psbt.inputs.get(i).and_then(|i| i.witness_utxo)`
  abbrev pub witness_utxo_at : Psbt → ℕ → Option TxOut
  witness_utxo_at psbt input_index = elim (get_elem? psbt.inputs input_index) [
    | none ↦ none
    | some i ↦ i.witness_utxo
  ]

  abbrev pub verify_by_type :
      Psbt → ℕ → Witness → TxOut → ScriptType → Result SigVerifyError (Unit {0})
  verify_by_type psbt i witness o p2wpkh = verify_p2wpkh psbt i witness o.script_pubkey o.value
  verify_by_type psbt i witness o p2sh_p2wpkh =
      verify_p2sh_p2wpkh psbt i witness o.script_pubkey o.value
  verify_by_type psbt i witness o p2tr = verify_p2tr psbt i witness

  unfoldable pub verify_input_signature :
      Psbt → ℕ → ScriptType → Bytes → Result SigVerifyError (Unit {0})
  verify_input_signature psbt input_index script_type witness_bytes = do
    witness ← ok_or (x.decode_witness witness_bytes) undecodable
    o ← ok_or (witness_utxo_at psbt input_index) no_witness_utxo
    verify_by_type psbt input_index witness o script_type
