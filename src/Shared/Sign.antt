-- ===== src/Shared/Sign.antt =====
-- shared/src/bip322/: the signing of BIP-322 ownership proofs.
pub mod Laws
pub mod Grind
pub mod Verifies
use blindjoin.Prelude.{
  ℕ, zero, suc, ◌+◌, ◌||◌, Bool, true, false, none, some, [], ◌∷◌, ◌++◌, length, Result, ok, err,
  ◌>>=◌, ◌>>◌, ok_or, ensure,
}
use blindjoin.Prelude.Eq.{Bytes, ◌==◌, nat_eq, bytes_eq}
use blindjoin.External.{External, Witness, default}
use blindjoin.External.Keys.{Keys}
use blindjoin.Shared.Script.{
  ScriptType, p2wpkh, p2tr, p2sh_p2wpkh, Bip322Error, decode_error, script_type_mismatch,
  detect_script_type,
}
use blindjoin.Shared.Token.{le_bytes}
use blindjoin.Shared.Bip322.{to_sign_of}

-- An error, or the panic of an `expect` on the sighash.
pub data SignFailure : Type 0 where
  failed : Bip322Error → SignFailure
  panicked : SignFailure

-- `unwrap_or`
abbrev pub type_or : ScriptType → Result Bip322Error ScriptType → ScriptType
type_or d (ok t) = t
type_or d (err e) = d

abbrev pub zero_bytes : ℕ → Bytes
zero_bytes zero = []
zero_bytes (suc n) = 0 ∷ zero_bytes n

module _ (k : Keys) where
  -- With the byte of SIGHASH_ALL, the signature has 71 or 72 bytes.
  unfoldable pub fits : Bytes → Bool
  fits sig =
      let total_len = length (k.serialize_der sig) + 1 in (total_len == 71) || (total_len == 72)

  -- The entropy of a retry: the counter in four bytes, then zeros.
  abbrev pub entropy : ℕ → Bytes
  entropy counter = le_bytes 4 counter ++ zero_bytes 28

  -- The loop, with the number of turns that are left.
  unfoldable pub grind : ℕ → ℕ → Bytes → Bytes → Bytes → Bytes
  unfolding fits
  grind zero counter msg key sig = sig
  grind (suc turns) counter msg key sig = elim (fits sig) [
    | true ↦ sig
    | false ↦
        grind turns (suc counter) msg key (k.sign_ecdsa_with_noncedata msg key (entropy counter))
  ]

  unfoldable pub sign_ecdsa_compat_bip322_length : Bytes → Bytes → Bytes
  unfolding grind
  sign_ecdsa_compat_bip322_length msg key = grind 256 1 msg key (k.sign_ecdsa msg key)

  -- The signature with the byte of SIGHASH_ALL, and the public key.
  unfoldable pub ecdsa_witness : Bytes → Bytes → Witness
  unfolding sign_ecdsa_compat_bip322_length
  ecdsa_witness sighash key =
      (k.serialize_der (sign_ecdsa_compat_bip322_length sighash key) ++ 0x01 ∷ [])
      ∷ k.public_key key
      ∷ []

module _ (x : External) (k : Keys) where
  -- `sign` of p2wpkh.rs
  unfoldable pub sign_p2wpkh : Bytes → Bytes → Bytes → Result SignFailure Witness
  sign_p2wpkh spk key message = do
    sighash ← ok_or (x.p2wpkh_sighash (to_sign_of x k spk message) 0 spk 0) (failed decode_error)
    ok (ecdsa_witness k sighash key)

  -- `sign` of p2tr.rs
  unfoldable pub sign_p2tr : Bytes → Bytes → Bytes → Result SignFailure Witness
  sign_p2tr spk key message = do
    ensure (k.new_p2tr_tweaked (k.tweaked_xonly key) == spk)
        (failed (script_type_mismatch (type_or p2tr (detect_script_type x spk)) p2tr))
    sighash ←
        ok_or
          (x.taproot_sighash (to_sign_of x k spk message) 0
            (record { value = 0; script_pubkey = spk } ∷ []) default)
          panicked
    ok (k.sign_schnorr_no_aux_rand sighash key ∷ [])

  -- `sign` of p2sh_p2wpkh.rs: over the unwrapped script.
  unfoldable pub sign_p2sh_p2wpkh : Bytes → Bytes → Bytes → Result SignFailure Witness
  sign_p2sh_p2wpkh spk key message = do
    let unwrapped_p2wpkh = x.new_p2wpkh (k.public_key key)
    ensure (x.new_p2sh unwrapped_p2wpkh == spk)
        (failed (script_type_mismatch (type_or p2sh_p2wpkh (detect_script_type x spk)) p2sh_p2wpkh))
    sighash ← ok_or (x.p2wpkh_sighash (to_sign_of x k spk message) 0 unwrapped_p2wpkh 0) panicked
    ok (ecdsa_witness k sighash key)

  unfoldable pub sign_simple : ScriptType → Bytes → Bytes → Bytes → Result SignFailure Witness
  unfolding sign_p2wpkh sign_p2tr sign_p2sh_p2wpkh
  sign_simple p2wpkh spk key message = sign_p2wpkh spk key message
  sign_simple p2tr spk key message = sign_p2tr spk key message
  sign_simple p2sh_p2wpkh spk key message = sign_p2sh_p2wpkh spk key message
