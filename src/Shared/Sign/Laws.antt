-- ===== src/Shared/Sign/Laws.antt =====
-- What a proof relies on of `secp256k1`, `bitcoin` and `bip322` (shared/src/bip322/).
use blindjoin.Prelude.{◌≡◌, true, some, ok, [], ◌∷◌, ◌++◌}
use blindjoin.Prelude.Eq.{Bytes}
use blindjoin.External.{External, Network, default}
use blindjoin.External.Keys.{Keys}
use blindjoin.Shared.Script.{ScriptType, p2wpkh, p2tr, p2sh_p2wpkh, detect_script_type}
use blindjoin.Shared.Bip322.{to_sign_of}

-- The script that a key controls, of each type.
abbrev pub script_of : External → Keys → ScriptType → Bytes → Bytes
script_of x k p2wpkh key = x.new_p2wpkh (k.public_key key)
script_of x k p2tr key = k.new_p2tr_tweaked (k.tweaked_xonly key)
script_of x k p2sh_p2wpkh key = x.new_p2sh (x.new_p2wpkh (k.public_key key))

-- A signature that secp256k1 makes verifies under the key it was made with.
pub record Signatures (x : External) (k : Keys) : Type 0 where
  pub ecdsa : (m key : Bytes) → x.verify_ecdsa m (k.sign_ecdsa m key) (k.public_key key) ≡ true
  pub ecdsa_noncedata :
      (m key e : Bytes)
      → x.verify_ecdsa m (k.sign_ecdsa_with_noncedata m key e) (k.public_key key) ≡ true
  pub schnorr :
      (m key : Bytes)
      → x.verify_schnorr m (k.sign_schnorr_no_aux_rand m key) (k.tweaked_xonly key) ≡ true

-- Scripts and addresses of `bitcoin`, and the sighashes of the transaction of a proof.
pub record Scripts (x : External) (k : Keys) (network : Network) : Type 0 where
  pub detects :
      (st : ScriptType) (key : Bytes) → detect_script_type x (script_of x k st key) ≡ ok st
  pub address : ScriptType → Bytes → Bytes
  pub from_script :
      (st : ScriptType) (key : Bytes)
      → x.address_from_script network (script_of x k st key) ≡ some (address st key)
  pub taproot : (key : Bytes) → x.is_p2tr (script_of x k p2tr key) ≡ true
  pub compressed :
      (key : Bytes) → x.public_key_from_slice (k.public_key key) ≡ some (k.public_key key, true)
  pub related :
      (key : Bytes) → x.is_related_to_pubkey (address p2wpkh key) (k.public_key key) ≡ true
  pub related_wrapped :
      (key : Bytes) → x.is_related_to_pubkey (address p2sh_p2wpkh key) (k.public_key key) ≡ true
  pub sighash : Bytes → Bytes → Bytes → Bytes
  pub sighashes :
      (spk message code : Bytes)
      → x.p2wpkh_sighash (to_sign_of x k spk message) 0 code 0 ≡ some (sighash spk message code)
  pub taproot_digest : Bytes → Bytes → Bytes
  pub taproot_sighashes :
      (spk message : Bytes)
      → x.taproot_sighash
          (to_sign_of x k spk message)
          0
          (record { value = 0; script_pubkey = spk } ∷ [])
          default
        ≡ some (taproot_digest spk message)

-- `bip322::verify_simple` accepts a signature that verifies, for the key of the address, over the
-- sighash of the proof's transaction.
pub record Bip322Crate (x : External) (k : Keys) (network : Network) (s : Scripts x k network)
    : Type 0 where
  pub ecdsa :
      (key message sig : Bytes)
      → let spk = script_of x k p2wpkh key in
        x.verify_ecdsa (s.sighash spk message spk) sig (k.public_key key) ≡ true
        → x.bip322_verify_simple
            (s.address p2wpkh key)
            message
            ((k.serialize_der sig ++ 0x01 ∷ []) ∷ k.public_key key ∷ [])
          ≡ true
  pub wrapped :
      (key message sig : Bytes)
      → x.verify_ecdsa
          (s.sighash (script_of x k p2sh_p2wpkh key) message (x.new_p2wpkh (k.public_key key)))
          sig
          (k.public_key key)
        ≡ true
      → x.bip322_verify_simple
          (s.address p2sh_p2wpkh key)
          message
          ((k.serialize_der sig ++ 0x01 ∷ []) ∷ k.public_key key ∷ [])
        ≡ true
  pub schnorr :
      (key message sig : Bytes)
      → x.verify_schnorr
          (s.taproot_digest (script_of x k p2tr key) message)
          sig
          (k.tweaked_xonly key)
        ≡ true
      → x.bip322_verify_simple (s.address p2tr key) message (sig ∷ []) ≡ true
