-- ===== src/External/Keys.antt =====
-- What the program takes from `bitcoin::secp256k1`, `bitcoin::key` and `bitcoin::bip32` to sign, beside
-- the functions of External.
use blindjoin.Prelude.{ℕ, Option}
use blindjoin.Prelude.Eq.{Bytes, Text}
use blindjoin.External.{Transaction}

pub record Keys : Type 0 where
  -- `PublicKey::from_secret_key`, in the 33 bytes of `serialize`
  pub public_key : Bytes → Bytes
  -- of the digest and the secret key; then of some entropy too
  pub sign_ecdsa : Bytes → Bytes → Bytes
  pub sign_ecdsa_with_noncedata : Bytes → Bytes → Bytes → Bytes
  pub serialize_der : Bytes → Bytes
  -- the x-only key of `Keypair::tap_tweak` without a script tree, and its script
  pub tweaked_xonly : Bytes → Bytes
  pub new_p2tr_tweaked : Bytes → Bytes
  -- of the digest, by the tweaked key pair
  pub sign_schnorr_no_aux_rand : Bytes → Bytes → Bytes
  pub compute_txid : Transaction → ℕ
  -- `PrivateKey::from_wif`, its secret key
  pub from_wif : Text → Option Bytes
  -- `Xpriv::from_str` and `DerivationPath::from_str`, then `derive_priv`
  pub derive_priv : Text → Text → Option Bytes
