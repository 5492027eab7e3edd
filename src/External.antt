-- ===== src/External.antt =====
-- What the program takes from other crates: the types of `bitcoin` that it reads, and one record
-- of the functions of `bitcoin`, `blind_rsa_signatures`, `sha2`, `hmac` and `bip322` that it calls.
pub mod Keys
pub mod Blind
use blindjoin.Prelude.{
  ℕ, ◌≡◌, ◌⊎◌, Bool, true, false, Option, none, some, List, [], ◌∷◌, map, arith, ==_iff, ◌↔◌,
}
use blindjoin.Prelude.Eq.{Eq, ◌==◌, nat_eq, Bytes, Text}

pub data Network : Type 0 where
  bitcoin testnet signet regtest : Network

pub record OutPoint : Type 0 where
  pub txid : ℕ
  pub vout : ℕ  -- u32

pub record TxOut : Type 0 where
  pub value : ℕ  -- u64, in satoshis
  pub script_pubkey : Bytes

abbrev pub Witness : Type 0
Witness = List Bytes

-- `Sequence::ENABLE_RBF_NO_LOCKTIME`
abbrev pub enable_rbf_no_locktime : ℕ
enable_rbf_no_locktime = 0xFFFFFFFD

pub record TxIn : Type 0 where
  pub previous_output : OutPoint
  pub script_sig : Bytes
  pub sequence : ℕ
  pub witness : Witness

pub record Transaction : Type 0 where
  pub version : ℕ
  pub lock_time : ℕ
  pub input : List TxIn
  pub output : List TxOut

pub record PsbtInput : Type 0 where
  pub witness_utxo : Option TxOut
  pub final_script_sig : Option Bytes
  pub final_script_witness : Option Witness
  pub partial_sigs : List (Bytes × Bytes)  -- key and signature
  pub tap_key_sig : Option Bytes

pub record Psbt : Type 0 where
  pub unsigned_tx : Transaction
  pub inputs : List PsbtInput

pub data TapSighashType : Type 0 where
  default all : TapSighashType

pub record External : Type 0 where
  -- `Display` and `FromStr` of Txid, and the order of OutPoint
  pub txid_text : ℕ → Text
  pub parse_txid : Text → Option ℕ
  -- the 32 bytes of a Txid
  pub txid_bytes : ℕ → Bytes
  pub outpoint_leb : OutPoint → OutPoint → Bool
  -- `Address::from_str`, `require_network`, `script_pubkey`
  pub address_script : Network → Text → Option Bytes
  pub is_p2wpkh : Bytes → Bool
  pub is_p2tr : Bytes → Bool
  pub is_p2sh : Bytes → Bool
  pub from_unsigned_tx : Transaction → Option Psbt
  pub extract_tx : Psbt → Option Transaction
  pub serialize_hex : Transaction → Text
  pub decode_witness : Bytes → Option Witness
  pub encode_witness : Witness → Bytes
  -- keys, signatures and sighashes
  pub decode_pubkey : Bytes → Option Bytes
  pub decode_der : Bytes → Option Bytes
  pub decode_schnorr : Bytes → Option Bytes
  pub decode_xonly : Bytes → Option Bytes
  pub new_p2wpkh : Bytes → Bytes
  pub new_p2sh : Bytes → Bytes
  pub hash160 : Bytes → Bytes
  pub p2wpkh_sighash : Transaction → ℕ → Bytes → ℕ → Option Bytes
  pub taproot_sighash : Transaction → ℕ → List TxOut → TapSighashType → Option Bytes
  pub verify_ecdsa : Bytes → Bytes → Bytes → Bool
  pub verify_schnorr : Bytes → Bytes → Bytes → Bool
  -- BIP-322: `Address::from_script`, `is_related_to_pubkey`, `PublicKey::from_slice` with its
  -- `compressed`, and `bip322::verify_simple`
  pub address_from_script : Network → Bytes → Option Bytes
  pub is_related_to_pubkey : Bytes → Bytes → Bool
  pub public_key_from_slice : Bytes → Option (Bytes × Bool)
  pub bip322_verify_simple : Bytes → Bytes → Witness → Bool
  -- encodings
  pub b64_encode : Bytes → Text
  pub b64_decode : Text → Option Bytes
  pub hex_decode : Text → Option Bytes
  pub deserialize_psbt : Bytes → Option Psbt
  pub serialize_psbt : Psbt → Bytes
  -- `Display` of a Uuid
  pub uuid_text : ℕ → Text
  -- hashes
  pub sha256 : Bytes → Bytes
  pub hmac_sha256 : Bytes → Bytes → Bytes
  pub hex_encode : Bytes → Text
  -- RSA blind signatures: sign with a secret key; verify with a public key, a signature and the
  -- message randomizer
  pub blind_sign : Bytes → Bytes → Option Bytes
  pub verify_blind : Bytes → Bytes → Option Bytes → Bytes → Bool
  pub secret_to_der : Bytes → Option Bytes
  pub to_spki : Bytes → Option Bytes

-- The input of a PSBT before anything is attached to it.
abbrev pub blank_input : TxIn → PsbtInput
blank_input i = record {
  witness_utxo = none;
  final_script_sig = none;
  final_script_witness = none;
  partial_sigs = [];
  tap_key_sig = none;
}

abbrev pub IsUnsigned : List TxIn → Type 0
IsUnsigned [] = Unit
IsUnsigned (i ∷ is) = (i.script_sig ≡ []) × (i.witness ≡ []) × IsUnsigned is

-- The order of outpoints is a linear order.
pub record OutPointOrder (x : External) : Type 0 where
  pub total : (a b : OutPoint) → (x.outpoint_leb a b ≡ true) ⊎ (x.outpoint_leb b a ≡ true)
  pub trans :
      (a b c : OutPoint)
      → x.outpoint_leb a b ≡ true
      → x.outpoint_leb b c ≡ true
      → x.outpoint_leb a c ≡ true
  pub antisym : (a b : OutPoint) → x.outpoint_leb a b ≡ true → x.outpoint_leb b a ≡ true → a ≡ b

-- `Txid::from_str` reads what `Display` writes.
pub record TxidText (x : External) : Type 0 where
  pub read : (txid : ℕ) → x.parse_txid (x.txid_text txid) ≡ some txid

-- Base64, and the serialized form of the PSBT, are read back as they were written.
pub record PsbtText (x : External) (p : Psbt) : Type 0 where
  pub base64 : (b : Bytes) → x.b64_decode (x.b64_encode b) ≡ some b
  pub psbt : x.deserialize_psbt (x.serialize_psbt p) ≡ some p

-- `Psbt::from_unsigned_tx` accepts a transaction with no signatures and gives it blank inputs.
pub record PsbtCreation (x : External) : Type 0 where
  pub created :
      (tx : Transaction)
      → IsUnsigned tx.input
      → x.from_unsigned_tx tx
        ≡ some (record { unsigned_tx = tx; inputs = map blank_input tx.input })

abbrev pub outpoint_beq : OutPoint → OutPoint → Bool
outpoint_beq a b = elim (a.txid == b.txid) [ true ↦ a.vout == b.vout | false ↦ false ]

pub outpoint_beq_iff : (a b : OutPoint) → (outpoint_beq a b ≡ true) ↔ (a ≡ b)
outpoint_beq_iff a b = ground (arith, ==_iff a.txid b.txid, ==_iff a.vout b.vout)

instance abbrev pub outpoint_eq : Eq OutPoint
outpoint_eq = record { same = outpoint_beq; same_iff = outpoint_beq_iff }
