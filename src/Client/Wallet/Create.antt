-- ===== src/Client/Wallet/Create.antt =====
-- client/src/wallet.rs: the three ways to a wallet.
pub mod Sound
use blindjoin.Prelude.{
  ℕ, ◌&&◌, not, Bool, true, false, Option, none, some, [], ◌∷◌, ◌++◌, if◌then◌else◌, Result, ok,
  err, ◌>>=◌, ◌>>◌, ok_or, ensure,
}
use blindjoin.Prelude.Eq.{Bytes, Text, codes, ◌==◌, bytes_eq}
use blindjoin.Prelude.Strings.{
  starts_with, contains, replace_first, trim_end_matches, split_once, after_last, replace_char,
}
use blindjoin.External.{External, Network, OutPoint}
use blindjoin.External.Keys.{Keys}
use blindjoin.Shared.Script.{ScriptType, p2wpkh, p2tr, p2sh_p2wpkh, script_type_eq}
use blindjoin.Coordinator.Round.OutPoints.{parse_u32}
use blindjoin.Client.Wallet.{
  Wallet, ClientWallet, ClientError, bad_wif, bad_address, bad_outpoint, wallet_not_created,
  unknown_wrapper, checksum_unsupported, multipath_unsupported, wrapper_mismatch, file_not_written,
}

-- `Wallet::create` of two descriptors and `Wallet::create_single` of one, without persistence.
pub record Bdk : Type 0 where
  pub create : Text → Text → Network → Option Wallet
  pub create_single : Text → Network → Option Wallet

-- The outer wrapper of a descriptor.
unfoldable pub detect_wrapper : Text → Option ScriptType
detect_wrapper external_desc =
    if starts_with (codes "sh(wpkh(") external_desc
    then some p2sh_p2wpkh
    else if starts_with (codes "wpkh(") external_desc
    then some p2wpkh
    else if starts_with (codes "tr(") external_desc
    then some p2tr
    else none

-- The shapes of descriptors that are taken.
unfoldable pub check_descriptor : Text → ScriptType → Result ClientError (Unit {0})
unfolding detect_wrapper
check_descriptor external_desc script_type = do
  detected ← ok_or (detect_wrapper external_desc) unknown_wrapper
  ensure (detected == script_type) (wrapper_mismatch detected script_type)
  ensure (not (contains (codes "#") external_desc)) checksum_unsupported
  ensure (not (contains (codes "<") external_desc && contains (codes ">") external_desc))
      multipath_unsupported

-- A descriptor with a wildcard has a second one for the change.
unfoldable pub create_inner : Bdk → Text → Network → Option Wallet
create_inner bdk external_desc network =
    if contains (codes "/0/*)") external_desc
    then bdk.create external_desc (replace_first (codes "/0/*)") (codes "/1/*)") external_desc)
        network
    else bdk.create_single external_desc network

-- The templates of `generate`, for the external keychain 0 and the internal one 1.
unfoldable pub descriptor_of : ScriptType → Text → Text → Text
descriptor_of p2wpkh xprv chain =
    codes "wpkh(" ++ (xprv ++ (codes "/84'/0'/0'/" ++ (chain ++ codes "/*)")))
descriptor_of p2tr xprv chain =
    codes "tr(" ++ (xprv ++ (codes "/86'/0'/0'/" ++ (chain ++ codes "/*)")))
descriptor_of p2sh_p2wpkh xprv chain =
    codes "sh(wpkh(" ++ (xprv ++ (codes "/49'/0'/0'/" ++ (chain ++ codes "/*))")))

module _ (x : External) where
  -- `parse_outpoint` of wallet.rs splits at the first colon.
  unfoldable pub client_outpoint : Text → Option OutPoint
  client_outpoint s = elim (split_once b':' s) [
    | none ↦ none
    | some (txid_str, vout_str) ↦ elim (x.parse_txid txid_str) [
      | none ↦ none
      | some txid ↦ elim (parse_u32 vout_str) [
        | none ↦ none
        | some vout ↦ some (record { txid = txid; vout = vout })
      ]
    ]
  ]

module _ (x : External) (k : Keys) where
  -- The key of the first external address, from a descriptor with an extended private key.
  unfoldable pub derive_external_leaf_sk : Text → Option Bytes
  derive_external_leaf_sk external_desc =
      let key_and_path = after_last b'(' (trim_end_matches b')' external_desc) in
      elim (split_once b'/' key_and_path) [
        | none ↦ none
        | some (key_str, path) ↦ k.derive_priv key_str (replace_char b'*' b'0' path)
      ]

  unfoldable pub ecdsa_leaf_controls_script : Bytes → ScriptType → Bytes → Bool
  ecdsa_leaf_controls_script sk p2wpkh spk = x.new_p2wpkh (k.public_key sk) == spk
  ecdsa_leaf_controls_script sk p2sh_p2wpkh spk = x.new_p2sh (x.new_p2wpkh (k.public_key sk)) == spk
  ecdsa_leaf_controls_script sk p2tr spk = false

  -- `derive_external_leaf_sk(..).filter(..)`
  unfoldable pub controlling_leaf : Text → ScriptType → Bytes → Option Bytes
  unfolding ecdsa_leaf_controls_script
  controlling_leaf external_desc script_type spk = elim (derive_external_leaf_sk external_desc) [
    | none ↦ none
    | some sk ↦ if ecdsa_leaf_controls_script sk script_type spk then some sk else none
  ]

  module _ (bdk : Bdk) where
    unfoldable pub from_wif : Text → Text → Network → Result ClientError ClientWallet
    from_wif wif utxo_outpoint_str network = do
      secret_key ← ok_or (k.from_wif wif) bad_wif
      inner ←
          ok_or (bdk.create_single (codes "wpkh(" ++ (wif ++ codes ")")) network) wallet_not_created
      outpoint ← ok_or (client_outpoint x utxo_outpoint_str) bad_outpoint
      ok (record {
        network = network;
        utxo_outpoint = outpoint;
        utxo_script_pubkey = x.new_p2wpkh (k.public_key secret_key);
        wif_key = some wif;
        external_leaf_sk = none;
        script_type = p2wpkh;
        inner = inner;
      })

    unfoldable pub from_descriptor :
        Text → Text → Text → Network → ScriptType → Result ClientError ClientWallet
    unfolding check_descriptor create_inner controlling_leaf
    from_descriptor external_desc utxo_outpoint_str utxo_address network script_type = do
      check_descriptor external_desc script_type
      inner ← ok_or (create_inner bdk external_desc network) wallet_not_created
      spk ← ok_or (x.address_script network utxo_address) bad_address
      outpoint ← ok_or (client_outpoint x utxo_outpoint_str) bad_outpoint
      ok (record {
        network = network;
        utxo_outpoint = outpoint;
        utxo_script_pubkey = spk;
        wif_key = none;
        external_leaf_sk = controlling_leaf external_desc script_type spk;
        script_type = script_type;
        inner = inner;
      })

    -- `xprv` comes from a fresh mnemonic; `written` says whether descriptors.txt could be written.
    unfoldable pub generate :
        Text → Bool → Text → Network → ScriptType → Result ClientError ClientWallet
    unfolding descriptor_of controlling_leaf
    generate xprv written utxo_outpoint_str network script_type = do
      let external_desc = descriptor_of script_type xprv (codes "0")
      let internal_desc = descriptor_of script_type xprv (codes "1")
      inner ← ok_or (bdk.create external_desc internal_desc network) wallet_not_created
      ensure written file_not_written
      outpoint ← ok_or (client_outpoint x utxo_outpoint_str) bad_outpoint
      ok (record {
        network = network;
        utxo_outpoint = outpoint;
        utxo_script_pubkey = inner.external_script;
        wif_key = none;
        external_leaf_sk = controlling_leaf external_desc script_type inner.external_script;
        script_type = script_type;
        inner = inner;
      })
