-- ===== src/Client/Wallet/Create/Sound.antt =====
-- The keys of a wallet control its output (client/src/wallet.rs).
use blindjoin.Prelude.{
  ◌≡◌, Bool, true, none, some, ◌++◌, ok, ok_or, ensure, sym, Bool-cases, inl, inr, >>=-eq-ok,
  ok_or-eq-ok, Option-cases, subst, refl, ◌∙◌,
}
use blindjoin.Prelude.Eq.{Bytes, Text, codes, bytes_eq, bytes_beq_iff}
use blindjoin.External.{External, Network}
use blindjoin.External.Keys.{Keys}
use blindjoin.Shared.Script.{ScriptType, p2wpkh, p2tr, p2sh_p2wpkh, script_type_eq}
use blindjoin.Shared.Sign.Laws.{script_of}
use blindjoin.Client.Wallet.{
  ClientWallet, bad_wif, bad_address, bad_outpoint, wallet_not_created, file_not_written,
}
use blindjoin.Client.Wallet.Create.{
  Bdk, descriptor_of, check_descriptor, create_inner, client_outpoint, derive_external_leaf_sk,
  ecdsa_leaf_controls_script, controlling_leaf, from_wif, from_descriptor, generate,
}

module _ (x : External) (k : Keys) where
  -- A WIF key is read, and pays to the output as P2WPKH; the key of the first address pays to it
  -- as the wallet's type.
  pub record Sound (w : ClientWallet) : Type 0 where
    pub wif :
        (wif : Text)
        → w.wif_key ≡ some wif
        → (sk : Bytes) × (k.from_wif wif ≡ some sk)
          × (w.utxo_script_pubkey ≡ script_of x k p2wpkh sk)
          × (w.script_type ≡ p2wpkh)
    pub leaf :
        (sk : Bytes)
        → w.external_leaf_sk ≡ some sk
        → w.utxo_script_pubkey ≡ script_of x k w.script_type sk

  controls-eq :
      (sk : Bytes) (st : ScriptType) (spk : Bytes)
      → ecdsa_leaf_controls_script x k sk st spk ≡ true
      → spk ≡ script_of x k st sk
  unfolding ecdsa_leaf_controls_script
  controls-eq sk p2wpkh spk h = sym ((bytes_beq_iff (script_of x k p2wpkh sk) spk).0 h)
  controls-eq sk p2sh_p2wpkh spk h = sym ((bytes_beq_iff (script_of x k p2sh_p2wpkh sk) spk).0 h)
  controls-eq sk p2tr spk h = absurd (cc h)

  -- The leaf key passed the filter.
  leaf-eq :
      (desc : Text) (st : ScriptType) (spk : Bytes) {sk : Bytes}
      → controlling_leaf x k desc st spk ≡ some sk
      → spk ≡ script_of x k st sk
  unfolding controlling_leaf
  leaf-eq desc st spk {sk} h = elim (Option-cases (derive_external_leaf_sk x k desc)) [
    | inl e ↦ absurd (cc (h, e))
    | inr (key, e) ↦ elim (Bool-cases (ecdsa_leaf_controls_script x k key st spk)) [
      | inl good ↦
          let same : key ≡ sk = cc (rw (controlling_leaf, e, good) at h) in
          rw (sym same) (controls-eq key st spk good)
      | inr bad ↦ absurd (cc (rw (controlling_leaf, e, bad) at h))
    ]
  ]

  -- A wallet with no key beside the one of its descriptor.
  described-Sound :
      (desc : Text) (w : ClientWallet)
      → w.wif_key ≡ none
      → w.external_leaf_sk ≡ controlling_leaf x k desc w.script_type w.utxo_script_pubkey
      → Sound w
  described-Sound desc w without filtered = record {
    wif = λ t e. absurd (cc (without, e));
    leaf = λ sk e. leaf-eq desc w.script_type w.utxo_script_pubkey (sym filtered ∙ e);
  }

  module _ (bdk : Bdk) where
    from_wif-Sound :
        (wif outpoint : Text) (network : Network) {w : ClientWallet}
        → from_wif x k bdk wif outpoint network ≡ ok w
        → Sound w
    unfolding from_wif
    from_wif-Sound wif outpoint network {w} h =
        let (sk, read, k1) = >>=-eq-ok (ok_or (k.from_wif wif) bad_wif) _ h in
        let desc = codes "wpkh(" ++ (wif ++ codes ")") in
        let (inner, _, k2) =
          >>=-eq-ok (ok_or (bdk.create_single desc network) wallet_not_created) _ k1 in
        let (o, _, end) = >>=-eq-ok (ok_or (client_outpoint x outpoint) bad_outpoint) _ k2 in
        let made : ClientWallet = record {
          network = network;
          utxo_outpoint = o;
          utxo_script_pubkey = x.new_p2wpkh (k.public_key sk);
          wif_key = some wif;
          external_leaf_sk = none;
          script_type = p2wpkh;
          inner = inner;
        } in
        let same : made ≡ w = cc end in
        let found = ok_or-eq-ok (k.from_wif wif) bad_wif read in
        subst (λ v. Sound v) same
          (record { wif = λ t e. (sk, cc (found, e), refl, refl); leaf = λ s e. absurd (cc e) })

    from_descriptor-Sound :
        (desc outpoint address : Text) (network : Network) (st : ScriptType) {w : ClientWallet}
        → from_descriptor x k bdk desc outpoint address network st ≡ ok w
        → Sound w
    unfolding from_descriptor
    from_descriptor-Sound desc outpoint address network st {w} h =
        let (_, _, k1) = >>=-eq-ok (check_descriptor desc st) _ h in
        let (inner, _, k2) =
          >>=-eq-ok (ok_or (create_inner bdk desc network) wallet_not_created) _ k1 in
        let (spk, _, k3) = >>=-eq-ok (ok_or (x.address_script network address) bad_address) _ k2 in
        let (o, _, end) = >>=-eq-ok (ok_or (client_outpoint x outpoint) bad_outpoint) _ k3 in
        let made : ClientWallet = record {
          network = network;
          utxo_outpoint = o;
          utxo_script_pubkey = spk;
          wif_key = none;
          external_leaf_sk = controlling_leaf x k desc st spk;
          script_type = st;
          inner = inner;
        } in
        let same : made ≡ w = cc end in
        subst (λ v. Sound v) same (described-Sound desc made refl refl)

    generate-Sound :
        (xprv : Text) (written : Bool) (outpoint : Text) (network : Network) (st : ScriptType)
        {w : ClientWallet}
        → generate x k bdk xprv written outpoint network st ≡ ok w
        → Sound w
    unfolding generate
    generate-Sound xprv written outpoint network st {w} h =
        let desc = descriptor_of st xprv (codes "0") in
        let inside = descriptor_of st xprv (codes "1") in
        let (inner, _, k1) =
          >>=-eq-ok (ok_or (bdk.create desc inside network) wallet_not_created) _ h in
        let (_, _, k2) = >>=-eq-ok (ensure written file_not_written) _ k1 in
        let (o, _, end) = >>=-eq-ok (ok_or (client_outpoint x outpoint) bad_outpoint) _ k2 in
        let made : ClientWallet = record {
          network = network;
          utxo_outpoint = o;
          utxo_script_pubkey = inner.external_script;
          wif_key = none;
          external_leaf_sk = controlling_leaf x k desc st inner.external_script;
          script_type = st;
          inner = inner;
        } in
        let same : made ≡ w = cc end in
        subst (λ v. Sound v) same (described-Sound desc made refl refl)

    -- A wallet that one of the constructors has made.
    pub data Created : ClientWallet → Type 0 where
      by_wif :
          (wif outpoint : Text) (network : Network) {w : ClientWallet}
          → from_wif x k bdk wif outpoint network ≡ ok w
          → Created w
      by_descriptor :
          (desc outpoint address : Text) (network : Network) (st : ScriptType) {w : ClientWallet}
          → from_descriptor x k bdk desc outpoint address network st ≡ ok w
          → Created w
      by_generation :
          (xprv : Text) (written : Bool) (outpoint : Text) (network : Network) (st : ScriptType)
          {w : ClientWallet}
          → generate x k bdk xprv written outpoint network st ≡ ok w
          → Created w

    pub Created-Sound : {w : ClientWallet} → Created w → Sound w
    Created-Sound (by_wif wif outpoint network h) = from_wif-Sound wif outpoint network h
    Created-Sound (by_descriptor desc outpoint address network st h) =
        from_descriptor-Sound desc outpoint address network st h
    Created-Sound (by_generation xprv written outpoint network st h) =
        generate-Sound xprv written outpoint network st h
