-- ===== src/Coordinator/Tx/Build.antt =====
-- The PSBT that coordinator/src/bitcoin/tx.rs returns when the funds suffice.
use blindjoin.Prelude.{
  ℕ, ◌+◌, ◌*◌, ◌^◌, ◌≤◌, ◌<◌, ◌≡◌, ◌≢◌, refl, some, none, List, [], ◌∷◌, map, ok, >>=-eq-ok, arith,
  All-imp, length, add64, add64-eq,
}
use blindjoin.External.{External, PsbtInput, Psbt, PsbtCreation, IsUnsigned, blank_input}
use blindjoin.Shared.Script.{ScriptType}
use blindjoin.Coordinator.Config.{BipConfig}
use blindjoin.Coordinator.Fee.{estimate_fee_share}
use blindjoin.Coordinator.Tx.{
  ParticipantInput, ParticipantOutput, tx_input, attach_utxos, coinjoin_tx, create_psbt,
  sort_inputs, round_fee_share, build_coinjoin_psbt, check_funds,
}
use blindjoin.Coordinator.Tx.Share.{Allowed, share-le-estimate}
use blindjoin.Coordinator.Tx.Funds.{Funded, Funded-check_funds, check_funds-Funded}

-- An input of the PSBT, with the output that it spends.
abbrev pub utxo_input : ParticipantInput → PsbtInput
utxo_input i = record {
  witness_utxo = some (record { value = i.value_sats; script_pubkey = i.script_pubkey });
  final_script_sig = none;
  final_script_witness = none;
  partial_sigs = [];
  tap_key_sig = none;
}

attach_utxos-blank :
    (is : List ParticipantInput)
    → attach_utxos is (map blank_input (map tx_input is)) ≡ some (map utxo_input is)
unfolding attach_utxos
attach_utxos-blank [] = refl
attach_utxos-blank (i ∷ is) = ground (arith, attach_utxos-blank is)

tx_input-IsUnsigned : (is : List ParticipantInput) → IsUnsigned (map tx_input is)
tx_input-IsUnsigned [] = tt
tx_input-IsUnsigned (i ∷ is) = (refl, refl, tx_input-IsUnsigned is)

module _ (x : External) where
  -- The PSBT of the round, in terms of the inputs in canonical order.
  abbrev pub canonical_psbt : List ParticipantInput → List ParticipantOutput → ℕ → ℕ → Psbt
  canonical_psbt inputs outputs d share = record {
    unsigned_tx = coinjoin_tx x (sort_inputs x inputs) outputs d share;
    inputs = map utxo_input (sort_inputs x inputs);
  }

module _ (x : External) (creation : PsbtCreation x) where
  create_psbt_lem :
      (is : List ParticipantInput) (outputs : List ParticipantOutput) (d share : ℕ)
      → create_psbt x is (coinjoin_tx x is outputs d share)
        ≡ ok (record { unsigned_tx = coinjoin_tx x is outputs d share; inputs = map utxo_input is })
  unfolding create_psbt coinjoin_tx
  create_psbt_lem is outputs d share = rw (
    creation.created (coinjoin_tx x is outputs d share) (tx_input-IsUnsigned is),
    attach_utxos-blank is,
  )

  -- With the funds, the build returns the canonical PSBT.
  pub build-Funded :
      (inputs : List ParticipantInput) (outputs : List ParticipantOutput) (d r : ℕ) (o : ScriptType)
      → inputs ≢ []
      → Funded (add64 d (round_fee_share inputs o r)) inputs
      → build_coinjoin_psbt x inputs outputs d r o
        ≡ ok (canonical_psbt x inputs outputs d (round_fee_share inputs o r))
  unfolding build_coinjoin_psbt
  build-Funded [] outputs d r o ne h = absurd (ne refl)
  build-Funded (i ∷ is) outputs d r o ne h =
      let share = round_fee_share (i ∷ is) o r in
      rw (Funded-check_funds d share (i ∷ is) h)
        (create_psbt_lem (sort_inputs x (i ∷ is)) outputs d share)

  -- And it returns nothing else: a build that succeeds had the funds.
  pub build-eq-ok :
      (inputs : List ParticipantInput) (outputs : List ParticipantOutput) (d r : ℕ) (o : ScriptType)
      {p : Psbt}
      → build_coinjoin_psbt x inputs outputs d r o ≡ ok p
      → (inputs ≢ [])
        × Funded (add64 d (round_fee_share inputs o r)) inputs
        × (p ≡ canonical_psbt x inputs outputs d (round_fee_share inputs o r))
  unfolding build_coinjoin_psbt
  build-eq-ok [] outputs d r o h = absurd (cc)
  build-eq-ok (i ∷ is) outputs d r o h =
      let share = round_fee_share (i ∷ is) o r in
      let (_, checked, created) = >>=-eq-ok (check_funds d share (i ∷ is)) _ h in
      (
        (λ e. cc),
        check_funds-Funded d share (i ∷ is) checked,
        cc (created, create_psbt_lem (sort_inputs x (i ∷ is)) outputs d share),
      )

pub quorum-builds :
    (x : External)
    → PsbtCreation x
    → (bip : BipConfig) (inputs : List ParticipantInput) (outputs : List ParticipantOutput)
      (d m r : ℕ) {est : ℕ}
    → 1 ≤ m
    → m ≤ length inputs
    → 1 ≤ r
    → (10 + 177 * length inputs) * r < 2 ^ 64
    → Allowed bip inputs
    → estimate_fee_share bip m r ≡ some est
    → d + est < 2 ^ 64
    → Funded (d + est) inputs
    → build_coinjoin_psbt x inputs outputs d r bip.output_script_type
      ≡ ok (canonical_psbt x inputs outputs d (round_fee_share inputs bip.output_script_type r))
quorum-builds x creation bip inputs outputs d m r quorum reached rate fits allowed estimated room
      funds =
    let share = round_fee_share inputs bip.output_script_type r in
    let le = share-le-estimate bip inputs m r quorum reached rate fits allowed estimated in
    let e = add64-eq d share (omega arith) in
    build-Funded x creation inputs outputs d r bip.output_script_type (nonempty inputs reached)
      (rw e (All-imp (λ i h. omega arith) inputs funds))
  where
    nonempty : (is : List ParticipantInput) → m ≤ length is → is ≢ []
    nonempty [] h e = omega arith
    nonempty (i ∷ is) h e = cc
