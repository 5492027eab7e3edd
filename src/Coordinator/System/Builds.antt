-- ===== src/Coordinator/System/Builds.antt =====
-- In Signing the transaction can be built (coordinator/src/round/signing.rs, coordinator/src/api/handlers.rs).
use blindjoin.Prelude.{
  ℕ, ◌+◌, ◌*◌, ◌^◌, ◌≡◌, ◌≤◌, ◌<◌, some, ok, List, [], ◌∷◌, All, length, add64, add64-eq, arith,
  refl, sym, subst,
}
use blindjoin.Prelude.Eq.{Text}
use blindjoin.Prelude.Dict.{values, length-values}
use blindjoin.External.{External, Network, TxidText, PsbtCreation, Psbt}
use blindjoin.Coordinator.Config.{CoordinatorConfig}
use blindjoin.Coordinator.Config.Valid.{Valid}
use blindjoin.Coordinator.State.{AppState}
use blindjoin.Coordinator.Fee.{estimate_fee_share}
use blindjoin.Coordinator.Fee.Bounds.{mul_mono_left}
use blindjoin.Coordinator.Tx.{round_fee_share, ParticipantInput, ParticipantOutput}
use blindjoin.Coordinator.Tx.Share.{Allowed}
use blindjoin.Coordinator.Tx.Funds.{Funded}
use blindjoin.Coordinator.Tx.Build.{canonical_psbt, quorum-builds}
use blindjoin.Coordinator.Round.State.{
  signing, RegisteredInput, RegisteredOutput, RoundStateInner, RoundState, new_idle,
}
use blindjoin.Coordinator.Round.Signing.{
  parse_address_to_script, participant_input, participant_inputs, participant_outputs,
  build_canonical_psbt,
}
use blindjoin.Coordinator.System.{Site, Reach}
use blindjoin.Coordinator.System.Wf.{InputOk, OutputOk, Running, Stage, Wf, rests, runs}
use blindjoin.Coordinator.System.Reachable.{reachable-Wf}

module _ (x : External) (cfg : CoordinatorConfig) (network : Network) (round_id : Text) where
  -- The participants that good inputs give.
  abbrev Participants : ℕ → List RegisteredInput → Type 0
  Participants est regs =
      (is : List ParticipantInput) × (participant_inputs x network regs round_id ≡ ok is)
      × (length is ≡ length regs)
      × Allowed cfg.bip is
      × Funded (add64 cfg.coordinator.denomination_sats est) is

  inputs-Participants :
      (est : ℕ)
      → estimate_fee_share cfg.bip cfg.coordinator.min_participants
          cfg.coordinator.fee_rate_sat_per_vbyte
        ≡ some est
      → (regs : List RegisteredInput) → All (InputOk x cfg network) regs
      → Participants est regs
  unfolding participant_inputs participant_input parse_address_to_script
  inputs-Participants est e [] h = ([], refl, refl, tt, tt)
  inputs-Participants est e (reg ∷ regs) (good, rest) =
      let (is, read, long, allowed, funded) = inputs-Participants est e regs rest in
      let i : ParticipantInput = record {
        outpoint = good.outpoint;
        value_sats = reg.value_sats;
        script_pubkey = reg.script_pubkey;
        change_address = good.change_script;
        script_type = reg.script_type;
      } in
      let same : good.estimate ≡ est = cc (good.estimated, e) in
      (
        i ∷ is,
        rw (good.parsed, good.change, read),
        omega (arith, long),
        (good.allowed, allowed),
        (rw (sym same) good.funded, funded),
      )

  outputs-ok :
      (outs : List RegisteredOutput)
      → All (OutputOk x cfg network) outs
      → (os : List ParticipantOutput) × (participant_outputs x network outs round_id ≡ ok os)
  unfolding participant_outputs parse_address_to_script
  outputs-ok [] h = ([], refl)
  outputs-ok (out ∷ outs) (good, rest) =
      let (os, read) = outputs-ok outs rest in
      (record { script_pubkey = good.script } ∷ os, rw (good.address, read))

-- The estimate of the fee, and what keeps the arithmetic in 64 bits for rounds of at most a hundred inputs.
pub record FeesFit (cfg : CoordinatorConfig) : Type 0 where
  pub rate_fits : 17710 * cfg.coordinator.fee_rate_sat_per_vbyte < 2 ^ 64
  pub estimate : ℕ
  pub estimated :
      estimate_fee_share cfg.bip cfg.coordinator.min_participants
        cfg.coordinator.fee_rate_sat_per_vbyte
      ≡ some estimate
  pub price_fits : cfg.coordinator.denomination_sats + estimate < 2 ^ 64

module _ (x : External) (creation : PsbtCreation x) (cfg : CoordinatorConfig) (valid : Valid cfg)
    (fits : FeesFit cfg) (round_id : Text) where
  inner-builds :
      (inner : RoundStateInner) (n : ℕ)
      → Running x cfg valid.network n inner
      → cfg.coordinator.min_participants ≤ length inner.registered_inputs
      → (psbt : Psbt) × (build_canonical_psbt x inner cfg round_id ≡ ok psbt)
  unfolding build_canonical_psbt
  inner-builds inner n run quorum =
      let c = cfg.coordinator in
      let regs = values inner.registered_inputs in
      let size = length-values inner.registered_inputs in
      let est = fits.estimate in
      let e = fits.estimated in
      let (is, read, long, allowed, funded) =
        inputs-Participants x cfg valid.network round_id est e regs run.inputs in
      let (os, shown) =
        outputs-ok x cfg valid.network round_id inner.registered_outputs run.outputs in
      let small =
        mul_mono_left (10 + 177 * length is) 17710 c.fee_rate_sat_per_vbyte
          (omega (arith, long, size, run.bounded, valid.cap)) in
      let room = fits.price_fits in
      let built =
        quorum-builds x creation cfg.bip is os c.denomination_sats c.min_participants
          c.fee_rate_sat_per_vbyte (omega (arith, valid.quorum)) (omega (arith, long, size, quorum))
          valid.rate (omega (arith, small, fits.rate_fits)) allowed e room
          (rw (sym (add64-eq c.denomination_sats est room)) funded) in
      let psbt =
        canonical_psbt x is os c.denomination_sats
          (round_fee_share is cfg.bip.output_script_type c.fee_rate_sat_per_vbyte) in
      (psbt, rw (valid.known, read, shown, built))

  signing-Wf-builds :
      {s : RoundState}
      → Wf x cfg valid.network s
      → s.phase ≡ signing
      → (inner : RoundStateInner) × (psbt : Psbt) × (s.inner ≡ some inner)
        × (build_canonical_psbt x inner cfg round_id ≡ ok psbt)
  unfolding new_idle
  signing-Wf-builds (rests f) p = absurd (cc)
  signing-Wf-builds (runs s inner here run st) p =
      let staged : Stage x cfg valid.network signing inner =
        subst (λ ph. Stage x cfg valid.network ph inner) p st in
      let (psbt, built) = inner-builds inner s.participant_count run staged.0 in
      (inner, psbt, here, built)

-- Whenever the coordinator is in Signing, the canonical transaction of the round can be built: with a
-- configuration that validates and whose fees stay in 64 bits, and with texts of transaction identifiers
-- that read back and a PSBT made of every unsigned transaction, no round that was registered comes to
-- nothing for lack of funds or for an address or outpoint that does not parse.
pub signing-builds :
    (x : External)
    → TxidText x
    → PsbtCreation x
    → (site : Site) (valid : Valid site.cfg) → FeesFit site.cfg
    → (round_id : Text) {a : AppState} → Reach x site a
    → a.round.phase ≡ signing
    → (inner : RoundStateInner) × (psbt : Psbt) × (a.round.inner ≡ some inner)
      × (build_canonical_psbt x inner site.cfg round_id ≡ ok psbt)
signing-builds x txids creation site valid fits round_id reach p =
    signing-Wf-builds x creation site.cfg valid fits round_id
      (reachable-Wf x txids site valid reach) p
