-- ===== src/Tests/Rounds.antt =====
-- Runs of the handlers on the round of the scenario.
use blindjoin.Prelude.{◌≡◌, refl, some, ok, arith, add64, mul64}
use blindjoin.Prelude.Eq.{codes, bytes_eq}
use blindjoin.External.{Psbt}
use blindjoin.Coordinator.Config.{
  validate, validate_bip, allows, parse_bitcoin_network, allowed_set, allowed_of,
}
use blindjoin.Coordinator.Config.Valid.{Valid, validate-Valid}
use blindjoin.Coordinator.Fee.{max?, script_input_vbytes, script_output_vbytes, estimate_fee_share}
use blindjoin.Coordinator.Round.State.{RoundStateInner}
use blindjoin.Coordinator.Round.Signing.{build_canonical_psbt}
use blindjoin.Coordinator.System.Wf.{Wf}
use blindjoin.Coordinator.System.Reachable.{reachable-Wf}
use blindjoin.Coordinator.System.Builds.{FeesFit, signing-builds}
use blindjoin.Tests.Sample.{sample, sample_txids, sample_creation, sample_cfg}
use blindjoin.Tests.Scenario.{sample_site, state5, state5-Reach, all_registered}

pub sample_valid : Valid sample_cfg
unfolding validate validate_bip allows parse_bitcoin_network
sample_valid = validate-Valid sample_cfg refl

sample_fits : FeesFit sample_cfg
unfolding estimate_fee_share max? script_input_vbytes script_output_vbytes allowed_set allowed_of
    add64 mul64
sample_fits = record {
  rate_fits = omega arith;
  estimate = 158;
  estimated = refl;
  price_fits = omega arith;
}

reachable-Wf_example : Wf sample sample_cfg sample_valid.network state5.round
reachable-Wf_example = reachable-Wf sample sample_txids sample_site sample_valid state5-Reach

signing-builds_example :
    (inner : RoundStateInner) × (psbt : Psbt) × (state5.round.inner ≡ some inner)
    × (build_canonical_psbt sample inner sample_cfg (codes "3") ≡ ok psbt)
signing-builds_example =
    signing-builds sample sample_txids sample_creation sample_site sample_valid sample_fits
      (codes "3") state5-Reach all_registered
