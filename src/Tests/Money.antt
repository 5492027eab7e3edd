-- ===== src/Tests/Money.antt =====
-- Runs of the fee and of the transaction.
use mathlib.Core.List.{Permᴰ}
use blindjoin.Coordinator.Fee.{script_output_vbytes, script_input_vbytes}
use blindjoin.Prelude.{
  sub64, ap, sum64, sub64, mul64, ◌≡◌, refl, true, List, [], ◌∷◌, Result, ok, arith, add64,
}
use blindjoin.External.{OutPoint, Psbt}
use blindjoin.Shared.Script.{p2wpkh, p2tr}
use blindjoin.Coordinator.Tx.{
  change_outputs, change_outputs, coinjoin_tx, sort_inputs, attach_utxos, create_psbt, input_vbytes,
  estimated_vsize, check_funds, ParticipantInput, ParticipantOutput, TxError, round_fee_share,
  build_coinjoin_psbt,
}
use blindjoin.Coordinator.Tx.Canonical.{build-perm}
use blindjoin.Tests.Sample.{sample, sample_order}
use blindjoin.Tests.Scenario.{is_ok, value_or, ok_value}

abbrev ann : ParticipantInput
ann = record {
  outpoint = record { txid = 1; vout = 0 };
  value_sats = 20000;
  script_pubkey = 0 ∷ 1 ∷ [];
  change_address = 5 ∷ [];
  script_type = p2wpkh;
}

abbrev bob : ParticipantInput
bob = record {
  outpoint = record { txid = 2; vout = 7 };
  value_sats = 10200;
  script_pubkey = 81 ∷ 2 ∷ [];
  change_address = 6 ∷ [];
  script_type = p2tr;
}

abbrev pair_outputs : List ParticipantOutput
pair_outputs = record { script_pubkey = 65 ∷ [] } ∷ record { script_pubkey = 66 ∷ [] } ∷ []

abbrev try_build : Result TxError Psbt
try_build = build_coinjoin_psbt sample (ann ∷ bob ∷ []) pair_outputs 10000 1 p2wpkh

abbrev no_psbt : Psbt
no_psbt = record {
  unsigned_tx = record { version = 0; lock_time = 0; input = []; output = [] };
  inputs = [];
}

abbrev built : Psbt
built = value_or no_psbt try_build

build_passes : is_ok try_build ≡ true
unfolding build_coinjoin_psbt check_funds add64 round_fee_share mul64 estimated_vsize sum64
    input_vbytes script_input_vbytes script_output_vbytes create_psbt attach_utxos sort_inputs
    coinjoin_tx
build_passes = refl

swapped : Permᴰ (ann ∷ bob ∷ []) (bob ∷ ann ∷ [])
swapped = Permᴰ.swap refl refl

build-perm_example :
    build_coinjoin_psbt sample (bob ∷ ann ∷ []) pair_outputs 10000 1 p2wpkh ≡ ok built
build-perm_example =
    build-perm sample sample_order (ann ∷ bob ∷ []) (bob ∷ ann ∷ []) pair_outputs 10000 1 p2wpkh
      swapped (((λ e. omega (arith, ap (λ (o : OutPoint). o.txid) e)), tt), (tt, tt))
      (ok_value no_psbt try_build build_passes)
