-- ===== src/Tests/Watch.antt =====
-- Runs of the monitor, of the end of a broadcast and of a verified signature.
use blindjoin.Prelude.{ℕ, Bool, ◌≡◌, refl, true, false, some, none, [], ◌∷◌, All}
use blindjoin.Prelude.Eq.{Text, codes, nat_eq, ◌==◌}
use blindjoin.External.{Psbt}
use blindjoin.Shared.Script.{script_type_eq}
use blindjoin.Coordinator.State.{AppState, Rpc, answer, failed}
use blindjoin.Coordinator.Round.State.{input_reg, broadcast, RoundState, new_idle}
use blindjoin.Coordinator.Round.Signing.{PreparedBroadcast}
use blindjoin.Coordinator.Round.Finalize.{Node, finalize_broadcast, revalidate_spent_inputs}
use blindjoin.Coordinator.Round.Finalize.Ends.{
  Spent, Outcome, revalidate_spent_inputs-Spent, finalize_broadcast_current,
}
use blindjoin.Tests.Sample.{sample, sample_cfg}
use blindjoin.Tests.Scenario.{sample_json}

-- Every coin is spent but those of the first transaction; nothing is accepted.
abbrev spent_unless_first : ℕ → Rpc Bool
spent_unless_first t = answer (t == 1)

abbrev refusing : Node
refusing = record {
  testmempoolaccept = λ t. answer (some false);
  sendrawtransaction = λ t. failed;
  is_output_unspent_including_mempool = λ o. spent_unless_first o.txid;
}

revalidate_spent_inputs-Spent_example :
    All
      (Spent sample refusing)
      (revalidate_spent_inputs sample refusing (codes "1:0" ∷ codes "2:7" ∷ []))
revalidate_spent_inputs-Spent_example =
    revalidate_spent_inputs-Spent sample refusing (codes "1:0" ∷ codes "2:7" ∷ [])

abbrev in_flight : RoundState
in_flight = record {
  phase = broadcast;
  round_id = 3;
  rsa_pubkey_hash = none;
  rsa_pubkey_der = none;
  participant_count = 2;
  inner = none;
}

abbrev flying : AppState
flying = record {
  round = in_flight;
  ban_list = [];
  ban_file = [];
  blame_round_count = 1;
  round_paused_until = 0;
}

abbrev ready : PreparedBroadcast
ready = record { tx_hex = codes "tx"; input_outpoints = codes "1:0" ∷ codes "2:7" ∷ [] }

abbrev writes : Text → Bool
writes u = true

finalize_broadcast_current_example :
    let b =
      (finalize_broadcast sample sample_json writes refusing 100 9 sample_cfg ready 3 flying).1 in
    (b.round ≡ new_idle 9)
    × Outcome sample sample_json writes refusing 100 9 sample_cfg ready 3 flying b
finalize_broadcast_current_example =
    finalize_broadcast_current sample sample_json writes refusing 100 9 sample_cfg ready 3 flying
      refl

abbrev registering : AppState
registering = record flying { round = record in_flight { phase = input_reg } }

abbrev one_coin : Psbt
one_coin = record {
  unsigned_tx = record { version = 2; lock_time = 0; input = []; output = [] };
  inputs =
      record {
        witness_utxo = some (record { value = 20000; script_pubkey = 0 ∷ 1 ∷ [] });
        final_script_sig = none;
        final_script_witness = none;
        partial_sigs = [];
        tap_key_sig = none;
      }
      ∷ [];
}
