-- ===== src/Tests/Starts.antt =====
-- The start of the coordinator, twice, and a client that comes too often.
use blindjoin.Coordinator.Monitor.{fire}
use blindjoin.Prelude.Dict.{get, insert}
use blindjoin.Coordinator.Config.{validate}
use blindjoin.Prelude.{ℕ, ◌≡◌, refl, true, false, Option, none, some, [], ◌∷◌, ok, arith}
use blindjoin.Prelude.Eq.{codes}
use blindjoin.Coordinator.State.{AppState, answer}
use blindjoin.Coordinator.Round.State.{signing, new_idle}
use blindjoin.Coordinator.Round.Blame.{
  trim_start, trim_end, parse_line, keep_unexpired, load_line, compact_ban_file,
  load_unexpired_entries, BanFile, hash_utxo_str, is_banned,
}
use blindjoin.Coordinator.Api.Limits.{build_rate_limit_layers}
use blindjoin.Coordinator.Discovery.{published}
use blindjoin.Coordinator.System.{Site, expires}
use blindjoin.Coordinator.Startup.{
  compacted, load_bans, startup_health_check, Surroundings, Booted, boot,
}
use blindjoin.Coordinator.Startup.Restart.{begins, goes, restart-banned}
use blindjoin.Tests.Sample.{sample, sample_cfg}
use blindjoin.Tests.Codec.{wired_json}
use blindjoin.Tests.Bans.{framed, framed_json, framed_laws}

-- A layer is its period and its burst.
abbrev finish : ℕ → ℕ → Option (ℕ × ℕ)
finish period burst = some (period, burst)

-- One ban, until 900.
abbrev ban_file : BanFile
ban_file =
    framed
      (record { utxo_hash = hash_utxo_str sample (codes "1:0"); banned_at = 100; expires_at = 900 })
    ∷ []

abbrev found : Surroundings ℕ
found = record {
  getblockcount = answer 5;
  key_file = some 3;
  random_key = 4;
  key_written = true;
  publisher_built = true;
  ban_file = some ban_file;
  compacts = true;
  onion = some (codes "a.onion");
  debug_assertions = false;
  allow_clearnet = none;
  binds = true;
}

abbrev here : Site
here = record { cfg = sample_cfg; wire = wired_json; ban_json = framed_json; writable = λ u. true }

abbrev banned : AppState
banned = record {
  round = new_idle 7;
  ban_list =
      (hash_utxo_str sample (codes "1:0"), record { banned_at = 100; expires_at = 900 }) ∷ [];
  ban_file = ban_file;
  blame_round_count = 0;
  round_paused_until = 0;
}

abbrev served : Booted ℕ (ℕ × ℕ)
served = record {
  state = banned;
  keypair = 3;
  limits = record { reads_layer = (1000, 60); writes_layer = (1000, 60) };
  public_addr = codes "a.onion";
  packet = published sample_cfg (codes "a.onion") (codes "idle");
}

boots_once : boot finish framed_json 150 7 sample_cfg found ≡ ok served
unfolding boot validate startup_health_check build_rate_limit_layers load_bans compacted
    load_unexpired_entries compact_ban_file load_line keep_unexpired parse_line trim_end trim_start
    hash_utxo_str insert
boots_once = refl

boots_again : boot finish framed_json 200 7 sample_cfg found ≡ ok served
unfolding boot validate startup_health_check build_rate_limit_layers load_bans compacted
    load_unexpired_entries compact_ban_file load_line keep_unexpired parse_line trim_end trim_start
    hash_utxo_str insert
boots_again = refl

left_file : found.ban_file ≡ some banned.ban_file
left_file = refl

restart-banned_example : is_banned sample banned.ban_list (codes "1:0") 300 ≡ true
unfolding is_banned fire new_idle get
restart-banned_example =
    restart-banned finish sample here framed_laws (λ u. refl) 150 7 found {booted = served}
      boots_once {a = banned} (goes begins (expires 160 8 signing 7 banned)) 200 7 sample_cfg found
      {booted' = served} (omega arith) left_file boots_again (codes "1:0") 300 (omega arith) refl
