-- ===== src/Coordinator/Config/Defaults.antt =====
-- The defaults of coordinator/src/config.rs, for the fields and sections that a file leaves out.
use blindjoin.Prelude.{◌≡◌, refl, Bool, true, false, ok}
use blindjoin.Prelude.Eq.{codes}
use blindjoin.Shared.Script.{ScriptType, p2wpkh}
use blindjoin.Coordinator.Config.{
  DiscoveryConfig, BipConfig, CoordinatorConfig, parse_bitcoin_network, allows, validate_bip,
  validate,
}

abbrev pub default_true : Bool
default_true = true

abbrev pub default_output_script_type : ScriptType
default_output_script_type = p2wpkh

abbrev pub default_bip : BipConfig
default_bip = record {
  allow_p2wpkh = default_true;
  allow_p2tr = default_true;
  allow_p2sh_p2wpkh = default_true;
  output_script_type = default_output_script_type;
}

abbrev pub default_discovery : DiscoveryConfig
default_discovery = record {
  pkarr_key_file = codes "coordinator_pkarr.key";
  heartbeat_interval_secs = 300;
  coordinator_public_addr = codes "127.0.0.1:8080";
}

abbrev pub with_defaults : CoordinatorConfig
with_defaults = record {
  network = record {
    bitcoin_network = codes "signet";
    bitcoin_rpc_url = codes "http://127.0.0.1:38332";
    bitcoin_rpc_user = codes "blindjoin";
    bitcoin_rpc_pass = codes "blindjoin";
  };
  coordinator = record {
    denomination_sats = 1000000;
    min_participants = 3;
    max_participants = 20;
    round_timeout_input_reg_secs = 60;
    round_timeout_output_reg_secs = 60;
    round_timeout_signing_secs = 30;
    blame_ban_duration_secs = 3600;
    fee_rate_sat_per_vbyte = 2;
    listen_addr = codes "127.0.0.1:8080";
    ban_file_path = codes "ban_list.jsonl";
    rate_limit_info_per_min = 600;
    rate_limit_writes_per_min = 120;
    request_timeout_secs = 30;
    max_concurrent_connections = 256;
    tor_mode = false;
    blame_full_abort_backoff_secs = 300;
  };
  discovery = default_discovery;
  bip = default_bip;
}

-- The defaults are a configuration that the coordinator starts with.
pub validate-with_defaults : validate with_defaults ≡ ok tt
unfolding validate parse_bitcoin_network validate_bip allows
validate-with_defaults = refl
