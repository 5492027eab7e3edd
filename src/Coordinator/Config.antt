-- ===== src/Coordinator/Config.antt =====
-- coordinator/src/config.rs: the sections of the configuration and their validation at startup.
pub mod Valid
pub mod Lists
pub mod Defaults
use blindjoin.Prelude.{
  ℕ, Bool, ◌&&◌, ◌||◌, List, [], ◌∷◌, ◌++◌, ltb, leb, if◌then◌else◌, Result, ok, err, ◌>>=◌, ◌>>◌,
  ensure, sat_add64, sat_mul64,
}
use blindjoin.Prelude.Eq.{Text, ◌==◌, codes, bytes_eq}
use blindjoin.External.{Network, bitcoin, testnet, signet, regtest}
use blindjoin.Shared.Script.{ScriptType, p2wpkh, p2tr, p2sh_p2wpkh}

pub data ConfigError : Type 0 where
  unknown_network : Text → ConfigError
  min_participants_low min_above_max max_participants_high : ConfigError
  denomination_dust fee_rate_zero zero_timeout : ConfigError
  info_rate_range writes_rate_range : ConfigError
  no_connections zero_request_timeout : ConfigError
  no_script_type output_type_not_allowed : ConfigError

unfoldable pub parse_bitcoin_network : Text → Result ConfigError Network
parse_bitcoin_network s =
    if s == codes "mainnet" || s == codes "bitcoin"
    then ok bitcoin
    else if s == codes "testnet" || s == codes "testnet4"
    then ok testnet
    else if s == codes "signet"
    then ok signet
    else if s == codes "regtest"
    then ok regtest
    else err (unknown_network s)

pub record NetworkConfig : Type 0 where
  pub bitcoin_network : Text
  pub bitcoin_rpc_url : Text
  pub bitcoin_rpc_user : Text
  pub bitcoin_rpc_pass : Text

pub record CoordinatorSection : Type 0 where
  pub denomination_sats : ℕ  -- u64
  pub min_participants : ℕ  -- u32
  pub max_participants : ℕ  -- u32
  pub round_timeout_input_reg_secs : ℕ  -- u64
  pub round_timeout_output_reg_secs : ℕ  -- u64
  pub round_timeout_signing_secs : ℕ  -- u64
  pub blame_ban_duration_secs : ℕ  -- u64
  pub fee_rate_sat_per_vbyte : ℕ  -- u64
  pub listen_addr : Text
  pub ban_file_path : Text
  pub rate_limit_info_per_min : ℕ  -- u32
  pub rate_limit_writes_per_min : ℕ  -- u32
  pub request_timeout_secs : ℕ  -- u64
  pub max_concurrent_connections : ℕ  -- u32
  pub tor_mode : Bool
  pub blame_full_abort_backoff_secs : ℕ  -- u64

pub record DiscoveryConfig : Type 0 where
  pub pkarr_key_file : Text
  pub heartbeat_interval_secs : ℕ  -- u64
  pub coordinator_public_addr : Text

pub record BipConfig : Type 0 where
  pub allow_p2wpkh : Bool
  pub allow_p2tr : Bool
  pub allow_p2sh_p2wpkh : Bool
  pub output_script_type : ScriptType

unfoldable pub allows : BipConfig → ScriptType → Bool
allows c p2wpkh = c.allow_p2wpkh
allows c p2tr = c.allow_p2tr
allows c p2sh_p2wpkh = c.allow_p2sh_p2wpkh

-- `if b { v.push(st) }`
abbrev pub push_if : Bool → ScriptType → List ScriptType → List ScriptType
push_if b st v = if b then v ++ st ∷ [] else v

unfoldable pub supported : BipConfig → List ScriptType
supported c =
    push_if c.allow_p2wpkh p2wpkh
      (push_if c.allow_p2tr p2tr (push_if c.allow_p2sh_p2wpkh p2sh_p2wpkh []))

-- The `filter_map` over the array of flags and types.
unfoldable pub allowed_of : List (Bool × ScriptType) → List ScriptType
allowed_of [] = []
allowed_of ((allowed, st) ∷ rest) =
    let tail = allowed_of rest in if allowed then st ∷ tail else tail

unfoldable pub allowed_set : BipConfig → List ScriptType
unfolding allowed_of
allowed_set c =
    allowed_of
      ((c.allow_p2wpkh, p2wpkh) ∷ (c.allow_p2tr, p2tr) ∷ (c.allow_p2sh_p2wpkh, p2sh_p2wpkh) ∷ [])

unfoldable pub validate_bip : BipConfig → Result ConfigError (Unit {0})
unfolding allows
validate_bip c = do
  ensure (c.allow_p2wpkh || (c.allow_p2tr || c.allow_p2sh_p2wpkh)) no_script_type
  ensure (allows c c.output_script_type) output_type_not_allowed

pub record CoordinatorConfig : Type 0 where
  pub network : NetworkConfig
  pub coordinator : CoordinatorSection
  pub discovery : DiscoveryConfig
  pub bip : BipConfig

unfoldable pub validate : CoordinatorConfig → Result ConfigError (Unit {0})
unfolding parse_bitcoin_network validate_bip
validate cfg = do
  network ← parse_bitcoin_network cfg.network.bitcoin_network
  let c = cfg.coordinator
  ensure (leb 2 c.min_participants) min_participants_low
  ensure (leb c.min_participants c.max_participants) min_above_max
  ensure (leb c.max_participants 100) max_participants_high
  ensure (leb 546 c.denomination_sats) denomination_dust
  ensure (leb 1 c.fee_rate_sat_per_vbyte) fee_rate_zero
  ensure
      (leb 1 c.round_timeout_input_reg_secs
        && (leb 1 c.round_timeout_output_reg_secs && leb 1 c.round_timeout_signing_secs))
      zero_timeout
  ensure (leb 1 c.rate_limit_info_per_min && leb c.rate_limit_info_per_min 60000) info_rate_range
  ensure (leb 1 c.rate_limit_writes_per_min && leb c.rate_limit_writes_per_min 60000)
      writes_rate_range
  ensure (leb 1 c.max_concurrent_connections) no_connections
  ensure (leb 1 c.request_timeout_secs) zero_request_timeout
  validate_bip cfg.bip

unfoldable pub broadcast_watchdog_secs : CoordinatorConfig → ℕ
broadcast_watchdog_secs cfg =
    let t = sat_add64 30 (sat_mul64 15 cfg.coordinator.max_participants) in
    if ltb 3600 t then 3600 else t
