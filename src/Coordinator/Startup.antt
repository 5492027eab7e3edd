-- ===== src/Coordinator/Startup.antt =====
-- coordinator/src/run.rs: the start of the coordinator, up to the first published record.
pub mod Sound
pub mod Kept
pub mod Steps
pub mod Restart
use blindjoin.Prelude.{
  ℕ, Bool, true, false, not, ◌||◌, Option, none, some, List, [], leb, if◌then◌else◌, Result, ok,
  err, ◌>>=◌, ◌>>◌, ok_or, ensure, map_err,
}
use blindjoin.Prelude.Eq.{Text, codes, ◌==◌, nat_eq, bytes_eq}
use blindjoin.Coordinator.Config.{ConfigError, CoordinatorConfig, validate}
use blindjoin.Coordinator.State.{AppState, Rpc, answer, failed}
use blindjoin.Coordinator.Round.Blame.{
  Json, BanList, BanFile, load_unexpired_entries, load_all, compact_ban_file,
}
use blindjoin.Coordinator.Api.Limits.{Panic, RateLimitLayers, build_rate_limit_layers}
use blindjoin.Coordinator.Discovery.{CoordinatorRecord, published}
use blindjoin.Coordinator.System.{started}

pub data StartupError : Type 0 where
  invalid : ConfigError → StartupError
  unreachable no_blocks no_key no_publisher no_onion clearnet_refused not_bound : StartupError
  panicked : Panic → StartupError

-- What the process finds: the node, the key file and whether a new key can be written, the ban file
-- (none when it cannot be read) and whether it can be replaced, the address of the onion service,
-- the kind of the build, a variable of the environment, and whether the listener can be bound.
pub record Surroundings (K : Type 0) : Type 0 where
  pub getblockcount : Rpc ℕ
  pub key_file : Option K
  pub random_key : K
  pub key_written : Bool
  pub publisher_built : Bool
  pub ban_file : Option BanFile
  pub compacts : Bool
  pub onion : Option Text
  pub debug_assertions : Bool
  pub allow_clearnet : Option Text
  pub binds : Bool

unfoldable pub startup_health_check : Rpc ℕ → Result StartupError (Unit {0})
startup_health_check failed = err unreachable
startup_health_check (answer block_count) = ensure (not (block_count == 0)) no_blocks

-- A key that is there is never replaced.
unfoldable pub load_or_generate_keypair : {K : Type 0} → Option K → K → Bool → Result StartupError K
load_or_generate_keypair (some kp) random written = ok kp
load_or_generate_keypair none random written = do ensure written no_key; ok random

module _ (json : Json) (now : ℕ) where
  -- A file that cannot be read leaves the list empty.
  unfoldable pub load_bans : Option BanFile → BanList
  unfolding load_all
  load_bans none = []
  load_bans (some file) = load_all [] (load_unexpired_entries json now file)

  -- The file after the compaction, which may fail.
  unfoldable pub compacted : Bool → Option BanFile → BanFile
  compacted done none = []
  compacted done (some file) = if done then compact_ban_file json now file else file

-- The variable BLINDJOIN_ALLOW_CLEARNET.
abbrev pub acknowledged : Option Text → Bool
acknowledged none = false
acknowledged (some v) = v == codes "1"

-- The coordinator that has started.
pub record Booted (K Layer : Type 0) : Type 0 where
  pub state : AppState
  pub keypair : K
  pub limits : RateLimitLayers Layer
  pub public_addr : Text
  pub packet : CoordinatorRecord

module _ {Layer : Type 0} (finish : ℕ → ℕ → Option Layer) where
  -- `build_router_with_ban_list`, as far as it can fail.
  abbrev pub router_layers : CoordinatorConfig → Result StartupError (RateLimitLayers Layer)
  router_layers cfg = map_err panicked (build_rate_limit_layers finish cfg)

module _ {K Layer : Type 0} (finish : ℕ → ℕ → Option Layer) where
  abbrev pub tor_transport :
      CoordinatorConfig → Surroundings K → Result StartupError (RateLimitLayers Layer × Text)
  tor_transport cfg w = do
    limits ← router_layers finish cfg
    addr ← ok_or w.onion no_onion
    ok (limits, addr)

  abbrev pub clearnet_transport :
      CoordinatorConfig → Surroundings K → Result StartupError (RateLimitLayers Layer × Text)
  clearnet_transport cfg w = do
    ensure (w.debug_assertions || acknowledged w.allow_clearnet) clearnet_refused
    limits ← router_layers finish cfg
    ensure w.binds not_bound
    ok (limits, cfg.discovery.coordinator_public_addr)

  -- The limits of the router, and the address that it is reached by.
  unfoldable pub start_transport :
      CoordinatorConfig → Surroundings K → Result StartupError (RateLimitLayers Layer × Text)
  start_transport cfg w =
      if cfg.coordinator.tor_mode then tor_transport cfg w else clearnet_transport cfg w

  -- `run` before it parks. The fresh identifier is that of the first idle round.
  unfoldable pub boot :
      Json → ℕ → ℕ → CoordinatorConfig → Surroundings K → Result StartupError (Booted K Layer)
  unfolding load_or_generate_keypair start_transport
  boot json now fresh cfg w = do
    map_err invalid (validate cfg)
    startup_health_check w.getblockcount
    keypair ← load_or_generate_keypair w.key_file w.random_key w.key_written
    ensure w.publisher_built no_publisher
    (limits, public_addr) ← start_transport cfg w
    ok (record {
      state =
          started fresh (load_bans json now w.ban_file) (compacted json now w.compacts w.ban_file);
      keypair = keypair;
      limits = limits;
      public_addr = public_addr;
      packet = published cfg public_addr (codes "idle");
    })
