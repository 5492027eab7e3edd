-- ===== src/Coordinator/Api/KnownNetwork.antt =====
-- The network of a configuration that validates (coordinator/src/api/handlers.rs).
use blindjoin.Prelude.{◌≡◌, ok}
use blindjoin.Coordinator.Config.{CoordinatorConfig}
use blindjoin.Coordinator.Config.Valid.{Valid}
use blindjoin.Coordinator.Api.{network_of}

-- With it `parse_bitcoin_network` of handlers.rs does not panic.
pub network_of-eq :
    (cfg : CoordinatorConfig) (valid : Valid cfg) → network_of cfg ≡ ok valid.network
unfolding network_of
network_of-eq cfg valid = rw valid.known
