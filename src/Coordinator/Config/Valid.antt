-- ===== src/Coordinator/Config/Valid.antt =====
-- What a configuration that validates satisfies (coordinator/src/config.rs).
use blindjoin.Prelude.{◌≡◌, ◌≤◌, true, ok, arith, >>=-eq-ok}
use blindjoin.External.{Network}
use blindjoin.Coordinator.Config.{
  CoordinatorConfig, parse_bitcoin_network, allows, validate, validate_bip,
}

pub record Valid (cfg : CoordinatorConfig) : Type 0 where
  pub network : Network
  pub known : parse_bitcoin_network cfg.network.bitcoin_network ≡ ok network
  pub quorum : 2 ≤ cfg.coordinator.min_participants
  pub room : cfg.coordinator.min_participants ≤ cfg.coordinator.max_participants
  pub cap : cfg.coordinator.max_participants ≤ 100
  pub above_dust : 546 ≤ cfg.coordinator.denomination_sats
  pub rate : 1 ≤ cfg.coordinator.fee_rate_sat_per_vbyte
  pub output_allowed : allows cfg.bip cfg.bip.output_script_type ≡ true

pub validate-Valid : (cfg : CoordinatorConfig) → validate cfg ≡ ok tt → Valid cfg
unfolding validate validate_bip
validate-Valid cfg h =
    let (network, known, h1) = >>=-eq-ok (parse_bitcoin_network cfg.network.bitcoin_network) _ h in
    record {
      network = network;
      known = known;
      quorum = ground arith;
      room = ground arith;
      cap = ground arith;
      above_dust = ground arith;
      rate = ground arith;
      output_allowed = ground arith;
    }
