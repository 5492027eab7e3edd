-- ===== src/Coordinator/Discovery.antt =====
-- coordinator/src/discovery/pkarr_pub.rs and coordinator/src/run.rs: the record that is published.
use blindjoin.Prelude.{ℕ, List, [], ◌∷◌, ◌++◌, map}
use blindjoin.Prelude.Eq.{Text, codes}
use blindjoin.Shared.Script.{ScriptType, p2wpkh, p2tr, p2sh_p2wpkh}
use blindjoin.Coordinator.Config.{CoordinatorConfig, supported}

-- The wire form of a script type.
abbrev pub wire_name : ScriptType → Text
wire_name p2wpkh = codes "p2wpkh"
wire_name p2tr = codes "p2tr"
wire_name p2sh_p2wpkh = codes "p2sh-p2wpkh"

-- `join(",")`
unfoldable pub join_comma : List Text → Text
join_comma [] = []
join_comma (s ∷ []) = s
join_comma (s ∷ t ∷ rest) = s ++ (b',' ∷ join_comma (t ∷ rest))

-- The fields of the JSON text.
pub record CoordinatorRecord : Type 0 where
  pub v : Text
  pub onion : Text
  pub n : Text
  pub ds : ℕ
  pub mp : ℕ
  pub st : Text
  pub sst : Text
  pub ost : Text

abbrev pub build_coordinator_packet : Text → ℕ → ℕ → Text → List Text → Text → CoordinatorRecord
build_coordinator_packet addr denomination_sats min_participants status types output_type = record {
  v = codes "0.2.0";
  onion = addr;
  n = codes "signet";
  ds = denomination_sats;
  mp = min_participants;
  st = status;
  sst = join_comma types;
  ost = output_type;
}

unfoldable pub published : CoordinatorConfig → Text → Text → CoordinatorRecord
published cfg addr status =
    build_coordinator_packet addr cfg.coordinator.denomination_sats cfg.coordinator.min_participants
      status (map wire_name (supported cfg.bip)) (wire_name cfg.bip.output_script_type)
