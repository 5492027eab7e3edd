-- ===== src/Tests/Adverts.antt =====
-- Runs of the discovery of a coordinator.
use blindjoin.Prelude.{◌≡◌, refl, Option, none, some, [], ◌∷◌, ◌++◌, ok, if◌then◌else◌}
use blindjoin.Prelude.Eq.{Text, codes, ◌==◌, nat_eq, bytes_eq}
use blindjoin.Shared.Script.{ScriptType, p2wpkh, p2tr, p2sh_p2wpkh}
use blindjoin.Coordinator.Config.{supported}
use blindjoin.Coordinator.Discovery.{wire_name, published}
use blindjoin.Client.Discover.{
  CoordinatorInfo, BlindjoinRecord, decoded, capabilities_from_record_v, compatible,
  discover_coordinator, legacy, url_of,
}
use blindjoin.Client.Discover.Compatible.{
  WireNames, Compatible, advertised, discover_coordinator-Compatible, published-capabilities,
}
use blindjoin.Tests.Sample.{sample_cfg}

abbrev in_quotes : Text → Text
in_quotes s = b'"' ∷ s ++ (b'"' ∷ [])

-- The three names in quotes, and nothing else.
abbrev read_name : Text → Option ScriptType
read_name s =
    if s == in_quotes (codes "p2wpkh")
    then some p2wpkh
    else if s == in_quotes (codes "p2tr")
    then some p2tr
    else if s == in_quotes (codes "p2sh-p2wpkh")
    then some p2sh_p2wpkh
    else none

read_name_each : (st : ScriptType) → read_name (b'"' ∷ wire_name st ++ (b'"' ∷ [])) ≡ some st
read_name_each p2wpkh = refl
read_name_each p2tr = refl
read_name_each p2sh_p2wpkh = refl

read_name_names : WireNames read_name
read_name_names = record { read = read_name_each }

published-capabilities_example :
    let r = decoded (published sample_cfg (codes "a.onion") (codes "idle")) in
    capabilities_from_record_v read_name r.version r.sst r.ost ≡ ok (advertised sample_cfg)
unfolding supported
published-capabilities_example =
    published-capabilities read_name read_name_names sample_cfg (codes "a.onion") (codes "idle")
      (λ e. cc)

abbrev old_record : BlindjoinRecord
old_record = record { version = codes "0.1.0"; onion = codes "a.onion"; sst = none; ost = none }

abbrev old_info : CoordinatorInfo
old_info = record {
  coordinator_url = url_of (codes "a.onion");
  capabilities = legacy (codes "0.1.0");
}

discover_coordinator-Compatible_example :
    (found : BlindjoinRecord) × (some (some old_record) ≡ some (some found))
    × Compatible read_name found p2wpkh old_info
unfolding discover_coordinator compatible capabilities_from_record_v
discover_coordinator-Compatible_example =
    discover_coordinator-Compatible read_name (some (some old_record)) p2wpkh {info = old_info} refl
