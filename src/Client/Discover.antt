-- ===== src/Client/Discover.antt =====
-- client/src/discover.rs: reading the record of a coordinator, and refusing one that does not fit.
pub mod Compatible
use blindjoin.Prelude.{
  ℕ, ◌||◌, Bool, true, false, not, Option, none, some, List, [], ◌∷◌, ◌++◌, any, take,
  if◌then◌else◌, Result, ok, err, ◌>>=◌, ◌>>◌, ok_or, ensure,
}
use blindjoin.Prelude.Eq.{Text, codes, ◌==◌, nat_eq, bytes_eq}
use blindjoin.Shared.Script.{ScriptType, p2wpkh, script_type_eq}
use blindjoin.Coordinator.Discovery.{CoordinatorRecord}

pub record CoordinatorCapabilities : Type 0 where
  pub record_version : Text
  pub is_legacy : Bool
  pub supported_script_types : List ScriptType
  pub output_script_type : ScriptType

pub record CoordinatorInfo : Type 0 where
  pub coordinator_url : Text
  pub capabilities : CoordinatorCapabilities

pub data DiscoveryError : Type 0 where
  not_found missing_onion malformed_record : DiscoveryError
  unsupported_script_type : ScriptType → List ScriptType → DiscoveryError
  unsupported_output_script_type : ScriptType → ScriptType → DiscoveryError

pub record BlindjoinRecord : Type 0 where
  pub version : Text
  pub onion : Text
  pub sst : Option Text
  pub ost : Option Text

-- What `parse_blindjoin_record` finds in the JSON text of a published record.
abbrev pub decoded : CoordinatorRecord → BlindjoinRecord
decoded r = record { version = r.v; onion = r.onion; sst = some r.sst; ost = some r.ost }

-- `split(',')`: the first piece, and the others.
unfoldable pub pieces : Text → Text × List Text
pieces [] = ([], [])
pieces (c ∷ cs) =
    let rest = pieces cs in if c == b',' then ([], rest.0 ∷ rest.1) else (c ∷ rest.0, rest.1)

abbrev pub split_comma : Text → List Text
split_comma s = (pieces s).0 ∷ (pieces s).1

abbrev pub has_one {ℓ} : {A : Type ℓ} → List A → Bool
has_one [] = false
has_one (a ∷ more) = true

abbrev pub legacy : Text → CoordinatorCapabilities
legacy record_version = record {
  record_version = record_version;
  is_legacy = true;
  supported_script_types = p2wpkh ∷ [];
  output_script_type = p2wpkh;
}

abbrev pub url_of : Text → Text
url_of onion = if take 4 onion == codes "http" then onion else codes "http://" ++ onion

-- `from_str` is `serde_json::from_str::<ScriptType>`.
module _ (from_str : Text → Option ScriptType) where
  unfoldable pub parse_script_type_token : Text → Result DiscoveryError ScriptType
  parse_script_type_token s = ok_or (from_str (b'"' ∷ s ++ (b'"' ∷ []))) malformed_record

  unfoldable pub parse_tokens : List Text → Result DiscoveryError (List ScriptType)
  unfolding parse_script_type_token
  parse_tokens [] = ok []
  parse_tokens (s ∷ ss) = do st ← parse_script_type_token s; sts ← parse_tokens ss; ok (st ∷ sts)

  -- A record of version 0.2.0 with both of its fields.
  unfoldable pub current_capabilities :
      Text → Text → Option Text → Result DiscoveryError CoordinatorCapabilities
  current_capabilities record_version sst ost = do
    types ← parse_tokens (split_comma sst)
    ensure (has_one types) malformed_record
    token ← ok_or ost malformed_record
    output ← parse_script_type_token token
    ok (record {
      record_version = record_version;
      is_legacy = false;
      supported_script_types = types;
      output_script_type = output;
    })

  unfoldable pub capabilities_from_record_v :
      Text → Option Text → Option Text → Result DiscoveryError CoordinatorCapabilities
  capabilities_from_record_v record_version none ost = ok (legacy record_version)
  capabilities_from_record_v record_version (some sst) ost =
      if not (record_version == codes "0.2.0")
      then ok (legacy record_version)
      else current_capabilities record_version sst ost

  -- Steps (d) to (g), for a record that was found.
  unfoldable pub compatible : BlindjoinRecord → ScriptType → Result DiscoveryError CoordinatorInfo
  compatible found required = do
    capabilities ← capabilities_from_record_v found.version found.sst found.ost
    ensure (any (λ st. st == required) capabilities.supported_script_types)
        (unsupported_script_type required capabilities.supported_script_types)
    ensure (capabilities.output_script_type == required)
        (unsupported_output_script_type capabilities.output_script_type required)
    ok (record { coordinator_url = url_of found.onion; capabilities = capabilities })

  -- `resolved` is the packet of the key, `none` when there is none; in it the first record that
  -- decodes, if there is one.
  unfoldable pub discover_coordinator :
      Option (Option BlindjoinRecord) → ScriptType → Result DiscoveryError CoordinatorInfo
  unfolding compatible
  discover_coordinator none required = err not_found
  discover_coordinator (some none) required = err missing_onion
  discover_coordinator (some (some found)) required = compatible found required
