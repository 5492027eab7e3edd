-- ===== src/Client/Discover/Compatible.antt =====
-- Which coordinators client/src/discover.rs lets through.
use blindjoin.Prelude.{
  ◌≡◌, true, Option, none, some, List, [], ◌∷◌, ◌++◌, map, any, ok, ensure, refl, ap, ◌∙◌, subst,
  ◌≢◌, false, >>=-eq-ok, ensure-eq-ok,
}
use blindjoin.Prelude.Eq.{Text, codes, ◌==◌, nat_eq, bytes_eq}
use blindjoin.Shared.Script.{
  ScriptType, p2wpkh, p2tr, p2sh_p2wpkh, script_type_eq, script_type_beq_iff,
}
use blindjoin.Coordinator.Config.{CoordinatorConfig, supported}
use blindjoin.Coordinator.Discovery.{wire_name, join_comma, published}
use blindjoin.Client.Discover.{
  CoordinatorCapabilities, CoordinatorInfo, BlindjoinRecord, unsupported_script_type,
  unsupported_output_script_type, decoded, split_comma, parse_script_type_token, parse_tokens,
  pieces, current_capabilities, capabilities_from_record_v, compatible, discover_coordinator,
  url_of,
}

split-wire :
    (st : ScriptType) (rest : Text)
    → split_comma (wire_name st ++ (b',' ∷ rest)) ≡ wire_name st ∷ split_comma rest
unfolding pieces
split-wire p2wpkh rest = refl
split-wire p2tr rest = refl
split-wire p2sh_p2wpkh rest = refl

split-join :
    (st : ScriptType) (sts : List ScriptType)
    → split_comma (join_comma (map wire_name (st ∷ sts))) ≡ map wire_name (st ∷ sts)
unfolding join_comma pieces
split-join p2wpkh [] = refl
split-join p2tr [] = refl
split-join p2sh_p2wpkh [] = refl
split-join st (t ∷ sts) = split-wire st _ ∙ ap (λ r. wire_name st ∷ r) (split-join t sts)

abbrev quoted : Text → Text
quoted s = b'"' ∷ s ++ (b'"' ∷ [])

-- `serde_json` reads each script type from its name in quotes.
pub record WireNames (from_str : Text → Option ScriptType) : Type 0 where
  pub read : (st : ScriptType) → from_str (b'"' ∷ wire_name st ++ (b'"' ∷ [])) ≡ some st

module _ (from_str : Text → Option ScriptType) where
  parse_tokens-wire :
      WireNames from_str
      → (sts : List ScriptType) → parse_tokens from_str (map wire_name sts) ≡ ok sts
  unfolding parse_tokens parse_script_type_token
  parse_tokens-wire names [] = refl
  parse_tokens-wire names (st ∷ sts) = rw (names.read st, parse_tokens-wire names sts)

  -- The coordinator of the record fits the wallet.
  pub record Compatible (found : BlindjoinRecord) (required : ScriptType) (info : CoordinatorInfo)
      : Type 0 where
    pub understood :
        capabilities_from_record_v from_str found.version found.sst found.ost ≡ ok info.capabilities
    pub supports : any (λ st. st == required) info.capabilities.supported_script_types ≡ true
    pub pays : info.capabilities.output_script_type ≡ required
    pub addressed : info.coordinator_url ≡ url_of found.onion

  compatible-Compatible :
      (found : BlindjoinRecord) (required : ScriptType) {info : CoordinatorInfo}
      → compatible from_str found required ≡ ok info
      → Compatible found required info
  unfolding compatible
  compatible-Compatible found required {info} h =
      let (c, read, h3) =
        >>=-eq-ok (capabilities_from_record_v from_str found.version found.sst found.ost) _ h in
      let (_, allowed, h4) =
        >>=-eq-ok
          (ensure (any (λ st. st == required) c.supported_script_types)
            (unsupported_script_type required c.supported_script_types))
          _ h3 in
      let (_, paid, h5) =
        >>=-eq-ok
          (ensure (c.output_script_type == required)
            (unsupported_output_script_type c.output_script_type required))
          _ h4 in
      let made : CoordinatorInfo = record {
        coordinator_url = url_of found.onion;
        capabilities = c;
      } in
      let same : made ≡ info = cc in
      subst (λ i. Compatible found required i) same
        (record {
          understood = read;
          supports =
              ensure-eq-ok _ (unsupported_script_type required c.supported_script_types) allowed;
          pays =
              (script_type_beq_iff c.output_script_type required).0 (
                ensure-eq-ok _ (unsupported_output_script_type c.output_script_type required) paid);
          addressed = refl;
        })

  -- A coordinator is let through only when a record was found, its script types can be read, they hold the one
  -- that is required, and its outputs have that type.
  pub discover_coordinator-Compatible :
      (resolved : Option (Option BlindjoinRecord)) (required : ScriptType) {info : CoordinatorInfo}
      → discover_coordinator from_str resolved required ≡ ok info
      → (found : BlindjoinRecord) × (resolved ≡ some (some found)) × Compatible found required info
  unfolding discover_coordinator
  discover_coordinator-Compatible none required h = absurd (cc)
  discover_coordinator-Compatible (some none) required h = absurd (cc)
  discover_coordinator-Compatible (some (some found)) required h =
      (found, refl, compatible-Compatible found required h)

current-wire :
    (from_str : Text → Option ScriptType)
    → WireNames from_str
    → (version : Text) (sts : List ScriptType) (o : ScriptType) → sts ≢ []
    → current_capabilities from_str version (join_comma (map wire_name sts)) (some (wire_name o))
      ≡ ok (record {
        record_version = version;
        is_legacy = false;
        supported_script_types = sts;
        output_script_type = o;
      })
unfolding parse_script_type_token current_capabilities
current-wire from_str names version [] o ne = absurd (ne refl)
current-wire from_str names version (st ∷ sts) o ne = rw (
  current_capabilities,
  split-join st sts,
  parse_tokens-wire from_str names (st ∷ sts),
  names.read o,
)

-- The capabilities that a coordinator means to advertise.
abbrev pub advertised : CoordinatorConfig → CoordinatorCapabilities
advertised cfg = record {
  record_version = codes "0.2.0";
  is_legacy = false;
  supported_script_types = supported cfg.bip;
  output_script_type = cfg.bip.output_script_type;
}

-- A client reads from the record that a coordinator publishes the script types that the configuration allows, and
-- the type of its outputs, given that some type is allowed.
pub published-capabilities :
    (from_str : Text → Option ScriptType)
    → WireNames from_str
    → (cfg : CoordinatorConfig) (addr status : Text) → supported cfg.bip ≢ []
    → let r = decoded (published cfg addr status) in
      capabilities_from_record_v from_str r.version r.sst r.ost ≡ ok (advertised cfg)
unfolding capabilities_from_record_v published
published-capabilities from_str names cfg addr status some_type =
    current-wire from_str names (codes "0.2.0") (supported cfg.bip) cfg.bip.output_script_type
      some_type
