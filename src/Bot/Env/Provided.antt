-- ===== src/Bot/Env/Provided.antt =====
-- What the configuration of a bot that starts has (liquidity-bot/src/main.rs).
use blindjoin.Prelude.{
  ◌≡◌, not, true, false, any, Option, List, [], ◌∷◌, map, keep_if, All, ok, ensure, refl, subst,
  arith, >>=-eq-ok, ensure-eq-ok,
}
use blindjoin.Prelude.Eq.{Text, codes, ◌==◌, bytes_eq}
use blindjoin.Prelude.Strings.{trim_start, trim_end}
use blindjoin.External.{signet}
use blindjoin.Shared.Script.{ScriptType, script_type_eq}
use blindjoin.Client.Discover.{split_comma}
use blindjoin.Bot.Run.{BotConfig}
use blindjoin.Bot.Env.{
  Env, not_signet, no_types, duplicate, tuple_missing, var_or, is_filled, reject_duplicates,
  build_p2wpkh_tuple_with_legacy_fallthrough, build_descriptor_tuple, has_tuple, check_tuples,
  has_some, parse_all_types, enabled_types_of, bot_config,
}

-- No type stands twice, and none of those that were seen.
abbrev pub Fresh : List ScriptType → List ScriptType → Type 0
Fresh seen [] = Unit
Fresh seen (st ∷ sts) = (any (λ s. s == st) seen ≡ false) × Fresh (st ∷ seen) sts

-- The bot is on signet, and has different types to choose from, with the credentials of each.
pub record Provided (config : BotConfig) : Type 0 where
  pub network : config.network ≡ signet
  pub choice : has_some config.enabled_types ≡ true
  pub distinct : Fresh [] config.enabled_types
  pub credentials : All (λ st. has_tuple config st ≡ true) config.enabled_types

reject_duplicates-Fresh :
    (seen sts : List ScriptType) → reject_duplicates seen sts ≡ ok tt → Fresh seen sts
unfolding reject_duplicates
reject_duplicates-Fresh seen [] h = tt
reject_duplicates-Fresh seen (st ∷ sts) h =
    let (_, first, rest) = >>=-eq-ok (ensure (not (any (λ s. s == st) seen)) (duplicate st)) _ h in
    let unseen = ensure-eq-ok (not (any (λ s. s == st) seen)) (duplicate st) first in
    (ground (arith, unseen), reject_duplicates-Fresh (st ∷ seen) sts rest)

check_tuples-All :
    (config : BotConfig) (sts : List ScriptType)
    → check_tuples config sts ≡ ok tt
    → All (λ st. has_tuple config st ≡ true) sts
unfolding check_tuples
check_tuples-All config [] h = tt
check_tuples-All config (st ∷ sts) h =
    let (_, first, rest) = >>=-eq-ok (ensure (has_tuple config st) (tuple_missing st)) _ h in
    (ensure-eq-ok (has_tuple config st) (tuple_missing st) first, check_tuples-All config sts rest)

module _ (from_str : Text → Option ScriptType) where
  enabled-Fresh :
      (csv : Text) {types : List ScriptType}
      → enabled_types_of from_str csv ≡ ok types
      → (has_some types ≡ true) × Fresh [] types
  unfolding enabled_types_of
  enabled-Fresh csv {types} h =
      let tokens = keep_if is_filled (map (λ t. trim_end (trim_start t)) (split_comma csv)) in
      let (found, _, h1) = >>=-eq-ok (parse_all_types from_str tokens) _ h in
      let (_, some_type, h2) = >>=-eq-ok (ensure (has_some found) no_types) _ h1 in
      let (_, unique, end) = >>=-eq-ok (reject_duplicates [] found) _ h2 in
      let same : found ≡ types = cc end in
      subst (λ ts. (has_some ts ≡ true) × Fresh [] ts) same
        (ensure-eq-ok (has_some found) no_types some_type, reject_duplicates-Fresh [] found unique)

  -- A bot that starts has its configuration complete.
  pub bot_config-Provided :
      (env : Env) {config : BotConfig} → bot_config from_str env ≡ ok config → Provided config
  unfolding bot_config
  bot_config-Provided env {config} h =
      let network = var_or env (codes "BLINDJOIN_NETWORK") (codes "signet") in
      let csv = var_or env (codes "BLINDJOIN_BOT_SCRIPT_TYPES") (codes "p2wpkh") in
      let (_, _, h1) = >>=-eq-ok (ensure (network == codes "signet") not_signet) _ h in
      let (enabled, listed, h2) = >>=-eq-ok (enabled_types_of from_str csv) _ h1 in
      let (a, _, h3) = >>=-eq-ok (build_p2wpkh_tuple_with_legacy_fallthrough env) _ h2 in
      let (b, _, h4) = >>=-eq-ok (build_descriptor_tuple env (codes "P2TR")) _ h3 in
      let (c, _, h5) = >>=-eq-ok (build_descriptor_tuple env (codes "P2SH_P2WPKH")) _ h4 in
      let made : BotConfig = record {
        coordinator_url =
            var_or env (codes "BLINDJOIN_COORDINATOR_URL") (codes "http://127.0.0.1:8080");
        network = signet;
        enabled_types = enabled;
        p2wpkh_tuple = a;
        p2tr_tuple = b;
        p2sh_p2wpkh_tuple = c;
      } in
      let (_, held, end) = >>=-eq-ok (check_tuples made enabled) _ h5 in
      let same : made ≡ config = cc end in
      let (choice, distinct) = enabled-Fresh csv listed in
      subst (λ cfg. Provided cfg) same
        (record {
          network = refl;
          choice = choice;
          distinct = distinct;
          credentials = check_tuples-All made enabled held;
        })
