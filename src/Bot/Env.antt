-- ===== src/Bot/Env.antt =====
-- liquidity-bot/src/main.rs: the configuration of the bot, from the environment.
pub mod Provided
use blindjoin.Prelude.{
  ℕ, ◌&&◌, not, Bool, true, false, Option, none, some, List, [], ◌∷◌, ◌++◌, map, any, keep_if,
  if◌then◌else◌, Result, ok, err, ◌>>=◌, ◌>>◌, ok_or, ensure,
}
use blindjoin.Prelude.Eq.{Text, codes, ◌==◌, bytes_eq}
use blindjoin.Prelude.Strings.{trim_start, trim_end, is_some}
use blindjoin.External.{signet}
use blindjoin.Shared.Script.{ScriptType, p2wpkh, p2tr, p2sh_p2wpkh, script_type_eq}
use blindjoin.Client.Discover.{split_comma}
use blindjoin.Bot.Run.{P2wpkhTuple, DescriptorTuple, BotConfig}

pub data EnvError : Type 0 where
  not_signet bad_token no_types p2wpkh_partial : EnvError
  duplicate : ScriptType → EnvError
  descriptor_partial : Text → EnvError
  tuple_missing : ScriptType → EnvError

abbrev pub Env : Type 0
Env = Text → Option Text

-- `unwrap_or_else`
abbrev pub var_or : Env → Text → Text → Text
var_or env name d = elim (env name) [ none ↦ d | some v ↦ v ]

-- `filter(|s| !s.is_empty())`
abbrev pub filled : Option Text → Option Text
filled none = none
filled (some []) = none
filled (some (c ∷ cs)) = some (c ∷ cs)

abbrev pub is_filled : Text → Bool
is_filled [] = false
is_filled (c ∷ cs) = true

-- Every type stands once.
unfoldable pub reject_duplicates : List ScriptType → List ScriptType → Result EnvError (Unit {0})
reject_duplicates seen [] = ok tt
reject_duplicates seen (st ∷ sts) = do
  ensure (not (any (λ s. s == st) seen)) (duplicate st)
  reject_duplicates (st ∷ seen) sts

abbrev pub legacy_tuple : Option Text → Option Text → Option P2wpkhTuple
legacy_tuple (some utxo) (some wif) = some (record { utxo = utxo; wif = wif })
legacy_tuple _ _ = none

abbrev pub p2wpkh_pair : Env → Option Text → Option Text → Result EnvError (Option P2wpkhTuple)
p2wpkh_pair env (some utxo) (some wif) = ok (some (record { utxo = utxo; wif = wif }))
p2wpkh_pair env none none = ok (
    legacy_tuple (filled (env (codes "BLINDJOIN_UTXO")))
      (filled (env (codes "BLINDJOIN_UTXO_WIF"))))
p2wpkh_pair env _ _ = err p2wpkh_partial

-- The variables of the older version when none of the newer ones is set.
unfoldable pub build_p2wpkh_tuple_with_legacy_fallthrough :
    Env → Result EnvError (Option P2wpkhTuple)
build_p2wpkh_tuple_with_legacy_fallthrough env =
    p2wpkh_pair env (filled (env (codes "BLINDJOIN_BOT_P2WPKH_UTXO")))
      (filled (env (codes "BLINDJOIN_BOT_P2WPKH_WIF")))

abbrev pub descriptor_triple :
    Text → Option Text → Option Text → Option Text → Result EnvError (Option DescriptorTuple)
descriptor_triple prefix (some utxo) (some descriptor) (some utxo_address) =
    ok (some (record { utxo = utxo; descriptor = descriptor; utxo_address = utxo_address }))
descriptor_triple prefix none none none = ok none
descriptor_triple prefix _ _ _ = err (descriptor_partial prefix)

unfoldable pub build_descriptor_tuple : Env → Text → Result EnvError (Option DescriptorTuple)
build_descriptor_tuple env prefix =
    let named = codes "BLINDJOIN_BOT_" ++ prefix in
    descriptor_triple prefix (filled (env (named ++ codes "_UTXO")))
      (filled (env (named ++ codes "_DESCRIPTOR"))) (filled (env (named ++ codes "_UTXO_ADDRESS")))

-- The credentials for a type are there.
abbrev pub has_tuple : BotConfig → ScriptType → Bool
has_tuple config p2wpkh = is_some config.p2wpkh_tuple
has_tuple config p2tr = is_some config.p2tr_tuple
has_tuple config p2sh_p2wpkh = is_some config.p2sh_p2wpkh_tuple

unfoldable pub check_tuples : BotConfig → List ScriptType → Result EnvError (Unit {0})
check_tuples config [] = ok tt
check_tuples config (st ∷ sts) = do
  ensure (has_tuple config st) (tuple_missing st)
  check_tuples config sts

abbrev pub has_some {ℓ} : {A : Type ℓ} → List A → Bool
has_some [] = false
has_some (a ∷ more) = true

-- `from_str` is `client::config::parse_script_type`.
module _ (from_str : Text → Option ScriptType) where
  unfoldable pub parse_all_types : List Text → Result EnvError (List ScriptType)
  parse_all_types [] = ok []
  parse_all_types (t ∷ ts) = do
    st ← ok_or (from_str t) bad_token
    sts ← parse_all_types ts
    ok (st ∷ sts)

  unfoldable pub enabled_types_of : Text → Result EnvError (List ScriptType)
  unfolding parse_all_types reject_duplicates
  enabled_types_of csv = do
    types ←
        parse_all_types (keep_if is_filled (map (λ t. trim_end (trim_start t)) (split_comma csv)))
    ensure (has_some types) no_types
    reject_duplicates [] types
    ok types

  -- The whole of `main` before the run.
  unfoldable pub bot_config : Env → Result EnvError BotConfig
  unfolding enabled_types_of check_tuples build_descriptor_tuple
      build_p2wpkh_tuple_with_legacy_fallthrough
  bot_config env = do
    ensure (var_or env (codes "BLINDJOIN_NETWORK") (codes "signet") == codes "signet") not_signet
    enabled ← enabled_types_of (var_or env (codes "BLINDJOIN_BOT_SCRIPT_TYPES") (codes "p2wpkh"))
    p2wpkh_tuple ← build_p2wpkh_tuple_with_legacy_fallthrough env
    p2tr_tuple ← build_descriptor_tuple env (codes "P2TR")
    p2sh_p2wpkh_tuple ← build_descriptor_tuple env (codes "P2SH_P2WPKH")
    let config : BotConfig = record {
      coordinator_url =
          var_or env (codes "BLINDJOIN_COORDINATOR_URL") (codes "http://127.0.0.1:8080");
      network = signet;
      enabled_types = enabled;
      p2wpkh_tuple = p2wpkh_tuple;
      p2tr_tuple = p2tr_tuple;
      p2sh_p2wpkh_tuple = p2sh_p2wpkh_tuple;
    }
    check_tuples config enabled
    ok config
