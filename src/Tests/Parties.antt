-- ===== src/Tests/Parties.antt =====
-- A client through a round, and a run of the bot.
use blindjoin.Client.Discover.{pieces}
use blindjoin.Prelude.Strings.{trim_start, trim_end}
use blindjoin.Prelude.{◌≡◌, refl, true, Option, none, some, [], ◌∷◌, ok, if◌then◌else◌}
use blindjoin.Prelude.Eq.{Text, codes, ◌==◌, bytes_eq}
use blindjoin.External.{External, signet}
use blindjoin.Shared.Script.{ScriptType, p2wpkh}
use blindjoin.Client.Wallet.{ClientWallet}
use blindjoin.Client.Http.{Reply, Poll}
use blindjoin.Client.Main.{Remote}
use blindjoin.Bot.Strategy.{missing}
use blindjoin.Bot.Run.{BotConfig, run}
use blindjoin.Bot.Run.Advance.{Advanced, run-Advanced}
use blindjoin.Bot.Env.{Env, bot_config}
use blindjoin.Tests.Codec.{wired, wired_wire}
use blindjoin.Tests.Proofs.{keys, plain, bdk, purse, blind, info, accept}
use blindjoin.Tests.Clients.{offered, signer}

abbrev replied {ℓ} : {A : Type ℓ} → A → Option (Reply A)
replied a = some (record { status = 200; retry_after = none; body = some a })

abbrev polled : Text → Poll
polled phase = (5, replied (record info { round_state = phase }))

-- The coordinator is asked too often once, before it collects outputs.
abbrev limited : Poll
limited = (5, some (record { status = 429; retry_after = some (codes "2"); body = none }))

abbrev remote : Remote
remote = record {
  input_polls = polled (codes "idle") ∷ polled (codes "input_reg") ∷ [];
  output_polls = limited ∷ polled (codes "output_reg") ∷ [];
  signing_polls = polled (codes "signing") ∷ [];
  post_input = λ req n. elim (accept req) [ none ↦ none | some resp ↦ replied resp ];
  get_info = λ n. replied info;
  post_output = λ req n. replied (record { accepted = true; round_id = 4 });
  get_tx = λ n.
      replied
        (record { round_id = 4; psbt = []; fee_total_sats = 10; fee_per_participant_sats = 5 });
  post_sign = λ req n. replied tt;
}

abbrev meeting : External
meeting = record wired { deserialize_psbt = λ b. some offered }

abbrev member : ClientWallet
member = record purse {
  inner = record plain {
    sign = signer;
    external_script = 0 ∷ 7 ∷ [];
    internal_script = 0 ∷ 9 ∷ [];
  };
}

-- The variables of the older version.
abbrev vars : Env
vars name =
    if name == codes "BLINDJOIN_UTXO"
    then some (codes "1:0")
    else if name == codes "BLINDJOIN_UTXO_WIF"
    then some (8 ∷ [])
    else none

abbrev from_str : Text → Option ScriptType
from_str t = if t == codes "p2wpkh" then some p2wpkh else none

abbrev credentials : BotConfig
credentials = record {
  coordinator_url = codes "http://127.0.0.1:8080";
  network = signet;
  enabled_types = p2wpkh ∷ [];
  p2wpkh_tuple = some (record { utxo = codes "1:0"; wif = 8 ∷ [] });
  p2tr_tuple = none;
  p2sh_p2wpkh_tuple = none;
}

configured : bot_config from_str vars ≡ ok credentials
unfolding bot_config trim_end trim_start pieces
configured = refl

run-Advanced_example :
    Advanced wired keys wired_wire blind bdk credentials true [] remote missing
      (run wired keys wired_wire blind bdk credentials true [] remote missing)
run-Advanced_example =
    run-Advanced wired keys wired_wire blind bdk from_str vars configured true [] remote missing
