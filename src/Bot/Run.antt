-- ===== src/Bot/Run.antt =====
-- liquidity-bot/src/lib.rs: one run of the bot.
pub mod Advance
use blindjoin.Prelude.{
  ℕ, Bool, false, Option, none, some, List, Result, ok, err, ◌>>=◌, ok_or, map_err,
}
use blindjoin.Prelude.Eq.{Bytes, Text}
use blindjoin.External.{External, Network}
use blindjoin.External.Keys.{Keys}
use blindjoin.External.Blind.{Blind}
use blindjoin.Shared.Script.{ScriptType, p2wpkh, p2tr, p2sh_p2wpkh}
use blindjoin.Shared.Ownership.{WireText}
use blindjoin.Client.Wallet.{ClientWallet, ClientError}
use blindjoin.Client.Wallet.Create.{Bdk, from_wif, from_descriptor}
use blindjoin.Client.Main.{RunError, Remote, participate}
use blindjoin.Bot.Strategy.{CounterFile, BotError, new_rotation, pick_script_type, bump_counter}

pub record P2wpkhTuple : Type 0 where
  pub utxo : Text
  pub wif : Text

pub record DescriptorTuple : Type 0 where
  pub utxo : Text
  pub descriptor : Text
  pub utxo_address : Text

pub record BotConfig : Type 0 where
  pub coordinator_url : Text
  pub network : Network
  pub enabled_types : List ScriptType
  pub p2wpkh_tuple : Option P2wpkhTuple
  pub p2tr_tuple : Option DescriptorTuple
  pub p2sh_p2wpkh_tuple : Option DescriptorTuple

pub data BotFailure : Type 0 where
  rotation : BotError → BotFailure
  credentials_missing : ScriptType → BotFailure
  wallet : ClientError → BotFailure
  round : RunError → BotFailure

module _ (x : External) (k : Keys) (wire : WireText) (b : Blind) (bdk : Bdk) where
  abbrev pub descriptor_wallet :
      DescriptorTuple → Network → ScriptType → Result BotFailure ClientWallet
  descriptor_wallet tuple network st =
      map_err wallet
        (from_descriptor x k bdk tuple.descriptor tuple.utxo tuple.utxo_address network st)

  -- The wallet of the type whose turn it is.
  unfoldable pub wallet_for : BotConfig → ScriptType → Result BotFailure ClientWallet
  wallet_for config p2wpkh = do
    tuple ← ok_or config.p2wpkh_tuple (credentials_missing p2wpkh)
    map_err wallet (from_wif x k bdk tuple.wif tuple.utxo config.network)
  wallet_for config p2tr = do
    tuple ← ok_or config.p2tr_tuple (credentials_missing p2tr)
    descriptor_wallet tuple config.network p2tr
  wallet_for config p2sh_p2wpkh = do
    tuple ← ok_or config.p2sh_p2wpkh_tuple (credentials_missing p2sh_p2wpkh)
    descriptor_wallet tuple config.network p2sh_p2wpkh

  -- The round, as a client of a current coordinator with an anonymity floor of one and the default
  -- cap of the fee.
  unfoldable pub play : BotConfig → Bytes → Remote → CounterFile → Result BotFailure (Unit {0})
  unfolding wallet_for
  play config rng remote file = do
    enabled ← map_err rotation (new_rotation config.enabled_types)
    script_type ← map_err rotation (pick_script_type file enabled)
    w ← wallet_for config script_type
    map_err round (participate x k wire b rng remote w false (100, 1000) 1 none)

  -- The file after a round that was played.
  abbrev pub bumped :
      CounterFile → Result BotError CounterFile → CounterFile × Result BotFailure (Unit {0})
  bumped file (ok file') = (file', ok tt)
  bumped file (err e) = (file, err (rotation e))

  abbrev pub after_round :
      Bool → CounterFile → Result BotFailure (Unit {0}) → CounterFile × Result BotFailure (Unit {0})
  after_round writable file (err e) = (file, err e)
  after_round writable file (ok done) = bumped file (bump_counter writable file)

  -- The counter file that the run leaves, and its outcome.
  unfoldable pub run :
      BotConfig → Bool → Bytes → Remote → CounterFile → CounterFile × Result BotFailure (Unit {0})
  unfolding play
  run config writable rng remote file = after_round writable file (play config rng remote file)
