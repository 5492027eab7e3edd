-- ===== src/Bot/Strategy.antt =====
-- liquidity-bot/src/strategy.rs: when the bot joins, and the rotation of its script types.
pub mod Rotation
use blindjoin.Prelude.{
  ℕ, ◌%◌, ◌^◌, ◌&&◌, ◌||◌, ◌++◌, Bool, true, Option, none, some, List, [], ◌∷◌, ltb, leb, length,
  get_elem?, if◌then◌else◌, Result, ok, err, ◌>>=◌, ◌>>◌, ok_or, ensure, sat_add64,
}
use blindjoin.Prelude.Eq.{Text, codes, ◌==◌, nat_eq, bytes_eq}
use blindjoin.Prelude.Strings.{trim_start, trim_end}
use blindjoin.Shared.Script.{ScriptType}
use blindjoin.Coordinator.Api.{InfoResponse}
use blindjoin.Coordinator.Round.OutPoints.{decimal, parse_unsigned}

pub record JoinStrategy : Type 0 where
  pub target_denomination_sats : ℕ
  pub max_consecutive_failures : ℕ
  pub join_threshold : ℕ
  pub poll_interval_secs : ℕ

abbrev pub new_join_strategy : ℕ → JoinStrategy
new_join_strategy target_denomination_sats = record {
  target_denomination_sats = target_denomination_sats;
  max_consecutive_failures = 5;
  join_threshold = 10;
  poll_interval_secs = 5;
}

unfoldable pub should_join : JoinStrategy → InfoResponse → Bool
should_join s info =
    (info.round_state == codes "input_reg")
    && ((info.denomination_sats == s.target_denomination_sats)
        && ltb info.participants_registered s.join_threshold)

-- The counter file: its characters are code points.
pub data CounterFile : Type 0 where
  missing unreadable : CounterFile
  content : Text → CounterFile

pub data BotError : Type 0 where
  no_types malformed_counter read_failed write_failed panicked : BotError

unfoldable pub read_counter : CounterFile → Result BotError ℕ
read_counter missing = ok 0
read_counter unreadable = err read_failed
read_counter (content s) =
    ok_or (parse_unsigned (2 ^ 64) (trim_end (trim_start s))) malformed_counter

-- The file after the write of `counter` to a temporary file and its renaming.
unfoldable pub write_counter_atomic : Bool → ℕ → Result BotError CounterFile
write_counter_atomic writable counter = do
  ensure writable write_failed
  ok (content (decimal counter ++ 10 ∷ []))

-- `RotationState::new`
unfoldable pub new_rotation : List ScriptType → Result BotError (List ScriptType)
new_rotation [] = err no_types
new_rotation (st ∷ sts) = ok (st ∷ sts)

-- The type of this run, from the counter and the enabled types.
unfoldable pub pick_script_type : CounterFile → List ScriptType → Result BotError ScriptType
pick_script_type file enabled = do
  counter ← read_counter file
  ok_or (get_elem? enabled (counter % length enabled)) panicked

unfoldable pub bump_counter : Bool → CounterFile → Result BotError CounterFile
bump_counter writable file = do
  current ← read_counter file
  write_counter_atomic writable (sat_add64 current 1)
