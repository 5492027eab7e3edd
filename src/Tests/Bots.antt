-- ===== src/Tests/Bots.antt =====
-- Runs of the liquidity bot.
use blindjoin.Prelude.{◌≡◌, List, [], ◌∷◌, ok, arith}
use blindjoin.Shared.Script.{ScriptType, p2wpkh, p2tr, p2sh_p2wpkh}
use blindjoin.Bot.Strategy.{CounterFile}
use blindjoin.Bot.Strategy.Rotation.{Counts, after_runs, rotation}

abbrev three_types : List ScriptType
three_types = p2wpkh ∷ p2tr ∷ p2sh_p2wpkh ∷ []

rotation_example : (file : CounterFile) × (after_runs 4 ≡ ok file) × Counts three_types 4 file
rotation_example = rotation three_types 4 (omega arith)
