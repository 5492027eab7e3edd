-- ===== src/Bot/Strategy/Rotation.antt =====
-- The rotation over the runs of the bot (liquidity-bot/src/strategy.rs).
use blindjoin.Prelude.{
  ℕ, zero, suc, ◌+◌, ◌/◌, ◌%◌, ◌^◌, ◌<◌, ◌≡◌, refl, true, false, List, [], ◌∷◌, ◌++◌, length,
  get_elem?, All, Bool-cases, inl, inr, arith, ltb, ◌>>=◌, Result, ok, ok_or, sat_add64, u64_max,
}
use blindjoin.Prelude.Eq.{Text}
use blindjoin.Shared.Script.{ScriptType}
use blindjoin.Coordinator.Round.OutPoints.{decimal, show_digits}
use blindjoin.Coordinator.Round.OutPoints.RoundTrip.{parse_unsigned-decimal}
use blindjoin.Prelude.Strings.{is_whitespace, trim_start, trim_end}
use blindjoin.Bot.Strategy.{
  CounterFile, BotError, missing, content, panicked, read_counter, write_counter_atomic,
  pick_script_type, bump_counter,
}

abbrev Visible : ℕ → Type 0
Visible c = is_whitespace c ≡ false

digit-Visible : (d : ℕ) → d < 10 → Visible (48 + d)
digit-Visible d h = ground arith

show_digits-Visible : (f n : ℕ) (acc : Text) → All Visible acc → All Visible (show_digits f n acc)
unfolding show_digits
show_digits-Visible zero n acc h = h
show_digits-Visible (suc f) n acc h = elim (Bool-cases (ltb n 10)) [
  | inl small ↦ rw small (digit-Visible n (ground arith), h)
  | inr large ↦ rw large (
      show_digits-Visible f (n / 10) ((48 + n % 10) ∷ acc)
        (digit-Visible (n % 10) (omega arith), h))
]

trim_end-Visible : (s : Text) → All Visible s → trim_end (s ++ 10 ∷ []) ≡ s
unfolding trim_end
trim_end-Visible [] h = refl
trim_end-Visible (c ∷ []) h = rw h.0
trim_end-Visible (c ∷ d ∷ cs) h = rw (trim_end-Visible (d ∷ cs) h.1)

trim-line : (s : Text) → All Visible s → trim_end (trim_start (s ++ 10 ∷ [])) ≡ s
unfolding trim_start trim_end
trim-line [] h = refl
trim-line (c ∷ cs) h = rw (h.0, trim_end-Visible (c ∷ cs) h)

decimal-Visible : (n : ℕ) → All Visible (decimal n)
unfolding decimal
decimal-Visible n = show_digits-Visible (suc n) n [] tt

-- A counter that was written is read back.
read-written : (n : ℕ) → n < 2 ^ 64 → read_counter (content (decimal n ++ 10 ∷ [])) ≡ ok n
unfolding read_counter
read-written n h =
    rw
      (trim-line (decimal n) (decimal-Visible n), parse_unsigned-decimal (2 ^ 64) n (omega arith) h)

-- The counter file after a number of runs that each bump it, from a fresh install.
abbrev pub after_runs : ℕ → Result BotError CounterFile
after_runs zero = ok missing
after_runs (suc k) = after_runs k >>= bump_counter true

-- What the file of a counter makes of the next run.
pub record Counts (enabled : List ScriptType) (k : ℕ) (file : CounterFile) : Type 0 where
  pub counted : read_counter file ≡ ok k
  pub picked :
      pick_script_type file enabled ≡ ok_or (get_elem? enabled (k % length enabled)) panicked

counted-Counts :
    (enabled : List ScriptType) (k : ℕ) (file : CounterFile)
    → read_counter file ≡ ok k
    → Counts enabled k file
unfolding pick_script_type
counted-Counts enabled k file h = record { counted = h; picked = rw (pick_script_type, h) }

bump-Counts :
    (k : ℕ) (file : CounterFile)
    → read_counter file ≡ ok k
    → suc k < 2 ^ 64
    → (after : CounterFile) × (bump_counter true file ≡ ok after)
      × (read_counter after ≡ ok (suc k))
unfolding bump_counter write_counter_atomic sat_add64
bump-Counts k file h small =
    let next : (k + 1) ≡ suc k = omega arith in
    let below : ltb u64_max (suc k) ≡ false = ground arith in
    (content (decimal (suc k) ++ 10 ∷ []), rw (h, next, below), read-written (suc k) small)

-- From a fresh install, every run finds the counter that the runs before it left, and the bot takes the enabled
-- script types in turn, as long as the counter fits in 64 bits.
pub rotation :
    (enabled : List ScriptType) (k : ℕ)
    → k < 2 ^ 64
    → (file : CounterFile) × (after_runs k ≡ ok file) × Counts enabled k file
unfolding read_counter
rotation enabled zero small = (missing, refl, counted-Counts enabled 0 missing refl)
rotation enabled (suc k) small =
    let (file, ran, counts) = rotation enabled k (omega arith) in
    let (after, bumped, counted) = bump-Counts k file counts.counted small in
    (after, rw (ran, bumped), counted-Counts enabled (suc k) after counted)
