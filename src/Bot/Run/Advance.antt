-- ===== src/Bot/Run/Advance.antt =====
-- When the bot moves on to the next script type (liquidity-bot/src/lib.rs).
use blindjoin.Prelude.{
  ℕ, zero, suc, ◌%◌, ◌≡◌, inl, inr, Bool, true, false, Option, none, some, List, [], ◌∷◌, All,
  length, get_elem?, Result, ok, err, ◌>>=◌, ok_or, map_err, refl, subst, >>=-eq-ok, ok_or-eq-ok,
  map_err-eq-ok, Result-cases,
}
use blindjoin.Prelude.Eq.{Bytes, Text}
use blindjoin.Prelude.Strings.{is_some}
use blindjoin.External.{External}
use blindjoin.External.Keys.{Keys}
use blindjoin.External.Blind.{Blind}
use blindjoin.Shared.Script.{ScriptType, p2wpkh, p2tr, p2sh_p2wpkh}
use blindjoin.Shared.Ownership.{WireText}
use blindjoin.Client.Wallet.{ClientError}
use blindjoin.Client.Wallet.Create.{Bdk}
use blindjoin.Client.Main.{RunError, Remote}
use blindjoin.Bot.Strategy.{
  CounterFile, BotError, panicked, new_rotation, pick_script_type, read_counter, bump_counter,
}
use blindjoin.Bot.Run.{
  BotConfig, BotFailure, rotation, credentials_missing, wallet, round, wallet_for, play,
  after_round, run,
}
use blindjoin.Bot.Env.{Env, has_tuple, bot_config}
use blindjoin.Bot.Env.Provided.{Provided, bot_config-Provided}

-- A failure for want of credentials.
abbrev pub lacks : BotFailure → Bool
lacks (credentials_missing st) = true
lacks (rotation e) = false
lacks (wallet e) = false
lacks (round e) = false

-- No failure for want of credentials.
pub data Equipped {ℓ} {A : Type ℓ} : Result BotFailure A → Type ℓ where
  done : (a : A) → Equipped (ok a)
  failed : (e : BotFailure) → lacks e ≡ false → Equipped (err e)

module _ {ℓ κ} {A : Type ℓ} {B : Type κ} where
  >>=-Equipped :
      {m : Result BotFailure A} {f : A → Result BotFailure B}
      → Equipped m
      → ((a : A) → m ≡ ok a → Equipped (f a))
      → Equipped (m >>= f)
  >>=-Equipped (done a) h = h a refl
  >>=-Equipped (failed e n) h = failed e n

module _ {ℓ} {A : Type ℓ} where
  held-Equipped : (o : Option A) (e : BotFailure) → is_some o ≡ true → Equipped (ok_or o e)
  held-Equipped none e h = absurd (cc h)
  held-Equipped (some a) e h = done a

  rotation-Equipped : (m : Result BotError A) → Equipped (map_err rotation m)
  rotation-Equipped (ok a) = done a
  rotation-Equipped (err e) = failed (rotation e) refl

  wallet-Equipped : (m : Result ClientError A) → Equipped (map_err wallet m)
  wallet-Equipped (ok a) = done a
  wallet-Equipped (err e) = failed (wallet e) refl

  round-Equipped : (m : Result RunError A) → Equipped (map_err round m)
  round-Equipped (ok a) = done a
  round-Equipped (err e) = failed (round e) refl

All-get_elem {ℓ κ} :
    {A : Type ℓ} (Q : A → Type κ) (xs : List A) (i : ℕ) {a : A}
    → All Q xs
    → get_elem? xs i ≡ some a
    → Q a
All-get_elem Q [] i h e = absurd (cc e)
All-get_elem Q (x ∷ xs) zero {a} h e = let same : x ≡ a = cc e in subst Q same h.0
All-get_elem Q (x ∷ xs) (suc i) h e = All-get_elem Q xs i h.1 e

-- The type of a run is one of those that are enabled.
picked-All {κ} :
    (Q : ScriptType → Type κ) (file : CounterFile) (enabled : List ScriptType) {st : ScriptType}
    → All Q enabled
    → pick_script_type file enabled ≡ ok st
    → Q st
unfolding pick_script_type
picked-All Q file enabled {st} all h =
    let (counter, _, end) = >>=-eq-ok (read_counter file) _ h in
    All-get_elem Q enabled (counter % length enabled) all
      (ok_or-eq-ok (get_elem? enabled (counter % length enabled)) panicked end)

same_types :
    (types : List ScriptType) {enabled : List ScriptType}
    → new_rotation types ≡ ok enabled
    → types ≡ enabled
unfolding new_rotation
same_types [] h = absurd (cc h)
same_types (st ∷ sts) h = cc h

module _ (x : External) (k : Keys) (wire : WireText) (b : Blind) (bdk : Bdk) where
  wallet_for-Equipped :
      (config : BotConfig) (st : ScriptType)
      → has_tuple config st ≡ true
      → Equipped (wallet_for x k wire b bdk config st)
  unfolding wallet_for
  wallet_for-Equipped config p2wpkh h = search (>>=-Equipped, wallet-Equipped, held-Equipped)
  wallet_for-Equipped config p2tr h = search (>>=-Equipped, wallet-Equipped, held-Equipped)
  wallet_for-Equipped config p2sh_p2wpkh h = search (>>=-Equipped, wallet-Equipped, held-Equipped)

  picked-Equipped :
      (config : BotConfig) (file : CounterFile) (enabled : List ScriptType) (st : ScriptType)
      → Provided config
      → map_err rotation (new_rotation config.enabled_types) ≡ ok enabled
      → map_err rotation (pick_script_type file enabled) ≡ ok st
      → Equipped (wallet_for x k wire b bdk config st)
  picked-Equipped config file enabled st p listed picked =
      let same =
        same_types config.enabled_types
          (map_err-eq-ok rotation (new_rotation config.enabled_types) listed) in
      let all = subst (λ ts. All (λ t. has_tuple config t ≡ true) ts) same p.credentials in
      wallet_for-Equipped config st (
        picked-All (λ t. has_tuple config t ≡ true) file enabled all
          (map_err-eq-ok rotation (pick_script_type file enabled) picked))

  play-Equipped :
      (config : BotConfig) (rng : Bytes) (remote : Remote) (file : CounterFile)
      → Provided config
      → Equipped (play x k wire b bdk config rng remote file)
  unfolding play
  play-Equipped config rng remote file p =
      search (>>=-Equipped, rotation-Equipped, round-Equipped, picked-Equipped) depth 12

  -- How a run ends: with a failure, which is not for want of credentials, and the file as it was; or with a
  -- round that was played to its end, and the counter moved on.
  pub data Advanced (config : BotConfig) (writable : Bool) (rng : Bytes) (remote : Remote)
      (file : CounterFile) : CounterFile × Result BotFailure (Unit {0}) → Type 0 where
    stays :
        (e : BotFailure) → lacks e ≡ false → Advanced config writable rng remote file (file, err e)
    moves :
        (file' : CounterFile)
        → play x k wire b bdk config rng remote file ≡ ok tt
        → bump_counter writable file ≡ ok file'
        → Advanced config writable rng remote file (file', ok tt)

  ended :
      (config : BotConfig) (writable : Bool) (rng : Bytes) (remote : Remote) (file : CounterFile)
      (m : Result BotFailure (Unit {0}))
      → play x k wire b bdk config rng remote file ≡ m
      → Equipped m
      → Advanced config writable rng remote file (after_round x k wire b bdk writable file m)
  ended config writable rng remote file m played (failed e n) = stays e n
  ended config writable rng remote file m played (done a) =
      elim (Result-cases (bump_counter writable file)) [
        | inl (file', e) ↦ rw e (moves file' played e)
        | inr (why, e) ↦ rw e (stays (rotation why) refl)
      ]

  -- With a configuration that the bot starts with, a run either fails and leaves the counter file as it was,
  -- and then not because the credentials of a script type are missing; or it plays its round to the end,
  -- and the counter moves on.
  pub run-Advanced :
      (from_str : Text → Option ScriptType) (env : Env) {config : BotConfig}
      → bot_config from_str env ≡ ok config
      → (writable : Bool) (rng : Bytes) (remote : Remote) (file : CounterFile)
      → Advanced config writable rng remote file
          (run x k wire b bdk config writable rng remote file)
  unfolding run
  run-Advanced from_str env {config} h writable rng remote file =
      ended config writable rng remote file (play x k wire b bdk config rng remote file) refl
        (play-Equipped config rng remote file (bot_config-Provided from_str env h))
