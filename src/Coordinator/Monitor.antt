-- ===== src/Coordinator/Monitor.antt =====
-- coordinator/src/run.rs: the phase monitor, its timers and the watchdog of the broadcast.
pub mod Once
use blindjoin.Prelude.{
  ℕ, Bool, true, not, ◌&&◌, Option, none, some, ltb, leb, if◌then◌else◌, Result, ok, err, add32,
  add64,
}
use blindjoin.Prelude.Eq.{Text, ◌==◌, nat_eq}
use blindjoin.External.{External}
use blindjoin.Coordinator.Config.{CoordinatorConfig}
use blindjoin.Coordinator.State.{AppState}
use blindjoin.Coordinator.Round.State.{
  Phase, idle, input_reg, output_reg, signing, broadcast, blame, phase_beq, RoundState, attempt,
}
use blindjoin.Coordinator.Round.Manager.{RoundMaterial, StartRoundError, install_round}
use blindjoin.Coordinator.Round.OutputReg.{on_output_reg_timeout}
use blindjoin.Coordinator.Round.Blame.{
  Json, BlameOutcome, full_abort, restart_without, on_signing_timeout,
}

unfoldable pub broadcast_watchdog_force_idle : ℕ → RoundState → ℕ → RoundState
broadcast_watchdog_force_idle fresh s round_id =
    if (s.round_id == round_id) && phase_beq s.phase broadcast then attempt fresh s idle else s

-- The round of the last action, for each phase.
pub record Monitor : Type 0 where
  pub last_idle_start_round : Option ℕ
  pub last_input_reg_round : Option ℕ
  pub last_output_reg_round : Option ℕ
  pub last_signing_round : Option ℕ
  pub last_broadcast_round : Option ℕ

-- `last != Some(round_id)`
abbrev pub is_new : Option ℕ → ℕ → Bool
is_new none round_id = true
is_new (some r) round_id = not (r == round_id)

-- What a tick sets going: the generation of a key, or a timer of the phase.
pub data Task : Type 0 where
  keygen : ℕ → Task
  timer : Phase → ℕ → Task

-- The branches of a tick, by the phase that it has read.
unfoldable pub tick_at : ℕ → ℕ → ℕ → Monitor → Phase → Monitor × Option Task
tick_at now paused_until r m idle =
    if is_new m.last_idle_start_round r && not (ltb now paused_until)
    then (record m { last_idle_start_round = some r }, some (keygen r))
    else (m, none)
tick_at now paused_until r m input_reg =
    if is_new m.last_input_reg_round r
    then (record m { last_input_reg_round = some r }, some (timer input_reg r))
    else (m, none)
tick_at now paused_until r m output_reg =
    if is_new m.last_output_reg_round r
    then (record m { last_output_reg_round = some r }, some (timer output_reg r))
    else (m, none)
tick_at now paused_until r m signing =
    if is_new m.last_signing_round r
    then (record m { last_signing_round = some r }, some (timer signing r))
    else (m, none)
tick_at now paused_until r m broadcast =
    if is_new m.last_broadcast_round r
    then (record m { last_broadcast_round = some r }, some (timer broadcast r))
    else (m, none)
tick_at now paused_until r m blame = (m, none)

-- A tick of the monitor. The key is generated off the lock, and installed in `install_tick`.
unfoldable pub tick : ℕ → AppState → Monitor → Monitor × Option Task
tick now a m = tick_at now a.round_paused_until a.round.round_id m a.round.phase

abbrev pub retry : Monitor → Monitor
retry m = record m { last_idle_start_round = none }

abbrev pub installed :
    Monitor → RoundState → Result StartRoundError RoundState → Monitor × RoundState
installed m s (ok s') = (m, s')
installed m s (err e) = (retry m, s)

abbrev pub install_if_idle : ℕ → ℕ → Monitor → RoundState → RoundMaterial → Monitor × RoundState
install_if_idle fresh round_id m s material =
    if not (phase_beq s.phase idle && (s.round_id == round_id))
    then (m, s)
    else installed m s (install_round fresh s material)

-- The rest of the Idle branch, when the task that generates the key has ended; `s` is the round
-- under the lock.
unfoldable pub install_tick :
    ℕ → ℕ → Monitor → RoundState → Result StartRoundError RoundMaterial → Monitor × RoundState
install_tick fresh round_id m s (err e) = (retry m, s)
install_tick fresh round_id m s (ok material) = install_if_idle fresh round_id m s material

-- The timer of the input registration.
unfoldable pub on_input_reg_timer : ℕ → CoordinatorConfig → ℕ → RoundState → RoundState
on_input_reg_timer fresh cfg round_id s =
    if not ((s.round_id == round_id) && phase_beq s.phase input_reg)
    then s
    else if leb cfg.coordinator.min_participants s.participant_count
    then attempt fresh s output_reg
    else attempt fresh s idle

unfoldable pub on_output_reg_timer : ℕ → ℕ → RoundState → RoundState
unfolding on_output_reg_timeout
on_output_reg_timer fresh round_id s =
    if (s.round_id == round_id) && phase_beq s.phase output_reg
    then (on_output_reg_timeout fresh s).1
    else s

-- The counter and the pause after a signing timeout.
unfoldable pub count_outcome : CoordinatorConfig → ℕ → BlameOutcome → AppState → AppState
count_outcome cfg now full_abort a =
    let backoff = cfg.coordinator.blame_full_abort_backoff_secs in
    if ltb 0 backoff
    then record a { blame_round_count = 0; round_paused_until = add64 now backoff }
    else record a { blame_round_count = 0 }
count_outcome cfg now (restart_without us) a = record a {
  blame_round_count = add32 a.blame_round_count 1;
}

module _ (x : External) (json : Json) (writable : Text → Bool) where
  unfoldable pub on_signing_timer : ℕ → ℕ → CoordinatorConfig → ℕ → AppState → AppState
  unfolding count_outcome
  on_signing_timer now fresh cfg round_id a =
      if not ((a.round.round_id == round_id) && phase_beq a.round.phase signing)
      then a
      else let (b, outcome) =
          on_signing_timeout x json writable now fresh a.round a.ban_list a.ban_file
            cfg.coordinator.blame_ban_duration_secs a.blame_round_count in
        count_outcome cfg now outcome
          (record a { round = b.state; ban_list = b.ban_list; ban_file = b.ban_file })

  -- A timer goes off.
  unfoldable pub fire : ℕ → ℕ → CoordinatorConfig → Phase → ℕ → AppState → AppState
  unfolding on_input_reg_timer on_output_reg_timer on_signing_timer broadcast_watchdog_force_idle
  fire now fresh cfg input_reg r a = record a { round = on_input_reg_timer fresh cfg r a.round }
  fire now fresh cfg output_reg r a = record a { round = on_output_reg_timer fresh r a.round }
  fire now fresh cfg signing r a = on_signing_timer now fresh cfg r a
  fire now fresh cfg broadcast r a = record a {
    round = broadcast_watchdog_force_idle fresh a.round r;
  }
  fire now fresh cfg _ r a = a
