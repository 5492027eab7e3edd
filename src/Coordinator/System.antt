-- ===== src/Coordinator/System.antt =====
-- The coordinator as a whole: the steps that change its shared state (coordinator/src/api/handlers.rs,
-- coordinator/src/run.rs and coordinator/src/round/signing.rs), and the states that they reach.
pub mod Wf
pub mod Start
pub mod Ends
pub mod Inputs
pub mod Joined
pub mod Registers
pub mod Outputs
pub mod Signs
pub mod Reachable
pub mod Spec
pub mod Refines
pub mod Expiry
pub mod Answers
pub mod Builds
use blindjoin.Prelude.{ℕ, Bool, ◌≡◌, Option, Result, ok}
use blindjoin.Prelude.Eq.{Text}
use blindjoin.External.{External, OutPoint}
use blindjoin.Shared.Ownership.{WireJson}
use blindjoin.Coordinator.Config.{CoordinatorConfig}
use blindjoin.Coordinator.State.{AppState, Rpc}
use blindjoin.Coordinator.Utxo.{GetTxOut}
use blindjoin.Coordinator.Round.State.{Phase, RoundState, new_idle}
use blindjoin.Coordinator.Round.Manager.{StartRoundError, RoundMaterial}
use blindjoin.Coordinator.Round.Blame.{Json, BanList, BanFile}
use blindjoin.Coordinator.Round.Signing.{PreparedBroadcast}
use blindjoin.Coordinator.Round.Finalize.{Node, finalize_broadcast}
use blindjoin.Coordinator.Monitor.{Monitor, install_tick, fire}
use blindjoin.Coordinator.Api.Input.{InputRegRequest, InputRegResponse, post_input}
use blindjoin.Coordinator.Api.Output.{OutputRegRequest, OutputRegResponse, post_output}
use blindjoin.Coordinator.Api.Sign.{SignRequest, post_sign}

-- What the process reads and what never changes while it runs.
pub record Site : Type 0 where
  pub cfg : CoordinatorConfig
  pub wire : WireJson
  pub ban_json : Json
  pub writable : Text → Bool

-- The state at startup, with the bans that the file held.
abbrev pub started : ℕ → BanList → BanFile → AppState
started fresh bans file = record {
  round = new_idle fresh;
  ban_list = bans;
  ban_file = file;
  blame_round_count = 0;
  round_paused_until = 0;
}

-- One step under the write lock. What a handler saw before it took the lock is arbitrary; so are the
-- answers of the node, the clock, the fresh identifiers and the order in which tasks run.
pub data Step (x : External) (site : Site) : AppState → AppState → Type 0 where
  -- the monitor installs a key
  installs :
      (fresh round_id : ℕ) (m : Monitor) (r : Result StartRoundError RoundMaterial) (a : AppState)
      → Step x site a (record a { round = (install_tick fresh round_id m a.round r).1 })
  registers :
      (now fresh : ℕ) (gettxout : OutPoint → Rpc (Option GetTxOut)) (seen snap : RoundState)
      (bans : BanList) (req : InputRegRequest) (a : AppState) (response : InputRegResponse)
      (s : RoundState)
      → post_input x site.wire site.cfg now gettxout seen bans snap fresh a.round req
        ≡ ok (response, s)
      → Step x site a (record a { round = s })
  redeems :
      (fresh : ℕ) (seen : RoundState) (req : OutputRegRequest) (a : AppState)
      (response : OutputRegResponse) (s : RoundState)
      → post_output x site.cfg seen fresh a.round req ≡ ok (response, s)
      → Step x site a (record a { round = s })
  -- answered or refused: a refusal can leave the signature recorded
  signs :
      (fresh : ℕ) (seen : RoundState) (req : SignRequest) (a : AppState)
      → Step x site a (record a { round = (post_sign x fresh site.cfg seen a.round req).1 })
  -- the task that broadcasts takes the lock again
  finalizes :
      (node : Node) (now fresh : ℕ) (prepared : PreparedBroadcast) (round_id : ℕ) (a : AppState)
      → Step x site a
          (finalize_broadcast x site.ban_json site.writable node now fresh site.cfg prepared
            round_id a).1
  -- a timer goes off
  expires :
      (now fresh : ℕ) (phase : Phase) (round_id : ℕ) (a : AppState)
      → Step x site a (fire x site.ban_json site.writable now fresh site.cfg phase round_id a)

-- The states that the coordinator can be in.
pub data Reach (x : External) (site : Site) : AppState → Type 0 where
  boots : (fresh : ℕ) (bans : BanList) (file : BanFile) → Reach x site (started fresh bans file)
  steps : {a b : AppState} → Reach x site a → Step x site a b → Reach x site b
