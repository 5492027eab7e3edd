-- ===== src/Coordinator/State.antt =====
-- coordinator/src/api/mod.rs: the state that the handlers and the monitor share.
use blindjoin.Prelude.{ℕ}
use blindjoin.Coordinator.Round.State.{RoundState}
use blindjoin.Coordinator.Round.Blame.{BanList, BanFile}

-- What the locks and the atomics of `AppState` hold, and the ban file. The configuration and the
-- RPC client never change: they are arguments.
pub record AppState : Type 0 where
  pub round : RoundState
  pub ban_list : BanList
  pub ban_file : BanFile
  pub blame_round_count : ℕ  -- AtomicU32
  pub round_paused_until : ℕ  -- AtomicU64

-- An answer of the node, or a failure of the call.
pub data Rpc (A : Type 0) : Type 0 where
  answer : A → Rpc A
  failed : Rpc A
