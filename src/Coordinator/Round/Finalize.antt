-- ===== src/Coordinator/Round/Finalize.antt =====
-- coordinator/src/round/signing.rs: the broadcast off the lock, and how it ends the round.
pub mod Ends
use blindjoin.Prelude.{
  ℕ, Bool, true, false, ◌&&◌, Option, none, some, List, [], ◌∷◌, ltb, leb, if◌then◌else◌, Result,
  ok, err, add32, add64,
}
use blindjoin.Prelude.Eq.{Text, ◌==◌, nat_eq}
use blindjoin.External.{External, OutPoint}
use blindjoin.Shared.Errors.{broadcast_rejected}
use blindjoin.Coordinator.Failure.{Failure, refuse}
use blindjoin.Coordinator.Config.{CoordinatorConfig}
use blindjoin.Coordinator.State.{AppState, Rpc, answer, failed}
use blindjoin.Coordinator.Round.State.{idle, blame, broadcast, phase_beq, RoundState, attempt}
use blindjoin.Coordinator.Round.OutPoints.{parse_outpoint}
use blindjoin.Coordinator.Round.Blame.{Json, ban_all, consecutive_blame_cap}
use blindjoin.Coordinator.Round.Signing.{PreparedBroadcast}

abbrev pub max_consecutive_rpc_errors : ℕ
max_consecutive_rpc_errors = 2

-- What the program reads from the node.
pub record Node : Type 0 where
  -- the first entry's `allowed` of `testmempoolaccept`
  pub testmempoolaccept : Text → Rpc (Option Bool)
  pub sendrawtransaction : Text → Rpc Text
  pub is_output_unspent_including_mempool : OutPoint → Rpc Bool

module _ (x : External) (node : Node) where
  -- The loop of `revalidate_spent_inputs`, with the errors in a row so far.
  unfoldable pub revalidate_from : ℕ → List Text → List Text
  revalidate_from consecutive_errors [] = []
  revalidate_from consecutive_errors (utxo_str ∷ rest) =
      let again = revalidate_from consecutive_errors rest in
      let afresh = revalidate_from 0 rest in
      let after_error = revalidate_from (add32 consecutive_errors 1) rest in
      elim (parse_outpoint x utxo_str) [
        | none ↦ again
        | some outpoint ↦ elim (node.is_output_unspent_including_mempool outpoint) [
          | answer true ↦ afresh
          | answer false ↦ utxo_str ∷ afresh
          | failed ↦
              if leb max_consecutive_rpc_errors (add32 consecutive_errors 1)
              then []
              else after_error
        ]
      ]

  unfoldable pub revalidate_spent_inputs : List Text → List Text
  unfolding revalidate_from
  revalidate_spent_inputs outpoints = revalidate_from 0 outpoints

  -- The network part of `finalize_broadcast`: the txid, or a failure.
  unfoldable pub broadcast_outcome : Text → Option Text
  broadcast_outcome tx_hex = elim (node.testmempoolaccept tx_hex) [
    | failed ↦ none
    | answer none ↦ none
    | answer (some false) ↦ none
    | answer (some true) ↦ elim (node.sendrawtransaction tx_hex) [
      | failed ↦ none
      | answer txid ↦ some txid
    ]
  ]

-- Nobody to ban: the failure counts towards the cap, and at the cap the re-armer pauses.
unfoldable pub count_unattributed : CoordinatorConfig → ℕ → AppState → AppState
count_unattributed cfg now a =
    let n = add32 a.blame_round_count 1 in
    let backoff = cfg.coordinator.blame_full_abort_backoff_secs in
    if leb consecutive_blame_cap n && ltb 0 backoff
    then record a { round_paused_until = add64 now backoff; blame_round_count = 0 }
    else record a { blame_round_count = n }

-- The counter of consecutive blames, by what was banned.
abbrev pub count_blame : CoordinatorConfig → ℕ → List Text → AppState → AppState
count_blame cfg now [] a = count_unattributed cfg now a
count_blame cfg now (u ∷ us) a = record a { blame_round_count = 0 }

abbrev pub end_round : ℕ → AppState → AppState
end_round fresh a = record a { round = attempt fresh (attempt fresh a.round blame) idle }

module _ (x : External) (json : Json) (writable : Text → Bool) where
  unfoldable pub apply_broadcast_failure_blame :
      ℕ → ℕ → CoordinatorConfig → List Text → AppState → AppState
  unfolding count_unattributed
  apply_broadcast_failure_blame now fresh cfg banned_utxos a =
      let (bl, file) =
        ban_all x json writable now cfg.coordinator.blame_ban_duration_secs banned_utxos a.ban_list
          a.ban_file in
      end_round fresh
        (count_blame cfg now banned_utxos (record a { ban_list = bl; ban_file = file }))

  -- The round that this task broadcast is still the current one.
  abbrev pub still_current : ℕ → RoundState → Bool
  still_current round_id s = (s.round_id == round_id) && phase_beq s.phase broadcast

  unfoldable pub on_broadcast : ℕ → ℕ → AppState → AppState
  on_broadcast fresh round_id a =
      if still_current round_id a.round
      then record a { blame_round_count = 0; round = attempt fresh a.round idle }
      else a

  unfoldable pub on_broadcast_failure :
      ℕ → ℕ → CoordinatorConfig → ℕ → List Text → AppState → AppState
  on_broadcast_failure now fresh cfg round_id banned a =
      if still_current round_id a.round
      then apply_broadcast_failure_blame now fresh cfg banned a
      else a

  -- `a` is the shared state when the task takes the lock again, after the network calls.
  unfoldable pub finalize_broadcast :
      Node
      → ℕ
      → ℕ
      → CoordinatorConfig
      → PreparedBroadcast
      → ℕ
      → AppState
      → Result Failure Text × AppState
  unfolding on_broadcast on_broadcast_failure
  finalize_broadcast node now fresh cfg prepared round_id a =
      elim (broadcast_outcome x node prepared.tx_hex) [
        | some txid ↦ (ok txid, on_broadcast fresh round_id a)
        | none ↦ (
          err (refuse broadcast_rejected (x.uuid_text round_id)),
          on_broadcast_failure now fresh cfg round_id
              (revalidate_spent_inputs x node prepared.input_outpoints) a,
        )
      ]
