-- ===== src/Coordinator/Round/Finalize/Ends.antt =====
-- Whom a failed broadcast bans, and how it ends the round (coordinator/src/round/signing.rs).
use blindjoin.Prelude.{
  Bool, ℕ, ◌≡◌, true, false, some, none, List, [], ◌∷◌, All, arith, add32, leb, Option-cases, inl,
  inr, refl, Bool-cases, ◌⊎◌,
}
use blindjoin.Prelude.Eq.{Text, bytes_eq}
use blindjoin.External.{External, OutPoint}
use blindjoin.Coordinator.Config.{CoordinatorConfig}
use blindjoin.Coordinator.State.{AppState, Rpc, answer, failed}
use blindjoin.Coordinator.Round.State.{new_idle, broadcast}
use blindjoin.Coordinator.Round.State.Phases.{phase_beq-eq, attempt-published, blamed_broadcast}
use blindjoin.Coordinator.Round.OutPoints.{parse_outpoint}
use blindjoin.Coordinator.Round.Blame.{Json, ban_all}
use blindjoin.Coordinator.Round.Signing.{PreparedBroadcast}
use blindjoin.Coordinator.Round.Finalize.{
  Node, revalidate_from, revalidate_spent_inputs, broadcast_outcome, finalize_broadcast,
  still_current, on_broadcast, on_broadcast_failure, apply_broadcast_failure_blame, count_blame,
  count_unattributed,
}

module _ (x : External) (node : Node) where
  -- The node reports the outpoint as spent.
  abbrev pub Spent : Text → Type 0
  Spent u =
      (o : OutPoint) × (parse_outpoint x u ≡ some o)
      × (node.is_output_unspent_including_mempool o ≡ answer false)

  answered :
      (consecutive : ℕ) (u : Text) (rest : List Text) (o : OutPoint)
      → parse_outpoint x u ≡ some o
      → All Spent (revalidate_from x node consecutive rest)
      → All Spent (revalidate_from x node 0 rest)
      → All Spent (revalidate_from x node (add32 consecutive 1) rest)
      → (r : Rpc _) → node.is_output_unspent_including_mempool o ≡ r
      → All Spent (revalidate_from x node consecutive (u ∷ rest))
  unfolding revalidate_from
  answered consecutive u rest o read again afresh after (answer true) e =
      rw (revalidate_from, read, e) afresh
  answered consecutive u rest o read again afresh after (answer false) e =
      rw (revalidate_from, read, e) ((o, read, e), afresh)
  answered consecutive u rest o read again afresh after failed e =
      elim (Bool-cases (leb 2 (add32 consecutive 1))) [
        | inl stop ↦ rw (revalidate_from, read, e, stop) tt
        | inr on ↦ rw (revalidate_from, read, e, on) after
      ]

  revalidate_from-Spent :
      (consecutive : ℕ) (us : List Text) → All Spent (revalidate_from x node consecutive us)
  unfolding revalidate_from
  revalidate_from-Spent consecutive [] = tt
  revalidate_from-Spent consecutive (u ∷ us) = elim (Option-cases (parse_outpoint x u)) [
    | inl unread ↦ rw (revalidate_from, unread) (revalidate_from-Spent consecutive us)
    | inr (o, read) ↦
        answered consecutive u us o read (revalidate_from-Spent consecutive us)
          (revalidate_from-Spent 0 us) (revalidate_from-Spent (add32 consecutive 1) us)
          (node.is_output_unspent_including_mempool o) refl
  ]

  -- Only outpoints that the node reports as spent are blamed for a failed broadcast: nobody is for an
  -- answer that does not come.
  pub revalidate_spent_inputs-Spent :
      (us : List Text) → All Spent (revalidate_spent_inputs x node us)
  unfolding revalidate_spent_inputs
  revalidate_spent_inputs-Spent us = revalidate_from-Spent 0 us

module _ (x : External) (json : Json) (writable : Text → Bool) (node : Node) (now fresh : ℕ)
    (cfg : CoordinatorConfig) (prepared : PreparedBroadcast) (round_id : ℕ) (a : AppState) where
  pub finalize_broadcast_stale :
      still_current x json writable round_id a.round ≡ false
      → (finalize_broadcast x json writable node now fresh cfg prepared round_id a).1 ≡ a
  unfolding finalize_broadcast on_broadcast on_broadcast_failure
  finalize_broadcast_stale stale = elim (Option-cases (broadcast_outcome x node prepared.tx_hex)) [
    | inl unsent ↦ rw (finalize_broadcast, unsent, stale)
    | inr (txid, sent) ↦ rw (finalize_broadcast, sent, stale)
  ]

  current_phase : still_current x json writable round_id a.round ≡ true → a.round.phase ≡ broadcast
  current_phase current = phase_beq-eq a.round.phase broadcast (ground arith)

  unattributed-round : (us : List Text) (b : AppState) → (count_blame cfg now us b).round ≡ b.round
  unfolding count_unattributed
  unattributed-round [] b = ground arith
  unattributed-round (u ∷ us) b = refl

  unattributed-bans :
      (us : List Text) (b : AppState) → (count_blame cfg now us b).ban_list ≡ b.ban_list
  unfolding count_unattributed
  unattributed-bans [] b = ground arith
  unattributed-bans (u ∷ us) b = refl

  -- What the end of the broadcast leaves: on success nobody is banned and the blames are forgotten; on
  -- failure the outpoints that were found spent are banned.
  abbrev pub Outcome : AppState → Type 0
  Outcome b =
      ((txid : Text) × (broadcast_outcome x node prepared.tx_hex ≡ some txid)
        × (b.ban_list ≡ a.ban_list)
        × (b.blame_round_count ≡ 0))
      ⊎ ((broadcast_outcome x node prepared.tx_hex ≡ none)
          × (b.ban_list
              ≡ (ban_all x json writable now cfg.coordinator.blame_ban_duration_secs
                  (revalidate_spent_inputs x node prepared.input_outpoints) a.ban_list
                  a.ban_file).0))

  -- The task whose round is still in Broadcast ends it in a clean Idle, whether the transaction was accepted
  -- or not, and bans nobody on success.
  pub finalize_broadcast_current :
      still_current x json writable round_id a.round ≡ true
      → let b = (finalize_broadcast x json writable node now fresh cfg prepared round_id a).1 in
        (b.round ≡ new_idle fresh) × Outcome b
  unfolding finalize_broadcast on_broadcast on_broadcast_failure apply_broadcast_failure_blame
  finalize_broadcast_current current =
      elim (Option-cases (broadcast_outcome x node prepared.tx_hex)) [
        | inl unsent ↦
            rw (finalize_broadcast, unsent, current)
              (
                rw (unattributed-round _ _)
                    (blamed_broadcast fresh a.round (current_phase current)),
                inr (refl, unattributed-bans _ _),
              )
        | inr (txid, sent) ↦
            rw (finalize_broadcast, sent, current)
              (
                attempt-published fresh a.round (current_phase current),
                inl (txid, refl, refl, refl),
              )
      ]
