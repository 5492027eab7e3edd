-- ===== src/Coordinator/Startup/Steps.antt =====
-- The bans and their file through the steps that change them (coordinator/src/round/signing.rs,
-- coordinator/src/run.rs).
use blindjoin.Prelude.{
  ℕ, ◌≡◌, ◌&&◌, not, Bool, true, inl, inr, List, [], ◌∷◌, refl, arith, Bool-cases, Option-cases,
  sym, subst,
}
use blindjoin.Prelude.Eq.{Text, ◌==◌, nat_eq, bytes_eq}
use blindjoin.External.{External}
use blindjoin.Coordinator.Config.{CoordinatorConfig}
use blindjoin.Coordinator.State.{AppState}
use blindjoin.Coordinator.Round.State.{
  Phase, idle, input_reg, output_reg, signing, broadcast, blame, phase_beq, attempt,
}
use blindjoin.Coordinator.Round.Blame.{
  BanList, BanFile, Json, ban_all, on_signing_timeout, BlameOutcome, full_abort, restart_without,
  non_signers_of, timeout_outcome,
}
use blindjoin.Coordinator.Round.Blame.File.{JsonLaws}
use blindjoin.Coordinator.Round.Signing.{PreparedBroadcast}
use blindjoin.Coordinator.Round.Finalize.{
  Node, finalize_broadcast, on_broadcast, on_broadcast_failure, apply_broadcast_failure_blame,
  revalidate_spent_inputs, broadcast_outcome, still_current, count_unattributed, count_blame,
}
use blindjoin.Coordinator.Monitor.{fire, on_signing_timer, count_outcome}
use blindjoin.Coordinator.Startup.Kept.{Kept, ban_all-Kept}

abbrev bans : AppState → BanList × BanFile
bans a = (a.ban_list, a.ban_file)

abbrev KeptBans : Json → ℕ → BanList × BanFile → Type 0
KeptBans json since (bl, file) = Kept json since bl file

bans-count_blame :
    (cfg : CoordinatorConfig) (now : ℕ) (utxos : List Text) (a : AppState)
    → bans (count_blame cfg now utxos a) ≡ bans a
unfolding count_unattributed
bans-count_blame cfg now [] a = ground arith
bans-count_blame cfg now (u ∷ us) a = refl

bans-count_outcome :
    (cfg : CoordinatorConfig) (now : ℕ) (outcome : BlameOutcome) (a : AppState)
    → bans (count_outcome cfg now outcome a) ≡ bans a
unfolding count_outcome
bans-count_outcome cfg now full_abort a = ground arith
bans-count_outcome cfg now (restart_without us) a = refl

module _ (x : External) (json : Json) (laws : JsonLaws json) (writable : Text → Bool)
    (can : (u : Text) → writable u ≡ true) (since : ℕ) where
  blamed-Kept :
      (now fresh : ℕ) (cfg : CoordinatorConfig) (utxos : List Text) (a : AppState)
      → Kept json since a.ban_list a.ban_file
      → let b = apply_broadcast_failure_blame x json writable now fresh cfg utxos a in
        Kept json since b.ban_list b.ban_file
  unfolding apply_broadcast_failure_blame
  blamed-Kept now fresh cfg utxos a kept =
      let duration = cfg.coordinator.blame_ban_duration_secs in
      let (bl, file) = ban_all x json writable now duration utxos a.ban_list a.ban_file in
      subst (KeptBans json since)
        (sym (bans-count_blame cfg now utxos (record a { ban_list = bl; ban_file = file })))
        (ban_all-Kept x json laws since now duration writable utxos a.ban_list a.ban_file can kept)

  pub finalize-Kept :
      (node : Node) (now fresh : ℕ) (cfg : CoordinatorConfig) (prepared : PreparedBroadcast)
      (round_id : ℕ) (a : AppState)
      → Kept json since a.ban_list a.ban_file
      → let b = (finalize_broadcast x json writable node now fresh cfg prepared round_id a).1 in
        Kept json since b.ban_list b.ban_file
  unfolding finalize_broadcast on_broadcast on_broadcast_failure
  finalize-Kept node now fresh cfg prepared round_id a kept =
      elim (Option-cases (broadcast_outcome x node prepared.tx_hex)) [
        | inl e ↦
            rw (finalize_broadcast, e)
              (elim (Bool-cases (still_current x json writable round_id a.round)) [
                | inl current ↦
                    rw (on_broadcast_failure, current)
                      (blamed-Kept now fresh cfg
                        (revalidate_spent_inputs x node prepared.input_outpoints) a kept)
                | inr stale ↦ rw (on_broadcast_failure, stale) kept
              ])
        | inr (txid, e) ↦
            rw (finalize_broadcast, e)
              (elim (Bool-cases (still_current x json writable round_id a.round)) [
                | inl current ↦ rw (on_broadcast, current) kept
                | inr stale ↦ rw (on_broadcast, stale) kept
              ])
      ]

  timer-Kept :
      (now fresh : ℕ) (cfg : CoordinatorConfig) (round_id : ℕ) (a : AppState)
      → Kept json since a.ban_list a.ban_file
      → let b = on_signing_timer x json writable now fresh cfg round_id a in
        Kept json since b.ban_list b.ban_file
  unfolding on_signing_timer on_signing_timeout
  timer-Kept now fresh cfg round_id a kept =
      elim (Bool-cases (not ((a.round.round_id == round_id) && phase_beq a.round.phase signing))) [
        | inl over ↦ rw (on_signing_timer, over) kept
        | inr current ↦
            let duration = cfg.coordinator.blame_ban_duration_secs in
            let non_signers = non_signers_of a.round.inner in
            let (bl, file) =
              ban_all x json writable now duration non_signers a.ban_list a.ban_file in
            rw (on_signing_timer, current)
              (subst (KeptBans json since)
                (sym (
                  bans-count_outcome cfg now (timeout_outcome a.blame_round_count non_signers)
                    (record a {
                      round = attempt fresh (attempt fresh a.round blame) idle;
                      ban_list = bl;
                      ban_file = file;
                    })))
                (ban_all-Kept x json laws since now duration writable non_signers a.ban_list
                  a.ban_file can kept))
      ]

  pub fire-Kept :
      (now fresh : ℕ) (cfg : CoordinatorConfig) (phase : Phase) (round_id : ℕ) (a : AppState)
      → Kept json since a.ban_list a.ban_file
      → let b = fire x json writable now fresh cfg phase round_id a in
        Kept json since b.ban_list b.ban_file
  unfolding fire
  fire-Kept now fresh cfg idle r a kept = kept
  fire-Kept now fresh cfg input_reg r a kept = kept
  fire-Kept now fresh cfg output_reg r a kept = kept
  fire-Kept now fresh cfg signing r a kept = timer-Kept now fresh cfg r a kept
  fire-Kept now fresh cfg broadcast r a kept = kept
  fire-Kept now fresh cfg blame r a kept = kept
