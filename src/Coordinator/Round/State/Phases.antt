-- ===== src/Coordinator/Round/State/Phases.antt =====
-- The phases of coordinator/src/round/state.rs: their test for equality, and transitions by phase.
use blindjoin.Prelude.{ℕ, ◌≡◌, true, refl, ok}
use blindjoin.Coordinator.Round.State.{
  Phase, idle, input_reg, output_reg, signing, broadcast, blame, RoundState, phase_beq, new_idle,
  transition_to, can_transition_to, attempt,
}

pub phase_beq-eq : (p q : Phase) → phase_beq p q ≡ true → p ≡ q
phase_beq-eq idle idle h = refl
phase_beq-eq input_reg input_reg h = refl
phase_beq-eq output_reg output_reg h = refl
phase_beq-eq signing signing h = refl
phase_beq-eq broadcast broadcast h = refl
phase_beq-eq blame blame h = refl
phase_beq-eq _ _ h = absurd (cc)

module _ (fresh : ℕ) (s : RoundState) where
  -- The transitions that the modelled code attempts, each from the phase in which it does so.
  pub attempt-output_reg :
      s.phase ≡ input_reg → attempt fresh s output_reg ≡ record s { phase = output_reg }
  unfolding attempt transition_to can_transition_to
  attempt-output_reg h = rw h

  pub attempt-signing :
      s.phase ≡ output_reg → attempt fresh s signing ≡ record s { phase = signing }
  unfolding attempt transition_to can_transition_to
  attempt-signing h = rw h

  pub transition-broadcast :
      s.phase ≡ signing → transition_to fresh s broadcast ≡ ok (record s { phase = broadcast })
  unfolding transition_to can_transition_to
  transition-broadcast h = rw h

  pub attempt-no_quorum : s.phase ≡ input_reg → attempt fresh s idle ≡ new_idle fresh
  unfolding attempt transition_to can_transition_to new_idle
  attempt-no_quorum h = rw h

  pub attempt-published : s.phase ≡ broadcast → attempt fresh s idle ≡ new_idle fresh
  unfolding attempt transition_to can_transition_to new_idle
  attempt-published h = rw h

  -- Blame is entered and left at once.
  pub blamed : s.phase ≡ output_reg → attempt fresh (attempt fresh s blame) idle ≡ new_idle fresh
  unfolding attempt transition_to can_transition_to new_idle
  blamed h = rw h

  pub blamed_broadcast :
      s.phase ≡ broadcast → attempt fresh (attempt fresh s blame) idle ≡ new_idle fresh
  unfolding attempt transition_to can_transition_to new_idle
  blamed_broadcast h = rw h

  pub blamed_signing :
      s.phase ≡ signing → attempt fresh (attempt fresh s blame) idle ≡ new_idle fresh
  unfolding attempt transition_to can_transition_to new_idle
  blamed_signing h = rw h
