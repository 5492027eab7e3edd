-- ===== src/Coordinator/Round/State/Graph.antt =====
-- The transition graph of coordinator/src/round/state.rs.
use blindjoin.Prelude.{ℕ, ◌≡◌, ◌≢◌, ◌⊎◌, true, refl, Result, inl, inr, Bool-cases, ok, err}
use blindjoin.Coordinator.Round.State.{
  Phase, idle, input_reg, output_reg, signing, broadcast, blame, RoundState, new_idle,
  TransitionError, move_to, can_transition_to, invalid_transition, transition_to,
}

-- The edges of the machine.
infix 40 ◌⟶◌ ◌⟶*◌
pub data ◌⟶◌ : Phase → Phase → Type 0 where
  start : idle ⟶ input_reg
  quorum : input_reg ⟶ output_reg
  no_quorum : input_reg ⟶ idle
  all_outputs : output_reg ⟶ signing
  missing_output : output_reg ⟶ blame
  all_signed : signing ⟶ broadcast
  missing_signature : signing ⟶ blame
  published : broadcast ⟶ idle
  not_published : broadcast ⟶ blame
  resolved : blame ⟶ idle

pub data ◌⟶*◌ : Phase → Phase → Type 0 where
  here : {p : Phase} → p ⟶* p
  then : {p q r : Phase} → p ⟶ q → q ⟶* r → p ⟶* r

ruleset edges = (
  start, quorum, no_quorum, all_outputs, missing_output, all_signed, missing_signature, published,
  not_published, resolved,
)

pub can_transition-edge : (p q : Phase) → can_transition_to p q ≡ true → p ⟶ q
unfolding can_transition_to
can_transition-edge idle input_reg h = start
can_transition-edge input_reg output_reg h = quorum
can_transition-edge input_reg idle h = no_quorum
can_transition-edge output_reg signing h = all_outputs
can_transition-edge output_reg blame h = missing_output
can_transition-edge signing broadcast h = all_signed
can_transition-edge signing blame h = missing_signature
can_transition-edge broadcast idle h = published
can_transition-edge broadcast blame h = not_published
can_transition-edge blame idle h = resolved
can_transition-edge _ _ h = absurd (cc)

-- Every phase can be left for Idle: no phase is a trap.
pub ⟶*-idle : (p : Phase) → p ⟶* idle
⟶*-idle idle = here
⟶*-idle _ = search (here, then, edges)

pub edge-can_transition : {p q : Phase} → p ⟶ q → can_transition_to p q ≡ true
unfolding can_transition_to
edge-can_transition start = refl
edge-can_transition quorum = refl
edge-can_transition no_quorum = refl
edge-can_transition all_outputs = refl
edge-can_transition missing_output = refl
edge-can_transition all_signed = refl
edge-can_transition missing_signature = refl
edge-can_transition published = refl
edge-can_transition not_published = refl
edge-can_transition resolved = refl

abbrev Moves : ℕ → RoundState → Phase → Result TransitionError RoundState → Type 0
Moves fresh s next r =
    ((next ≡ idle) × (r ≡ ok (new_idle fresh)))
    ⊎ ((next ≢ idle) × (r ≡ ok (record s { phase = next })))

move_to-Moves :
    (fresh : ℕ) (s : RoundState) (next : Phase) → Moves fresh s next (move_to fresh s next true)
unfolding new_idle
move_to-Moves fresh s idle = inl (refl, refl)
move_to-Moves fresh s _ = inr ((λ e. cc), refl)

-- A transition is made exactly along an edge. It takes the round to the phase asked for, and a refused
-- one is the error that names both phases. Along an edge to Idle the round forgets its secrets and
-- its participants and takes the fresh identifier; along any other it keeps all but the phase.
pub transition_to_cases :
    (fresh : ℕ) (s : RoundState) (next : Phase)
    → ((s.phase ⟶ next)
        × (((next ≡ idle) × (transition_to fresh s next ≡ ok (new_idle fresh)))
            ⊎ ((next ≢ idle) × (transition_to fresh s next ≡ ok (record s { phase = next })))))
      ⊎ ((¬ (s.phase ⟶ next))
          × (transition_to fresh s next ≡ err (invalid_transition s.phase next)))
unfolding transition_to
transition_to_cases fresh s next = elim (Bool-cases (can_transition_to s.phase next)) [
  | inl e ↦ inl (can_transition-edge s.phase next e, rw e (move_to-Moves fresh s next))
  | inr e ↦ inr ((λ edge. cc (e, edge-can_transition edge)), rw e)
]
