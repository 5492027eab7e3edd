-- ===== src/Coordinator/System/Refines.antt =====
-- A round as its specification: the view of coordinator/src/round/state.rs that forgets all but counts.
pub mod Timers
pub mod Handlers
pub mod Signing
pub mod Steps
use blindjoin.Prelude.{ℕ, ◌≡◌, ◌≤◌, ◌+◌, ◌++◌, none, some, refl, length, List, [], ◌∷◌}
use blindjoin.Coordinator.Round.State.{
  Phase, idle, input_reg, output_reg, signing, broadcast, blame, RoundStateInner, RoundState,
}
use blindjoin.Coordinator.System.Spec.{Spec, resting, joining, redeeming, collecting, sending}

abbrev pub view_inner : Phase → RoundStateInner → Spec
view_inner input_reg i = joining (length i.registered_inputs)
view_inner output_reg i = redeeming (length i.registered_inputs) (length i.registered_outputs)
view_inner signing i = collecting (length i.registered_inputs) (length i.partial_sigs)
view_inner broadcast i = sending (length i.registered_inputs)
view_inner idle i = resting
view_inner blame i = resting

abbrev pub view : RoundState → Spec
view s = elim s.inner [ none ↦ resting | some i ↦ view_inner s.phase i ]

-- The view of a round whose phase and inner state are known.
pub view_at :
    (s : RoundState) (p : Phase) (i : RoundStateInner)
    → s.phase ≡ p
    → s.inner ≡ some i
    → view s ≡ view_inner p i
view_at s p i phase_view here = rw (here, phase_view)
