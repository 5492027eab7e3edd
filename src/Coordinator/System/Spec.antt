-- ===== src/Coordinator/System/Spec.antt =====
-- What a round is to those outside the coordinator: how many have joined it, and how far they are. The
-- specification of the phases of coordinator/src/round/state.rs, with no identifier, key or address.
use blindjoin.Prelude.{ℕ, suc, ◌≡◌, ◌≤◌, ◌<◌, ◌⊎◌}

pub data Spec : Type 0 where
  resting : Spec
  -- the inputs so far
  joining : ℕ → Spec
  -- the inputs, and the outputs so far
  redeeming : ℕ → ℕ → Spec
  -- the inputs, and the signatures so far
  collecting : ℕ → ℕ → Spec
  sending : ℕ → Spec

-- The moves of a round that asks for `min` participants and takes `max`.
pub data Move (min max : ℕ) : Spec → Spec → Type 0 where
  opens : Move min max resting (joining 0)
  joins : (n : ℕ) → suc n < max → Move min max (joining n) (joining (suc n))
  fills : (n : ℕ) → suc n ≡ max → Move min max (joining n) (redeeming (suc n) 0)
  closes : (n : ℕ) → min ≤ n → Move min max (joining n) (redeeming n 0)
  empties : (n : ℕ) → n < min → Move min max (joining n) resting
  redeems : (n k : ℕ) → suc k < n → Move min max (redeeming n k) (redeeming n (suc k))
  completes : (n k : ℕ) → suc k ≡ n → Move min max (redeeming n k) (collecting n 0)
  lapses : (n k : ℕ) → Move min max (redeeming n k) resting
  signs : (n k : ℕ) → Move min max (collecting n k) (collecting n (suc k))
  sends : (n k : ℕ) → n ≤ suc k → Move min max (collecting n k) (sending n)
  expires : (n k : ℕ) → Move min max (collecting n k) resting
  ends : (n : ℕ) → Move min max (sending n) resting

-- Nothing that is seen from outside, or a move.
abbrev pub Moves : ℕ → ℕ → Spec → Spec → Type 0
Moves min max s t = (s ≡ t) ⊎ Move min max s t

-- The rounds that the specification allows, from one that rests.
pub data Allowed (min max : ℕ) : Spec → Type 0 where
  begins : Allowed min max resting
  goes : {s t : Spec} → Allowed min max s → Move min max s t → Allowed min max t
