-- ===== src/Coordinator/Tx/Conserve.antt =====
-- Value in the transaction of coordinator/src/bitcoin/tx.rs: what goes in, comes out, and is paid.
use blindjoin.Prelude.{
  ℕ, ◌+◌, ◌-◌, ◌*◌, ◌^◌, ◌≤◌, ◌<◌, ◌≡◌, List, [], ◌∷◌, arith, All, length, sub64, sub64-eq, leb,
  if◌then◌else◌,
}
use blindjoin.External.{External, TxOut}
use blindjoin.Coordinator.Tx.{ParticipantInput, change_outputs, dust_threshold_sats}
use blindjoin.Coordinator.Tx.Funds.{Funded}

abbrev pub values_in : List ParticipantInput → ℕ
values_in [] = 0
values_in (i ∷ is) = i.value_sats + values_in is

abbrev pub values_out : List TxOut → ℕ
values_out [] = 0
values_out (o ∷ os) = o.value + values_out os

-- A u64 amount.
abbrev pub InWord : List ParticipantInput → Type 0
InWord = All λ i. i.value_sats < 2 ^ 64

-- What the participants forgo because their change is dust.
abbrev pub dust : ℕ → List ParticipantInput → ℕ
dust required [] = 0
dust required (i ∷ is) =
    let rest = dust required is in
    if leb dust_threshold_sats (i.value_sats - required)
    then rest
    else i.value_sats - required + rest

pub dust-le : (required : ℕ) (is : List ParticipantInput) → dust required is ≤ 293 * length is
dust-le required [] = omega arith
dust-le required (i ∷ is) = ground (arith, dust-le required is)

change-eq : (d share v : ℕ) → d + share ≤ v → v < 2 ^ 64 → sub64 (sub64 v d) share ≡ v - (d + share)
change-eq d share v h k =
    rw (sub64-eq v d (omega arith) k, sub64-eq (v - d) share (omega arith) (omega arith))
      (omega arith)

pub values_out-change :
    (d share : ℕ) (is : List ParticipantInput)
    → InWord is
    → Funded (d + share) is
    → values_in is
      ≡ values_out (change_outputs d share is) + dust (d + share) is + length is * (d + share)
unfolding change_outputs
values_out-change d share [] w h = omega arith
values_out-change d share (i ∷ is) w h =
    ground (arith, change-eq d share i.value_sats h.0 w.0, values_out-change d share is w.1 h.1)

pub change-ge-dust :
    (d share : ℕ) (is : List ParticipantInput)
    → All (λ o. dust_threshold_sats ≤ o.value) (change_outputs d share is)
unfolding change_outputs
change-ge-dust d share [] = tt
change-ge-dust d share (i ∷ is) = ground (arith, change-ge-dust d share is)
