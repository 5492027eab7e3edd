-- ===== src/Coordinator/Tx/Funds.antt =====
-- The funds check of coordinator/src/bitcoin/tx.rs.
use blindjoin.Prelude.{ℕ, ◌≤◌, ◌≡◌, refl, ok, List, [], ◌∷◌, arith, All, add64}
use blindjoin.Coordinator.Tx.{ParticipantInput, check_funds}

abbrev pub Funded : ℕ → List ParticipantInput → Type 0
Funded required = All λ i. required ≤ i.value_sats

pub Funded-check_funds :
    (d share : ℕ) (inputs : List ParticipantInput)
    → Funded (add64 d share) inputs
    → check_funds d share inputs ≡ ok tt
unfolding check_funds
Funded-check_funds d share [] h = refl
Funded-check_funds d share (i ∷ is) h = ground (arith, Funded-check_funds d share is h.1)

pub check_funds-Funded :
    (d share : ℕ) (inputs : List ParticipantInput)
    → check_funds d share inputs ≡ ok tt
    → Funded (add64 d share) inputs
unfolding check_funds
check_funds-Funded d share [] h = tt
check_funds-Funded d share (i ∷ is) h = ground (arith, check_funds-Funded d share is)
