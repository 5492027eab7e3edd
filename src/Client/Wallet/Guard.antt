-- ===== src/Client/Wallet/Guard.antt =====
-- The marks on the inputs of others (client/src/wallet.rs).
use blindjoin.Prelude.{
  ℕ, suc, ◌<◌, ◌≤◌, ◌&&◌, ◌≡◌, ◌⊎◌, inl, inr, refl, ap, Bool, true, false, not, Option, none, some,
  List, [], ◌∷◌, any, sym, subst, zero, ◌+◌, All, All-imp, Bool-cases, arith, ◌==◌, get_elem?,
}
use blindjoin.External.{Witness, PsbtInput, Psbt}
use blindjoin.Client.Wallet.{is_none, guard_indices, set_witness, marked}

abbrev idle_input : PsbtInput → Bool
idle_input p = is_none p.final_script_sig && is_none p.final_script_witness

-- The index of an input that is not in the list of a later part.
later : (i : ℕ) (g : List ℕ) → All (λ j. i < j) g → any (λ j. j == i) g ≡ false
later i [] h = refl
later i (j ∷ g) h = ground (arith, later i g h.1)

guard_indices-above : (idx k : ℕ) (ps : List PsbtInput) → All (λ j. k ≤ j) (guard_indices idx k ps)
unfolding guard_indices
guard_indices-above idx k [] = tt
guard_indices-above idx k (p ∷ ps) =
    let rest : All (λ j. k ≤ j) (guard_indices idx (suc k) ps) =
      All-imp (λ j h. omega (arith, h)) (guard_indices idx (suc k) ps)
        (guard_indices-above idx (suc k) ps) in
    elim (Bool-cases (not (k == idx) && idle_input p)) [
      | inl guarded ↦ rw (guard_indices, guarded) (omega arith, rest)
      | inr left ↦ rw (guard_indices, left) rest
    ]

-- An index before the list has no effect on it.
passed :
    (i : ℕ) (g : List ℕ) (w : Option Witness) (k : ℕ) (ps : List PsbtInput)
    → i < k
    → set_witness (i ∷ g) w k ps ≡ set_witness g w k ps
unfolding set_witness
passed i g w k [] h = refl
passed i g w k (p ∷ ps) h =
    let apart : (i == k) ≡ false = ground arith in
    rw (apart, passed i g w (suc k) ps (omega (arith, h)))

set-here :
    (k : ℕ) (g : List ℕ) (w : Option Witness) (p : PsbtInput) (ps : List PsbtInput)
    → set_witness (k ∷ g) w k (p ∷ ps)
      ≡ record p { final_script_witness = w } ∷ set_witness g w (suc k) ps
unfolding set_witness
set-here k g w p ps =
    let same : (k == k) ≡ true = ground arith in rw (same, passed k g w (suc k) ps (omega arith))

set-past :
    (k : ℕ) (g : List ℕ) (w : Option Witness) (p : PsbtInput) (ps : List PsbtInput)
    → All (λ j. k < j) g
    → set_witness g w k (p ∷ ps) ≡ p ∷ set_witness g w (suc k) ps
unfolding set_witness
set-past k g w p ps h = rw (later k g h)

was_idle : (p : PsbtInput) → idle_input p ≡ true → record p { final_script_witness = none } ≡ p
was_idle p h =
    ap (λ w. record p { final_script_witness = w })
      (sym (none_of p.final_script_witness (ground arith)))
  where
    none_of : (w : Option Witness) → is_none w ≡ true → w ≡ none
    none_of none h = refl
    none_of (some w) h = cc

module _ (idx : ℕ) where
  guards-idle :
      (k : ℕ) (p : PsbtInput) (ps : List PsbtInput)
      → (not (k == idx) && idle_input p) ≡ true
      → guard_indices idx k (p ∷ ps) ≡ k ∷ guard_indices idx (suc k) ps
  unfolding guard_indices
  guards-idle k p ps h = rw h

  guards-left :
      (k : ℕ) (p : PsbtInput) (ps : List PsbtInput)
      → (not (k == idx) && idle_input p) ≡ false
      → guard_indices idx k (p ∷ ps) ≡ guard_indices idx (suc k) ps
  unfolding guard_indices
  guards-left k p ps h = rw h

  marking-idle :
      (w : Option Witness) (k : ℕ) (p q : PsbtInput) (ps qs : List PsbtInput)
      → (not (k == idx) && idle_input p) ≡ true
      → set_witness (guard_indices idx k (p ∷ ps)) w k (q ∷ qs)
        ≡ record q { final_script_witness = w }
          ∷ set_witness (guard_indices idx (suc k) ps) w (suc k) qs
  marking-idle w k p q ps qs h =
      rw (guards-idle k p ps h) (set-here k (guard_indices idx (suc k) ps) w q qs)

  marking-left :
      (w : Option Witness) (k : ℕ) (p q : PsbtInput) (ps qs : List PsbtInput)
      → (not (k == idx) && idle_input p) ≡ false
      → set_witness (guard_indices idx k (p ∷ ps)) w k (q ∷ qs)
        ≡ q ∷ set_witness (guard_indices idx (suc k) ps) w (suc k) qs
  marking-left w k p q ps qs h = rw (guards-left k p ps h) (
      set-past k (guard_indices idx (suc k) ps) w q qs (
        All-imp (λ j l. omega (arith, l)) (guard_indices idx (suc k) ps)
          (guard_indices-above idx (suc k) ps)))

  restored_from :
      (k : ℕ) (ps : List PsbtInput)
      → set_witness
          (guard_indices idx k ps)
          none
          k
          (set_witness (guard_indices idx k ps) (some []) k ps)
        ≡ ps
  unfolding set_witness
  restored_from k [] = refl
  restored_from k (p ∷ ps) = elim (Bool-cases (not (k == idx) && idle_input p)) [
    | inl guarded ↦
        rw
          (
            marking-idle (some []) k p p ps ps guarded,
            marking-idle none k p _ ps _ guarded,
            restored_from (suc k) ps,
          )
          (ap (λ q. q ∷ ps) (was_idle p (ground arith)))
    | inr left ↦ rw (
      marking-left (some []) k p p ps ps left,
      marking-left none k p _ ps _ left,
      restored_from (suc k) ps,
    )
  ]

  abbrev idle_at : Option PsbtInput → Bool
  idle_at none = false
  idle_at (some p) = idle_input p

  -- A marked input is done.
  done :
      (p : PsbtInput) {q : PsbtInput}
      → some (record p { final_script_witness = some [] }) ≡ some q
      → idle_input q ≡ false
  done p h = subst (λ o. idle_at o ≡ false) h (ground arith)

  -- An input that is left is the client's own, or was done before.
  own :
      (k : ℕ) (p : PsbtInput) {q : PsbtInput}
      → (not (k == idx) && idle_input p) ≡ false
      → some p ≡ some q
      → ((k + 0 ≡ idx) × (some p ≡ some q)) ⊎ (idle_input q ≡ false)
  own k p left h = elim (Bool-cases (k == idx)) [
    | inl here ↦ inl (ground arith, h)
    | inr there ↦ inr (subst (λ o. idle_at o ≡ false) h (ground arith))
  ]

  shifted :
      (k i : ℕ) (ps : List PsbtInput) {q : PsbtInput}
      → ((suc k + i ≡ idx) × (get_elem? ps i ≡ some q)) ⊎ (idle_input q ≡ false)
      → ((k + suc i ≡ idx) × (get_elem? ps i ≡ some q)) ⊎ (idle_input q ≡ false)
  shifted k i ps (inl (e, f)) = inl (omega arith, f)
  shifted k i ps (inr f) = inr f

  elem_from :
      (k i : ℕ) (ps : List PsbtInput) {q : PsbtInput}
      → get_elem? (set_witness (guard_indices idx k ps) (some []) k ps) i ≡ some q
      → ((k + i ≡ idx) × (get_elem? ps i ≡ some q)) ⊎ (idle_input q ≡ false)
  unfolding set_witness
  elem_from k i [] h = cc
  elem_from k zero (p ∷ ps) {q} h = elim (Bool-cases (not (k == idx) && idle_input p)) [
    | inl guarded ↦ inr (done p (rw (marking-idle (some []) k p p ps ps guarded) at h))
    | inr left ↦ own k p left (rw (marking-left (some []) k p p ps ps left) at h)
  ]
  elem_from k (suc i) (p ∷ ps) {q} h = elim (Bool-cases (not (k == idx) && idle_input p)) [
    | inl guarded ↦
        shifted k i ps
          (elem_from (suc k) i ps (rw (marking-idle (some []) k p p ps ps guarded) at h))
    | inr left ↦
        shifted k i ps (elem_from (suc k) i ps (rw (marking-left (some []) k p p ps ps left) at h))
  ]

-- Every input that bdk is given is the client's own, just as it came, or carries a mark of being done.
pub marked-elem :
    (idx i : ℕ) (psbt : Psbt) {q : PsbtInput}
    → get_elem? (marked idx psbt).inputs i ≡ some q
    → ((i ≡ idx) × (get_elem? psbt.inputs i ≡ some q))
      ⊎ ((is_none q.final_script_sig && is_none q.final_script_witness) ≡ false)
unfolding marked
marked-elem idx i psbt h = elim (elem_from idx 0 i psbt.inputs h) [
  | inl (e, f) ↦ inl (omega (arith, e), f)
  | inr f ↦ inr f
]

-- The marks for bdk change nothing else of the PSBT, its transaction included: taking them off again gives
-- the PSBT that came.
pub marked-restored :
    (idx : ℕ) (psbt : Psbt)
    → record (marked idx psbt) {
      inputs = set_witness (guard_indices idx 0 psbt.inputs) none 0 (marked idx psbt).inputs;
    }
      ≡ psbt
unfolding marked
marked-restored idx psbt = ap (λ ps. record psbt { inputs = ps }) (restored_from idx 0 psbt.inputs)
