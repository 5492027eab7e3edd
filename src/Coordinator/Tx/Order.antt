-- ===== src/Coordinator/Tx/Order.antt =====
-- The canonical input order of coordinator/src/bitcoin/tx.rs.
use mathlib.Core.List.{Permᴰ}
use mathlib.Core.List.Permᴰ
use mathlib.Core.Path.{subst}
use blindjoin.Prelude.{◌≡◌, ◌≢◌, refl, sym, ◌∙◌, List, [], ◌∷◌, arith, All, Bool-cases, inl, inr}
use blindjoin.External.{External, OutPointOrder}
use blindjoin.Coordinator.Tx.{ParticipantInput, insert_ordered, sort_inputs}

-- No two inputs spend one outpoint.
abbrev pub Apart : List ParticipantInput → Type 0
Apart [] = Unit
Apart (i ∷ is) = All (λ j. i.outpoint ≢ j.outpoint) is × Apart is

pub All-perm {ℓ κ} :
    {A : Type ℓ} (P : A → Type κ) {xs ys : List A} → Permᴰ xs ys → All P xs → All P ys
All-perm P Permᴰ.nil h = h
All-perm P (Permᴰ.cons e p) h = (subst P e h.0, All-perm P p h.1)
All-perm P (Permᴰ.swap e f) h = (subst P f h.1.0, (subst P e h.0, h.1.1))
All-perm P (Permᴰ.trans p q) h = All-perm P q (All-perm P p h)

pub Apart-perm : {xs ys : List ParticipantInput} → Permᴰ xs ys → Apart xs → Apart ys
Apart-perm Permᴰ.nil h = h
Apart-perm (Permᴰ.cons {l₂ = ys} e p) h =
    (subst (λ t. All (λ j. t.outpoint ≢ j.outpoint) ys) e (All-perm _ p h.0), Apart-perm p h.1)
Apart-perm (Permᴰ.swap {l = l} e f) h = (
  (λ q. h.0.0 (cc (e, f, q)), subst (λ t. All (λ j. t.outpoint ≢ j.outpoint) l) f h.1.0),
  (subst (λ t. All (λ j. t.outpoint ≢ j.outpoint) l) e h.0.1, h.1.1),
)
Apart-perm (Permᴰ.trans p q) h = Apart-perm q (Apart-perm p h)

pub Permᴰ-sym {ℓ} : {A : Type ℓ} {xs ys : List A} → Permᴰ xs ys → Permᴰ ys xs
Permᴰ-sym Permᴰ.nil = Permᴰ.nil
Permᴰ-sym (Permᴰ.cons e p) = Permᴰ.cons (sym e) (Permᴰ-sym p)
Permᴰ-sym (Permᴰ.swap e f) = Permᴰ.swap (sym f) (sym e)
Permᴰ-sym (Permᴰ.trans p q) = Permᴰ.trans (Permᴰ-sym q) (Permᴰ-sym p)

-- Sorting only reorders.
module _ (x : External) where
  insert_ordered-perm :
      (i : ParticipantInput) (s : List ParticipantInput) → Permᴰ (insert_ordered x i s) (i ∷ s)
  unfolding insert_ordered
  insert_ordered-perm i [] = Permᴰ.cons refl Permᴰ.nil
  insert_ordered-perm i (k ∷ s) = elim (Bool-cases (x.outpoint_leb i.outpoint k.outpoint)) [
    | inl e ↦ rw e (Permᴰ.refl (i ∷ k ∷ s))
    | inr e ↦ rw e (Permᴰ.trans (Permᴰ.cons refl (insert_ordered-perm i s)) (Permᴰ.swap refl refl))
  ]

  pub sort_inputs-perm_self : (is : List ParticipantInput) → Permᴰ (sort_inputs x is) is
  unfolding sort_inputs
  sort_inputs-perm_self [] = Permᴰ.nil
  sort_inputs-perm_self (i ∷ is) =
      Permᴰ.trans (insert_ordered-perm i (sort_inputs x is))
        (Permᴰ.cons refl (sort_inputs-perm_self is))

module _ (x : External) (o : OutPointOrder x) where
  insert_ordered_comm :
      (i j : ParticipantInput) (s : List ParticipantInput)
      → i.outpoint ≢ j.outpoint
      → insert_ordered x i (insert_ordered x j s) ≡ insert_ordered x j (insert_ordered x i s)
  unfolding insert_ordered
  insert_ordered_comm i j [] ne =
      ground (arith, o.total i.outpoint j.outpoint, o.antisym i.outpoint j.outpoint)
  insert_ordered_comm i j (k ∷ s) ne = ground (
    arith,
    o.total i.outpoint j.outpoint,
    o.antisym i.outpoint j.outpoint,
    o.trans i.outpoint j.outpoint k.outpoint,
    o.trans j.outpoint i.outpoint k.outpoint,
    o.total i.outpoint k.outpoint,
    o.total j.outpoint k.outpoint,
    insert_ordered_comm i j s ne,
  )

  -- The order in which the inputs come does not matter.
  pub sort_inputs-perm :
      {xs ys : List ParticipantInput} → Permᴰ xs ys → Apart xs → sort_inputs x xs ≡ sort_inputs x ys
  unfolding sort_inputs
  sort_inputs-perm Permᴰ.nil h = refl
  sort_inputs-perm (Permᴰ.cons e p) h = cc (e, sort_inputs-perm p h.1)
  sort_inputs-perm (Permᴰ.swap {a = a} {b = b} {l = l} e f) h =
      insert_ordered_comm a b (sort_inputs x l) h.0.0 ∙ (cc (e, f))
  sort_inputs-perm (Permᴰ.trans p q) h = sort_inputs-perm p h ∙ sort_inputs-perm q (Apart-perm p h)
