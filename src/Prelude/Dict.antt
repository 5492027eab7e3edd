-- ===== src/Prelude/Dict.antt =====
-- A hash map as a list of entries; the order of the list stands for the map's iteration order.
use mathlib.Core.Path.{◌≡◌, refl, ap}
use mathlib.Core.Bool.{Bool, true, false, ◌||◌}
use mathlib.Core.Logic.{inl, inr}
use mathlib.Core.Option.{Option, none, some}
use mathlib.Core.List.{List, [], ◌∷◌, ◌++◌}
use Prim.Native.Nat.{suc}
use native.Mathlib.Omega.{arith}
use blindjoin.Prelude.Eq.{Eq, ◌==◌}
use blindjoin.Prelude.Lists.{length, All}
use blindjoin.Prelude.Tests.{if◌then◌else◌, Bool-cases}

abbrev pub Dict {ℓ κ} : Type ℓ → Type κ → Type (ℓ ⊔ κ)
Dict K V = List (K × V)

module _ {ℓ κ} {K : Type ℓ} {V : Type κ} where
  abbrev pub keys : Dict K V → List K
  keys [] = []
  keys ((k, v) ∷ m) = k ∷ keys m

  abbrev pub values : Dict K V → List V
  values [] = []
  values ((k, v) ∷ m) = v ∷ values m

  pub length-values : (m : Dict K V) → length (values m) ≡ length m
  length-values [] = refl
  length-values ((k, v) ∷ m) = ap suc (length-values m)

  pub length-keys : (m : Dict K V) → length (keys m) ≡ length m
  length-keys [] = refl
  length-keys ((k, v) ∷ m) = ap suc (length-keys m)

module _ {ℓ κ} {K : Type ℓ} {V : Type κ} ⦃e : Eq K⦄ where
  unfoldable pub get : K → Dict K V → Option V
  get k [] = none
  get k ((j, v) ∷ m) = if j == k then some v else get k m

  unfoldable pub contains_key : K → Dict K V → Bool
  contains_key k [] = false
  contains_key k ((j, v) ∷ m) = (j == k) || contains_key k m

  -- Replaces the value of a key that is there.
  unfoldable pub insert : K → V → Dict K V → Dict K V
  insert k v [] = (k, v) ∷ []
  insert k v ((j, w) ∷ m) = if j == k then (j, v) ∷ m else (j, w) ∷ insert k v m

  pub get-insert :
      (k j : K) (v : V) (m : Dict K V) → get j (insert k v m) ≡ (if k == j then some v else get j m)
  unfolding get insert
  get-insert k j v [] = refl
  get-insert k j v ((i, w) ∷ m) =
      ground (arith, get-insert k j v m, e.same_iff k j, e.same_iff i k, e.same_iff i j)

  pub contains_key-insert :
      (k j : K) (v : V) (m : Dict K V)
      → contains_key j (insert k v m) ≡ ((k == j) || contains_key j m)
  unfolding contains_key insert
  contains_key-insert k j v [] = refl
  contains_key-insert k j v ((i, w) ∷ m) =
      ground (arith, contains_key-insert k j v m, e.same_iff k j, e.same_iff i k, e.same_iff i j)

  -- A new key goes to the end.
  pub insert_new :
      (k : K) (v : V) (m : Dict K V) → contains_key k m ≡ false → insert k v m ≡ m ++ (k, v) ∷ []
  unfolding contains_key insert
  insert_new k v [] h = refl
  insert_new k v ((i, w) ∷ m) h = ground (arith, insert_new k v m)

  pub length-insert_new :
      (k : K) (v : V) (m : Dict K V)
      → contains_key k m ≡ false
      → length (insert k v m) ≡ suc (length m)
  unfolding contains_key insert
  length-insert_new k v [] h = refl
  length-insert_new k v ((i, w) ∷ m) h = ground (arith, length-insert_new k v m)

  -- No key stands twice.
  abbrev pub KeysDistinct : Dict K V → Type 0
  KeysDistinct [] = Unit
  KeysDistinct ((k, v) ∷ m) = (contains_key k m ≡ false) × KeysDistinct m

  pub insert-KeysDistinct :
      (k : K) (v : V) (m : Dict K V) → KeysDistinct m → KeysDistinct (insert k v m)
  unfolding contains_key insert
  insert-KeysDistinct k v [] h = (refl, tt)
  insert-KeysDistinct k v ((i, w) ∷ m) h = ground (
    arith,
    insert-KeysDistinct k v m h.1,
    contains_key-insert k i v m,
    e.same_iff k i,
    e.same_iff i k,
  )

  pub All-values-insert {μ} :
      (P : V → Type μ) (k : K) (v : V) (m : Dict K V)
      → contains_key k m ≡ false
      → P v
      → All P (values m)
      → All P (values (insert k v m))
  unfolding contains_key insert
  All-values-insert P k v [] absent p h = (p, tt)
  All-values-insert P k v ((i, w) ∷ m) absent p h = elim (Bool-cases (e.same i k)) [
    | inl same ↦ absurd (cc (absent, same))
    | inr other ↦ rw other (h.0, All-values-insert P k v m (ground (arith, other)) p h.1)
  ]

  -- A key that is there stays.
  pub contains_key-insert_old :
      (k j : K) (v : V) (m : Dict K V)
      → contains_key j m ≡ true
      → contains_key j (insert k v m) ≡ true
  contains_key-insert_old k j v m h = ground (arith, contains_key-insert k j v m)

  pub All-keys-insert {μ} :
      (P : K → Type μ) (k : K) (v : V) (m : Dict K V)
      → contains_key k m ≡ false
      → P k
      → All P (keys m)
      → All P (keys (insert k v m))
  unfolding contains_key insert
  All-keys-insert P k v [] absent p h = (p, tt)
  All-keys-insert P k v ((i, w) ∷ m) absent p h = elim (Bool-cases (e.same i k)) [
    | inl same ↦ absurd (cc (absent, same))
    | inr other ↦ rw other (h.0, All-keys-insert P k v m (ground (arith, other)) p h.1)
  ]
