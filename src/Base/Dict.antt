-- ===== src/Base/Dict.antt =====
-- Python's dict in insertion order. Proofs elsewhere go by the laws; tests unfold the operations.
use obase.Base.Equality.{Eq, ◌==◌, if◌then◌else◌}
use obase.Base.Lists.{length}
use Prim.Native.Nat.{◌+◌, ◌≤◌}
use mathlib.Core.Path.{◌≡◌, refl, subst}
use mathlib.Core.Option.{Option, none, some, none-ne-some, some-injective}
use mathlib.Core.Logic.{◌≢◌, inl, inr}
use obase.Base.Tests.{Bool-cases}
use mathlib.Core.List.{List, [], ◌∷◌}
use native.Mathlib.Omega.{arith}

abbrev pub Dict {ℓ κ} : Type ℓ → Type κ → Type (ℓ ⊔ κ)
Dict K V = List (K × V)

module _ {ℓ κ} {K : Type ℓ} {V : Type κ} ⦃e : Eq K⦄ where
  -- `d.get(k)`
  unfoldable pub lookup : K → Dict K V → Option V
  lookup k [] = none
  lookup k ((j, v) ∷ d) = if k == j then some v else lookup k d

  -- `d[k] = v`: a key that is there keeps its place.
  unfoldable pub insert : K → V → Dict K V → Dict K V
  insert k v [] = (k, v) ∷ []
  insert k v ((j, w) ∷ d) = if k == j then (j, v) ∷ d else (j, w) ∷ insert k v d

  -- `d.pop(k, None)`
  unfoldable pub erase : K → Dict K V → Dict K V
  erase k [] = []
  erase k ((j, w) ∷ d) = let rest = erase k d in if k == j then rest else (j, w) ∷ rest

  pub lookup-cons :
      (j k : K) (v : V) (d : Dict K V)
      → lookup j ((k, v) ∷ d) ≡ (if j == k then some v else lookup j d)
  unfolding lookup
  lookup-cons j k v d = refl

  pub lookup-insert :
      (j k : K) (v : V) (d : Dict K V)
      → lookup j (insert k v d) ≡ (if j == k then some v else lookup j d)
  unfolding insert lookup
  lookup-insert j k v [] = refl
  lookup-insert j k v (_ ∷ d) = ground (arith, lookup-insert j k v d)

  pub lookup-insert_self : (k : K) (v : V) (d : Dict K V) → lookup k (insert k v d) ≡ some v
  lookup-insert_self k v d = ground (arith, lookup-insert k k v d)

  pub lookup-erase :
      (j k : K) (d : Dict K V) → lookup j (erase k d) ≡ (if j == k then none else lookup j d)
  unfolding erase lookup
  lookup-erase j k [] = ground arith
  lookup-erase j k (_ ∷ d) = ground (arith, lookup-erase j k d)

  pub length-insert_new :
      (k : K) (v : V) (d : Dict K V) → lookup k d ≡ none → length (insert k v d) ≡ length d + 1
  unfolding insert lookup
  length-insert_new k v [] h = omega arith
  length-insert_new k v (_ ∷ d) h = ground (arith, length-insert_new k v d)

  pub length-erase-le : (k : K) (d : Dict K V) → length (erase k d) ≤ length d
  unfolding erase
  length-erase-le k [] = omega arith
  length-erase-le k (_ ∷ d) = ground (arith, length-erase-le k d)

  pub length-insert_old :
      (k : K) (v : V) (d : Dict K V) → lookup k d ≢ none → length (insert k v d) ≡ length d
  unfolding insert lookup
  length-insert_old k v [] h = absurd (h refl)
  length-insert_old k v (_ ∷ d) h = ground (arith, length-insert_old k v d)

  pub length-insert-le : (k : K) (v : V) (d : Dict K V) → length (insert k v d) ≤ length d + 1
  unfolding insert
  length-insert-le k v [] = omega arith
  length-insert-le k v (_ ∷ d) = ground (arith, length-insert-le k v d)

  -- A property of values holds of all values after a write and after a removal.
  abbrev pub AllValues {μ} : (V → Type μ) → Dict K V → Type μ
  AllValues P [] = Unit
  AllValues P ((_, v) ∷ d) = P v × AllValues P d

  pub insert-AllValues {μ} :
      (P : V → Type μ) (k : K) (v : V) (d : Dict K V)
      → P v
      → AllValues P d
      → AllValues P (insert k v d)
  unfolding insert
  insert-AllValues P k v [] h a = (h, tt)
  insert-AllValues P k v ((j, w) ∷ d) h a = elim (Bool-cases (k == j)) [
    | inl same ↦ rw same (h, a.1)
    | inr other ↦ rw other (a.0, insert-AllValues P k v d h a.1)
  ]

  pub erase-AllValues {μ} :
      (P : V → Type μ) (k : K) (d : Dict K V) → AllValues P d → AllValues P (erase k d)
  unfolding erase
  erase-AllValues P k [] a = tt
  erase-AllValues P k ((j, w) ∷ d) a = elim (Bool-cases (k == j)) [
    | inl same ↦ rw same (erase-AllValues P k d a.1)
    | inr other ↦ rw other (a.0, erase-AllValues P k d a.1)
  ]

  pub lookup-AllValues {μ} :
      (P : V → Type μ) (k : K) {v : V} (d : Dict K V) → AllValues P d → lookup k d ≡ some v → P v
  unfolding lookup
  lookup-AllValues P k [] a h = absurd (none-ne-some _ h)
  lookup-AllValues P k ((j, w) ∷ d) a h = elim (Bool-cases (k == j)) [
    | inl same ↦ subst P (some-injective _ _ (rw same at h)) a.0
    | inr other ↦ lookup-AllValues P k d a.1 (rw other at h)
  ]
