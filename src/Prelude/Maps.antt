-- ===== src/Prelude/Maps.antt =====
-- `HashMap` and `BTreeMap` as association lists with one entry for each key; `HashSet` and
-- `BTreeSet` as lists without repetition.
use mathlib.Core.Path.{◌≡◌, refl}
use mathlib.Core.Bool.{Bool, false, ◌||◌, not}
use mathlib.Core.List.{List, [], ◌∷◌}
use mathlib.Core.Option.{Option, none, some}
use native.Mathlib.Omega.{arith}
use rustrest.Prelude.Tests.{if◌then◌else◌}
use rustrest.Prelude.Lists.{keep}
use rustrest.Prelude.Equality.{Eq, ◌==◌}

module _ {ℓ κ} {K : Type ℓ} {V : Type κ} ⦃e : Eq K⦄ where
  unfoldable pub lookup : K → List (K × V) → Option V
  lookup k [] = none
  lookup k ((j, v) ∷ entries) = if j == k then some v else lookup k entries

  unfoldable pub insert : K → V → List (K × V) → List (K × V)
  insert k v [] = (k, v) ∷ []
  insert k v ((j, old) ∷ entries) =
      if j == k then (k, v) ∷ entries else (j, old) ∷ insert k v entries

  unfoldable pub remove : K → List (K × V) → List (K × V)
  remove k [] = []
  remove k ((j, old) ∷ entries) =
      let rest = remove k entries in if j == k then rest else (j, old) ∷ rest

  pub lookup-insert :
      (k j : K) (v : V) (entries : List (K × V))
      → lookup j (insert k v entries) ≡ (if k == j then some v else lookup j entries)
  unfolding lookup insert
  lookup-insert k j v [] = refl
  lookup-insert k j v ((i, old) ∷ entries) =
      ground (arith, e.beq_iff k j, e.beq_iff i k, e.beq_iff i j, lookup-insert k j v entries)

  pub lookup-remove :
      (k j : K) (entries : List (K × V))
      → lookup j (remove k entries) ≡ (if k == j then none else lookup j entries)
  unfolding lookup remove
  lookup-remove k j [] = ground arith
  lookup-remove k j ((i, old) ∷ entries) =
      ground (arith, e.beq_iff k j, e.beq_iff i k, e.beq_iff i j, lookup-remove k j entries)

module _ {ℓ} {A : Type ℓ} ⦃e : Eq A⦄ where
  unfoldable pub contains : A → List A → Bool
  contains a [] = false
  contains a (x ∷ xs) = x == a || contains a xs

  -- `HashSet::insert`, without its result.
  unfoldable pub add : A → List A → List A
  unfolding contains
  add a xs = if contains a xs then xs else a ∷ xs

  unfoldable pub discard : A → List A → List A
  discard a xs = keep (λ x. not (x == a)) xs
