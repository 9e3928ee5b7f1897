-- ===== src/Prelude/Entries.antt =====
-- Association lists with one entry for each key: how an insertion and a removal change the number
-- of entries that pass a test.
use Prim.Native.Nat.{◌+◌, ◌≤◌}
use mathlib.Core.Path.{◌≡◌, refl}
use mathlib.Core.Logic.{◌≢◌}
use mathlib.Core.Bool.{Bool, true, false}
use mathlib.Core.List.{List, [], ◌∷◌}
use mathlib.Core.Option.{some, none}
use native.Mathlib.Omega.{arith}
use mathlib.Core.Logic.{inl, inr}
use mathlib.Core.Path.{subst}
use rustrest.Prelude.Tests.{if◌then◌else◌, to_ℕ, is_some, Bool-cases}
use rustrest.Prelude.Lists.{length, count, All}
use rustrest.Prelude.Equality.{Eq, ◌==◌}
use rustrest.Prelude.Maps.{lookup, insert, remove}

All-if {ℓ κ} :
    {A : Type ℓ} (P : A → Type κ) (b : Bool) (xs ys : List A)
    → All P xs
    → All P ys
    → All P (if b then xs else ys)
All-if P true xs ys h k = h
All-if P false xs ys h k = k

module _ {K V : Type 0} ⦃e : Eq K⦄ where
  -- No entry has the key `k`.
  abbrev pub Absent : K → List (K × V) → Type 0
  Absent k m = All (λ p. p.0 ≢ k) m

  abbrev pub Distinct : List (K × V) → Type 0
  Distinct [] = Unit
  Distinct (p ∷ m) = Absent p.0 m × Distinct m

  pub length-insert : (k : K) (v : V) (m : List (K × V)) → length (insert k v m) ≤ length m + 1
  unfolding insert
  length-insert k v [] = omega arith
  length-insert k v ((j, w) ∷ m) = ground (arith, length-insert k v m)

  pub count-insert_new :
      (p : K × V → Bool) (k : K) (v : V) (m : List (K × V))
      → Absent k m
      → count p (insert k v m) ≡ count p m + to_ℕ (p (k, v))
  unfolding insert
  count-insert_new p k v [] h = omega arith
  count-insert_new p k v ((j, w) ∷ m) h =
      ground (arith, e.beq_iff j k, count-insert_new p k v m h.1)

  remove-Absent : (k : K) (m : List (K × V)) → Absent k m → remove k m ≡ m
  unfolding remove
  remove-Absent k [] h = refl
  remove-Absent k ((j, w) ∷ m) h = ground (arith, e.beq_iff j k, remove-Absent k m h.1)

  pub count-remove :
      (p : K × V → Bool) (k : K) (v : V) (m : List (K × V))
      → Distinct m
      → lookup k m ≡ some v
      → count p m ≡ count p (remove k m) + to_ℕ (p (k, v))
  unfolding lookup remove
  count-remove p k v [] h l = cc
  count-remove p k v ((j, w) ∷ m) h l =
      ground (arith, e.beq_iff j k, count-remove p k v m h.1, remove-Absent k m)

  pub count-insert_same :
      (p : K × V → Bool) (k : K) (v w : V) (m : List (K × V))
      → lookup k m ≡ some w
      → p (k, w) ≡ p (k, v)
      → count p (insert k v m) ≡ count p m
  unfolding lookup insert
  count-insert_same p k v w [] l s = cc
  count-insert_same p k v w ((j, u) ∷ m) l s =
      ground (arith, e.beq_iff j k, count-insert_same p k v w m)

  Absent-insert :
      (j k : K) (v : V) (m : List (K × V)) → k ≢ j → Absent j m → Absent j (insert k v m)
  unfolding insert
  Absent-insert j k v [] n h = (n, tt)
  Absent-insert j k v ((i, w) ∷ m) n h = ground (arith, Absent-insert j k v m n h.1)

  pub Distinct-insert : (k : K) (v : V) (m : List (K × V)) → Distinct m → Distinct (insert k v m)
  unfolding insert
  Distinct-insert k v [] h = (tt, tt)
  Distinct-insert k v ((i, w) ∷ m) h =
      ground (arith, e.beq_iff i k, Distinct-insert k v m h.1, Absent-insert i k v m)

  Absent-remove : (j k : K) (m : List (K × V)) → Absent j m → Absent j (remove k m)
  unfolding remove
  Absent-remove j k [] h = tt
  Absent-remove j k ((i, w) ∷ m) h = ground (arith, Absent-remove j k m h.1)

  pub Distinct-remove : (k : K) (m : List (K × V)) → Distinct m → Distinct (remove k m)
  unfolding remove
  Distinct-remove k [] h = tt
  Distinct-remove k ((i, w) ∷ m) h =
      ground (arith, Distinct-remove k m h.1, Absent-remove i k m h.0)

  pub All-insert {κ} :
      (P : K × V → Type κ) (k : K) (v : V) (m : List (K × V))
      → P (k, v)
      → All P m
      → All P (insert k v m)
  unfolding insert
  All-insert P k v [] h hs = (h, tt)
  All-insert P k v ((j, w) ∷ m) h hs =
      All-if P (j == k) _ _ (h, hs.1) (hs.0, All-insert P k v m h hs.1)

  pub All-remove {κ} :
      (P : K × V → Type κ) (k : K) (m : List (K × V)) → All P m → All P (remove k m)
  unfolding remove
  All-remove P k [] hs = tt
  All-remove P k ((j, w) ∷ m) hs =
      All-if P (j == k) _ _ (All-remove P k m hs.1) (hs.0, All-remove P k m hs.1)

  pub length-remove :
      (k : K) (v : V) (m : List (K × V))
      → Distinct m
      → lookup k m ≡ some v
      → length m ≡ length (remove k m) + 1
  unfolding lookup remove
  length-remove k v [] h l = cc
  length-remove k v ((j, w) ∷ m) h l =
      ground (arith, e.beq_iff j k, length-remove k v m h.1, remove-Absent k m)

  pub All-lookup {κ} :
      (P : K × V → Type κ) (k : K) (v : V) (m : List (K × V))
      → lookup k m ≡ some v
      → All P m
      → P (k, v)
  unfolding lookup
  All-lookup P k v [] l h = cc
  All-lookup P k v ((j, w) ∷ m) l h = elim (Bool-cases (j == k)) [
    | inl same ↦ let e : (j, w) ≡ (k, v) = ground (arith, e.beq_iff j k) in subst P e h.0
    | inr other ↦ All-lookup P k v m (rw (other) at l) h.1
  ]

  pub Absent-lookup : (k : K) (m : List (K × V)) → Absent k m → lookup k m ≡ none
  unfolding lookup
  Absent-lookup k [] h = refl
  Absent-lookup k ((j, w) ∷ m) h = ground (arith, e.beq_iff j k, Absent-lookup k m h.1)

  -- What holds of every entry that a lookup finds holds of all of them.
  pub All-lookup_each {κ} :
      (P : K × V → Type κ) (m : List (K × V))
      → Distinct m
      → ((k : K) (v : V) → lookup k m ≡ some v → P (k, v))
      → All P m
  unfolding lookup
  All-lookup_each P [] h f = tt
  All-lookup_each P ((j, w) ∷ m) h f = (
    f j w (ground (arith, e.beq_iff j j)),
    All-lookup_each P m h.1
        (λ k v l. f k v (ground (arith, l, e.beq_iff j k, Absent-lookup j m h.0))),
  )

  pub length-insert_lem :
      (k : K) (v : V) (m : List (K × V))
      → length (insert k v m) + to_ℕ (is_some (lookup k m)) ≡ length m + 1
  unfolding lookup insert
  length-insert_lem k v [] = omega arith
  length-insert_lem k v ((j, w) ∷ m) = ground (arith, e.beq_iff j k, length-insert_lem k v m)
