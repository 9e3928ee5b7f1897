-- ===== src/Prelude/Members.antt =====
-- Membership in lists that stand for sets and queues.
use mathlib.Core.Path.{◌≡◌, refl, ap, subst}
use mathlib.Core.Logic.{inl, inr}
use mathlib.Core.Bool.{Bool, true, false, ◌&&◌, ◌||◌, not}
use mathlib.Core.List.{List, [], ◌∷◌, ◌++◌}
use native.Mathlib.Omega.{arith}
use rustrest.Prelude.Tests.{Bool-cases}
use rustrest.Prelude.Equality.{Eq, ◌==◌}
use rustrest.Prelude.Lists.{All, keep}
use rustrest.Prelude.Maps.{contains, add, discard}

module _ {A : Type 0} ⦃e : Eq A⦄ where
  abbrev pub NoRepeat : List A → Type 0
  NoRepeat [] = Unit
  NoRepeat (x ∷ xs) = (contains x xs ≡ false) × NoRepeat xs

  pub contains-append_one :
      (a : A) (xs : List A) (x : A) → contains a (xs ++ x ∷ []) ≡ (contains a xs || x == a)
  unfolding contains
  contains-append_one a [] x = ground arith
  contains-append_one a (y ∷ xs) x = ground (arith, contains-append_one a xs x)

  pub contains-add : (a x : A) (xs : List A) → contains a (add x xs) ≡ (contains a xs || x == a)
  unfolding add contains
  contains-add a x xs = ground (arith, e.beq_iff x a)

  pub contains-discard :
      (a x : A) (xs : List A) → contains a (discard x xs) ≡ (contains a xs && not (x == a))
  unfolding discard contains
  contains-discard a x [] = refl
  contains-discard a x (y ∷ xs) =
      ground (arith, contains-discard a x xs, e.beq_iff y x, e.beq_iff x a, e.beq_iff y a)

  pub NoRepeat-append_one :
      (xs : List A) (x : A) → NoRepeat xs → contains x xs ≡ false → NoRepeat (xs ++ x ∷ [])
  unfolding contains
  NoRepeat-append_one [] x h k = (refl, tt)
  NoRepeat-append_one (y ∷ xs) x h k = (
    ground (arith, contains-append_one y xs x, h.0, e.beq_iff x y, e.beq_iff y x),
    NoRepeat-append_one xs x h.1 (ground arith),
  )

  pub NoRepeat-discard : (x : A) (xs : List A) → NoRepeat xs → NoRepeat (discard x xs)
  unfolding discard
  NoRepeat-discard x [] h = tt
  NoRepeat-discard x (y ∷ xs) h =
      ground (arith, contains-discard y x xs, h.0, NoRepeat-discard x xs h.1)

  pub All-contains {κ} :
      (P : A → Type κ) (a : A) (xs : List A) → contains a xs ≡ true → All P xs → P a
  unfolding contains
  All-contains P a [] c h = cc
  All-contains P a (x ∷ xs) c h = elim (Bool-cases (x == a)) [
    | inl same ↦ subst P ((e.beq_iff x a).0 same) h.0
    | inr other ↦ All-contains P a xs (rw (other) at c) h.1
  ]

  pub contains-keep :
      (p : A → Bool) (a : A) (xs : List A) → contains a (keep p xs) ≡ (contains a xs && p a)
  unfolding contains
  contains-keep p a [] = refl
  contains-keep p a (x ∷ xs) = elim (Bool-cases (x == a)) [
    | inl same ↦
        let here : p x ≡ p a = ap p ((e.beq_iff x a).0 same) in ground (arith, contains-keep p a xs)
    | inr other ↦ ground (arith, contains-keep p a xs)
  ]

  pub NoRepeat-add : (x : A) (xs : List A) → NoRepeat xs → NoRepeat (add x xs)
  unfolding add
  NoRepeat-add x xs h = elim (Bool-cases (contains x xs)) [
    | inl there ↦ rw (there) h
    | inr new ↦ rw (new) (new, h)
  ]

  pub NoRepeat-keep : (p : A → Bool) (xs : List A) → NoRepeat xs → NoRepeat (keep p xs)
  NoRepeat-keep p [] h = tt
  NoRepeat-keep p (x ∷ xs) h = elim (Bool-cases (p x)) [
    | inl passes ↦
        let new : contains x (keep p xs) ≡ false = ground (arith, contains-keep p x xs, h.0) in
        rw (passes) (new, NoRepeat-keep p xs h.1)
    | inr fails ↦ rw (fails) (NoRepeat-keep p xs h.1)
  ]
