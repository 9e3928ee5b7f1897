-- ===== src/Prelude/Lists.antt =====
-- Lists measured and indexed by native numbers, under the library's names, and predicates on lists.
use Prim.Native.Nat.{ℕ, zero, suc, ◌+◌, ◌-◌, ◌≤◌, ◌<◌}
use mathlib.Core.Path.{◌≡◌, refl, ap}
use mathlib.Core.Logic.{◌⊎◌, ◌≢◌, inl, inr}
use mathlib.Core.Bool.{Bool, true, false, ◌&&◌, ◌||◌}
use mathlib.Core.List.{List, [], ◌∷◌, ◌++◌}
use mathlib.Core.Option.{Option, none, some}
use native.Mathlib.Omega.{arith}
use rustrest.Prelude.Tests.{if◌then◌else◌, to_ℕ}

module _ {ℓ} {A : Type ℓ} where
  abbrev pub length : List A → ℕ
  length [] = 0
  length (x ∷ xs) = suc (length xs)

  abbrev pub get_elem? : List A → ℕ → Option A
  get_elem? [] i = none
  get_elem? (x ∷ xs) zero = some x
  get_elem? (x ∷ xs) (suc i) = get_elem? xs i

  abbrev pub get_or : List A → ℕ → A → A
  get_or [] i d = d
  get_or (x ∷ xs) zero d = x
  get_or (x ∷ xs) (suc i) d = get_or xs i d

  -- A write out of range changes nothing.
  abbrev pub set : List A → ℕ → A → List A
  set [] i v = []
  set (x ∷ xs) zero v = v ∷ xs
  set (x ∷ xs) (suc i) v = x ∷ set xs i v

  abbrev pub replicate : ℕ → A → List A
  replicate zero x = []
  replicate (suc n) x = x ∷ replicate n x

  abbrev pub drop : ℕ → List A → List A
  drop zero xs = xs
  drop (suc n) [] = []
  drop (suc n) (x ∷ xs) = drop n xs

  abbrev pub take : ℕ → List A → List A
  take zero xs = []
  take (suc n) [] = []
  take (suc n) (x ∷ xs) = x ∷ take n xs

  abbrev pub is_empty : List A → Bool
  is_empty [] = true
  is_empty (x ∷ xs) = false

  abbrev pub all : (A → Bool) → List A → Bool
  all p [] = true
  all p (x ∷ xs) = p x && all p xs

  abbrev pub any : (A → Bool) → List A → Bool
  any p [] = false
  any p (x ∷ xs) = p x || any p xs

  -- `Iterator::filter` and `retain`.
  abbrev pub keep : (A → Bool) → List A → List A
  keep p [] = []
  keep p (x ∷ xs) = let rest = keep p xs in if p x then x ∷ rest else rest

  -- How many entries pass a test.
  abbrev pub count : (A → Bool) → List A → ℕ
  count p [] = 0
  count p (x ∷ xs) = to_ℕ (p x) + count p xs

module _ {A : Type 0} where
  -- Membership as a sum, which the tactics take apart.
  abbrev pub In : A → List A → Type 0
  In a [] = ⊥
  In a (x ∷ xs) = (a ≡ x) ⊎ In a xs

module _ {ℓ κ} {A : Type ℓ} (P : A → Type κ) where
  abbrev pub All : List A → Type κ
  All [] = Unit
  All (x ∷ xs) = P x × All xs

  pub All-append : (xs ys : List A) → All xs → All ys → All (xs ++ ys)
  All-append [] ys h k = k
  All-append (x ∷ xs) ys h k = (h.0, All-append xs ys h.1 k)

module _ {ℓ} {A : Type ℓ} where
  pub length-append : (xs ys : List A) → length (xs ++ ys) ≡ length xs + length ys
  length-append [] ys = omega arith
  length-append (x ∷ xs) ys = omega (arith, length-append xs ys)

  pub count-append : (p : A → Bool) (xs ys : List A) → count p (xs ++ ys) ≡ count p xs + count p ys
  count-append p [] ys = omega arith
  count-append p (x ∷ xs) ys = omega (arith, count-append p xs ys)

  pub drop-length : (n : ℕ) (xs : List A) → length xs ≤ n → drop n xs ≡ []
  drop-length zero [] h = refl
  drop-length zero (x ∷ xs) h = absurd (omega arith)
  drop-length (suc n) [] h = refl
  drop-length (suc n) (x ∷ xs) h = drop-length n xs (omega arith)

  -- An index in range names an element, and the rest of the list follows it.
  pub drop_cons :
      (n : ℕ) (xs : List A)
      → n < length xs
      → (x : A) × (get_elem? xs n ≡ some x) × (drop n xs ≡ x ∷ drop (suc n) xs)
  drop_cons n [] h = absurd (omega arith)
  drop_cons zero (x ∷ xs) h = (x, refl, refl)
  drop_cons (suc n) (x ∷ xs) h = drop_cons n xs (omega arith)

  -- The element with number `i` of a list that is numbered from `n` on.
  pub get_elem?-sub_self :
      (x : A) (xs : List A) (i n : ℕ) → n ≡ i → get_elem? (x ∷ xs) (i - n) ≡ some x
  get_elem?-sub_self x xs i n h = let e : i - n ≡ 0 = omega arith in rw e

  pub get_elem?-sub :
      (x : A) (xs : List A) (i n : ℕ)
      → n < i
      → get_elem? (x ∷ xs) (i - n) ≡ get_elem? xs (i - (n + 1))
  get_elem?-sub x xs i n h = let e : i - n ≡ suc (i - (n + 1)) = omega arith in rw e

module _ {ℓ κ} {A : Type ℓ} (P : A → Type κ) where
  pub All-get_elem? : (xs : List A) → ((i : ℕ) (x : A) → get_elem? xs i ≡ some x → P x) → All P xs
  All-get_elem? [] h = tt
  All-get_elem? (x ∷ xs) h = (h 0 x refl, All-get_elem? xs (λ i y e. h (suc i) y e))

  pub All-keep : (p : A → Bool) (xs : List A) → All P xs → All P (keep p xs)
  All-keep p [] h = tt
  All-keep p (x ∷ xs) h = go (p x) (h.0, All-keep p xs h.1)
    where
      go : (b : Bool) → All P (x ∷ keep p xs) → All P (if b then x ∷ keep p xs else keep p xs)
      go true k = k
      go false k = k.1

  pub All-get_or : (xs : List A) (i : ℕ) (d : A) → P d → All P xs → P (get_or xs i d)
  All-get_or [] i d h k = h
  All-get_or (x ∷ xs) zero d h k = k.0
  All-get_or (x ∷ xs) (suc i) d h k = All-get_or xs i d h k.1

  pub All-set : (xs : List A) (i : ℕ) (v : A) → P v → All P xs → All P (set xs i v)
  All-set [] i v h k = tt
  All-set (x ∷ xs) zero v h k = (h, k.1)
  All-set (x ∷ xs) (suc i) v h k = (k.0, All-set xs i v h k.1)

  pub All-replicate : (n : ℕ) (x : A) → P x → All P (replicate n x)
  All-replicate zero x h = tt
  All-replicate (suc n) x h = (h, All-replicate n x h)

module _ {ℓ} {A : Type ℓ} where
  pub length-set : (xs : List A) (i : ℕ) (v : A) → length (set xs i v) ≡ length xs
  length-set [] i v = refl
  length-set (x ∷ xs) zero v = refl
  length-set (x ∷ xs) (suc i) v = omega (arith, length-set xs i v)

  pub get_or-set : (xs : List A) (i : ℕ) (v d : A) → i < length xs → get_or (set xs i v) i d ≡ v
  get_or-set [] i v d h = absurd (omega arith)
  get_or-set (x ∷ xs) zero v d h = refl
  get_or-set (x ∷ xs) (suc i) v d h = get_or-set xs i v d (omega arith)

  pub get_or-set_ne :
      (xs : List A) (i j : ℕ) (v d : A) → i ≢ j → get_or (set xs i v) j d ≡ get_or xs j d
  get_or-set_ne [] i j v d h = refl
  get_or-set_ne (x ∷ xs) zero zero v d h = absurd (h refl)
  get_or-set_ne (x ∷ xs) zero (suc j) v d h = refl
  get_or-set_ne (x ∷ xs) (suc i) zero v d h = refl
  get_or-set_ne (x ∷ xs) (suc i) (suc j) v d h = get_or-set_ne xs i j v d (λ e. h (ap suc e))

  -- The sum of a measure.
  abbrev pub total : (A → ℕ) → List A → ℕ
  total f [] = 0
  total f (x ∷ xs) = f x + total f xs

  pub total-set :
      (f : A → ℕ) (xs : List A) (i : ℕ) (v d : A)
      → i < length xs
      → total f (set xs i v) + f (get_or xs i d) ≡ total f xs + f v
  total-set f [] i v d h = absurd (omega arith)
  total-set f (x ∷ xs) zero v d h = omega arith
  total-set f (x ∷ xs) (suc i) v d h = omega (arith, total-set f xs i v d (omega arith))

  pub total-replicate : (f : A → ℕ) (n : ℕ) (x : A) → f x ≡ 0 → total f (replicate n x) ≡ 0
  total-replicate f zero x h = refl
  total-replicate f (suc n) x h = omega (arith, total-replicate f n x h)

  pub get_or-le-total :
      (f : A → ℕ) (xs : List A) (i : ℕ) (d : A) → f d ≡ 0 → f (get_or xs i d) ≤ total f xs
  get_or-le-total f [] i d h = omega arith
  get_or-le-total f (x ∷ xs) zero d h = omega arith
  get_or-le-total f (x ∷ xs) (suc i) d h = omega (arith, get_or-le-total f xs i d h)

-- To split on a computed list and keep the equation.
pub List-cases : {A : Type 0} (xs : List A) → (xs ≡ []) ⊎ ((x : A) × (ys : List A) × (xs ≡ x ∷ ys))
List-cases [] = inl refl
List-cases (x ∷ xs) = inr (x, xs, refl)
