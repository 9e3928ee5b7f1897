-- ===== src/Router/Others.antt =====
-- A route of the table of src/app/router.rs that changes in place, and the others: what
-- `validate_route_host_update` and the loop of `RouteHandle::name` test of them.
use rustrest.Prelude.{
  ℕ, zero, suc, ◌+◌, ◌<◌, ◌≡◌, refl, ap, subst, inl, inr, true, false, List, [], ◌∷◌, none, some,
  nat_eq, get_elem?, All, arith, ok, Bool-cases,
}
use rustrest.Text.{Bytes}
use rustrest.Hosts.{HostPattern}
use rustrest.Router.{Route, conflicts, has_name, validate_host_from, update_route}
use rustrest.Router.Handle.{named_elsewhere}
use rustrest.Router.Clear.{Apart, IsClear}
use rustrest.Router.Symmetry.{Apart-comm}

module _ {H M W : Type 0} where
  -- Every route but number `i`.
  abbrev pub Others : (Route H M W → Type 0) → ℕ → List (Route H M W) → Type 0
  Others P i [] = Unit
  Others P zero (route ∷ routes) = All P routes
  Others P (suc i) (route ∷ routes) = P route × Others P i routes

  All-update_route :
      (P : Route H M W → Type 0) (i : ℕ) (f : Route H M W → Route H M W) (old : Route H M W)
      (routes : List (Route H M W))
      → get_elem? routes i ≡ some old
      → P (f old)
      → All P routes
      → All P (update_route i f routes)
  unfolding update_route
  All-update_route P i f old [] at p h = tt
  All-update_route P zero f old (route ∷ routes) at p h =
      let same : old ≡ route = cc in (subst (λ r. P (f r)) same p, h.1)
  All-update_route P (suc i) f old (route ∷ routes) at p h =
      (h.0, All-update_route P i f old routes at p h.1)

  -- A route that changes stays apart from the others.
  pub update_route-IsClear :
      (i : ℕ) (f : Route H M W → Route H M W) (old : Route H M W) (routes : List (Route H M W))
      → get_elem? routes i ≡ some old
      → Others (λ other. Apart other (f old)) i routes
      → IsClear routes
      → IsClear (update_route i f routes)
  unfolding update_route
  update_route-IsClear i f old [] at apart h = tt
  update_route-IsClear zero f old (route ∷ routes) at apart h =
      let same : old ≡ route = cc in
      (subst (λ r. All (Apart (f r)) routes) same (later routes apart), h.1)
    where
      later :
          (rest : List (Route H M W))
          → All (λ other. Apart other (f old)) rest
          → All (Apart (f old)) rest
      later [] k = tt
      later (r ∷ rest) k = (Apart-comm r (f old) k.0, later rest k.1)
  update_route-IsClear (suc i) f old (route ∷ routes) at apart h = (
    All-update_route (Apart route) i f old routes at apart.0 h.0,
    update_route-IsClear i f old routes at apart.1 h.1,
  )

  All-get :
      (P : Route H M W → Type 0) (routes : List (Route H M W)) (i : ℕ) (route : Route H M W)
      → get_elem? routes i ≡ some route
      → All P routes
      → P route
  All-get P [] i route at h = cc
  All-get P (first ∷ routes) zero route at h = let same : first ≡ route = cc in subst P same h.0
  All-get P (first ∷ routes) (suc i) route at h = All-get P routes i route at h.1

  All-zip :
      (P Q R : Route H M W → Type 0)
      → ((route : Route H M W) → P route → Q route → R route)
      → (routes : List (Route H M W)) → All P routes
      → All Q routes
      → All R routes
  All-zip P Q R f [] p q = tt
  All-zip P Q R f (route ∷ routes) p q = (f route p.0 q.0, All-zip P Q R f routes p.1 q.1)

  -- A number out of range changes nothing.
  pub untouched :
      (i : ℕ) (f : Route H M W → Route H M W) (routes : List (Route H M W))
      → get_elem? routes i ≡ none
      → update_route i f routes ≡ routes
  unfolding update_route
  untouched i f [] out = refl
  untouched zero f (route ∷ routes) out = cc
  untouched (suc i) f (route ∷ routes) out = ap (λ rest. route ∷ rest) (untouched i f routes out)

  -- In a clear table, the others are apart from a route of it.
  pub Others-IsClear :
      (i : ℕ) (old : Route H M W) (routes : List (Route H M W))
      → get_elem? routes i ≡ some old
      → IsClear routes
      → Others (λ other. Apart other old) i routes
  Others-IsClear i old [] at h = tt
  Others-IsClear zero old (route ∷ routes) at h =
      let same : route ≡ old = cc in earlier routes (subst (λ r. All (Apart r) routes) same h.0)
    where
      earlier :
          (rest : List (Route H M W)) → All (Apart old) rest → All (λ other. Apart other old) rest
      earlier [] k = tt
      earlier (r ∷ rest) k = (Apart-comm old r k.0, earlier rest k.1)
  Others-IsClear (suc i) old (route ∷ routes) at h =
      (All-get (Apart route) routes i old at h.0, Others-IsClear i old routes at h.1)

  pub Others-zip :
      (P Q R : Route H M W → Type 0)
      → ((route : Route H M W) → P route → Q route → R route)
      → (i : ℕ) (routes : List (Route H M W)) → Others P i routes
      → Others Q i routes
      → Others R i routes
  Others-zip P Q R f i [] p q = tt
  Others-zip P Q R f zero (route ∷ routes) p q = All-zip P Q R f routes p q
  Others-zip P Q R f (suc i) (route ∷ routes) p q =
      (f route p.0 q.0, Others-zip P Q R f i routes p.1 q.1)

  -- What a loop over the table tests for every route but number `i`, when it starts at number `k`.
  pub validate_host_from_sound :
      (k i : ℕ) (routes : List (Route H M W)) (route : Route H M W) (host : HostPattern)
      → validate_host_from k routes (k + i) route host ≡ ok tt
      → Others (λ other. conflicts other route.method route.pattern (some host) ≡ false) i routes
  unfolding validate_host_from
  validate_host_from_sound k i [] route host h = tt
  validate_host_from_sound k zero (other ∷ routes) route host h =
      let here : nat_eq k (k + 0) ≡ true = ground arith in
      past k (k + 1) routes (omega arith) (rw (here) at h)
    where
      past :
          (i k : ℕ) (rest : List (Route H M W))
          → i < k
          → validate_host_from k rest (i + 0) route host ≡ ok tt
          → All (λ other. conflicts other route.method route.pattern (some host) ≡ false) rest
      past i k [] lt h = tt
      past i k (other ∷ rest) lt h =
          let elsewhere : nat_eq k (i + 0) ≡ false = ground arith in
          elim (Bool-cases (conflicts other route.method route.pattern (some host))) [
            | inl clash ↦ cc (rw (elsewhere, clash) at h)
            | inr free ↦ (free, past i (k + 1) rest (omega arith) (rw (elsewhere, free) at h))
          ]
  validate_host_from_sound k (suc i) (other ∷ routes) route host h =
      let elsewhere : nat_eq k (k + suc i) ≡ false = ground arith in
      let shift : k + suc i ≡ (k + 1) + i = omega arith in
      elim (Bool-cases (conflicts other route.method route.pattern (some host))) [
        | inl clash ↦ cc (rw (elsewhere, clash) at h)
        | inr free ↦ (
          free,
          validate_host_from_sound (k + 1) i routes route host (rw (elsewhere, free, shift) at h),
        )
      ]

  pub named_elsewhere_sound :
      (k i : ℕ) (routes : List (Route H M W)) (name : Bytes)
      → named_elsewhere k routes (k + i) name ≡ false
      → Others (λ other. has_name name other.name ≡ false) i routes
  unfolding named_elsewhere
  named_elsewhere_sound k i [] name h = tt
  named_elsewhere_sound k zero (other ∷ routes) name h =
      let here : nat_eq k (k + 0) ≡ true = ground arith in
      past k (k + 1) routes (omega arith) (rw (here) at h)
    where
      past :
          (i k : ℕ) (rest : List (Route H M W))
          → i < k
          → named_elsewhere k rest (i + 0) name ≡ false
          → All (λ other. has_name name other.name ≡ false) rest
      past i k [] lt h = tt
      past i k (other ∷ rest) lt h =
          let elsewhere : nat_eq k (i + 0) ≡ false = ground arith in
          elim (Bool-cases (has_name name other.name)) [
            | inl taken ↦ cc (rw (elsewhere, taken) at h)
            | inr free ↦ (free, past i (k + 1) rest (omega arith) (rw (elsewhere, free) at h))
          ]
  named_elsewhere_sound k (suc i) (other ∷ routes) name h =
      let elsewhere : nat_eq k (k + suc i) ≡ false = ground arith in
      let shift : k + suc i ≡ (k + 1) + i = omega arith in
      elim (Bool-cases (has_name name other.name)) [
        | inl taken ↦ cc (rw (elsewhere, taken) at h)
        | inr free ↦
            (free, named_elsewhere_sound (k + 1) i routes name (rw (elsewhere, free, shift) at h))
      ]
