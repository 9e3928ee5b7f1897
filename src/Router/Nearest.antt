-- ===== src/Router/Nearest.antt =====
-- The route that fits a path most specifically, for `scoped_middlewares` of src/app/router.rs.
use rustrest.Prelude.{
  ℕ, ◌≡◌, refl, sym, subst, inl, inr, Bool, true, false, not, ◌&&◌, List, [], ◌∷◌, ◌++◌, Option,
  none, some, arith, if◌then◌else◌, Bool-cases, ◌==◌, ℕ_eq, list_eq, All, All-append, append_assoc,
  append-nil,
}
use rustrest.Text.{Bytes}
use rustrest.Pattern.{accepts}
use rustrest.Hosts.{host_matches}
use rustrest.Trie.{method_all}
use rustrest.Router.{Route}
use rustrest.Router.Lookup.{pattern_specificity, vec_lt}

-- What is not above `c` is below everything that `c` is below.
vec_lt_trans_le : (c a b : List ℕ) → vec_lt c a ≡ false → vec_lt c b ≡ true → vec_lt a b ≡ true
unfolding vec_lt
vec_lt_trans_le [] [] b h k = k
vec_lt_trans_le [] (y ∷ a) b h k = cc
vec_lt_trans_le (x ∷ c) a [] h k = cc
vec_lt_trans_le (x ∷ c) [] (z ∷ b) h k = refl
vec_lt_trans_le (x ∷ c) (y ∷ a) (z ∷ b) h k =
    let rest = vec_lt_trans_le c a b in ground (arith, h, k, rest)

vec_lt_asym : (a b : List ℕ) → vec_lt a b ≡ true → vec_lt b a ≡ false
unfolding vec_lt
vec_lt_asym [] [] h = cc
vec_lt_asym [] (y ∷ b) h = refl
vec_lt_asym (x ∷ a) [] h = cc
vec_lt_asym (x ∷ a) (y ∷ b) h = let rest = vec_lt_asym a b in ground (arith, h, rest)

All-imp {ℓ} :
    {A : Type ℓ} (P Q : A → Type 0) → ((x : A) → P x → Q x) → (xs : List A) → All P xs → All Q xs
All-imp P Q f [] h = tt
All-imp P Q f (x ∷ xs) h = (f x h.0, All-imp P Q f xs h.1)

module _ {H M W : Type 0} (segments : List Bytes) (host : Option Bytes) where
  -- The route fits the path and the host, and was not registered for every method.
  abbrev pub fits : Route H M W → Bool
  fits route =
      not (route.method == method_all)
      && host_matches route.host host
      && accepts route.pattern.segments segments

  abbrev pub specificity : Route H M W → List ℕ
  specificity route = pattern_specificity route.pattern.segments

  -- The route is no more specific than `nearest`, where it fits.
  abbrev pub IsNoCloser : Route H M W → Route H M W → Type 0
  IsNoCloser nearest route =
      fits route ≡ true
      → vec_lt (pattern_specificity nearest.pattern.segments)
          (pattern_specificity route.pattern.segments)
        ≡ false

  -- The route is less specific than `nearest`, where it fits.
  abbrev pub IsFarther : Route H M W → Route H M W → Type 0
  IsFarther nearest route =
      fits route ≡ true
      → vec_lt (pattern_specificity route.pattern.segments)
          (pattern_specificity nearest.pattern.segments)
        ≡ true

  -- The nearest route of a list: none where no route fits, or one that fits, with the routes in front
  -- of it less specific and those behind it no more specific.
  abbrev pub IsNearest : List (Route H M W) → Option (Route H M W) → Type 0
  IsNearest routes none = All (λ route. fits route ≡ false) routes
  IsNearest routes (some nearest) =
      (before : List (Route H M W)) × (after : List (Route H M W)) × (routes
        ≡ before ++ nearest ∷ after)
      × (fits nearest ≡ true)
      × All (IsFarther nearest) before
      × All (IsNoCloser nearest) after

  -- The choice between the nearest route so far and the next one.
  abbrev pub beats : Option (Route H M W) → Route H M W → Bool
  beats none route = true
  beats (some nearest) route = vec_lt (specificity nearest) (specificity route)

  abbrev pub nearer : Option (Route H M W) → Route H M W → Option (Route H M W)
  nearer best route = if fits route && beats best route then some route else best

  abbrev pub nearest_of : Option (Route H M W) → List (Route H M W) → Option (Route H M W)
  nearest_of best [] = best
  nearest_of best (route ∷ routes) = nearest_of (nearer best route) routes

  vacuous :
      (nearest : Route H M W) (routes : List (Route H M W))
      → All (λ route. fits route ≡ false) routes
      → All (IsFarther nearest) routes
  vacuous nearest routes =
      All-imp (λ route. fits route ≡ false) (IsFarther nearest) (λ r no yes. cc) routes

  nearer-IsNearest :
      (done : List (Route H M W)) (best : Option (Route H M W)) (route : Route H M W)
      → IsNearest done best
      → IsNearest (done ++ route ∷ []) (nearer best route)
  nearer-IsNearest done none route h = elim (Bool-cases (fits route)) [
    | inr misses ↦ rw (misses) (All-append (λ r. fits r ≡ false) done (route ∷ []) h (misses, tt))
    | inl suits ↦ rw (suits) (done, [], refl, suits, vacuous route done h, tt)
  ]
  nearer-IsNearest done (some nearest) route (before, after, split, good, farther, no_closer) =
      let split' : done ++ route ∷ [] ≡ before ++ nearest ∷ (after ++ route ∷ []) =
        rw (split, append_assoc) refl in
      elim (Bool-cases (fits route)) [
        | inr misses ↦ rw (misses) (
          before,
          after ++ route ∷ [],
          split',
          good,
          farther,
          All-append (IsNoCloser nearest) after (route ∷ []) no_closer (λ suits. cc, tt),
        )
        | inl suits ↦ elim (Bool-cases (vec_lt (specificity nearest) (specificity route))) [
          | inr stays ↦
              rw (suits, stays)
                (
                  before,
                  after ++ route ∷ [],
                  split',
                  good,
                  farther,
                  All-append (IsNoCloser nearest) after (route ∷ []) no_closer (λ y. stays, tt),
                )
          | inl closer ↦
              rw (suits, closer)
                (
                  done,
                  [],
                  refl,
                  suits,
                  subst (All (IsFarther route)) (sym split) (
                      All-append (IsFarther route) before (nearest ∷ after)
                        (All-imp (IsFarther nearest) (IsFarther route)
                          (λ r far fit.
                            vec_lt_trans_le (specificity nearest) (specificity r)
                              (specificity route)
                              (vec_lt_asym (specificity r) (specificity nearest) (far fit)) closer)
                          before farther)
                        (
                          λ fit. closer,
                          All-imp (IsNoCloser nearest) (IsFarther route)
                              (λ r near fit.
                                vec_lt_trans_le (specificity nearest) (specificity r)
                                  (specificity route) (near fit) closer)
                              after no_closer,
                        )),
                  tt,
                )
        ]
      ]

  pub nearest_of-IsNearest :
      (done routes : List (Route H M W)) (best : Option (Route H M W))
      → IsNearest done best
      → IsNearest (done ++ routes) (nearest_of best routes)
  nearest_of-IsNearest done [] best h = rw (append-nil) h
  nearest_of-IsNearest done (route ∷ routes) best h =
      subst (λ rs. IsNearest rs (nearest_of (nearer best route) routes))
        (append_assoc done (route ∷ []) routes)
        (nearest_of-IsNearest (done ++ route ∷ []) routes (nearer best route)
          (nearer-IsNearest done best route h))
