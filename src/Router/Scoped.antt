-- ===== src/Router/Scoped.antt =====
-- What `scoped_middlewares` of src/app/router.rs takes for the middleware of routers, when a handle
-- adds to a route, and how `pattern_specificity` orders patterns.
use rustrest.Prelude.{
  ℕ, zero, suc, ◌+◌, ◌-◌, ◌≤◌, ◌≡◌, refl, ap, subst, inl, inr, true, List, [], ◌∷◌, ◌++◌, Option,
  none, some, arith, get_elem?, length, length-append, take, All, Option-cases, Result-cases,
}
use rustrest.Text.{Bytes}
use rustrest.Percent.{decode_path_segments}
use rustrest.Pattern.{Segment}
use rustrest.Router.{Route, Router, update_route}
use rustrest.Router.Lookup.{
  pattern_specificity, vec_lt, is_better, scoped_of, table, index, router_middlewares, best_step,
  best_loop, scoped_middlewares,
}
use rustrest.Router.Handle.{layer}

take-append {ℓ} :
    {A : Type ℓ} (n : ℕ) (xs ys : List A) → n ≤ length xs → take n (xs ++ ys) ≡ take n xs
take-append zero xs ys h = refl
take-append (suc n) [] ys h = absurd (omega arith)
take-append (suc n) (x ∷ xs) ys h = ap (λ t. x ∷ t) (take-append n xs ys (omega arith))

module _ {H M W : Type 0} where
  -- Two routes that `scoped_middlewares` does not tell apart.
  pub record Alike (route other : Route H M W) : Type 0 where
    pub method : other.method ≡ route.method
    pub pattern : other.pattern ≡ route.pattern
    pub host : other.host ≡ route.host
    pub from_routers : router_middlewares other ≡ router_middlewares route

  abbrev pub AllAlike : List (Route H M W) → List (Route H M W) → Type 0
  AllAlike [] [] = Unit
  AllAlike [] (other ∷ others) = ⊥
  AllAlike (route ∷ routes) [] = ⊥
  AllAlike (route ∷ routes) (other ∷ others) = Alike route other × AllAlike routes others

  -- The layers that are counted are among the middleware of the route.
  abbrev pub IsCounted : Route H M W → Type 0
  IsCounted route = route.route_layers ≤ length route.middlewares

  alike_self : (routes : List (Route H M W)) → AllAlike routes routes
  alike_self [] = tt
  alike_self (route ∷ routes) = (
    record { method = refl; pattern = refl; host = refl; from_routers = refl },
    alike_self routes,
  )

  update_route-AllAlike :
      (i : ℕ) (f : Route H M W → Route H M W) (routes : List (Route H M W))
      → ((route : Route H M W) → IsCounted route → Alike route (f route))
      → All IsCounted routes
      → AllAlike routes (update_route i f routes)
  unfolding update_route
  update_route-AllAlike i f [] same h = tt
  update_route-AllAlike zero f (route ∷ routes) same h = (same route h.0, alike_self routes)
  update_route-AllAlike (suc i) f (route ∷ routes) same h = (
    record { method = refl; pattern = refl; host = refl; from_routers = refl },
    update_route-AllAlike i f routes same h.1,
  )

  get_elem?-AllAlike :
      (i : ℕ) (routes others : List (Route H M W)) (route : Route H M W)
      → AllAlike routes others
      → get_elem? routes i ≡ some route
      → (other : Route H M W) × (get_elem? others i ≡ some other) × Alike route other
  get_elem?-AllAlike i [] [] route h at = cc
  get_elem?-AllAlike i [] (other ∷ others) route h at = absurd h
  get_elem?-AllAlike i (r ∷ routes) [] route h at = absurd h
  get_elem?-AllAlike zero (r ∷ routes) (other ∷ others) route h at =
      let same : r ≡ route = cc in (other, refl, subst (λ x. Alike x other) same h.0)
  get_elem?-AllAlike (suc i) (r ∷ routes) (other ∷ others) route h at =
      get_elem?-AllAlike i routes others route h.1 at

  get_elem?-none :
      (i : ℕ) (routes others : List (Route H M W))
      → AllAlike routes others
      → get_elem? routes i ≡ none
      → get_elem? others i ≡ none
  get_elem?-none i [] [] h at = refl
  get_elem?-none i [] (other ∷ others) h at = absurd h
  get_elem?-none i (r ∷ routes) [] h at = absurd h
  get_elem?-none zero (r ∷ routes) (other ∷ others) h at = cc
  get_elem?-none (suc i) (r ∷ routes) (other ∷ others) h at = get_elem?-none i routes others h.1 at

  table-AllAlike :
      (routes others : List (Route H M W)) → AllAlike routes others → table others ≡ table routes
  table-AllAlike [] [] h = refl
  table-AllAlike [] (other ∷ others) h = absurd h
  table-AllAlike (route ∷ routes) [] h = absurd h
  table-AllAlike (route ∷ routes) (other ∷ others) h =
      rw (h.0.method, h.0.pattern, table-AllAlike routes others h.1)

  module _ (routes others : List (Route H M W)) (same : AllAlike routes others) where
    best_step-AllAlike :
        (segments : List Bytes) (host : Option Bytes) (best : Option (List ℕ × ℕ))
        (entry : ℕ × Bytes)
        → best_step others segments host best entry ≡ best_step routes segments host best entry
    unfolding best_step
    best_step-AllAlike segments host best (i, method) = elim (Option-cases (get_elem? routes i)) [
      | inl outside ↦
          let outside' = get_elem?-none i routes others same outside in
          rw (best_step, outside, outside')
      | inr (route, at) ↦
          let (other, at', alike) = get_elem?-AllAlike i routes others route same at in
          rw (best_step, at, at', alike.host, alike.pattern)
    ]

    best_loop-AllAlike :
        (segments : List Bytes) (host : Option Bytes) (entries : List (ℕ × Bytes))
        (best : Option (List ℕ × ℕ))
        → best_loop others segments host entries best ≡ best_loop routes segments host entries best
    unfolding best_loop
    best_loop-AllAlike segments host [] best = refl
    best_loop-AllAlike segments host (entry ∷ entries) best =
        rw (best_step-AllAlike segments host best entry)
          (best_loop-AllAlike segments host entries (best_step routes segments host best entry))

    scoped_of-AllAlike :
        (best : Option (List ℕ × ℕ)) → scoped_of others best ≡ scoped_of routes best
    unfolding scoped_of
    scoped_of-AllAlike none = refl
    scoped_of-AllAlike (some (specificity, i)) = elim (Option-cases (get_elem? routes i)) [
      | inl outside ↦
          let outside' = get_elem?-none i routes others same outside in
          rw (scoped_of, outside, outside')
      | inr (route, at) ↦
          let (other, at', alike) = get_elem?-AllAlike i routes others route same at in
          rw (scoped_of, at, at', alike.from_routers)
    ]

  layered-Alike :
      (middleware : M) (route : Route H M W)
      → IsCounted route
      → Alike route (record route {
        middlewares = route.middlewares ++ middleware ∷ [];
        route_layers = route.route_layers + 1;
      })
  layered-Alike middleware route counted = record {
    method = refl;
    pattern = refl;
    host = refl;
    from_routers =
        let added = route.middlewares ++ middleware ∷ [] in
        let rest : length added - (route.route_layers + 1)
            ≡ length route.middlewares - route.route_layers =
          omega (arith, length-append route.middlewares (middleware ∷ [])) in
        rw (rest) (
          take-append (length route.middlewares - route.route_layers) route.middlewares _
            (omega arith));
  }

  -- Where the layers that each route counts are among its middleware, a middleware that `layer` adds
  -- to a route, whichever, changes no answer of `scoped_middlewares`, for any path and host.
  pub scoped_middlewares-layer :
      (percent_decode : Bytes → Bytes) (router : Router H M W) (i : ℕ) (middleware : M)
      (path : Bytes) (host : Option Bytes)
      → All IsCounted router.routes
      → scoped_middlewares percent_decode (layer router i middleware) path host
        ≡ scoped_middlewares percent_decode router path host
  unfolding scoped_middlewares layer index
  scoped_middlewares-layer percent_decode router i middleware path host counted =
      let same = update_route-AllAlike i _ router.routes (layered-Alike middleware) counted in
      elim (Result-cases (decode_path_segments percent_decode path)) [
        | inr (e, refused) ↦ rw (refused)
        | inl (segments, decoded) ↦ rw (
          decoded,
          table-AllAlike _ _ same,
          best_loop-AllAlike _ _ same,
          scoped_of-AllAlike _ _ same,
        )
      ]

vec_lt-append :
    (p : List Segment) (s : Segment)
    → vec_lt (pattern_specificity p) (pattern_specificity (p ++ s ∷ [])) ≡ true
unfolding vec_lt pattern_specificity
vec_lt-append [] s = refl
vec_lt-append (Segment.static a ∷ p) s = vec_lt-append p s
vec_lt-append (Segment.param a ∷ p) s = vec_lt-append p s
vec_lt-append (Segment.wildcard a ∷ p) s = vec_lt-append p s

-- `scoped_middlewares` takes a pattern with a trailing wildcard for more specific than the pattern
-- without it, whichever was registered first.
pub is_better-wildcard :
    (p : List Segment) (name : Bytes) (i j : ℕ)
    → is_better
        (some (pattern_specificity p, i))
        (pattern_specificity (p ++ Segment.wildcard name ∷ []))
        j
      ≡ true
unfolding is_better
is_better-wildcard p name i j = rw (vec_lt-append p (Segment.wildcard name))
