-- ===== src/Router/Clear.antt =====
-- The invariant of the route table in src/app/router.rs: no two routes of one method and one shape
-- share a host, and no two routes share a name. Registration and mounting keep it.
use rustrest.Prelude.{
  ℕ, zero, suc, ◌≡◌, refl, inl, inr, false, List, [], ◌∷◌, ◌++◌, Option, none, some, arith, All,
  All-append, Bool-cases, ok, refuse, >>=-eq-ok, append_assoc, append-nil, subst,
}
use rustrest.Text.{Bytes}
use rustrest.Pattern.Parse
use rustrest.Pattern.Parse.{RouteErrorKind, RoutePattern}
use rustrest.Hosts.{HostPattern}
use rustrest.Router.{
  Route, Router, RouteKind, conflicts, check_conflicts, name_taken, validate_route_insert,
  is_connect, add_with_kind, new_route, mounted_route, mount_from, mount, remove_route,
}

module _ {H M W : Type 0} where
  -- `later` could be registered while `route` was there.
  pub record Apart (route later : Route H M W) : Type 0 where
    pub separate : conflicts route later.method later.pattern later.host ≡ false
    pub unnamed : name_taken later.name (route ∷ []) ≡ false

  abbrev pub IsClear : List (Route H M W) → Type 0
  IsClear [] = Unit
  IsClear (route ∷ routes) = All (Apart route) routes × IsClear routes

  check_conflicts_sound :
      (routes : List (Route H M W)) (method : Bytes) (pattern : RoutePattern)
      (host : Option HostPattern)
      → check_conflicts routes method pattern host ≡ ok tt
      → All (λ route. conflicts route method pattern host ≡ false) routes
  unfolding check_conflicts
  check_conflicts_sound [] method pattern host h = tt
  check_conflicts_sound (route ∷ routes) method pattern host h =
      elim (Bool-cases (conflicts route method pattern host)) [
        | inl clash ↦ cc (rw (check_conflicts, clash) at h)
        | inr free ↦ (
          free,
          check_conflicts_sound routes method pattern host (rw (check_conflicts, free) at h),
        )
      ]

  name_taken_sound :
      (name : Option Bytes) (routes : List (Route H M W))
      → name_taken name routes ≡ false
      → All (λ route. name_taken name (route ∷ []) ≡ false) routes
  name_taken_sound none [] h = tt
  name_taken_sound none (route ∷ routes) h = (refl, name_taken_sound none routes refl)
  name_taken_sound (some name) [] h = tt
  name_taken_sound (some name) (route ∷ routes) h =
      (ground arith, name_taken_sound (some name) routes (ground arith))

  zip_Apart :
      (later : Route H M W) (routes : List (Route H M W))
      → All (λ route. conflicts route later.method later.pattern later.host ≡ false) routes
      → All (λ route. name_taken later.name (route ∷ []) ≡ false) routes
      → All (λ route. Apart route later) routes
  zip_Apart later [] h k = tt
  zip_Apart later (route ∷ routes) h k =
      (record { separate = h.0; unnamed = k.0 }, zip_Apart later routes h.1 k.1)

  -- A route that `validate_route_insert` admits is apart from every route of the list.
  pub validate_route_insert_sound :
      (later : Route H M W) (routes : List (Route H M W))
      → validate_route_insert routes later.method later.pattern later.host later.name ≡ ok tt
      → All (λ route. Apart route later) routes
  unfolding validate_route_insert
  validate_route_insert_sound later routes h = elim (Bool-cases (name_taken later.name routes)) [
    | inl taken ↦ cc (rw (validate_route_insert, taken) at h)
    | inr free ↦
        zip_Apart later routes
          (check_conflicts_sound routes later.method later.pattern later.host
            (rw (validate_route_insert, free) at h))
          (name_taken_sound later.name routes free)
  ]

  IsClear-concat :
      (routes : List (Route H M W)) (later : Route H M W)
      → IsClear routes
      → All (λ route. Apart route later) routes
      → IsClear (routes ++ later ∷ [])
  IsClear-concat [] later h k = (tt, tt)
  IsClear-concat (route ∷ routes) later h k = (
    All-append (Apart route) routes (later ∷ []) h.0 (k.0, tt),
    IsClear-concat routes later h.1 k.1,
  )

  All-remove_route {κ} :
      (P : Route H M W → Type κ) (i : ℕ) (routes : List (Route H M W))
      → All P routes
      → All P (remove_route i routes)
  unfolding remove_route
  All-remove_route P i [] h = tt
  All-remove_route P zero (route ∷ routes) h = h.1
  All-remove_route P (suc i) (route ∷ routes) h = (h.0, All-remove_route P i routes h.1)

  -- Removing a route, as a refused `name` or `host` does, keeps the table clear.
  pub remove_route-IsClear :
      (i : ℕ) (routes : List (Route H M W)) → IsClear routes → IsClear (remove_route i routes)
  unfolding remove_route
  remove_route-IsClear i [] h = tt
  remove_route-IsClear zero (route ∷ routes) h = h.1
  remove_route-IsClear (suc i) (route ∷ routes) h =
      (All-remove_route (Apart route) i routes h.0, remove_route-IsClear i routes h.1)

  module _ (percent_decode : Bytes → Bytes) where
    -- Registering a route keeps the table clear.
    pub add_with_kind-IsClear :
        (router router' : Router H M W) (method path : Bytes) (handler : H) (kind : RouteKind W)
        → IsClear router.routes
        → add_with_kind percent_decode router method path handler kind ≡ ok router'
        → IsClear router'.routes
    unfolding add_with_kind
    add_with_kind-IsClear router router' method path handler kind c h =
        let (_, allowed, h1) =
          >>=-eq-ok (refuse (is_connect method) Parse.unsupported_method) _ h in
        let (pattern, parsed, h2) = >>=-eq-ok (Parse.parse percent_decode path) _ h1 in
        let (done, valid, h3) =
          >>=-eq-ok (validate_route_insert router.routes method pattern none none) _ h2 in
        let added = new_route {M = M} method pattern handler kind in
        let result : record router { routes = router.routes ++ added ∷ [] } ≡ router' = cc in
        subst (λ (r : Router H M W). IsClear r.routes) result
          (IsClear-concat router.routes added c
            (validate_route_insert_sound added router.routes valid))

  mount_from-IsClear :
      (routes : List (Route H M W)) (prefix : RoutePattern) (scoped : List M)
      (others mounted out : List (Route H M W))
      → IsClear (routes ++ mounted)
      → mount_from routes prefix scoped others mounted ≡ ok out
      → IsClear (routes ++ out)
  unfolding mount_from
  mount_from-IsClear routes prefix scoped [] mounted out c h =
      let same : mounted ≡ out = cc in rw (← same) c
  mount_from-IsClear routes prefix scoped (route ∷ others) mounted out c h =
      let (pattern, joined, h1) = >>=-eq-ok (Parse.join prefix route.pattern) _ h in
      let (done, valid, h2) =
        >>=-eq-ok (validate_route_insert routes route.method pattern route.host route.name) _ h1 in
      let (done', valid', h3) =
        >>=-eq-ok (validate_route_insert mounted route.method pattern route.host route.name) _ h2 in
      let added = mounted_route scoped pattern route in
      mount_from-IsClear routes prefix scoped others (mounted ++ added ∷ []) out
        (rw (← append_assoc routes mounted (added ∷ [])) (
          IsClear-concat (routes ++ mounted) added c (
            All-append (λ r. Apart r added) routes mounted
              (validate_route_insert_sound added routes valid)
              (validate_route_insert_sound added mounted valid'))))
        h3

  -- Mounting a router keeps the table clear, whatever the other router holds.
  pub mount-IsClear :
      (percent_decode : Bytes → Bytes) (router other router' : Router H M W) (prefix : Bytes)
      → IsClear router.routes
      → mount percent_decode router prefix other ≡ ok router'
      → IsClear router'.routes
  unfolding mount
  mount-IsClear percent_decode router other router' prefix c h =
      let (parsed, e, h1) = >>=-eq-ok (Parse.parse percent_decode prefix) _ h in
      let (out, mounts, h2) =
        >>=-eq-ok (mount_from router.routes parsed other.middlewares other.routes []) _ h1 in
      let result : record router { routes = router.routes ++ out } ≡ router' = cc in
      subst (λ (r : Router H M W). IsClear r.routes) result
        (mount_from-IsClear router.routes parsed other.middlewares other.routes [] out
          (rw append-nil c) mounts)
