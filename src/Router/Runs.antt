-- ===== src/Router/Runs.antt =====
-- Runs of the route table of src/app/router.rs: registrations, mounts and the calls on route handles,
-- from the empty router, whether they succeed or not.
use rustrest.Prelude.{
  ℕ, ◌+◌, ◌≡◌, refl, inl, inr, false, List, [], ◌∷◌, ◌++◌, Option, none, some, get_elem?, arith, ok,
  Result-cases, Option-cases, Bool-cases,
}
use rustrest.Text.{Bytes}
use rustrest.Pattern.Parse
use rustrest.Hosts.{HostPattern, parse_host}
use rustrest.Router.{
  Route, Router, RouteKind, conflicts, has_name, validate_host_from, update_route, new_router,
  add_with_kind, mount,
}
use rustrest.Router.Handle.{
  fail_and_remove, layer, body_limit, named_elsewhere, set_name, set_parsed_host, set_host, timeout,
  summary, description, tag,
}
use rustrest.Router.Clear.{
  Apart, IsClear, add_with_kind-IsClear, mount-IsClear, remove_route-IsClear,
}
use rustrest.Router.Others.{
  untouched, update_route-IsClear, Others-IsClear, Others-zip, validate_host_from_sound,
  named_elsewhere_sound,
}

-- The operations that change a table.
pub data Step {H M W : Type 0} (percent_decode : Bytes → Bytes)
    : Router H M W → Router H M W → Type 0 where
  adds :
      (router router' : Router H M W) (method path : Bytes) (handler : H) (kind : RouteKind W)
      → add_with_kind percent_decode router method path handler kind ≡ ok router'
      → Step percent_decode router router'
  mounts :
      (router router' other : Router H M W) (prefix : Bytes)
      → mount percent_decode router prefix other ≡ ok router'
      → Step percent_decode router router'
  layers :
      (router : Router H M W) (i : ℕ) (middleware : M)
      → Step percent_decode router (layer router i middleware)
  limits :
      (router : Router H M W) (i bytes : ℕ) → Step percent_decode router (body_limit router i bytes)
  names :
      (router : Router H M W) (i : ℕ) (name : Bytes)
      → Step percent_decode router (set_name router i name).0
  hosts :
      (router : Router H M W) (i : ℕ) (host : Bytes)
      → Step percent_decode router (set_host router i host).0
  times :
      (router : Router H M W) (i : ℕ) (middleware : M)
      → Step percent_decode router (timeout router i middleware)
  summarizes :
      (router : Router H M W) (i : ℕ) (text : Bytes)
      → Step percent_decode router (summary router i text)
  describes :
      (router : Router H M W) (i : ℕ) (text : Bytes)
      → Step percent_decode router (description router i text)
  tags :
      (router : Router H M W) (i : ℕ) (text : Bytes)
      → Step percent_decode router (tag router i text)

-- The routers that calls lead to from the empty one.
pub data Reach {H M W : Type 0} (percent_decode : Bytes → Bytes) : Router H M W → Type 0 where
  start : Reach percent_decode new_router
  next :
      (router router' : Router H M W)
      → Reach percent_decode router
      → Step percent_decode router router'
      → Reach percent_decode router'

module _ {H M W : Type 0} where
  -- A change that leaves method, pattern, name and host alone.
  changed-IsClear :
      (i : ℕ) (f : Route H M W → Route H M W) (routes : List (Route H M W))
      → ((other old : Route H M W) → Apart other old → Apart other (f old))
      → IsClear routes
      → IsClear (update_route i f routes)
  changed-IsClear i f routes keeps h = elim (Option-cases (get_elem? routes i)) [
    | inl outside ↦ rw (untouched i f routes outside) h
    | inr (old, at) ↦
        update_route-IsClear i f old routes at
          (Others-zip (λ other. Apart other old) (λ other. Apart other old)
            (λ other. Apart other (f old)) (λ other a b. keeps other old a) i routes
            (Others-IsClear i old routes at h) (Others-IsClear i old routes at h))
          h
  ]

  fail_and_remove-IsClear :
      (router : Router H M W) (i : ℕ) (error : _)
      → IsClear router.routes
      → IsClear (fail_and_remove router i error).0.routes
  unfolding fail_and_remove
  fail_and_remove-IsClear router i error h = remove_route-IsClear i router.routes h

  set_name-IsClear :
      (router : Router H M W) (i : ℕ) (name : Bytes)
      → IsClear router.routes
      → IsClear (set_name router i name).0.routes
  unfolding set_name
  set_name-IsClear router i name h = elim (Bool-cases (named_elsewhere 0 router.routes i name)) [
    | inl taken ↦ rw (set_name, taken) (fail_and_remove-IsClear router i Parse.duplicate_name h)
    | inr free ↦
        let from_zero : 0 + i ≡ i = omega arith in
        rw (set_name, free)
          (elim (Option-cases (get_elem? router.routes i)) [
            | inl outside ↦ rw (untouched i _ router.routes outside) h
            | inr (old, at) ↦
                update_route-IsClear i _ old router.routes at
                  (Others-zip (λ other. Apart other old) (λ other. has_name name other.name ≡ false)
                    _
                    (λ other apart unnamed. record {
                      separate = apart.separate;
                      unnamed = ground arith;
                    })
                    i router.routes (Others-IsClear i old router.routes at h)
                    (named_elsewhere_sound 0 i router.routes name (rw (from_zero) free)))
                  h
          ])
  ]

  set_parsed_host-IsClear :
      (router : Router H M W) (i : ℕ) (at : Option (Route H M W)) (host : HostPattern)
      → get_elem? router.routes i ≡ at
      → IsClear router.routes
      → IsClear (set_parsed_host router i at host).0.routes
  unfolding set_parsed_host
  set_parsed_host-IsClear router i none host at h = h
  set_parsed_host-IsClear router i (some old) host at h =
      elim (Result-cases (validate_host_from 0 router.routes i old host)) [
        | inl (done, valid) ↦
            let from_zero : 0 + i ≡ i = omega arith in
            rw (set_parsed_host, valid)
              (update_route-IsClear i _ old router.routes at
                (Others-zip (λ other. Apart other old)
                  (λ other. conflicts other old.method old.pattern (some host) ≡ false) _
                  (λ other apart free. record { separate = free; unnamed = apart.unnamed }) i
                  router.routes (Others-IsClear i old router.routes at h)
                  (validate_host_from_sound 0 i router.routes old host (rw (from_zero) valid)))
                h)
        | inr (error, refused) ↦
            rw (set_parsed_host, refused) (fail_and_remove-IsClear router i error h)
      ]

  set_host-IsClear :
      (router : Router H M W) (i : ℕ) (host : Bytes)
      → IsClear router.routes
      → IsClear (set_host router i host).0.routes
  unfolding set_host
  set_host-IsClear router i host h = elim (Result-cases (parse_host host)) [
    | inl (parsed, fine) ↦
        rw (set_host, fine)
          (set_parsed_host-IsClear router i (get_elem? router.routes i) parsed refl h)
    | inr (error, refused) ↦ rw (set_host, refused) (fail_and_remove-IsClear router i error h)
  ]

module _ {H M W : Type 0} (percent_decode : Bytes → Bytes) where
  Step-IsClear :
      (router router' : Router H M W)
      → Step percent_decode router router'
      → IsClear router.routes
      → IsClear router'.routes
  unfolding layer body_limit timeout summary description tag
  Step-IsClear _ _ (adds router router' method path handler kind added) h =
      add_with_kind-IsClear percent_decode router router' method path handler kind h added
  Step-IsClear _ _ (mounts router router' other prefix mounted) h =
      mount-IsClear percent_decode router other router' prefix h mounted
  Step-IsClear _ _ (layers router i middleware) h = changed-IsClear i _ router.routes same h
    where
      same :
          (other old : Route H M W)
          → Apart other old
          → Apart other (record old {
            middlewares = old.middlewares ++ middleware ∷ [];
            route_layers = old.route_layers + 1;
          })
      same other old a = record { separate = a.separate; unnamed = a.unnamed }
  Step-IsClear _ _ (limits router i bytes) h =
      changed-IsClear i _ router.routes
        (λ other old a. record { separate = a.separate; unnamed = a.unnamed }) h
  Step-IsClear _ _ (names router i name) h = set_name-IsClear router i name h
  Step-IsClear _ _ (hosts router i host) h = set_host-IsClear router i host h
  Step-IsClear _ _ (times router i middleware) h =
      changed-IsClear i _ router.routes
        (λ other old a. record { separate = a.separate; unnamed = a.unnamed }) h
  Step-IsClear _ _ (summarizes router i text) h =
      changed-IsClear i _ router.routes
        (λ other old a. record { separate = a.separate; unnamed = a.unnamed }) h
  Step-IsClear _ _ (describes router i text) h =
      changed-IsClear i _ router.routes
        (λ other old a. record { separate = a.separate; unnamed = a.unnamed }) h
  Step-IsClear _ _ (tags router i text) h =
      changed-IsClear i _ router.routes
        (λ other old a. record { separate = a.separate; unnamed = a.unnamed }) h

  -- In every router that registrations, mounts and calls on route handles lead to from the empty
  -- one, refused ones included, no two routes have one method, one shape and a host in common, and
  -- no two have one name.
  pub Reach-IsClear : (router : Router H M W) → Reach percent_decode router → IsClear router.routes
  unfolding new_router
  Reach-IsClear _ start = tt
  Reach-IsClear router' (next router _ reached step) =
      Step-IsClear router router' step (Reach-IsClear router reached)
