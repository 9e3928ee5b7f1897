-- ===== src/Router/Handle.antt =====
-- `RouteHandle` of src/app/router.rs: what the builder methods do to the table. A refused `name` or
-- `host` removes the route that the handle stands for.
use rustrest.Prelude.{
  ℕ, ◌+◌, Bool, true, false, not, ◌&&◌, List, [], ◌∷◌, ◌++◌, Option, none, some, nat_eq,
  if◌then◌else◌, get_elem?, Result, ok, err,
}
use rustrest.Text.{Bytes}
use rustrest.Pattern.Parse
use rustrest.Pattern.Parse.{RouteErrorKind}
use rustrest.Hosts.{HostPattern, parse_host}
use rustrest.Router.{Route, Router, has_name, validate_host_from, update_route, remove_route}

-- The new table, with the error if the call failed.
abbrev pub Outcome : Type 0 → Type 0 → Type 0 → Type 0
Outcome H M W = Router H M W × Result RouteErrorKind (Unit {0})

module _ {H M W : Type 0} where
  abbrev pub with_route : Router H M W → ℕ → (Route H M W → Route H M W) → Router H M W
  with_route router i f = record router { routes = update_route i f router.routes }

  unfoldable pub fail_and_remove : Router H M W → ℕ → RouteErrorKind → Outcome H M W
  fail_and_remove router i error =
      (record router { routes = remove_route i router.routes }, err error)

  unfoldable pub layer : Router H M W → ℕ → M → Router H M W
  layer router i middleware = with_route router i (λ route. record route {
    middlewares = route.middlewares ++ middleware ∷ [];
    route_layers = route.route_layers + 1;
  })

  unfoldable pub body_limit : Router H M W → ℕ → ℕ → Router H M W
  body_limit router i bytes =
      with_route router i
        (λ route. record route { meta = record route.meta { body_limit = some bytes } })

  -- Another route than number `i` has the name; the numbers start at `k`.
  unfoldable pub named_elsewhere : ℕ → List (Route H M W) → ℕ → Bytes → Bool
  named_elsewhere k [] i name = false
  named_elsewhere k (route ∷ routes) i name =
      if not (nat_eq k i) && has_name name route.name
      then true
      else named_elsewhere (k + 1) routes i name

  unfoldable pub set_name : Router H M W → ℕ → Bytes → Outcome H M W
  unfolding fail_and_remove
  set_name router i name =
      if named_elsewhere 0 router.routes i name
      then fail_and_remove router i Parse.duplicate_name
      else (with_route router i (λ route. record route { name = some name }), ok tt)

  -- `RouteHandle::host` behind the parse.
  unfoldable pub set_parsed_host :
      Router H M W → ℕ → Option (Route H M W) → HostPattern → Outcome H M W
  unfolding fail_and_remove
  set_parsed_host router i none host = (router, ok tt)
  set_parsed_host router i (some route) host =
      elim (validate_host_from 0 router.routes i route host) [
        | err error ↦ fail_and_remove router i error
        | ok done ↦ (with_route router i (λ r. record r { host = some host }), ok tt)
      ]

  unfoldable pub set_host : Router H M W → ℕ → Bytes → Outcome H M W
  unfolding fail_and_remove set_parsed_host
  set_host router i host = elim (parse_host host) [
    | err error ↦ fail_and_remove router i error
    | ok parsed ↦ set_parsed_host router i (get_elem? router.routes i) parsed
  ]

  -- `RouteHandle::timeout`, with the middleware that `middleware::timeout` makes.
  unfoldable pub timeout : Router H M W → ℕ → M → Router H M W
  timeout router i middleware =
      with_route router i
        (λ route. record route { middlewares = route.middlewares ++ middleware ∷ [] })

  unfoldable pub summary : Router H M W → ℕ → Bytes → Router H M W
  summary router i text =
      with_route router i
        (λ route. record route { meta = record route.meta { summary = some text } })

  unfoldable pub description : Router H M W → ℕ → Bytes → Router H M W
  description router i text =
      with_route router i
        (λ route. record route { meta = record route.meta { description = some text } })

  unfoldable pub tag : Router H M W → ℕ → Bytes → Router H M W
  tag router i text =
      with_route router i
        (λ route. record route { meta = record route.meta { tags = route.meta.tags ++ text ∷ [] } })
