-- ===== src/Router/Inherited.antt =====
-- What `scoped_middlewares` of src/app/router.rs answers: the middleware that routers gave to the
-- route that fits the path most specifically.
use rustrest.Prelude.{
  ℕ, length, ◌<◌, ◌≡◌, ◌&&◌, List, [], ◌++◌, Option, none, some, get_elem?, if◌then◌else◌, ℕ_eq,
  list_eq,
}
use rustrest.Text.{Bytes}
use rustrest.Router.{Route, Router}
use rustrest.Router.Nearest.{fits, specificity, beats}
use rustrest.Router.Lookup.{router_middlewares}

module _ {H M W : Type 0} (segments : List Bytes) (host : Option Bytes) where
  -- The route so far with its number, as the loop of the source notes it.
  abbrev noted : Option (Route H M W × ℕ) → Option (List ℕ × ℕ)
  noted none = none
  noted (some (route, i)) = some (specificity segments host route, i)

  abbrev picked : Option (Route H M W × ℕ) → Option (Route H M W)
  picked none = none
  picked (some (route, i)) = some route

  abbrev IsStored : List (Route H M W) → ℕ → Option (Route H M W × ℕ) → Type 0
  IsStored routes k none = Unit
  IsStored routes k (some (route, i)) = (get_elem? routes i ≡ some route) × (i < k)

  abbrev pub answer : Option (Route H M W) → List M
  answer none = []
  answer (some route) = router_middlewares route

  abbrev next : Option (Route H M W × ℕ) → Route H M W → ℕ → Option (Route H M W × ℕ)
  next best route k =
      if fits segments host route && beats segments host (picked best) route
      then some (route, k)
      else best

  -- What routers gave to a route: its middleware without the layers of its own, which are the last.
  abbrev pub IsScoped : Option (Route H M W) → List M → Type 0
  IsScoped none scoped = scoped ≡ []
  IsScoped (some route) scoped =
      (own : List M) × (scoped ++ own ≡ route.middlewares) × (length own ≡ route.route_layers)
