-- ===== src/Router.antt =====
-- The route table of src/app/router.rs: `Route`, `Router`, registration (`add_with_kind`,
-- `mount`, and `name`, `host`, `layer`, `body_limit`, `summary`, `description`, `tag` of the handle)
-- and lookup (`resolve_method`, `resolve_http_method`, `allowed_methods`, `scoped_middlewares`).
-- Handlers, middlewares and the WebSocket configuration are parameters: the table stores and
-- returns them. The lazily built index is `Trie.build` of the table at each lookup: every mutation
-- drops the cached one.
pub mod Lookup
pub mod Handle
pub mod Resolve
pub mod Clear
pub mod Symmetry
pub mod Others
pub mod Nearest
pub mod Inherited
pub mod Runs
pub mod Scoped
pub mod Allowed
pub mod Url
use rustrest.Prelude.{
  ℕ, zero, suc, ◌+◌, ◌-◌, Bool, true, false, not, ◌&&◌, ◌||◌, List, [], ◌∷◌, ◌++◌, map, Option,
  none, some, ltb, nat_eq, if◌then◌else◌, any, is_some, length, get_elem?, Result, ok, err, ◌>>=◌,
  ◌>>◌, refuse, contains, ◌==◌, ℕ_eq, list_eq,
}
use rustrest.Text.{Bytes, codes, to_ascii_lower}
use rustrest.Pattern.{Segment, ConflictSegment, Params, match_decoded_pattern}
use rustrest.Pattern.Parse
use rustrest.Pattern.Parse.{RouteErrorKind, RoutePattern}
use rustrest.Percent.{RouteMatchErrorKind, decode_path_segments}
use rustrest.Hosts.{HostPattern, parse_host, host_matches, hosts_overlap}
use rustrest.Trie.{method_all, Node, build, find_candidates, matching_methods}

pub data RouteKind (W : Type 0) : Type 0 where
  http : RouteKind W
  web_socket : W → RouteKind W

pub record RouteMeta : Type 0 where
  pub summary : Option Bytes
  pub description : Option Bytes
  pub tags : List Bytes
  pub body_limit : Option ℕ

abbrev pub empty_meta : RouteMeta
empty_meta = record { summary = none; description = none; tags = []; body_limit = none }

-- `H` are the handlers, `M` the middlewares, `W` the WebSocket configurations.
pub record Route (H M W : Type 0) : Type 0 where
  pub method : Bytes
  pub pattern : RoutePattern
  pub handler : H
  pub middlewares : List M
  pub route_layers : ℕ
  pub kind : RouteKind W
  pub meta : RouteMeta
  pub name : Option Bytes
  pub host : Option HostPattern

pub record Router (H M W : Type 0) : Type 0 where
  pub routes : List (Route H M W)
  pub middlewares : List M

pub record MatchedRoute (H M W : Type 0) : Type 0 where
  pub handler : H
  pub middlewares : List M
  pub params : Params
  pub pattern : Bytes
  pub kind : RouteKind W
  pub body_limit : Option ℕ

abbrev pub segment_eq : ConflictSegment → ConflictSegment → Bool
segment_eq (ConflictSegment.static a) (ConflictSegment.static b) = a == b
segment_eq ConflictSegment.param ConflictSegment.param = true
segment_eq ConflictSegment.wildcard ConflictSegment.wildcard = true
segment_eq _ _ = false

-- Equality of conflict keys.
unfoldable pub key_eq : List ConflictSegment → List ConflictSegment → Bool
key_eq [] [] = true
key_eq [] (y ∷ ys) = false
key_eq (x ∷ xs) [] = false
key_eq (x ∷ xs) (y ∷ ys) = segment_eq x y && key_eq xs ys

abbrev pub has_name : Bytes → Option Bytes → Bool
has_name wanted none = false
has_name wanted (some name) = name == wanted

-- `eq_ignore_ascii_case` with "CONNECT".
unfoldable pub is_connect : Bytes → Bool
is_connect method = map to_ascii_lower method == codes "connect"

module _ {H M W : Type 0} where
  -- The test of the loops over the table: same method, same shape, hosts in common.
  unfoldable pub conflicts : Route H M W → Bytes → RoutePattern → Option HostPattern → Bool
  unfolding key_eq
  conflicts route method pattern host =
      route.method == method
      && key_eq route.pattern.conflict_key pattern.conflict_key
      && hosts_overlap route.host host

  -- The kind of error for the route that is in the way.
  abbrev pub conflict_kind : Route H M W → RoutePattern → RouteErrorKind
  conflict_kind route pattern =
      if route.pattern.rendered == pattern.rendered
      then Parse.duplicate_route
      else Parse.conflicting_pattern

  unfoldable pub check_conflicts :
      List (Route H M W)
      → Bytes
      → RoutePattern
      → Option HostPattern
      → Result RouteErrorKind (Unit {0})
  unfolding conflicts
  check_conflicts [] method pattern host = ok tt
  check_conflicts (route ∷ routes) method pattern host =
      if conflicts route method pattern host
      then err (conflict_kind route pattern)
      else check_conflicts routes method pattern host

  abbrev pub name_taken : Option Bytes → List (Route H M W) → Bool
  name_taken none routes = false
  name_taken (some name) routes = any (λ route. has_name name route.name) routes

  -- `Router::validate_route_insert` over the table, and `validate_route_batch_insert` over the
  -- routes of a mount that were checked before: the two bodies are the same.
  unfoldable pub validate_route_insert :
      List (Route H M W)
      → Bytes
      → RoutePattern
      → Option HostPattern
      → Option Bytes
      → Result RouteErrorKind (Unit {0})
  validate_route_insert routes method pattern host name = do
    refuse (name_taken name routes) Parse.duplicate_name
    check_conflicts routes method pattern host

  -- `Router::validate_route_host_update`: the loop over the other routes, from number `k` on.
  unfoldable pub validate_host_from :
      ℕ → List (Route H M W) → ℕ → Route H M W → HostPattern → Result RouteErrorKind (Unit {0})
  unfolding conflicts
  validate_host_from k [] index route host = ok tt
  validate_host_from k (other ∷ routes) index route host =
      if not (nat_eq k index) && conflicts other route.method route.pattern (some host)
      then err (conflict_kind other route.pattern)
      else validate_host_from (k + 1) routes index route host

  -- `routes[index]` replaced by `f routes[index]`; an index out of range does not occur.
  unfoldable pub update_route :
      ℕ → (Route H M W → Route H M W) → List (Route H M W) → List (Route H M W)
  update_route index f [] = []
  update_route zero f (route ∷ routes) = f route ∷ routes
  update_route (suc index) f (route ∷ routes) = route ∷ update_route index f routes

  -- `Vec::remove`.
  unfoldable pub remove_route : ℕ → List (Route H M W) → List (Route H M W)
  remove_route index [] = []
  remove_route zero (route ∷ routes) = routes
  remove_route (suc index) (route ∷ routes) = route ∷ remove_route index routes

  unfoldable pub new_router : Router H M W
  new_router = record { routes = []; middlewares = [] }

  -- The `Route` that `add_with_kind` pushes.
  abbrev pub new_route : Bytes → RoutePattern → H → RouteKind W → Route H M W
  new_route method pattern handler kind = record {
    method = method;
    pattern = pattern;
    handler = handler;
    middlewares = [];
    route_layers = 0;
    kind = kind;
    meta = empty_meta;
    name = none;
    host = none;
  }

  -- The `Route` that `mount` pushes for a route of the other router.
  abbrev pub mounted_route : List M → RoutePattern → Route H M W → Route H M W
  mounted_route scoped pattern route = record route {
    pattern = pattern;
    middlewares = scoped ++ route.middlewares;
  }

  -- The loop of `Router::mount` over the routes of `other`.
  unfoldable pub mount_from :
      List (Route H M W)
      → RoutePattern
      → List M
      → List (Route H M W)
      → List (Route H M W)
      → Result RouteErrorKind (List (Route H M W))
  mount_from routes prefix scoped [] mounted = ok mounted
  mount_from routes prefix scoped (route ∷ others) mounted = do
    pattern ← Parse.join prefix route.pattern
    validate_route_insert routes route.method pattern route.host route.name
    validate_route_insert mounted route.method pattern route.host route.name
    mount_from routes prefix scoped others (mounted ++ mounted_route scoped pattern route ∷ [])

  module _ (percent_decode : Bytes → Bytes) where
    -- `Router::add_with_kind`: the table with the new route behind the others.
    unfoldable pub add_with_kind :
        Router H M W → Bytes → Bytes → H → RouteKind W → Result RouteErrorKind (Router H M W)
    add_with_kind router method path handler kind = do
      refuse (is_connect method) Parse.unsupported_method
      pattern ← Parse.parse percent_decode path
      validate_route_insert router.routes method pattern none none
      ok (record router { routes = router.routes ++ new_route method pattern handler kind ∷ [] })

    unfoldable pub mount :
        Router H M W → Bytes → Router H M W → Result RouteErrorKind (Router H M W)
    unfolding mount_from
    mount router prefix other = do
      parsed ← Parse.parse percent_decode prefix
      mounted ← mount_from router.routes parsed other.middlewares other.routes []
      ok (record router { routes = router.routes ++ mounted })
