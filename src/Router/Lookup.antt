-- ===== src/Router/Lookup.antt =====
-- Lookup in the route table of src/app/router.rs: `resolve_method`, `resolve_http_method`,
-- `allowed_methods`, `scoped_middlewares`, `pattern_specificity` and `allow_header_value`.
-- `self.routes[index]` is in range for every index that the trie answers; the model skips others.
use rustrest.Prelude.{
  ℕ, ◌-◌, Bool, true, false, not, ◌&&◌, ◌||◌, List, [], ◌∷◌, ◌++◌, map, Option, none, some, ltb,
  nat_eq, if◌then◌else◌, is_some, length, get_elem?, take, Result, ok, ◌>>=◌, contains, ◌==◌, ℕ_eq,
  list_eq,
}
use rustrest.Text.{Bytes, codes}
use rustrest.Pattern.{Segment, match_decoded_pattern}
use rustrest.Percent.{RouteMatchErrorKind, decode_path_segments}
use rustrest.Hosts.{host_matches}
use rustrest.Trie.{method_all, Node, build, find_candidates, matching_methods}
use rustrest.Router.{Route, Router, RouteKind, MatchedRoute, http, web_socket}

abbrev pub is_web_socket : {W : Type 0} → RouteKind W → Bool
is_web_socket http = false
is_web_socket (web_socket config) = true

-- `pattern_specificity`.
abbrev pub specificity_of : Segment → ℕ
specificity_of (Segment.static s) = 2
specificity_of (Segment.param name) = 1
specificity_of (Segment.wildcard name) = 0

unfoldable pub pattern_specificity : List Segment → List ℕ
pattern_specificity segments = map specificity_of segments

-- `Ord` of `Vec<u8>`: lexicographic, and a proper prefix is smaller.
unfoldable pub vec_lt : List ℕ → List ℕ → Bool
vec_lt [] [] = false
vec_lt [] (y ∷ ys) = true
vec_lt (x ∷ xs) [] = false
vec_lt (x ∷ xs) (y ∷ ys) = ltb x y || nat_eq x y && vec_lt xs ys

-- `allow_header_value` before its `join(", ")`.
unfoldable pub allow_methods : List Bytes → Bool → List Bytes
allow_methods allowed implicit_head =
    let methods =
      if implicit_head && not (contains (codes "HEAD") allowed)
      then allowed ++ codes "HEAD" ∷ []
      else allowed in
    if contains (codes "OPTIONS") methods then methods else methods ++ codes "OPTIONS" ∷ []

-- `better` of `scoped_middlewares`.
unfoldable pub is_better : Option (List ℕ × ℕ) → List ℕ → ℕ → Bool
is_better none specificity i = true
is_better (some (current, current_index)) specificity i =
    vec_lt current specificity || specificity == current && ltb i current_index

module _ {H M W : Type 0} where
  -- What the index is built from.
  abbrev pub table : List (Route H M W) → List (Bytes × List Segment)
  table [] = []
  table (route ∷ routes) = (route.method, route.pattern.segments) ∷ table routes

  -- `Router::index`.
  unfoldable pub index : Router H M W → Node
  index router = build (table router.routes)

  abbrev pub matched : Route H M W → List (Bytes × Bytes) → MatchedRoute H M W
  matched route params = record {
    handler = route.handler;
    middlewares = route.middlewares;
    params = params;
    pattern = route.pattern.rendered;
    kind = route.kind;
    body_limit = route.meta.body_limit;
  }

  -- One round of the lookup loops for a route that `usable` admits.
  unfoldable pub try_route :
      (Route H M W → Bool) → List Bytes → Option (Route H M W) → Option (MatchedRoute H M W)
  try_route usable segments none = none
  try_route usable segments (some route) =
      if usable route
      then elim (match_decoded_pattern route.pattern.segments segments) [
        | none ↦ none
        | some params ↦ some (matched route params)
      ]
      else none

  -- The loop over the candidates.
  unfoldable pub first_match :
      (Route H M W → Bool) → List (Route H M W) → List Bytes → List ℕ → Option (MatchedRoute H M W)
  unfolding try_route
  first_match usable routes segments [] = none
  first_match usable routes segments (i ∷ candidates) =
      let rest = first_match usable routes segments candidates in
      elim (try_route usable segments (get_elem? routes i)) [
        | none ↦ rest
        | some found ↦ some found
      ]

  -- The two `continue`s of `resolve_method`.
  unfoldable pub usable_for : Bytes → Option Bytes → Route H M W → Bool
  usable_for method host route =
      host_matches route.host host
      && not (method == codes "HEAD" && not (route.method == method) && is_web_socket route.kind)

  unfoldable pub usable_http : Option Bytes → Route H M W → Bool
  usable_http host route = not (is_web_socket route.kind) && host_matches route.host host

  -- What `allowed_methods` does with one entry of the index.
  unfoldable pub allow_step :
      List (Route H M W) → List Bytes → Option Bytes → List Bytes → ℕ × Bytes → List Bytes
  allow_step routes segments host methods (i, method) = elim (get_elem? routes i) [
    | none ↦ methods
    | some route ↦
        if host_matches route.host host
          && is_some (match_decoded_pattern route.pattern.segments segments)
          && (not (method == method_all) && not (contains method methods))
        then methods ++ method ∷ []
        else methods
  ]

  unfoldable pub allow_loop :
      List (Route H M W) → List Bytes → Option Bytes → List (ℕ × Bytes) → List Bytes → List Bytes
  unfolding allow_step
  allow_loop routes segments host [] methods = methods
  allow_loop routes segments host (entry ∷ entries) methods =
      allow_loop routes segments host entries (allow_step routes segments host methods entry)

  unfoldable pub best_step :
      List (Route H M W)
      → List Bytes
      → Option Bytes
      → Option (List ℕ × ℕ)
      → ℕ × Bytes
      → Option (List ℕ × ℕ)
  unfolding is_better pattern_specificity
  best_step routes segments host best (i, method) = elim (get_elem? routes i) [
    | none ↦ best
    | some route ↦
        if method == method_all
          || not (host_matches route.host host)
          || not (is_some (match_decoded_pattern route.pattern.segments segments))
        then best
        else let specificity = pattern_specificity route.pattern.segments in
          if is_better best specificity i then some (specificity, i) else best
  ]

  unfoldable pub best_loop :
      List (Route H M W)
      → List Bytes
      → Option Bytes
      → List (ℕ × Bytes)
      → Option (List ℕ × ℕ)
      → Option (List ℕ × ℕ)
  unfolding best_step
  best_loop routes segments host [] best = best
  best_loop routes segments host (entry ∷ entries) best =
      best_loop routes segments host entries (best_step routes segments host best entry)

  -- `route.middlewares[..route.middlewares.len() - route.route_layers]`: what comes from routers.
  abbrev pub router_middlewares : Route H M W → List M
  router_middlewares route = take (length route.middlewares - route.route_layers) route.middlewares

  unfoldable pub scoped_of : List (Route H M W) → Option (List ℕ × ℕ) → List M
  scoped_of routes none = []
  scoped_of routes (some (specificity, i)) = elim (get_elem? routes i) [
    | none ↦ []
    | some route ↦ router_middlewares route
  ]

  module _ (percent_decode : Bytes → Bytes) where
    unfoldable pub resolve_method :
        Router H M W
        → Bytes
        → Bytes
        → Option Bytes
        → Result RouteMatchErrorKind (Option (MatchedRoute H M W))
    resolve_method router method path host = do
      segments ← decode_path_segments percent_decode path
      ok (
          first_match (usable_for method host) router.routes segments
            (find_candidates (index router) method segments))

    unfoldable pub resolve_http_method :
        Router H M W
        → Bytes
        → Bytes
        → Option Bytes
        → Result RouteMatchErrorKind (Option (MatchedRoute H M W))
    resolve_http_method router method path host = do
      segments ← decode_path_segments percent_decode path
      ok (
          first_match (usable_http host) router.routes segments
            (find_candidates (index router) method segments))

    unfoldable pub allowed_methods :
        Router H M W → Bytes → Option Bytes → Result RouteMatchErrorKind (List Bytes)
    allowed_methods router path host = do
      segments ← decode_path_segments percent_decode path
      ok (allow_loop router.routes segments host (matching_methods (index router) segments) [])

    unfoldable pub scoped_middlewares :
        Router H M W → Bytes → Option Bytes → Result RouteMatchErrorKind (List M)
    scoped_middlewares router path host = do
      segments ← decode_path_segments percent_decode path
      ok (
          scoped_of router.routes
            (best_loop router.routes segments host (matching_methods (index router) segments) none))
