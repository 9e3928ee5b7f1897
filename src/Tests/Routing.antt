-- ===== src/Tests/Routing.antt =====
-- A small table of routes: lookups in it, and the routing theorems at it.
use rustrest.Prelude.{
  ℕ, ◌+◌, ◌≡◌, refl, List, [], ◌∷◌, none, some, get_elem?, ok, list_beq, ◌++◌, length, any,
  contains, ℕ_eq, list_eq,
}
use rustrest.Text.{Bytes, codes, split}
use rustrest.Pattern.{Segment, accepts}
use rustrest.Pattern.Parse.{from_validated_segments}
use rustrest.Trie.{build, find_candidates, matching_methods}
use rustrest.Percent.{decode_path_segments, path_segments}
use rustrest.Router.{
  Route, Router, new_route, http, web_socket, empty_meta, add_with_kind, new_router, mount,
  remove_route, mounted_route,
}
use rustrest.Router.Lookup.{resolve_method, usable_for, allowed_methods, scoped_middlewares}
use rustrest.Router.Resolve.{resolve_method-cases, IsAnswered}
use rustrest.Trie.Counts.{listings, occurrences}
use rustrest.Trie.Gather.{gather, find_candidates-eq-gather}
use rustrest.Trie.Table.{find_candidates-build}
use rustrest.Trie.Sorted.{fitting, matching_methods-build}
use rustrest.Pattern.Accepts.{accepts_of_conflict_key}
use rustrest.Router.Clear.{IsClear}
use rustrest.Router.Handle.{set_name}
use rustrest.Router.Runs.{Reach, start, next, adds, mounts, names, Reach-IsClear}
use rustrest.Router.Allowed.{offers, allowed_methods_iff}
use rustrest.Router.Handle.{timeout}
use rustrest.Tests.Decoder.{decoder}

abbrev user_pattern : List Segment
user_pattern = Segment.static (codes "users") ∷ Segment.param (codes "id") ∷ []

abbrev me_pattern : List Segment
me_pattern = Segment.static (codes "users") ∷ Segment.static (codes "me") ∷ []

abbrev rest_pattern : List Segment
rest_pattern = Segment.wildcard (codes "path") ∷ []

abbrev entries : List (Bytes × List Segment)
entries = (codes "GET", user_pattern) ∷ (codes "GET", me_pattern) ∷ (codes "*", rest_pattern) ∷ []

abbrev me_path : List Bytes
me_path = codes "users" ∷ codes "me" ∷ []

me_candidates : find_candidates (build entries) (codes "HEAD") me_path ≡ 1 ∷ 0 ∷ 2 ∷ []
unfolding find_candidates build list_beq
me_candidates = refl

abbrev user_route : Route ℕ ℕ ℕ
user_route = new_route (codes "GET") (from_validated_segments user_pattern (codes "id" ∷ [])) 7 http

abbrev socket_route : Route ℕ ℕ ℕ
socket_route = new_route (codes "GET") (from_validated_segments me_pattern []) 8 (web_socket 1)

abbrev router : Router ℕ ℕ ℕ
router = record { routes = user_route ∷ socket_route ∷ []; middlewares = 5 ∷ [] }

decoded : decode_path_segments decoder (codes "/users/%6De") ≡ ok me_path
unfolding decode_path_segments path_segments split rustrest.Percent.decode_path_segment
    rustrest.Percent.validate_percent_triplets rustrest.Percent.decode_text
    rustrest.Text.Utf8.decode_chars decoder rustrest.Text.Utf8.is_control
    rustrest.Text.is_ascii_hexdigit
decoded = refl

resolve_method-cases_example :
    IsAnswered
      (usable_for (codes "GET") none)
      router
      (codes "GET")
      me_path
      (resolve_method decoder router (codes "GET") (codes "/users/%6De") none)
resolve_method-cases_example =
    resolve_method-cases decoder router (codes "GET") (codes "/users/%6De") none me_path decoded

find_candidates-build_example :
    occurrences 0 (find_candidates (build entries) (codes "HEAD") me_path) ≡ 1
unfolding accepts list_beq listings
find_candidates-build_example = find_candidates-build (codes "HEAD") me_path 0 entries

find_candidates-eq-gather_example :
    find_candidates (build entries) (codes "HEAD") me_path
    ≡ gather (codes "HEAD") me_path (build entries)
find_candidates-eq-gather_example = find_candidates-eq-gather (codes "HEAD") me_path (build entries)

matching_methods-build_example :
    matching_methods (build entries) me_path
    ≡ (0, codes "GET") ∷ (1, codes "GET") ∷ (2, codes "*") ∷ []
unfolding fitting accepts list_beq
matching_methods-build_example = matching_methods-build me_path entries

abbrev member_pattern : List Segment
member_pattern = Segment.static (codes "users") ∷ Segment.param (codes "member") ∷ []

accepts_of_conflict_key_example : accepts user_pattern me_path ≡ accepts member_pattern me_path
accepts_of_conflict_key_example = accepts_of_conflict_key user_pattern member_pattern refl me_path

abbrev item_pattern : List Segment
item_pattern = Segment.static (codes "items") ∷ []

abbrev listed : Router ℕ ℕ ℕ
listed = record {
  routes = new_route (codes "GET") (from_validated_segments item_pattern []) 9 http ∷ [];
  middlewares = [];
}

lists : add_with_kind decoder new_router (codes "GET") (codes "/items") 9 http ≡ ok listed
unfolding new_router add_with_kind mount rustrest.Router.mount_from rustrest.Pattern.Parse.join
    rustrest.Pattern.Parse.validate_segments rustrest.Pattern.Parse.validate_from
    rustrest.Pattern.Parse.validate_segment path_segments split rustrest.Pattern.Parse.parse
    rustrest.Pattern.Parse.parse_from rustrest.Pattern.Parse.parse_segment
    rustrest.Router.is_connect rustrest.Text.to_ascii_lower
    rustrest.Pattern.Parse.decode_route_static_segment rustrest.Percent.validate_percent_triplets
    rustrest.Percent.decode_text rustrest.Text.Utf8.decode_chars decoder
    rustrest.Text.Utf8.is_control rustrest.Router.validate_route_insert list_beq
    rustrest.Router.check_conflicts rustrest.Hosts.hosts_overlap from_validated_segments
    rustrest.Pattern.Parse.is_name_byte rustrest.Pattern.Parse.render_pattern
    rustrest.Pattern.Parse.render_segments rustrest.Pattern.Parse.validate_parameter_name
    rustrest.Percent.encode_path_segment rustrest.Percent.is_unreserved rustrest.Percent.upper_hex
    rustrest.Prelude.add contains rustrest.Router.conflicts rustrest.Router.key_eq
    rustrest.Text.is_ascii_alphanumeric rustrest.Text.is_ascii_hexdigit
lists = refl

abbrev nested : Router ℕ ℕ ℕ
nested = record listed {
  routes =
      listed.routes
      ++ mounted_route (6 ∷ [])
          (from_validated_segments (Segment.static (codes "api") ∷ me_pattern) []) socket_route
        ∷ [];
}

nests :
    mount decoder listed
      (codes "/api")
      (record { routes = socket_route ∷ []; middlewares = 6 ∷ [] })
    ≡ ok nested
unfolding new_router add_with_kind mount rustrest.Router.mount_from rustrest.Pattern.Parse.join
    rustrest.Pattern.Parse.validate_segments rustrest.Pattern.Parse.validate_from
    rustrest.Pattern.Parse.validate_segment path_segments split rustrest.Pattern.Parse.parse
    rustrest.Pattern.Parse.parse_from rustrest.Pattern.Parse.parse_segment
    rustrest.Router.is_connect rustrest.Text.to_ascii_lower
    rustrest.Pattern.Parse.decode_route_static_segment rustrest.Percent.validate_percent_triplets
    rustrest.Percent.decode_text rustrest.Text.Utf8.decode_chars decoder
    rustrest.Text.Utf8.is_control rustrest.Router.validate_route_insert list_beq
    rustrest.Router.check_conflicts rustrest.Hosts.hosts_overlap from_validated_segments
    rustrest.Pattern.Parse.is_name_byte rustrest.Pattern.Parse.render_pattern
    rustrest.Pattern.Parse.render_segments rustrest.Pattern.Parse.validate_parameter_name
    rustrest.Percent.encode_path_segment rustrest.Percent.is_unreserved rustrest.Percent.upper_hex
    rustrest.Prelude.add contains rustrest.Router.conflicts rustrest.Router.key_eq
    rustrest.Text.is_ascii_alphanumeric rustrest.Text.is_ascii_hexdigit
nests = refl

abbrev named : Router ℕ ℕ ℕ
named = (set_name nested 0 (codes "items")).0

named-Reach : Reach decoder named
named-Reach =
    next nested named
      (next listed nested
        (next new_router listed start
          (adds new_router listed (codes "GET") (codes "/items") 9 http lists))
        (mounts listed nested (record { routes = socket_route ∷ []; middlewares = 6 ∷ [] })
          (codes "/api") nests))
      (names nested 0 (codes "items"))

Reach-IsClear_example : IsClear named.routes
Reach-IsClear_example = Reach-IsClear decoder named named-Reach

allowed_methods_iff_example :
    (methods : List Bytes) × (allowed_methods decoder router (codes "/users/%6De") none
      ≡ ok methods)
    × (contains (codes "GET") methods ≡ any (offers me_path none (codes "GET")) router.routes)
allowed_methods_iff_example =
    allowed_methods_iff me_path none (codes "GET") decoder router (codes "/users/%6De") decoded

-- A route with a middleware of a router in front of one of its own.
abbrev layered : Router ℕ ℕ ℕ
layered = record {
  routes = socket_route ∷ record user_route { middlewares = 5 ∷ 4 ∷ []; route_layers = 1 } ∷ [];
  middlewares = [];
}

abbrev ana_path : List Bytes
ana_path = codes "users" ∷ codes "ana" ∷ []

inherited : scoped_middlewares decoder layered (codes "/users/ana") none ≡ ok (5 ∷ [])
unfolding scoped_middlewares decode_path_segments path_segments split
    rustrest.Percent.decode_path_segment rustrest.Percent.validate_percent_triplets
    rustrest.Percent.decode_text rustrest.Text.Utf8.decode_chars decoder
    rustrest.Text.Utf8.is_control rustrest.Router.Lookup.scoped_of rustrest.Router.Lookup.best_loop
    matching_methods rustrest.Router.Lookup.index build from_validated_segments list_beq
    rustrest.Hosts.host_matches rustrest.Pattern.match_decoded_pattern
    rustrest.Router.Lookup.best_step rustrest.Router.Lookup.is_better
    rustrest.Router.Lookup.pattern_specificity rustrest.Router.Lookup.vec_lt
    rustrest.Text.is_ascii_hexdigit
inherited = refl

-- A timeout on the route is not counted as its own.
timeout_leaks :
    scoped_middlewares decoder (timeout layered 1 3) (codes "/users/ana") none ≡ ok (5 ∷ 4 ∷ [])
unfolding scoped_middlewares decode_path_segments path_segments split
    rustrest.Percent.decode_path_segment rustrest.Percent.validate_percent_triplets
    rustrest.Percent.decode_text rustrest.Text.Utf8.decode_chars decoder
    rustrest.Text.Utf8.is_control rustrest.Router.Lookup.scoped_of rustrest.Router.Lookup.best_loop
    matching_methods rustrest.Router.Lookup.index build timeout rustrest.Router.update_route
    from_validated_segments list_beq rustrest.Hosts.host_matches
    rustrest.Pattern.match_decoded_pattern rustrest.Router.Lookup.best_step
    rustrest.Router.Lookup.is_better rustrest.Router.Lookup.pattern_specificity
    rustrest.Router.Lookup.vec_lt rustrest.Text.is_ascii_hexdigit
timeout_leaks = refl
