-- ===== src/Trie/Table.antt =====
-- What the search answers over the index of a whole table of routes.
use rustrest.Prelude.{
  ℕ, ◌+◌, ◌-◌, ◌≡◌, List, [], ◌∷◌, Option, none, some, arith, get_elem?, get_elem?-sub,
  get_elem?-sub_self, leb, if◌then◌else◌,
}
use rustrest.Text.{Bytes}
use rustrest.Pattern.{Segment, accepts}
use rustrest.Trie.{Node, empty_node, insert_route, build_from, build, find_candidates}
use rustrest.Trie.Gather.{gather, find_candidates-eq-gather}
use rustrest.Trie.Counts.{listings, occurrences, gather-empty_node, occurrences-insert_route}

-- How often a request should find a registered route.
abbrev pub expected : Bytes → List Bytes → Option (Bytes × List Segment) → ℕ
expected method segments none = 0
expected method segments (some (m, pattern)) =
    if accepts pattern segments then listings method m else 0

module _ (method : Bytes) (segments : List Bytes) (i : ℕ) where
  occurrences-build_from :
      (routes : List (Bytes × List Segment)) (k : ℕ) (root : Node)
      → occurrences i (gather method segments (build_from k routes root))
        ≡ occurrences i (gather method segments root)
          + (if leb k i then expected method segments (get_elem? routes (i - k)) else 0)
  unfolding build_from
  occurrences-build_from [] k root = ground arith
  occurrences-build_from ((m, pattern) ∷ routes) k root = ground (
    arith,
    occurrences-build_from routes (k + 1) (insert_route (m, k) pattern root),
    occurrences-insert_route method i m k pattern segments root,
    get_elem?-sub (m, pattern) routes i k,
    get_elem?-sub_self (m, pattern) routes i k,
  )

  -- The index names each route of the table exactly as often as the request should find it: every
  -- route whose pattern fits the segments and whose method serves the request's method, no other
  -- route, and no number that is not a route's.
  pub find_candidates-build :
      (routes : List (Bytes × List Segment))
      → occurrences i (find_candidates (build routes) method segments)
        ≡ expected method segments (get_elem? routes i)
  unfolding build
  find_candidates-build routes = ground (
    arith,
    find_candidates-eq-gather method segments (build_from 0 routes empty_node),
    occurrences-build_from routes 0 empty_node,
    gather-empty_node method segments,
  )
