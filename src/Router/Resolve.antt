-- ===== src/Router/Resolve.antt =====
-- What `resolve_method` and `resolve_http_method` answer: a registered route that serves the
-- request, whenever there is one.
use rustrest.Prelude.{
  ℕ, zero, suc, ◌<◌, ◌≡◌, inl, inr, Bool, true, false, List, [], ◌∷◌, Option, none, some, arith,
  get_elem?, if◌then◌else◌, nat_eq, Option-cases, Bool-cases, ◌⊎◌, All, All-get_elem?, nat_eq_iff,
  ◌∙◌, Result, ok, ℕ_eq, list_eq,
}
use rustrest.Text.{Bytes}
use rustrest.Pattern.{Params, accepts, match_decoded_pattern}
use rustrest.Pattern.Accepts.{is_some-match_decoded_pattern}
use rustrest.Percent.{RouteMatchErrorKind, decode_path_segments}
use rustrest.Trie.{find_candidates}
use rustrest.Trie.Counts.{listings, occurrences}
use rustrest.Trie.Table.{find_candidates-build}
use rustrest.Router.{Route, Router, MatchedRoute}
use rustrest.Router.Lookup.{
  table, index, matched, try_route, first_match, usable_for, usable_http, resolve_method,
  resolve_http_method,
}

module _ {H M W : Type 0} where
  get_elem?-table :
      (routes : List (Route H M W)) (i : ℕ) (route : Route H M W)
      → get_elem? routes i ≡ some route
      → get_elem? (table routes) i ≡ some (route.method, route.pattern.segments)
  get_elem?-table [] i route h = cc
  get_elem?-table (r ∷ routes) zero route h = ground arith
  get_elem?-table (r ∷ routes) (suc i) route h = get_elem?-table routes i route h

  -- The answer comes from a candidate that is usable and matches.
  pub record IsAnswer (usable : Route H M W → Bool) (routes : List (Route H M W))
      (segments : List Bytes) (i : ℕ) (found : MatchedRoute H M W) : Type 0 where
    pub route : Route H M W
    pub listed : get_elem? routes i ≡ some route
    pub fit : usable route ≡ true
    pub params : Params
    pub captured : match_decoded_pattern route.pattern.segments segments ≡ some params
    pub answer : found ≡ matched route params

  module _ (usable : Route H M W → Bool) (routes : List (Route H M W)) (segments : List Bytes) where
    try_route-IsAnswer :
        (i : ℕ) (found : MatchedRoute H M W)
        → try_route usable segments (get_elem? routes i) ≡ some found
        → IsAnswer usable routes segments i found
    unfolding try_route
    try_route-IsAnswer i found h = elim (Option-cases (get_elem? routes i)) [
      | inl absent ↦ cc (rw (absent, try_route) at h)
      | inr (route, listed) ↦ elim (Bool-cases (usable route)) [
        | inr unfit ↦ cc (rw (listed, try_route, unfit) at h)
        | inl fit ↦ elim (Option-cases (match_decoded_pattern route.pattern.segments segments)) [
          | inl missed ↦ cc (rw (listed, try_route, fit, missed) at h)
          | inr (params, captured) ↦ record {
            route = route;
            listed = listed;
            fit = fit;
            params = params;
            captured = captured;
            answer = cc (rw (listed, try_route, fit, captured) at h);
          }
        ]
      ]
    ]

    try_route_complete :
        (route : Route H M W)
        → try_route usable segments (some route) ≡ none
        → usable route ≡ true
        → accepts route.pattern.segments segments ≡ false
    unfolding try_route
    try_route_complete route h u =
        elim (Option-cases (match_decoded_pattern route.pattern.segments segments)) [
          | inl missed ↦
              rw (← is_some-match_decoded_pattern route.pattern.segments segments, missed)
          | inr (params, captured) ↦ cc (rw (try_route, u, captured) at h)
        ]

    first_match_sound :
        (candidates : List ℕ) (found : MatchedRoute H M W)
        → first_match usable routes segments candidates ≡ some found
        → (i : ℕ) × IsAnswer usable routes segments i found × (0 < occurrences i candidates)
    unfolding first_match
    first_match_sound [] found h = cc
    first_match_sound (i ∷ candidates) found h =
        elim (Option-cases (try_route usable segments (get_elem? routes i))) [
          | inl failed ↦
              let (j, answer, listed) =
                first_match_sound candidates found (rw (first_match, failed) at h) in
              (j, answer, ground arith)
          | inr (first, hit) ↦
              let same : first ≡ found = cc (rw (first_match, hit) at h) in
              (i, try_route-IsAnswer i found (rw (← same) hit), ground arith)
        ]

    first_match_complete :
        (candidates : List ℕ) (i : ℕ) (route : Route H M W)
        → first_match usable routes segments candidates ≡ none
        → 0 < occurrences i candidates
        → get_elem? routes i ≡ some route
        → usable route ≡ true
        → accepts route.pattern.segments segments ≡ false
    unfolding first_match
    first_match_complete [] i route h k l u = absurd (omega arith)
    first_match_complete (j ∷ candidates) i route h k l u =
        elim (Option-cases (try_route usable segments (get_elem? routes j))) [
          | inr (first, hit) ↦ cc (rw (first_match, hit) at h)
          | inl failed ↦ elim (Bool-cases (nat_eq i j)) [
            | inl same ↦
                let here : get_elem? routes j ≡ some route = rw (← (nat_eq_iff i j).0 same) l in
                try_route_complete route (rw here at failed) u
            | inr other ↦
                first_match_complete candidates i route (rw (first_match, failed) at h)
                  (ground arith) l u
          ]
        ]

  abbrev answer_of :
      (Route H M W → Bool) → Router H M W → Bytes → List Bytes → Option (MatchedRoute H M W)
  answer_of usable router method segments =
      first_match usable router.routes segments (find_candidates (index router) method segments)

  -- A registered route that a request may be given: listed for its method, and admitted.
  pub record Serves (usable : Route H M W → Bool) (method : Bytes) (segments : List Bytes)
      (route : Route H M W) : Type 0 where
    pub listed : 0 < listings method route.method
    pub fit : usable route ≡ true
    pub accepted : accepts route.pattern.segments segments ≡ true

  -- The answer `found` is made from a registered route that serves the request, with the
  -- parameters that its pattern captures.
  pub record IsFound (usable : Route H M W → Bool) (router : Router H M W) (method : Bytes)
      (segments : List Bytes) (found : MatchedRoute H M W) : Type 0 where
    pub number : ℕ
    pub route : Route H M W
    pub params : Params
    pub registered : get_elem? router.routes number ≡ some route
    pub serves : Serves usable method segments route
    pub captured : match_decoded_pattern route.pattern.segments segments ≡ some params
    pub answer : found ≡ matched route params

  -- The answer is no route, and no registered route serves the request, or it is one that does.
  abbrev pub IsAnswered :
      (Route H M W → Bool)
      → Router H M W
      → Bytes
      → List Bytes
      → Result RouteMatchErrorKind (Option (MatchedRoute H M W))
      → Type 0
  IsAnswered usable router method segments answer =
      ((answer ≡ ok none) × All (λ route. ¬ Serves usable method segments route) router.routes)
      ⊎ ((found : MatchedRoute H M W) × (answer ≡ ok (some found))
          × IsFound usable router method segments found)

  module _ (usable : Route H M W → Bool) (router : Router H M W) (method : Bytes)
      (segments : List Bytes) where
    candidates_of :
        (i : ℕ) (route : Route H M W)
        → get_elem? router.routes i ≡ some route
        → occurrences i (find_candidates (index router) method segments)
          ≡ (if accepts route.pattern.segments segments then listings method route.method else 0)
    unfolding index
    candidates_of i route l =
        find_candidates-build method segments i (table router.routes)
        ∙ rw (get_elem?-table router.routes i route l)

    answer_sound :
        (found : MatchedRoute H M W)
        → answer_of usable router method segments ≡ some found
        → IsFound usable router method segments found
    answer_sound found e =
        let (i, a, c) = first_match_sound usable router.routes segments _ found e in
        let n = candidates_of i a.route a.listed in
        record {
          number = i;
          route = a.route;
          params = a.params;
          registered = a.listed;
          serves = record { listed = ground arith; fit = a.fit; accepted = ground arith };
          captured = a.captured;
          answer = a.answer;
        }

    answer_complete :
        answer_of usable router method segments ≡ none
        → All (λ route. ¬ Serves usable method segments route) router.routes
    answer_complete e =
        All-get_elem? (λ route. ¬ Serves usable method segments route) router.routes
          (λ i route l s.
            let n = candidates_of i route l in
            cc (
              s.accepted,
              first_match_complete usable router.routes segments _ i route e
                  (ground (arith, s.listed, s.accepted)) l s.fit,
            ))

  module _ (percent_decode : Bytes → Bytes) (router : Router H M W) (method path : Bytes)
      (host : Option Bytes) (segments : List Bytes)
      (decoded : decode_path_segments percent_decode path ≡ ok segments) where
    -- On a path that decodes, `resolve_method` answers with a registered route that serves the
    -- request (it is listed for the method, its host fits, its pattern accepts the segments, and a
    -- `HEAD` request gets no WebSocket route registered for another method), or it answers that
    -- there is none, and then no registered route serves the request.
    pub resolve_method-cases :
        IsAnswered
          (usable_for method host)
          router
          method
          segments
          (resolve_method percent_decode router method path host)
    unfolding resolve_method
    resolve_method-cases =
        elim (Option-cases (answer_of (usable_for method host) router method segments)) [
          | inl nothing ↦ inl (
            rw (decoded, nothing),
            answer_complete (usable_for method host) router method segments nothing,
          )
          | inr (found, hit) ↦ inr (
            found,
            rw (decoded, hit),
            answer_sound (usable_for method host) router method segments found hit,
          )
        ]

    -- `resolve_http_method` does the same among the routes that are not WebSocket routes.
    pub resolve_http_method-cases :
        IsAnswered
          (usable_http host)
          router
          method
          segments
          (resolve_http_method percent_decode router method path host)
    unfolding resolve_http_method
    resolve_http_method-cases =
        elim (Option-cases (answer_of (usable_http host) router method segments)) [
          | inl nothing ↦ inl (
            rw (decoded, nothing),
            answer_complete (usable_http host) router method segments nothing,
          )
          | inr (found, hit) ↦ inr (
            found,
            rw (decoded, hit),
            answer_sound (usable_http host) router method segments found hit,
          )
        ]
