-- ===== src/Router/Allowed.antt =====
-- `allowed_methods` of src/app/router.rs, the source of the `Allow` header: exactly the methods of
-- the routes that match.
use native.Mathlib.Nat.{add-zero, zero-add}
use rustrest.Prelude.{
  ℕ, suc, ◌+◌, ◌≡◌, refl, ◌∙◌, inl, inr, Bool, true, not, ◌&&◌, ◌||◌, List, [], ◌∷◌, ◌++◌, Option,
  some, arith, get_elem?, any, Bool-cases, ok, contains, ◌==◌, ℕ_eq, list_eq, list_beq_iff,
}
use rustrest.Text.{Bytes}
use rustrest.Pattern.{accepts}
use rustrest.Pattern.Accepts.{is_some-match_decoded_pattern}
use rustrest.Percent.{decode_path_segments}
use rustrest.Hosts.{host_matches}
use rustrest.Trie.{method_all}
use rustrest.Trie.Sorted.{fitting, matching_methods-build}
use rustrest.Router.{Route, Router}
use rustrest.Router.Lookup.{table, index, allow_step, allow_loop, allowed_methods}

contains-concat :
    (m : Bytes) (xs : List Bytes) (x : Bytes)
    → contains m (xs ++ x ∷ []) ≡ (contains m xs || x == m)
unfolding contains
contains-concat m [] x = ground arith
contains-concat m (y ∷ xs) x = ground (arith, contains-concat m xs x)

module _ {H M W : Type 0} (segments : List Bytes) (host : Option Bytes) (m : Bytes) where
  -- The route lets the path answer the method `m`, and was not registered for every method.
  abbrev pub offers : Route H M W → Bool
  offers route =
      host_matches route.host host
      && accepts route.pattern.segments segments
      && (not (route.method == method_all) && route.method == m)

  allow_step_lem :
      (routes : List (Route H M W)) (methods : List Bytes) (i : ℕ) (route : Route H M W)
      → get_elem? routes i ≡ some route
      → accepts route.pattern.segments segments ≡ true
      → contains m (allow_step routes segments host methods (i, route.method))
        ≡ (contains m methods || offers route)
  unfolding allow_step
  allow_step_lem routes methods i route l a =
      rw (allow_step, l)
        (ground (
          arith,
          is_some-match_decoded_pattern route.pattern.segments segments,
          contains-concat m methods route.method,
          list_beq_iff route.method m,
        ))

  allow_loop_lem :
      (routes rest : List (Route H M W)) (k : ℕ) (methods : List Bytes)
      → ((i : ℕ) → get_elem? routes (k + i) ≡ get_elem? rest i)
      → contains m (allow_loop routes segments host (fitting k (table rest) segments) methods)
        ≡ (contains m methods || any offers rest)
  unfolding allow_loop fitting
  allow_loop_lem routes [] k methods h = ground arith
  allow_loop_lem routes (route ∷ rest) k methods h =
      let here : get_elem? routes k ≡ some route = rw add-zero at (h 0) in
      let tail : (i : ℕ) → get_elem? routes (k + 1 + i) ≡ get_elem? rest i =
        λ i. let e : k + 1 + i ≡ k + suc i = omega arith in rw e (h (suc i)) in
      elim (Bool-cases (accepts route.pattern.segments segments)) [
        | inl fits ↦
            rw
              (
                fits,
                allow_loop_lem routes rest (k + 1)
                    (allow_step routes segments host methods (k, route.method)) tail,
                allow_step_lem routes methods k route here fits,
              )
              (ground arith)
        | inr misses ↦ rw (misses, allow_loop_lem routes rest (k + 1) methods tail) (ground arith)
      ]

  -- On a path that decodes, `allowed_methods` succeeds, and its answer holds a method exactly when
  -- some registered route has that method, is not a route for every method, accepts the path, and
  -- admits the host.
  pub allowed_methods_iff :
      (percent_decode : Bytes → Bytes) (router : Router H M W) (path : Bytes)
      → decode_path_segments percent_decode path ≡ ok segments
      → (methods : List Bytes) × (allowed_methods percent_decode router path host ≡ ok methods)
        × (contains m methods ≡ any offers router.routes)
  unfolding allowed_methods index
  allowed_methods_iff percent_decode router path decoded = (
    allow_loop router.routes segments host (fitting 0 (table router.routes) segments) [],
    rw (decoded, matching_methods-build segments (table router.routes)),
    allow_loop_lem router.routes router.routes 0 [] (λ i. rw zero-add) ∙ (unfold contains in refl),
  )
