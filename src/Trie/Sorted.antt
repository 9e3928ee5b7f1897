-- ===== src/Trie/Sorted.antt =====
-- `matching_methods` lists the routes that fit in order of registration: sorting by the index puts
-- each route that `build` inserts behind all that were inserted before it.
use rustrest.Prelude.{
  ℕ, ◌+◌, ◌<◌, ◌≡◌, refl, ◌∙◌, ap, inl, inr, List, [], ◌∷◌, ◌++◌, arith, append_assoc, append-nil,
  Bool, true, false, Bool-cases, if◌then◌else◌, All, ◌==◌, ℕ_eq, list_eq, list_beq_iff,
}
use rustrest.Text.{Bytes}
use rustrest.Pattern.{Segment, accepts}
use rustrest.Trie.{
  Node, node, Branch, absent, present, Entry, empty_node, insert_route, build_from, build,
  get_static, flip_entries, insert_by_key, sort_by_key, matching_methods,
}
use rustrest.Trie.Gather.{on_branch}
use rustrest.Trie.Counts.{or_default, get_static-update_static, update_param_lem}
use rustrest.Trie.Methods.{gather_methods, methods_loop-eq-gather_methods}

abbrev Listing : Type 0
Listing = List (ℕ × Bytes)

-- `new` is `old` with `x` put in at one place.
abbrev Extends : ℕ × Bytes → Listing → Listing → Type 0
Extends x old new = (xs : Listing) × (ys : Listing) × (old ≡ xs ++ ys) × (new ≡ xs ++ x ∷ ys)

Extends-append_left :
    (x : ℕ × Bytes) (zs : Listing) {old new : Listing}
    → Extends x old new
    → Extends x (zs ++ old) (zs ++ new)
Extends-append_left x zs (xs, ys, p, q) =
    (zs ++ xs, ys, rw p (simp append_assoc), rw q (simp append_assoc))

Extends-append_right :
    (x : ℕ × Bytes) (zs : Listing) {old new : Listing}
    → Extends x old new
    → Extends x (old ++ zs) (new ++ zs)
Extends-append_right x zs (xs, ys, p, q) =
    (xs, ys ++ zs, rw p (simp append_assoc), rw q (simp append_assoc))

Extends-concat :
    (m : Bytes) (j : ℕ) (entries : List Entry)
    → Extends (j, m) (flip_entries entries) (flip_entries (entries ++ (m, j) ∷ []))
Extends-concat m j [] = ([], [], refl, refl)
Extends-concat m j ((k, l) ∷ entries) =
    Extends-append_left (j, m) ((l, k) ∷ []) (Extends-concat m j entries)

gather_methods-or_default :
    (segments : List Bytes) (b : Branch)
    → gather_methods segments (or_default b) ≡ on_branch (gather_methods segments) b
unfolding gather_methods get_static
gather_methods-or_default [] absent = refl
gather_methods-or_default (t ∷ segments) absent = refl
gather_methods-or_default segments (present child) = refl

module _ (m : Bytes) (j : ℕ) where
  -- A route that fits adds one listing.
  insert_route-Extends :
      (pattern : List Segment) (segments : List Bytes) (n : Node)
      → accepts pattern segments ≡ true
      → Extends
          (j, m)
          (gather_methods segments n)
          (gather_methods segments (insert_route (m, j) pattern n))
  unfolding insert_route accepts gather_methods
  insert_route-Extends [] [] (node st pa te wi) h =
      Extends-append_left (j, m) (flip_entries wi) (Extends-concat m j te)
  insert_route-Extends [] (s ∷ segments) (node st pa te wi) h = cc
  insert_route-Extends (Segment.wildcard x ∷ []) [] (node st pa te wi) h =
      Extends-append_right (j, m) (flip_entries te) (Extends-concat m j wi)
  insert_route-Extends (Segment.wildcard x ∷ []) (s ∷ segments) (node st pa te wi) h =
      Extends-append_right (j, m) _ (Extends-concat m j wi)
  insert_route-Extends (Segment.wildcard x ∷ _ ∷ _) segments (node st pa te wi) h = cc
  insert_route-Extends (Segment.static t ∷ pattern) [] (node st pa te wi) h = cc
  insert_route-Extends (Segment.static t ∷ pattern) (s ∷ segments) (node st pa te wi) h =
      elim (Bool-cases (t == s)) [
        | inl same ↦
            let fits : accepts pattern segments ≡ true = ground arith in
            let child = get_static t st in
            let inner : Extends (j, m) (on_branch (gather_methods segments) child)
                (gather_methods segments (insert_route (m, j) pattern (or_default child))) =
              rw gather_methods-or_default at
                (insert_route-Extends pattern segments (or_default child) fits) in
            let found : get_static s st ≡ child = rw ((list_beq_iff t s).0 same) in
            rw (get_static-update_static, same, found)
              (Extends-append_left (j, m) (flip_entries wi) (Extends-append_right (j, m) _ inner))
        | inr other ↦ cc (rw other at h)
      ]
  insert_route-Extends (Segment.param x ∷ pattern) [] (node st pa te wi) h = cc
  insert_route-Extends (Segment.param x ∷ pattern) (s ∷ segments) (node st pa te wi) h =
      rw (update_param_lem (insert_route (m, j) pattern) pa) (
        Extends-append_left (j, m) (flip_entries wi)
          (Extends-append_left (j, m) (on_branch (gather_methods segments) (get_static s st))
            (rw gather_methods-or_default at
              (insert_route-Extends pattern segments (or_default pa) h))))

  -- One that does not fit changes nothing.
  insert_route_other :
      (pattern : List Segment) (segments : List Bytes) (n : Node)
      → accepts pattern segments ≡ false
      → gather_methods segments (insert_route (m, j) pattern n) ≡ gather_methods segments n
  unfolding insert_route accepts gather_methods
  insert_route_other [] [] (node st pa te wi) h = cc
  insert_route_other [] (s ∷ segments) (node st pa te wi) h = refl
  insert_route_other (Segment.wildcard x ∷ []) [] (node st pa te wi) h = cc
  insert_route_other (Segment.wildcard x ∷ []) (s ∷ segments) (node st pa te wi) h = cc
  insert_route_other (Segment.wildcard x ∷ _ ∷ _) segments (node st pa te wi) h = refl
  insert_route_other (Segment.static t ∷ pattern) [] (node st pa te wi) h = refl
  insert_route_other (Segment.static t ∷ pattern) (s ∷ segments) (node st pa te wi) h =
      elim (Bool-cases (t == s)) [
        | inl same ↦
            let misses : accepts pattern segments ≡ false = ground arith in
            let child = get_static t st in
            let found : get_static s st ≡ child = rw ((list_beq_iff t s).0 same) in
            rw (get_static-update_static, same, found)
              (rw (
                insert_route_other pattern segments (or_default child) misses,
                gather_methods-or_default,
              ))
        | inr other ↦ rw (get_static-update_static, other)
      ]
  insert_route_other (Segment.param x ∷ pattern) [] (node st pa te wi) h = refl
  insert_route_other (Segment.param x ∷ pattern) (s ∷ segments) (node st pa te wi) h =
      rw (update_param_lem (insert_route (m, j) pattern) pa)
        (rw (insert_route_other pattern segments (or_default pa) h, gather_methods-or_default))

abbrev Below : ℕ → ℕ × Bytes → Type 0
Below k x = x.0 < k

insert_by_key-Below :
    (k : ℕ) (x : ℕ × Bytes) (ys : Listing)
    → Below k x
    → All (Below k) ys
    → All (Below k) (insert_by_key x ys)
unfolding insert_by_key
insert_by_key-Below k x [] h hs = (h, tt)
insert_by_key-Below k x (y ∷ ys) h hs = ground (arith, insert_by_key-Below k x ys h hs.1)

sort_by_key-Below : (k : ℕ) (xs : Listing) → All (Below k) xs → All (Below k) (sort_by_key xs)
unfolding sort_by_key
sort_by_key-Below k [] h = tt
sort_by_key-Below k (x ∷ xs) h =
    insert_by_key-Below k x (sort_by_key xs) h.0 (sort_by_key-Below k xs h.1)

insert_by_key_last :
    (x : ℕ × Bytes) (ys : Listing) → All (Below x.0) ys → insert_by_key x ys ≡ ys ++ x ∷ []
unfolding insert_by_key
insert_by_key_last x [] h = refl
insert_by_key_last x (y ∷ ys) h = ground (arith, insert_by_key_last x ys h.1)

insert_by_key-concat :
    (y x : ℕ × Bytes) (ys : Listing)
    → y.0 < x.0
    → insert_by_key y (ys ++ x ∷ []) ≡ insert_by_key y ys ++ x ∷ []
unfolding insert_by_key
insert_by_key-concat y x [] h = ground arith
insert_by_key-concat y x (z ∷ ys) h = ground (arith, insert_by_key-concat y x ys h)

All-weaken : (k : ℕ) (xs : Listing) → All (Below k) xs → All (Below (k + 1)) xs
All-weaken k [] h = tt
All-weaken k (x ∷ xs) h = (omega arith, All-weaken k xs h.1)

All-insert :
    (k : ℕ) (x : ℕ × Bytes) (xs ys : Listing)
    → Below (k + 1) x
    → All (Below k) (xs ++ ys)
    → All (Below (k + 1)) (xs ++ x ∷ ys)
All-insert k x [] ys h hs = (h, All-weaken k ys hs)
All-insert k x (y ∷ xs) ys h hs = (omega arith, All-insert k x xs ys h hs.1)

-- The greatest key goes last, wherever it stood.
sort_by_key_last :
    (x : ℕ × Bytes) (xs ys : Listing)
    → All (Below x.0) (xs ++ ys)
    → sort_by_key (xs ++ x ∷ ys) ≡ sort_by_key (xs ++ ys) ++ x ∷ []
unfolding sort_by_key
sort_by_key_last x [] ys h = insert_by_key_last x (sort_by_key ys) (sort_by_key-Below x.0 ys h)
sort_by_key_last x (y ∷ xs) ys h =
    rw (sort_by_key_last x xs ys h.1) (insert_by_key-concat y x (sort_by_key (xs ++ ys)) h.0)

-- The routes of a table whose patterns fit, with their numbers from `k` on.
unfoldable pub fitting : ℕ → List (Bytes × List Segment) → List Bytes → List (ℕ × Bytes)
fitting k [] segments = []
fitting k ((m, pattern) ∷ routes) segments =
    let rest = fitting (k + 1) routes segments in
    if accepts pattern segments then (k, m) ∷ rest else rest

module _ (segments : List Bytes) where
  -- One insertion with the next number.
  sort_insert_route :
      (m : Bytes) (k : ℕ) (pattern : List Segment) (root : Node)
      → All (Below k) (gather_methods segments root)
      → (sort_by_key (gather_methods segments (insert_route (m, k) pattern root))
          ≡ sort_by_key (gather_methods segments root)
            ++ (if accepts pattern segments then (k, m) ∷ [] else []))
        × All (Below (k + 1)) (gather_methods segments (insert_route (m, k) pattern root))
  sort_insert_route m k pattern root h = elim (Bool-cases (accepts pattern segments)) [
    | inl fits ↦
        let (xs, ys, p, q) = insert_route-Extends m k pattern segments root fits in
        (
          rw (fits, p, q) (sort_by_key_last (k, m) xs ys (rw p at h)),
          rw q (All-insert k (k, m) xs ys (omega arith) (rw p at h)),
        )
    | inr misses ↦ (
      rw (misses, insert_route_other m k pattern segments root misses, append-nil),
      rw (insert_route_other m k pattern segments root misses) (All-weaken k _ h),
    )
  ]

  sort_build_from :
      (routes : List (Bytes × List Segment)) (k : ℕ) (root : Node)
      → All (Below k) (gather_methods segments root)
      → sort_by_key (gather_methods segments (build_from k routes root))
        ≡ sort_by_key (gather_methods segments root) ++ fitting k routes segments
  unfolding build_from fitting
  sort_build_from [] k root h = rw append-nil
  sort_build_from ((m, pattern) ∷ routes) k root h =
      let (sorted, below) = sort_insert_route m k pattern root h in
      sort_build_from routes (k + 1) (insert_route (m, k) pattern root) below
      ∙ (rw sorted (grouped (accepts pattern segments) _ _))
    where
      grouped :
          (fits : Bool) (xs ys : Listing)
          → (xs ++ (if fits then (k, m) ∷ [] else [])) ++ ys
            ≡ xs ++ (if fits then (k, m) ∷ ys else ys)
      grouped true xs ys = simp append_assoc
      grouped false xs ys = rw append-nil

  gather_methods-empty_node : gather_methods segments empty_node ≡ []
  gather_methods-empty_node = gather_methods-or_default segments absent

  -- The loop of `matching_methods` has fuel enough for every index.
  matching_methods-eq-sort :
      (root : Node) → matching_methods root segments ≡ sort_by_key (gather_methods segments root)
  unfolding matching_methods
  matching_methods-eq-sort root = ap sort_by_key (methods_loop-eq-gather_methods segments root)

  -- Over the index of a table, `matching_methods` lists exactly the routes whose patterns fit the
  -- segments, each once, with its number and method, in order of registration.
  pub matching_methods-build :
      (routes : List (Bytes × List Segment))
      → matching_methods (build routes) segments ≡ fitting 0 routes segments
  unfolding build sort_by_key
  matching_methods-build routes =
      matching_methods-eq-sort (build routes)
      ∙ sort_build_from routes 0 empty_node (rw gather_methods-empty_node tt)
      ∙ rw gather_methods-empty_node
