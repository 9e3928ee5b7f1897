-- ===== src/Trie/Counts.antt =====
-- How often `find_candidates` names each route: the effect of one insertion on the search, and the
-- index that `build` makes from a table.
use rustrest.Prelude.{
  ℕ, ◌+◌, ◌≡◌, refl, inl, inr, Bool, List, [], ◌∷◌, ◌++◌, arith, nat_eq, Bool-cases, to_ℕ,
  if◌then◌else◌, count, count-append, ◌==◌, ℕ_eq, list_eq, list_beq_iff,
}
use rustrest.Text.{Bytes, codes}
use rustrest.Pattern.{Segment, accepts}
use rustrest.Trie.{
  Node, node, Branch, absent, present, Statics, nil, cons, Entry, method_all, empty_node,
  update_static, update_param, insert_route, entries_of, push_matching, get_static, terminals_of,
  wildcard_entries, param_of, statics_of,
}
use rustrest.Trie.Gather.{on_branch, gather}

-- How often a route registered for `registered` is listed for a request's method: once for the
-- same method, once for `GET` under `HEAD`, once for `all()`.
unfoldable pub listings : Bytes → Bytes → ℕ
listings method registered =
    to_ℕ (registered == method)
    + ((if method == codes "HEAD" then to_ℕ (registered == codes "GET") else 0)
        + to_ℕ (registered == method_all))

abbrev pub occurrences : ℕ → List ℕ → ℕ
occurrences i found = count (nat_eq i) found

entries_of-concat :
    (i : ℕ) (wanted : Bytes) (entries : List Entry) (m : Bytes) (j : ℕ)
    → occurrences i (entries_of wanted (entries ++ (m, j) ∷ []))
      ≡ occurrences i (entries_of wanted entries) + (if nat_eq i j then to_ℕ (m == wanted) else 0)
unfolding entries_of
entries_of-concat i wanted [] m j = ground arith
entries_of-concat i wanted ((k, l) ∷ entries) m j =
    ground (arith, entries_of-concat i wanted entries m j)

occurrences-push_matching :
    (i : ℕ) (method : Bytes) (entries : List Entry)
    → occurrences i (push_matching entries method)
      ≡ occurrences i (entries_of method entries)
        + ((if method == codes "HEAD" then occurrences i (entries_of (codes "GET") entries) else 0)
            + occurrences i (entries_of method_all entries))
unfolding push_matching
occurrences-push_matching i method entries = elim (Bool-cases (method == codes "HEAD")) [
  | inl head ↦ rw head (rw (count-append (nat_eq i) _ _, count-append (nat_eq i) _ _))
  | inr other ↦ rw (other, count-append (nat_eq i) _ _) (omega arith)
]

push_matching-concat :
    (i : ℕ) (method : Bytes) (entries : List Entry) (m : Bytes) (j : ℕ)
    → occurrences i (push_matching (entries ++ (m, j) ∷ []) method)
      ≡ occurrences i (push_matching entries method) + (if nat_eq i j then listings method m else 0)
unfolding listings
push_matching-concat i method entries m j = ground (
  arith,
  occurrences-push_matching i method entries,
  occurrences-push_matching i method (entries ++ (m, j) ∷ []),
  entries_of-concat i method entries m j,
  entries_of-concat i (codes "GET") entries m j,
  entries_of-concat i method_all entries m j,
)

-- `or_default`.
abbrev pub or_default : Branch → Node
or_default absent = empty_node
or_default (present child) = child

pub get_static-update_static :
    (t s : Bytes) (f : Node → Node) (statics : Statics)
    → get_static t (update_static s f statics)
      ≡ (if s == t then present (f (or_default (get_static s statics))) else get_static t statics)
unfolding get_static update_static
get_static-update_static t s f nil = refl
get_static-update_static t s f (cons k child rest) = ground (
  arith,
  list_beq_iff k s,
  list_beq_iff k t,
  list_beq_iff s t,
  get_static-update_static t s f rest,
)

pub update_param_lem :
    (f : Node → Node) (b : Branch) → update_param f b ≡ present (f (or_default b))
unfolding update_param
update_param_lem f absent = refl
update_param_lem f (present child) = refl

module _ (method : Bytes) where
  pub gather-empty_node : (segments : List Bytes) → gather method segments empty_node ≡ []
  unfolding gather push_matching get_static
  gather-empty_node [] = ground arith
  gather-empty_node (s ∷ segments) = ground arith

  gather-or_default :
      (segments : List Bytes) (b : Branch)
      → gather method segments (or_default b) ≡ on_branch (gather method segments) b
  gather-or_default segments absent = gather-empty_node segments
  gather-or_default segments (present child) = refl

module _ (method : Bytes) (i : ℕ) where
  occurrences-gather_end :
      (n : Node)
      → occurrences i (gather method [] n)
        ≡ occurrences i (push_matching (terminals_of n) method)
          + occurrences i (push_matching (wildcard_entries n) method)
  unfolding gather
  occurrences-gather_end n = count-append (nat_eq i) (push_matching (terminals_of n) method) _

  occurrences-gather_below :
      (s : Bytes) (segments : List Bytes) (n : Node)
      → occurrences i (gather method (s ∷ segments) n)
        ≡ occurrences i (on_branch (gather method segments) (get_static s (statics_of n)))
          + (occurrences i (on_branch (gather method segments) (param_of n))
              + occurrences i (push_matching (wildcard_entries n) method))
  unfolding gather
  occurrences-gather_below s segments n = simp (count-append (nat_eq i))

module _ (method : Bytes) (i : ℕ) (m : Bytes) (j : ℕ) where
  abbrev pub listed : Bool → ℕ
  listed fits = if fits then (if nat_eq i j then listings method m else 0) else 0

  -- One insertion adds the listings of its route where its pattern fits, and changes nothing else.
  pub occurrences-insert_route :
      (pattern : List Segment) (segments : List Bytes) (n : Node)
      → occurrences i (gather method segments (insert_route (m, j) pattern n))
        ≡ occurrences i (gather method segments n) + listed (accepts pattern segments)
  unfolding insert_route accepts
  occurrences-insert_route [] [] (node st pa te wi) = ground (
    arith,
    occurrences-gather_end method i (node st pa te wi),
    occurrences-gather_end method i (node st pa (te ++ (m, j) ∷ []) wi),
    push_matching-concat i method te m j,
  )
  occurrences-insert_route [] (s ∷ segments) (node st pa te wi) = omega (
    arith,
    occurrences-gather_below method i s segments (node st pa te wi),
    occurrences-gather_below method i s segments (node st pa (te ++ (m, j) ∷ []) wi),
  )
  occurrences-insert_route (Segment.wildcard x ∷ []) [] (node st pa te wi) = ground (
    arith,
    occurrences-gather_end method i (node st pa te wi),
    occurrences-gather_end method i (node st pa te (wi ++ (m, j) ∷ [])),
    push_matching-concat i method wi m j,
  )
  occurrences-insert_route (Segment.wildcard x ∷ []) (s ∷ segments) (node st pa te wi) = ground (
    arith,
    occurrences-gather_below method i s segments (node st pa te wi),
    occurrences-gather_below method i s segments (node st pa te (wi ++ (m, j) ∷ [])),
    push_matching-concat i method wi m j,
  )
  occurrences-insert_route (Segment.wildcard x ∷ _ ∷ _) segments (node st pa te wi) = omega arith
  occurrences-insert_route (Segment.static t ∷ pattern) [] (node st pa te wi) = omega (
    arith,
    occurrences-gather_end method i (node st pa te wi),
    occurrences-gather_end method i
        (node (update_static t (insert_route (m, j) pattern) st) pa te wi),
  )
  occurrences-insert_route (Segment.static t ∷ pattern) (s ∷ segments) (node st pa te wi) = ground (
    arith,
    occurrences-gather_below method i s segments (node st pa te wi),
    occurrences-gather_below method i s segments
        (node (update_static t (insert_route (m, j) pattern) st) pa te wi),
    get_static-update_static s t (insert_route (m, j) pattern) st,
    list_beq_iff t s,
    occurrences-insert_route pattern segments (or_default (get_static t st)),
    gather-or_default method segments (get_static t st),
  )
  occurrences-insert_route (Segment.param x ∷ pattern) [] (node st pa te wi) = omega (
    arith,
    occurrences-gather_end method i (node st pa te wi),
    occurrences-gather_end method i (node st (update_param (insert_route (m, j) pattern) pa) te wi),
  )
  occurrences-insert_route (Segment.param x ∷ pattern) (s ∷ segments) (node st pa te wi) = ground (
    arith,
    occurrences-gather_below method i s segments (node st pa te wi),
    occurrences-gather_below method i s segments
        (node st (update_param (insert_route (m, j) pattern) pa) te wi),
    update_param_lem (insert_route (m, j) pattern) pa,
    occurrences-insert_route pattern segments (or_default pa),
    gather-or_default method segments pa,
  )
