-- ===== src/Trie.antt =====
-- The route index of src/app/trie.rs: `RouteIndex::build` (`build`), `find_candidates` and
-- `matching_methods`. The `HashMap` of static children is an association list in a block with
-- the nodes, and `Option<Box<Node>>` is `Branch`. The two search loops keep their explicit work
-- stack (its top at the head) and run on fuel, which bounds the number of pops.
pub mod Gather
pub mod Counts
pub mod Table
pub mod Methods
pub mod Sorted
use rustrest.Prelude.{
  ℕ, zero, suc, ◌+◌, ◌*◌, List, [], ◌∷◌, ◌++◌, Option, none, some, ◌==◌, if◌then◌else◌, ℕ_eq,
  list_eq, length, get_elem?, leb, nat_eq,
}
use rustrest.Text.{Bytes, codes}
use rustrest.Pattern.{Segment}

abbrev pub method_all : Bytes
method_all = codes "*"

-- A method and the index of its route in order of registration.
abbrev pub Entry : Type 0
Entry = Bytes × ℕ

mutual
  pub data Node : Type 0 where
    node : (statics : Statics) (param : Branch) (terminals wildcards : List (Bytes × ℕ)) → Node

  pub data Branch : Type 0 where
    absent : Branch
    present : Node → Branch

  pub data Statics : Type 0 where
    nil : Statics
    cons : Bytes → Node → Statics → Statics

-- `Node::default()`.
abbrev pub empty_node : Node
empty_node = node nil absent [] []

-- `statics.entry(s).or_default()`, updated in place by `f`.
pub update_static : Bytes → (Node → Node) → Statics → Statics
update_static s f nil = cons s (f empty_node) nil
update_static s f (cons k child rest) =
    if k == s then cons k (f child) rest else cons k child (update_static s f rest)

-- `param.get_or_insert_with(Default::default)`, updated in place by `f`.
pub update_param : (Node → Node) → Branch → Branch
update_param f absent = present (f empty_node)
update_param f (present child) = present (f child)

-- The inner loop of `build` for one route: the walk down from `node` along `pattern`.
pub insert_route : Entry → List Segment → Node → Node
unfolding update_static update_param
insert_route entry [] (node statics param terminals wildcards) =
    node statics param (terminals ++ entry ∷ []) wildcards
insert_route entry (Segment.static s ∷ pattern) (node statics param terminals wildcards) =
    node (update_static s (insert_route entry pattern) statics) param terminals wildcards
insert_route entry (Segment.param name ∷ pattern) (node statics param terminals wildcards) =
    node statics (update_param (insert_route entry pattern) param) terminals wildcards
insert_route entry (Segment.wildcard name ∷ []) (node statics param terminals wildcards) =
    node statics param terminals (wildcards ++ entry ∷ [])
insert_route entry (Segment.wildcard name ∷ _ ∷ _) n = n

-- The outer loop of `build`, from the route with number `index` on.
pub build_from : ℕ → List (Bytes × List Segment) → Node → Node
unfolding insert_route
build_from index [] root = root
build_from index ((method, pattern) ∷ routes) root =
    build_from (index + 1) routes (insert_route (method, index) pattern root)

unfoldable pub build : List (Bytes × List Segment) → Node
unfolding build_from
build patterns = build_from 0 patterns empty_node

-- `statics.get(segment)`.
pub get_static : Bytes → Statics → Branch
get_static s nil = absent
get_static s (cons k child rest) = if k == s then present child else get_static s rest

-- One of the three loops of `push_matching`.
pub entries_of : Bytes → List Entry → List ℕ
entries_of wanted [] = []
entries_of wanted ((method, index) ∷ entries) =
    let rest = entries_of wanted entries in if method == wanted then index ∷ rest else rest

-- What `push_matching` appends: exact entries, then `GET` for `HEAD`, then `all()`.
unfoldable pub push_matching : List Entry → Bytes → List ℕ
unfolding entries_of
push_matching entries method =
    entries_of method entries
    ++ ((if method == codes "HEAD" then entries_of (codes "GET") entries else [])
        ++ entries_of method_all entries)

pub data Work : Type 0 where
  visit : Node → ℕ → Work
  wildcards_of : Node → Work

abbrev pub terminals_of : Node → List Entry
terminals_of (node statics param terminals wildcards) = terminals

abbrev pub wildcard_entries : Node → List Entry
wildcard_entries (node statics param terminals wildcards) = wildcards

abbrev pub param_of : Node → Branch
param_of (node statics param terminals wildcards) = param

abbrev pub statics_of : Node → Statics
statics_of (node statics param terminals wildcards) = statics

-- `if let Some(child) { work.push(Visit(child, index)) }`.
abbrev pub push_visit : Branch → ℕ → List Work → List Work
push_visit absent index work = work
push_visit (present child) index work = visit child index ∷ work

-- The static child for `segments[index]`; the loop asks only at an index in range.
abbrev pub static_child : Statics → Option Bytes → Branch
static_child statics none = absent
static_child statics (some segment) = get_static segment statics

-- The loop of `collect_candidates`.
pub candidates_loop : ℕ → Bytes → List Bytes → List Work → List ℕ → List ℕ
unfolding push_matching get_static
candidates_loop zero method segments work found = found
candidates_loop (suc fuel) method segments [] found = found
candidates_loop (suc fuel) method segments (wildcards_of n ∷ work) found =
    candidates_loop fuel method segments work (found ++ push_matching (wildcard_entries n) method)
candidates_loop (suc fuel) method segments (visit n index ∷ work) found =
    let at_end = candidates_loop fuel method segments work (
      (found ++ push_matching (terminals_of n) method)
      ++ push_matching (wildcard_entries n) method) in
    let deeper =
      candidates_loop fuel method segments
        (push_visit (static_child (statics_of n) (get_elem? segments index)) (index + 1)
          (push_visit (param_of n) (index + 1) (wildcards_of n ∷ work)))
        found in
    if nat_eq index (length segments) then at_end else deeper

-- The number of nodes below and at a node.
mutual
  pub size : Node → ℕ
  size (node statics param terminals wildcards) = 1 + (size_statics statics + size_branch param)

  pub size_branch : Branch → ℕ
  size_branch absent = 0
  size_branch (present child) = size child

  pub size_statics : Statics → ℕ
  size_statics nil = 0
  size_statics (cons s child rest) = size child + size_statics rest

-- A node costs one pop for its visit and one for its wildcards; the last round sees the stack empty.
unfoldable pub find_candidates : Node → Bytes → List Bytes → List ℕ
unfolding candidates_loop size size_branch size_statics
find_candidates root method segments =
    candidates_loop (suc (2 * size root)) method segments (visit root 0 ∷ []) []

abbrev pub flip_entries : List Entry → List (ℕ × Bytes)
flip_entries [] = []
flip_entries ((method, index) ∷ entries) = (index, method) ∷ flip_entries entries

abbrev pub push_node : Branch → ℕ → List (Node × ℕ) → List (Node × ℕ)
push_node absent index work = work
push_node (present child) index work = (child, index) ∷ work

-- The loop of `collect_methods`.
pub methods_loop : ℕ → List Bytes → List (Node × ℕ) → List (ℕ × Bytes) → List (ℕ × Bytes)
unfolding get_static
methods_loop zero segments work found = found
methods_loop (suc fuel) segments [] found = found
methods_loop (suc fuel) segments ((n, index) ∷ work) found =
    let with_wildcards = found ++ flip_entries (wildcard_entries n) in
    let at_end =
      methods_loop fuel segments work (with_wildcards ++ flip_entries (terminals_of n)) in
    let deeper =
      methods_loop fuel segments
        (push_node (static_child (statics_of n) (get_elem? segments index)) (index + 1)
          (push_node (param_of n) (index + 1) work))
        with_wildcards in
    if nat_eq index (length segments) then at_end else deeper

-- `sort_by_key` on the index, which is stable: an insertion sort from the right.
pub insert_by_key : ℕ × Bytes → List (ℕ × Bytes) → List (ℕ × Bytes)
insert_by_key x [] = x ∷ []
insert_by_key x (y ∷ ys) = if leb x.0 y.0 then x ∷ y ∷ ys else y ∷ insert_by_key x ys

pub sort_by_key : List (ℕ × Bytes) → List (ℕ × Bytes)
unfolding insert_by_key
sort_by_key [] = []
sort_by_key (x ∷ xs) = insert_by_key x (sort_by_key xs)

unfoldable pub matching_methods : Node → List Bytes → List (ℕ × Bytes)
unfolding methods_loop sort_by_key size size_branch size_statics
matching_methods root segments =
    sort_by_key (methods_loop (suc (size root)) segments ((root, 0) ∷ []) [])
