-- ===== src/Trie/Methods.antt =====
-- `matching_methods` over the index of a table: the routes whose pattern fits, in order of
-- registration. First the loop as a recursion, as for the candidates.
use native.Mathlib.Numerals.{add-one}
use rustrest.Prelude.{
  ℕ, zero, suc, ◌+◌, ◌≤◌, ◌<◌, ◌≡◌, refl, sym, ◌∙◌, inl, inr, List, [], ◌∷◌, ◌++◌, arith,
  append_assoc, append-nil, length, get_elem?, drop, drop_cons, drop-length, nat_eq, nat_eq_iff,
  Bool-cases, All,
}
use rustrest.Text.{Bytes}
use rustrest.Trie.{
  Node, Branch, absent, present, get_static, terminals_of, wildcard_entries, param_of, statics_of,
  static_child, flip_entries, push_node, methods_loop, size, size_branch,
}
use rustrest.Trie.Gather.{on_branch, size_pos, size_below}

-- The entries below `n` that fit the remaining segments, in the order of the traversal.
unfoldable pub gather_methods : List Bytes → Node → List (ℕ × Bytes)
gather_methods [] n = flip_entries (wildcard_entries n) ++ flip_entries (terminals_of n)
gather_methods (s ∷ segments) n =
    flip_entries (wildcard_entries n)
    ++ (on_branch (gather_methods segments) (get_static s (statics_of n))
        ++ on_branch (gather_methods segments) (param_of n))

cost_all : List (Node × ℕ) → ℕ
cost_all [] = 0
cost_all ((n, index) ∷ work) = size n + cost_all work

cost_all-push_node :
    (b : Branch) (index : ℕ) (work : List (Node × ℕ))
    → cost_all (push_node b index work) ≡ size_branch b + cost_all work
unfolding cost_all size_branch
cost_all-push_node absent index work = omega arith
cost_all-push_node (present child) index work = omega arith

module _ (segments : List Bytes) where
  expand_all : List (Node × ℕ) → List (ℕ × Bytes)
  expand_all [] = []
  expand_all ((n, index) ∷ work) = gather_methods (drop index segments) n ++ expand_all work

  abbrev InRange : Node × ℕ → Type 0
  InRange w = w.1 ≤ length segments

  expand_all-push_node :
      (b : Branch) (index : ℕ) (work : List (Node × ℕ))
      → expand_all (push_node b index work)
        ≡ on_branch (gather_methods (drop index segments)) b ++ expand_all work
  unfolding expand_all
  expand_all-push_node absent index work = refl
  expand_all-push_node (present child) index work = refl

  InRange-push_node :
      (b : Branch) (index : ℕ) (work : List (Node × ℕ))
      → index ≤ length segments
      → All InRange work
      → All InRange (push_node b index work)
  InRange-push_node absent index work h k = k
  InRange-push_node (present child) index work h k = (h, k)

  gather_end :
      (n : Node) (index : ℕ)
      → index ≡ length segments
      → gather_methods (drop index segments) n
        ≡ flip_entries (wildcard_entries n) ++ flip_entries (terminals_of n)
  unfolding gather_methods
  gather_end n index e = rw (drop-length index segments (omega arith))

  gather_below :
      (n : Node) (index : ℕ)
      → index < length segments
      → gather_methods (drop index segments) n
        ≡ flip_entries (wildcard_entries n)
          ++ (on_branch
                (gather_methods (drop (index + 1) segments))
                (static_child (statics_of n) (get_elem? segments index))
              ++ on_branch (gather_methods (drop (index + 1) segments)) (param_of n))
  unfolding gather_methods
  gather_below n index h =
      let (x, found, rest) = drop_cons index segments h in rw (add-one, rest, found)

  -- With more fuel than pops the loop appends the answers of its whole stack.
  methods_loop-eq-expand_all :
      (fuel : ℕ) (work : List (Node × ℕ)) (found : List (ℕ × Bytes))
      → cost_all work < fuel
      → All InRange work
      → methods_loop fuel segments work found ≡ found ++ expand_all work
  unfolding methods_loop expand_all cost_all
  methods_loop-eq-expand_all zero work found h k = absurd (omega arith)
  methods_loop-eq-expand_all (suc fuel) [] found h k = sym (append-nil found)
  methods_loop-eq-expand_all (suc fuel) ((n, index) ∷ work) found h k =
      elim (Bool-cases (nat_eq index (length segments))) [
        | inl at_end ↦
            rw (at_end, gather_end n index ((nat_eq_iff _ _).0 at_end))
              (methods_loop-eq-expand_all fuel work
                  ((found ++ flip_entries (wildcard_entries n)) ++ flip_entries (terminals_of n))
                  (omega (arith, size_pos n)) k.1
                ∙ simp append_assoc)
        | inr inside ↦
            let below : index < length segments = ground arith in
            let child = static_child (statics_of n) (get_elem? segments index) in
            let params = push_node (param_of n) (index + 1) work in
            rw (inside, gather_below n index below)
              (methods_loop-eq-expand_all fuel (push_node child (index + 1) params)
                  (found ++ flip_entries (wildcard_entries n))
                  (omega (
                    arith,
                    size_below n (get_elem? segments index),
                    cost_all-push_node (param_of n) (index + 1) work,
                    cost_all-push_node child (index + 1) params,
                  ))
                  (InRange-push_node child (index + 1) params (omega arith)
                    (InRange-push_node (param_of n) (index + 1) work (omega arith) k.1))
                ∙ simp (expand_all-push_node, append_assoc))
      ]

  pub methods_loop-eq-gather_methods :
      (root : Node)
      → methods_loop (suc (size root)) segments ((root, 0) ∷ []) [] ≡ gather_methods segments root
  unfolding expand_all cost_all
  methods_loop-eq-gather_methods root =
      methods_loop-eq-expand_all (suc (size root)) ((root, 0) ∷ []) [] (omega arith)
        (omega arith, tt)
      ∙ append-nil _
