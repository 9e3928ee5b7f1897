-- ===== src/Trie/Gather.antt =====
-- The search of the index as a plain recursion over the segments, with no stack and no fuel, and
-- the proof that `find_candidates` computes it.
use rustrest.Prelude.{
  ℕ, zero, suc, ◌+◌, ◌*◌, ◌≤◌, ◌<◌, ◌≡◌, refl, sym, ◌∙◌, inl, inr, List, [], ◌∷◌, ◌++◌, Option,
  none, some, arith, append_assoc, append-nil, length, get_elem?, drop, drop_cons, drop-length,
  nat_eq, nat_eq_iff, Bool-cases, All,
}
use native.Mathlib.Numerals.{add-one}
use rustrest.Text.{Bytes}
use rustrest.Trie.{
  Node, node, Branch, absent, present, Statics, nil, cons, push_matching, get_static, Work, visit,
  wildcards_of, terminals_of, wildcard_entries, param_of, statics_of, push_visit, static_child,
  candidates_loop, size, size_branch, size_statics, find_candidates,
}

abbrev pub on_branch {ℓ} : {A : Type ℓ} → (Node → List A) → Branch → List A
on_branch f absent = []
on_branch f (present child) = f child

-- What the index answers below `n` for the remaining segments.
unfoldable pub gather : Bytes → List Bytes → Node → List ℕ
gather method [] n =
    push_matching (terminals_of n) method ++ push_matching (wildcard_entries n) method
gather method (s ∷ segments) n =
    on_branch (gather method segments) (get_static s (statics_of n))
    ++ (on_branch (gather method segments) (param_of n)
        ++ push_matching (wildcard_entries n) method)

size_get_static :
    (s : Bytes) (statics : Statics) → size_branch (get_static s statics) ≤ size_statics statics
unfolding size size_branch size_statics get_static
size_get_static s nil = omega arith
size_get_static s (cons k child rest) = ground (arith, size_get_static s rest)

module _ (method : Bytes) (segments : List Bytes) where
  expand : Work → List ℕ
  expand (visit n index) = gather method (drop index segments) n
  expand (wildcards_of n) = push_matching (wildcard_entries n) method

  expand_all : List Work → List ℕ
  expand_all [] = []
  expand_all (w ∷ work) = expand w ++ expand_all work

  abbrev InRange : Work → Type 0
  InRange (visit n index) = index ≤ length segments
  InRange (wildcards_of n) = Unit

  expand_all-push_visit :
      (b : Branch) (index : ℕ) (work : List Work)
      → expand_all (push_visit b index work)
        ≡ on_branch (gather method (drop index segments)) b ++ expand_all work
  unfolding expand_all expand
  expand_all-push_visit absent index work = refl
  expand_all-push_visit (present child) index work = refl

  InRange-push_visit :
      (b : Branch) (index : ℕ) (work : List Work)
      → index ≤ length segments
      → All InRange work
      → All InRange (push_visit b index work)
  InRange-push_visit absent index work h k = k
  InRange-push_visit (present child) index work h k = (h, k)

pub size_pos : (n : Node) → 0 < size n
unfolding size
size_pos (node statics param terminals wildcards) = omega arith

pub size_below :
    (n : Node) (segment : Option Bytes)
    → size_branch (static_child (statics_of n) segment) + size_branch (param_of n) < size n
unfolding size size_branch
size_below (node statics param terminals wildcards) none = omega arith
size_below (node statics param terminals wildcards) (some s) =
    omega (arith, size_get_static s statics)

cost : Work → ℕ
cost (visit n index) = 2 * size n
cost (wildcards_of n) = 1

cost_all : List Work → ℕ
cost_all [] = 0
cost_all (w ∷ work) = cost w + cost_all work

cost_all-push_visit :
    (b : Branch) (index : ℕ) (work : List Work)
    → cost_all (push_visit b index work) ≡ 2 * size_branch b + cost_all work
unfolding cost_all cost size size_branch
cost_all-push_visit absent index work = omega arith
cost_all-push_visit (present child) index work = omega arith

module _ (method : Bytes) (segments : List Bytes) where
  gather_end :
      (n : Node) (index : ℕ)
      → index ≡ length segments
      → gather method (drop index segments) n
        ≡ push_matching (terminals_of n) method ++ push_matching (wildcard_entries n) method
  unfolding gather
  gather_end n index e = rw (drop-length index segments (omega arith))

  gather_below :
      (n : Node) (index : ℕ)
      → index < length segments
      → gather method (drop index segments) n
        ≡ on_branch
            (gather method (drop (index + 1) segments))
            (static_child (statics_of n) (get_elem? segments index))
          ++ (on_branch (gather method (drop (index + 1) segments)) (param_of n)
              ++ push_matching (wildcard_entries n) method)
  unfolding gather
  gather_below n index h =
      let (x, found, rest) = drop_cons index segments h in rw (add-one, rest, found)

  -- With more fuel than pops the loop appends the answers of its whole stack.
  loop-eq-expand_all :
      (fuel : ℕ) (work : List Work) (found : List ℕ)
      → cost_all work < fuel
      → All (InRange method segments) work
      → candidates_loop fuel method segments work found ≡ found ++ expand_all method segments work
  unfolding candidates_loop expand_all expand cost_all cost
  loop-eq-expand_all zero work found h k = absurd (omega arith)
  loop-eq-expand_all (suc fuel) [] found h k = sym (append-nil found)
  loop-eq-expand_all (suc fuel) (wildcards_of n ∷ work) found h k =
      loop-eq-expand_all fuel work (found ++ push_matching (wildcard_entries n) method)
        (omega arith) k.1
      ∙ append_assoc found _ _
  loop-eq-expand_all (suc fuel) (visit n index ∷ work) found h k =
      elim (Bool-cases (nat_eq index (length segments))) [
        | inl at_end ↦
            rw (at_end, gather_end n index ((nat_eq_iff _ _).0 at_end))
              (loop-eq-expand_all fuel work
                  ((found ++ push_matching (terminals_of n) method)
                    ++ push_matching (wildcard_entries n) method)
                  (omega (arith, size_pos n)) k.1
                ∙ simp append_assoc)
        | inr inside ↦
            let below : index < length segments = ground arith in
            let child = static_child (statics_of n) (get_elem? segments index) in
            let params = push_visit (param_of n) (index + 1) (wildcards_of n ∷ work) in
            rw (inside, gather_below n index below)
              (loop-eq-expand_all fuel (push_visit child (index + 1) params) found
                  (omega (
                    arith,
                    size_below n (get_elem? segments index),
                    cost_all-push_visit (param_of n) (index + 1) (wildcards_of n ∷ work),
                    cost_all-push_visit child (index + 1) params,
                  ))
                  (InRange-push_visit method segments child (index + 1) params (omega arith) (
                    InRange-push_visit method segments (param_of n) (index + 1)
                      (wildcards_of n ∷ work) (omega arith) (tt, k.1)))
                ∙ simp (expand_all-push_visit, append_assoc))
      ]

  -- The loop of `find_candidates` has fuel enough for every index, and computes the recursion.
  pub find_candidates-eq-gather :
      (root : Node) → find_candidates root method segments ≡ gather method segments root
  unfolding find_candidates expand_all expand cost_all cost
  find_candidates-eq-gather root =
      loop-eq-expand_all (suc (2 * size root)) (visit root 0 ∷ []) [] (omega arith)
        (omega arith, tt)
      ∙ append-nil _
