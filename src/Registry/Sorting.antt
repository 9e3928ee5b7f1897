-- ===== src/Registry/Sorting.antt =====
-- The identifiers that `select_broadcast_recipients` of src/app/websocket/runtime.rs sorts.
use rustrest.Prelude.{
  ℕ, ◌<◌, ◌≡◌, refl, ap, ◌∙◌, inl, inr, false, ◌||◌, List, [], ◌∷◌, ltb, arith, All, NoRepeat,
  nat_eq, ℕ_eq, list_eq, pair_eq, contains, Bool-cases,
}
use rustrest.Registry.Broadcast.{insert_sorted, sort_ids}

abbrev pub Ascending : List ℕ → Type 0
Ascending [] = Unit
Ascending (id ∷ ids) = All (λ later. id < later) ids × Ascending ids

contains-insert_sorted :
    (j id : ℕ) (ids : List ℕ) → contains j (insert_sorted id ids) ≡ (nat_eq id j || contains j ids)
unfolding insert_sorted contains
contains-insert_sorted j id [] = refl
contains-insert_sorted j id (x ∷ ids) = ground (arith, contains-insert_sorted j id ids)

pub contains-sort_ids : (j : ℕ) (ids : List ℕ) → contains j (sort_ids ids) ≡ contains j ids
unfolding sort_ids contains
contains-sort_ids j [] = refl
contains-sort_ids j (id ∷ ids) =
    contains-insert_sorted j id (sort_ids ids)
    ∙ ap (λ b. nat_eq id j || b) (contains-sort_ids j ids)

All-insert_sorted :
    (low id : ℕ) (ids : List ℕ)
    → low < id
    → All (λ later. low < later) ids
    → All (λ later. low < later) (insert_sorted id ids)
unfolding insert_sorted
All-insert_sorted low id [] lt h = (lt, tt)
All-insert_sorted low id (x ∷ ids) lt h = elim (Bool-cases (ltb id x)) [
  | inl before ↦ rw (before) (lt, h)
  | inr after ↦ rw (after) (h.0, All-insert_sorted low id ids lt h.1)
]

All-above :
    (low id : ℕ) (ids : List ℕ)
    → low < id
    → All (λ later. id < later) ids
    → All (λ later. low < later) ids
All-above low id [] lt h = tt
All-above low id (x ∷ ids) lt h = (omega arith, All-above low id ids lt h.1)

Ascending-insert_sorted :
    (id : ℕ) (ids : List ℕ)
    → contains id ids ≡ false
    → Ascending ids
    → Ascending (insert_sorted id ids)
unfolding insert_sorted contains
Ascending-insert_sorted id [] new h = (tt, tt)
Ascending-insert_sorted id (x ∷ ids) new h = elim (Bool-cases (ltb id x)) [
  | inl before ↦ let lt : id < x = ground arith in rw (before) ((lt, All-above id x ids lt h.0), h)
  | inr after ↦
      let gt : x < id = ground arith in
      rw (after)
        (All-insert_sorted x id ids gt h.0, Ascending-insert_sorted id ids (ground arith) h.1)
]

pub Ascending-sort_ids : (ids : List ℕ) → NoRepeat ids → Ascending (sort_ids ids)
unfolding sort_ids
Ascending-sort_ids [] h = tt
Ascending-sort_ids (id ∷ ids) h =
    Ascending-insert_sorted id (sort_ids ids) (contains-sort_ids id ids ∙ h.0)
      (Ascending-sort_ids ids h.1)
