-- ===== src/Registry/Seen.antt =====
-- The memory of publications in src/app/websocket/runtime.rs: `mark_publication_seen`.
use rustrest.Prelude.{
  List-cases, ℕ, ◌+◌, ◌-◌, true, drop, if◌then◌else◌, ◌≤◌, ◌≡◌, sym, ◌∙◌, ap, subst, inl, inr, Bool,
  false, not, ◌&&◌, ◌||◌, List, [], ◌∷◌, ◌++◌, arith, length, length-append, ltb, Bool-cases,
  contains, add, discard, ◌==◌, Eq, ℕ_eq, pair_eq, NoRepeat, contains-append_one, contains-add,
  contains-discard, NoRepeat-append_one,
}
use rustrest.Registry.{
  Registry, max_seen_publications, remember, forget_oldest, mark_publication_seen,
}

-- The set and the queue hold the same publications, and the queue holds each once.
pub record Agree (seen order : List (ℕ × ℕ)) : Type 0 where
  pub same : (key : ℕ × ℕ) → contains key seen ≡ contains key order
  pub once : NoRepeat order

-- The memory is in order: the set and the queue agree, and the queue is within its bound.
pub record IsRemembered (r : Registry) : Type 0 where
  pub agree : Agree r.seen_publications r.seen_publication_order
  pub bounded : length r.seen_publication_order ≤ max_seen_publications

remember-Agree :
    (key : ℕ × ℕ) (seen order : List (ℕ × ℕ))
    → contains key seen ≡ false
    → Agree seen order
    → Agree (add key seen) (order ++ key ∷ [])
remember-Agree key seen order new h = record {
  same = λ j.
      contains-add j key seen
      ∙ ap (λ b. b || key == j) (h.same j)
      ∙ sym (contains-append_one j order key);
  once = NoRepeat-append_one order key h.once (sym (h.same key) ∙ new);
}

forgotten :
    (eq : Eq (ℕ × ℕ)) (key j : ℕ × ℕ) (rest : Bool)
    → (key ≡ j → rest ≡ false)
    → ((eq.beq key j || rest) && not (eq.beq key j)) ≡ rest
forgotten eq key j rest h = ground (arith, eq.beq_iff key j)

forget-Agree :
    (key : ℕ × ℕ) (seen rest : List (ℕ × ℕ))
    → Agree seen (key ∷ rest)
    → Agree (discard key seen) rest
unfolding contains
forget-Agree key seen rest h = record {
  same = λ j.
      contains-discard j key seen
      ∙ ap (λ b. b && not (key == j)) (h.same j)
      ∙ forgotten pair_eq key j (contains j rest)
          (λ e. ap (λ k. contains k rest) (sym e) ∙ h.once.0);
  once = h.once.1;
}

forget_oldest-IsRemembered :
    (r : Registry)
    → Agree r.seen_publications r.seen_publication_order
    → length r.seen_publication_order ≤ max_seen_publications + 1
    → IsRemembered (forget_oldest r)
forget_oldest-IsRemembered r h k = elim (List-cases r.seen_publication_order) [
  | inl nothing ↦
      let empty : Agree r.seen_publications [] = subst (Agree r.seen_publications) nothing h in
      rw (nothing) (record { agree = empty; bounded = omega arith })
  | inr (expired, rest, queued) ↦
      let full : Agree r.seen_publications (expired ∷ rest) =
        subst (Agree r.seen_publications) queued h in
      let short : length (expired ∷ rest) ≤ max_seen_publications + 1 =
        subst (λ (o : List (ℕ × ℕ)). length o ≤ max_seen_publications + 1) queued k in
      rw (queued) (record {
        agree = forget-Agree expired r.seen_publications rest full;
        bounded = omega arith;
      })
]

-- The newest publications of a queue, as many as are remembered.
abbrev pub newest : List (ℕ × ℕ) → List (ℕ × ℕ)
newest order = drop (length order - max_seen_publications) order

forget_oldest-order :
    (r : Registry) → (forget_oldest r).seen_publication_order ≡ drop 1 r.seen_publication_order
forget_oldest-order r = elim (List-cases r.seen_publication_order) [
  | inl nothing ↦ rw (nothing)
  | inr (expired, rest, queued) ↦ rw (queued)
]

-- The queue after a publication: as it was where it is there, and else with it behind, cut to the
-- newest.
mark_publication_seen-order :
    (origin id : ℕ) (r : Registry)
    → IsRemembered r
    → (mark_publication_seen origin id r).0.seen_publication_order ≡ (
        if contains (origin, id) r.seen_publication_order
        then r.seen_publication_order
        else newest (r.seen_publication_order ++ (origin, id) ∷ []))
unfolding mark_publication_seen
mark_publication_seen-order origin id r h =
    let key : ℕ × ℕ = (origin, id) in
    let r' = remember key r in
    let order = r.seen_publication_order in
    let grown = length-append order (key ∷ []) in
    let agreed = h.agree.same key in
    elim (Bool-cases (contains key r.seen_publications)) [
      | inl seen ↦ let queued : contains key order ≡ true = sym agreed ∙ seen in rw (seen, queued)
      | inr new ↦
          let unqueued : contains key order ≡ false = sym agreed ∙ new in
          elim (Bool-cases (ltb max_seen_publications (length (order ++ key ∷ [])))) [
            | inl long ↦
                let over : length (order ++ key ∷ []) - max_seen_publications ≡ 1 =
                  ground (arith, grown, h.bounded, long) in
                rw (new, long, unqueued, over) (forget_oldest-order r')
            | inr short ↦
                let over : length (order ++ key ∷ []) - max_seen_publications ≡ 0 =
                  ground (arith, short) in
                rw (new, short, unqueued, over)
          ]
    ]

kept_and_answered :
    (origin id : ℕ) (r : Registry)
    → IsRemembered r
    → IsRemembered (mark_publication_seen origin id r).0
      × ((mark_publication_seen origin id r).1
          ≡ not (contains (origin, id) r.seen_publication_order))
unfolding mark_publication_seen
kept_and_answered origin id r h =
    let key : ℕ × ℕ = (origin, id) in
    let r' = remember key r in
    let grown = length-append r.seen_publication_order (key ∷ []) in
    elim (Bool-cases (contains key r.seen_publications)) [
      | inl seen ↦ (rw (seen) h, rw (seen) (ap not (sym seen ∙ h.agree.same key)))
      | inr new ↦
          let agree : Agree r'.seen_publications r'.seen_publication_order =
            remember-Agree key r.seen_publications r.seen_publication_order new h.agree in
          elim (Bool-cases (ltb max_seen_publications (length r'.seen_publication_order))) [
            | inl long ↦ (
              rw (new, long)
                  (forget_oldest-IsRemembered r' agree (omega (arith, grown, h.bounded))),
              rw (new) (ap not (sym new ∙ h.agree.same key)),
            )
            | inr short ↦ (
              rw (new, short) (record { agree = agree; bounded = ground arith }),
              rw (new) (ap not (sym new ∙ h.agree.same key)),
            )
          ]
    ]

-- Where the set and the queue of remembered publications agree and the queue is within 4096,
-- `mark_publication_seen` keeps both so; it answers whether the publication was not remembered; and
-- the queue stays as it was where the publication was remembered, and else is the newest 4096 of the
-- queue with the publication behind.
pub mark_publication_seen-IsRemembered :
    (origin id : ℕ) (r : Registry)
    → IsRemembered r
    → IsRemembered (mark_publication_seen origin id r).0
      × ((mark_publication_seen origin id r).1
          ≡ not (contains (origin, id) r.seen_publication_order))
      × ((mark_publication_seen origin id r).0.seen_publication_order ≡ (
          if contains (origin, id) r.seen_publication_order
          then r.seen_publication_order
          else newest (r.seen_publication_order ++ (origin, id) ∷ [])))
mark_publication_seen-IsRemembered origin id r h =
    let (kept, answer) = kept_and_answered origin id r h in
    (kept, answer, mark_publication_seen-order origin id r h)
