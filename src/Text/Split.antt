-- ===== src/Text/Split.antt =====
-- Splitting what was joined with a separator.
use rustrest.Prelude.{
  ℕ, ◌≡◌, ◌≢◌, ◌∙◌, refl, List, [], ◌∷◌, ◌++◌, arith, All, is_empty, keep, not, append-nil,
  append_assoc, ap, sym, beq_refl, ℕ_eq, Bool-cases, inl, inr, nat_eq,
}
use rustrest.Text.{Bytes, split_parts, push_front, split, join}

abbrev pub HasNo : ℕ → Bytes → Type 0
HasNo sep s = All (λ c. c ≢ sep) s

split_parts-append :
    (sep : ℕ) (a s : Bytes)
    → HasNo sep a
    → split_parts sep (a ++ s) ≡ (a ++ (split_parts sep s).0, (split_parts sep s).1)
unfolding split_parts push_front
split_parts-append sep [] s h = refl
split_parts-append sep (c ∷ a) s h = ground (arith, split_parts-append sep a s h.1)

-- Each part with the separator before it.
unfoldable pub prefix_all : ℕ → List Bytes → Bytes
prefix_all sep [] = []
prefix_all sep (part ∷ parts) = sep ∷ (part ++ prefix_all sep parts)

split_parts-prefix_all :
    (sep : ℕ) (parts : List Bytes)
    → All (HasNo sep) parts
    → split_parts sep (prefix_all sep parts) ≡ ([], parts)
unfolding split_parts prefix_all push_front
split_parts-prefix_all sep [] h = refl
split_parts-prefix_all sep (part ∷ parts) h = rw (
  split_parts-append sep part (prefix_all sep parts) h.0,
  split_parts-prefix_all sep parts h.1,
  append-nil,
  (beq_refl {A = ℕ}) sep,
)

keep_nonempty :
    (sep : ℕ) (parts : List Bytes)
    → All (λ part. HasNo sep part × (part ≢ [])) parts
    → (keep (λ s. not (is_empty s)) parts ≡ parts) × All (HasNo sep) parts
keep_nonempty sep [] h = (refl, tt)
keep_nonempty sep ([] ∷ parts) h = absurd (h.0.1 refl)
keep_nonempty sep ((c ∷ part) ∷ parts) h =
    let (rest, clean) = keep_nonempty sep parts h.1 in (rw rest, (h.0.0, clean))

-- Splitting gives back the parts that no separator and no emptiness hides.
pub keep-split-prefix_all :
    (sep : ℕ) (parts : List Bytes)
    → All (λ part. HasNo sep part × (part ≢ [])) parts
    → keep (λ s. not (is_empty s)) (split sep (prefix_all sep parts)) ≡ parts
unfolding split
keep-split-prefix_all sep parts h =
    let (kept, clean) = keep_nonempty sep parts h in
    rw (split_parts-prefix_all sep parts clean) kept

pub prefix_all-append :
    (sep : ℕ) (xs ys : List Bytes)
    → prefix_all sep (xs ++ ys) ≡ prefix_all sep xs ++ prefix_all sep ys
unfolding prefix_all
prefix_all-append sep [] ys = refl
prefix_all-append sep (x ∷ xs) ys =
    ap (λ (s : Bytes). sep ∷ s)
      (rw (prefix_all-append sep xs ys)
        (sym (append_assoc x (prefix_all sep xs) (prefix_all sep ys))))

-- Splitting gives back a first part and those that follow it behind separators.
pub split-prefix_all :
    (sep : ℕ) (part : Bytes) (parts : List Bytes)
    → HasNo sep part
    → All (HasNo sep) parts
    → split sep (part ++ prefix_all sep parts) ≡ part ∷ parts
unfolding split
split-prefix_all sep part parts h hs = rw (
  split_parts-append sep part (prefix_all sep parts) h,
  split_parts-prefix_all sep parts hs,
  append-nil,
)

split_parts-HasNo :
    (sep : ℕ) (s : Bytes) → HasNo sep (split_parts sep s).0 × All (HasNo sep) (split_parts sep s).1
unfolding split_parts push_front
split_parts-HasNo sep [] = (tt, tt)
split_parts-HasNo sep (c ∷ s) =
    let rest = split_parts-HasNo sep s in
    elim (Bool-cases (nat_eq c sep)) [
      | inl same ↦ rw (same) (tt, rest)
      | inr other ↦ let here : c ≢ sep = λ e. ground arith in rw (other) ((here, rest.0), rest.1)
    ]

-- A part has no separator.
pub split-HasNo : (sep : ℕ) (s : Bytes) → All (HasNo sep) (split sep s)
unfolding split
split-HasNo sep s = split_parts-HasNo sep s

split_parts-sep :
    (sep : ℕ) (part s : Bytes)
    → HasNo sep part
    → split_parts sep (part ++ sep ∷ s) ≡ (part, (split_parts sep s).0 ∷ (split_parts sep s).1)
unfolding split_parts push_front
split_parts-sep sep part s h =
    split_parts-append sep part (sep ∷ s) h ∙ rw ((beq_refl {A = ℕ}) sep, append-nil)

-- Splitting gives back the parts that were joined, one at least.
pub split-join :
    (sep : ℕ) (part : Bytes) (parts : List Bytes)
    → HasNo sep part
    → All (HasNo sep) parts
    → split sep (join sep (part ∷ parts)) ≡ part ∷ parts
unfolding split join
split-join sep part [] h k =
    let alone = split_parts-append sep part [] h in
    let all_of_it : part ++ [] ≡ part = append-nil part in
    ap (λ (s : Bytes). (split_parts sep s).0 ∷ (split_parts sep s).1) (sym all_of_it)
    ∙ ap (λ (p : Bytes × List Bytes). p.0 ∷ p.1) alone
    ∙ ap (λ (s : Bytes). s ∷ []) all_of_it
split-join sep part (next ∷ parts) h k =
    ap (λ (p : Bytes × List Bytes). p.0 ∷ p.1)
      (split_parts-sep sep part (join sep (next ∷ parts)) h)
    ∙ ap (λ (rest : List Bytes). part ∷ rest) (split-join sep next parts k.0 k.1)
