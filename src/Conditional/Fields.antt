-- ===== src/Conditional/Fields.antt =====
-- `If-Match` and `If-None-Match` as clients write them, and what src/app/middleware/conditional.rs
-- makes of them.
use rustrest.Prelude.{
  ℕ, ◌≡◌, refl, ◌⊎◌, inl, inr, Bool, true, false, not, ◌&&◌, ◌||◌, List, [], ◌∷◌, Option, none,
  some, if◌then◌else◌, any, All, arith, ltb, leb, Bool-cases, ◌==◌, ℕ_eq, list_eq, sym, subst,
}
use rustrest.Text.{Bytes, codes}
use rustrest.Text.Utf8.{trim}
use rustrest.Conditional.{
  ConditionalHeaders, PreconditionResult, not_modified, failed, TagComparison, weak, strong,
  may_go_on, both_dates, modified_after, not_modified_since, none_match_result,
  entity_tag_list_matches, compare_tags,
}
use rustrest.Conditional.Tags.{
  EntityTag, IsTag, write_tag, write_tags, same_tag, spaced, tag_parts-write_tags, trim-write_tag,
  not_star, no_star, entity_tag_list_matches-write_tags,
}

-- `If-Match` or `If-None-Match` as a client writes it.
pub data Field : Type 0 where
  absent anything : Field
  tags : EntityTag → List EntityTag → Field

abbrev pub written : Field → Option Bytes
written absent = none
written anything = some (codes "*")
written (tags tag more) = some (write_tags tag more)

abbrev pub IsField : Field → Type 0
IsField absent = Unit
IsField anything = Unit
IsField (tags tag more) = IsTag tag × All IsTag more

abbrev pub tag_text : Option EntityTag → Option Bytes
tag_text none = none
tag_text (some current) = some (write_tag current)

abbrev pub IsCurrent : Option EntityTag → Type 0
IsCurrent none = Unit
IsCurrent (some current) = IsTag current

-- One of the tags is the current one.
abbrev pub has_current : TagComparison → List EntityTag → Option EntityTag → Bool
has_current comparison candidates none = false
has_current comparison candidates (some current) =
    any (λ candidate. same_tag comparison candidate current) candidates

pub star_matches :
    (etag : Option Bytes) (is_unambiguous : Bool) (comparison : TagComparison)
    → entity_tag_list_matches (codes "*") etag is_unambiguous comparison ≡ some true
unfolding entity_tag_list_matches rustrest.Prelude.list_beq trim
star_matches etag is_unambiguous comparison = refl

compare_tags-none :
    (comparison : TagComparison) (candidate : Bytes)
    → compare_tags comparison candidate none ≡ false
compare_tags-none strong candidate = refl
compare_tags-none weak candidate = refl

any-compare_tags :
    (comparison : TagComparison) (candidates : List Bytes)
    → any (λ candidate. compare_tags comparison (trim candidate) none) candidates ≡ false
any-compare_tags comparison [] = refl
any-compare_tags comparison (candidate ∷ candidates) =
    rw (compare_tags-none comparison (trim candidate)) (any-compare_tags comparison candidates)

module _ (comparison : TagComparison) (tag : EntityTag) (more : List EntityTag) (h : IsTag tag)
    (k : All IsTag more) where
  ambiguous_matches :
      (etag : Option Bytes)
      → entity_tag_list_matches (write_tags tag more) etag false comparison ≡ none
  unfolding entity_tag_list_matches
  ambiguous_matches etag =
      let listed = tag_parts-write_tags tag more h k in
      let (trimmed, _) = trim-write_tag tag h in
      rw (entity_tag_list_matches, listed, trimmed, not_star tag, no_star more k)

  missing_matches : entity_tag_list_matches (write_tags tag more) none true comparison ≡ some false
  unfolding entity_tag_list_matches
  missing_matches =
      let listed = tag_parts-write_tags tag more h k in
      let (trimmed, _) = trim-write_tag tag h in
      let nothing = any-compare_tags comparison (spaced more) in
      let first = compare_tags-none comparison (write_tag tag) in
      rw (entity_tag_list_matches, listed, trimmed, not_star tag, no_star more k, first, nothing)

  tags_match :
      (current : Option EntityTag) (is_unambiguous : Bool)
      → IsCurrent current
      → entity_tag_list_matches (write_tags tag more) (tag_text current) is_unambiguous comparison
        ≡ (if is_unambiguous then some (has_current comparison (tag ∷ more) current) else none)
  tags_match current false c = ambiguous_matches (tag_text current)
  tags_match none true c = missing_matches
  tags_match (some current) true c =
      entity_tag_list_matches-write_tags comparison tag more current h k c

-- Where the answer stops at a test: `If-Match` or the date instead of it refuses, the client has a copy
-- by `If-None-Match`, or it has one by the date instead of it.
module _ (current : Option EntityTag) (is_unambiguous : Bool) (last_modified : Option ℕ) where
  abbrev pub refuses : Field → Option ℕ → Bool
  refuses absent since = both_dates modified_after since last_modified
  refuses anything since = false
  refuses (tags tag more) since = is_unambiguous && not (has_current strong (tag ∷ more) current)

  abbrev pub has_copy : Field → Bool
  has_copy absent = false
  has_copy anything = true
  has_copy (tags tag more) = is_unambiguous && has_current weak (tag ∷ more) current

  abbrev pub is_fresh : Field → Option ℕ → Bool
  is_fresh absent since = both_dates not_modified_since since last_modified
  is_fresh anything since = false
  is_fresh (tags tag more) since = false

  pub may_go_on-refuses :
      (conditions : ConditionalHeaders) (if_match : Field)
      → IsField if_match
      → IsCurrent current
      → conditions.if_match ≡ written if_match
      → may_go_on conditions (tag_text current) is_unambiguous last_modified
        ≡ not (refuses if_match conditions.if_unmodified_since)
  unfolding may_go_on
  may_go_on-refuses conditions absent h c e = rw (may_go_on, e)
  may_go_on-refuses conditions anything h c e =
      rw (may_go_on, e, star_matches (tag_text current) is_unambiguous strong)
  may_go_on-refuses conditions (tags tag more) h c e =
      let read = tags_match strong tag more h.0 h.1 current is_unambiguous c in
      elim (Bool-cases is_unambiguous) [
        | inr ambiguous ↦ rw (may_go_on, e, read, ambiguous)
        | inl clear ↦ elim (Bool-cases (has_current strong (tag ∷ more) current)) [
          | inl there ↦ rw (may_go_on, e, read, clear, there)
          | inr gone ↦ rw (may_go_on, e, read, clear, gone)
        ]
      ]

  pub none_match_result-has_copy :
      (parse_date : Bytes → Option ℕ) (tag : EntityTag) (more : List EntityTag) (safe : Bool)
      (rest : PreconditionResult)
      → IsField (tags tag more)
      → IsCurrent current
      → none_match_result parse_date
          (entity_tag_list_matches (write_tags tag more) (tag_text current) is_unambiguous weak)
          safe
          rest
        ≡ (if has_copy (tags tag more) then (if safe then not_modified else failed) else rest)
  none_match_result-has_copy parse_date tag more safe rest h c =
      let read = tags_match weak tag more h.0 h.1 current is_unambiguous c in
      elim (Bool-cases is_unambiguous) [
        | inr ambiguous ↦ rw (read, ambiguous)
        | inl clear ↦ elim (Bool-cases (has_current weak (tag ∷ more) current)) [
          | inl there ↦ rw (read, clear, there)
          | inr gone ↦ rw (read, clear, gone)
        ]
      ]
