-- ===== src/Conditional/Answers.antt =====
-- What src/app/middleware/conditional.rs answers to a client that sends the tags that it has.
use mathlib.Core.Logic.{◌↔◌}
use rustrest.Prelude.{
  ℕ, ◌≡◌, refl, ◌⊎◌, inl, inr, Bool, true, false, not, ◌&&◌, ◌||◌, Option, if◌then◌else◌, arith,
  Bool-cases, ℕ_eq, list_eq, sym, subst,
}
use rustrest.Text.{Bytes}
use rustrest.Conditional.{
  ConditionalHeaders, SingletonRequestHeader, missing, invalid, value, PreconditionResult, proceed,
  not_modified, failed, ignore_range, weak, is_safe, both_dates, not_modified_since, range_part,
  range_result, evaluate_with_response_validators, if_range_matches,
}
use rustrest.Conditional.Fields.{
  Field, absent, anything, tags, written, IsField, tag_text, IsCurrent, star_matches, refuses,
  has_copy, is_fresh, may_go_on-refuses, none_match_result-has_copy,
}
use rustrest.Conditional.Tags.{EntityTag}

-- A range is asked for, and `If-Range` repeats, or does not match the resource as it is.
module _ (parse_date : Bytes → Option ℕ) where
  abbrev pub is_outdated : SingletonRequestHeader → Option Bytes → Option ℕ → Bool
  is_outdated missing etag last_modified = false
  is_outdated invalid etag last_modified = true
  is_outdated (value if_range) etag last_modified =
      not (if_range_matches parse_date if_range etag last_modified)

  abbrev pub is_stale : ConditionalHeaders → Option Bytes → Option ℕ → Bool → Bool
  is_stale conditions etag last_modified range_requested =
      range_requested && conditions.has_range && is_outdated conditions.if_range etag last_modified

-- The tests in the order of the source.
abbrev outcome : Bool → Bool → Bool → Bool → Bool → PreconditionResult
outcome refused copy safe fresh stale =
    if refused
    then failed
    else if copy
    then (if safe then not_modified else failed)
    else if safe && fresh
    then not_modified
    else if stale
    then ignore_range
    else proceed

-- What an answer means, with the tests that decide it.
abbrev pub Means : Bool → Bool → Bool → Bool → Bool → PreconditionResult → Type 0
Means refused copy safe fresh stale answer =
    ((answer ≡ failed) ↔ ((refused ≡ true) ⊎ ((copy ≡ true) × (safe ≡ false))))
    × ((answer ≡ not_modified) ↔ ((refused ≡ false) × (safe ≡ true) × ((copy || fresh) ≡ true)))
    × ((answer ≡ ignore_range)
        ↔ ((refused ≡ false) × (copy ≡ false) × ((safe && fresh) ≡ false) × (stale ≡ true)))

flipped :
    (refused : Bool) (answer : PreconditionResult)
    → (if not refused then answer else failed) ≡ (if refused then failed else answer)
flipped true answer = refl
flipped false answer = refl

not_fresh : (safe : Bool) → (safe && false) ≡ false
not_fresh true = refl
not_fresh false = refl

outcome-Means :
    (refused copy safe fresh stale : Bool)
    → Means refused copy safe fresh stale (outcome refused copy safe fresh stale)
outcome-Means true copy safe fresh stale = ground arith
outcome-Means false true true fresh stale = ground arith
outcome-Means false true false fresh stale = ground arith
outcome-Means false false true true stale = ground arith
outcome-Means false false true false true = ground arith
outcome-Means false false true false false = ground arith
outcome-Means false false false fresh true = ground arith
outcome-Means false false false fresh false = ground arith

range_part-stale :
    (parse_date : Bytes → Option ℕ) (conditions : ConditionalHeaders) (etag : Option Bytes)
    (last_modified : Option ℕ) (range_requested : Bool)
    → range_part parse_date conditions etag last_modified range_requested ≡ (
        if is_stale parse_date conditions etag last_modified range_requested
        then ignore_range
        else proceed)
range_part-stale parse_date conditions etag last_modified range_requested =
    elim (Bool-cases (range_requested && conditions.has_range)) [
      | inr unasked ↦ go false conditions.if_range unasked
      | inl asked ↦ go true conditions.if_range asked
    ]
  where
    result : (header : SingletonRequestHeader) → PreconditionResult
    result header = range_result parse_date header etag last_modified

    matching :
        (b : Bool)
        → (if b then proceed else ignore_range) ≡ (if not b then ignore_range else proceed)
    matching true = refl
    matching false = refl

    of_header :
        (header : SingletonRequestHeader)
        → result header
          ≡ (if is_outdated parse_date header etag last_modified then ignore_range else proceed)
    of_header missing = refl
    of_header invalid = refl
    of_header (value if_range) = matching (if_range_matches parse_date if_range etag last_modified)

    regroup : (a b c : Bool) → (a && b && c) ≡ ((a && b) && c)
    regroup true b c = refl
    regroup false b c = refl

    go :
        (asked : Bool) (header : SingletonRequestHeader)
        → (range_requested && conditions.has_range) ≡ asked
        → (if range_requested && conditions.has_range then result header else proceed) ≡ (
            if range_requested
              && conditions.has_range
              && is_outdated parse_date header etag last_modified
            then ignore_range
            else proceed)
    go true header e =
        rw
          (
            regroup range_requested conditions.has_range
                (is_outdated parse_date header etag last_modified),
            e,
          )
          (of_header header)
    go false header e = rw (
      regroup range_requested conditions.has_range
          (is_outdated parse_date header etag last_modified),
      e,
    )

module _ (parse_date : Bytes → Option ℕ) (conditions : ConditionalHeaders)
    (current : Option EntityTag) (is_unambiguous : Bool) (last_modified : Option ℕ)
    (range_requested : Bool) where
  abbrev stale : Bool
  stale = is_stale parse_date conditions (tag_text current) last_modified range_requested

  evaluate_with_response_validators-outcome :
      (if_match if_none_match : Field)
      → IsField if_match
      → IsField if_none_match
      → IsCurrent current
      → conditions.if_match ≡ written if_match
      → conditions.if_none_match ≡ written if_none_match
      → evaluate_with_response_validators parse_date conditions
          (tag_text current)
          is_unambiguous
          last_modified
          range_requested
        ≡ outcome
            (refuses current is_unambiguous last_modified if_match conditions.if_unmodified_since)
            (has_copy current is_unambiguous last_modified if_none_match)
            (is_safe conditions.method)
            (is_fresh current is_unambiguous last_modified if_none_match
              conditions.if_modified_since)
            stale
  unfolding evaluate_with_response_validators
  evaluate_with_response_validators-outcome if_match absent h k c e l =
      let goes_on =
        may_go_on-refuses current is_unambiguous last_modified conditions if_match h c e in
      let range =
        range_part-stale parse_date conditions (tag_text current) last_modified range_requested in
      rw (evaluate_with_response_validators, goes_on, l, range)
        (flipped
          (refuses current is_unambiguous last_modified if_match conditions.if_unmodified_since)
          (outcome false false (is_safe conditions.method)
            (both_dates not_modified_since conditions.if_modified_since last_modified) stale))
  evaluate_with_response_validators-outcome if_match anything h k c e l =
      let goes_on =
        may_go_on-refuses current is_unambiguous last_modified conditions if_match h c e in
      rw
        (
          evaluate_with_response_validators,
          goes_on,
          l,
          star_matches (tag_text current) is_unambiguous weak,
        )
        (flipped
          (refuses current is_unambiguous last_modified if_match conditions.if_unmodified_since)
          (if is_safe conditions.method then not_modified else failed))
  evaluate_with_response_validators-outcome if_match (tags tag more) h k c e l =
      let goes_on =
        may_go_on-refuses current is_unambiguous last_modified conditions if_match h c e in
      let range =
        range_part-stale parse_date conditions (tag_text current) last_modified range_requested in
      let read =
        none_match_result-has_copy current is_unambiguous last_modified parse_date tag more
          (is_safe conditions.method) (if stale then ignore_range else proceed) k c in
      rw
        (
          evaluate_with_response_validators,
          goes_on,
          l,
          range,
          read,
          not_fresh (is_safe conditions.method),
        )
        (flipped
          (refuses current is_unambiguous last_modified if_match conditions.if_unmodified_since)
          (if has_copy current is_unambiguous last_modified (tags tag more)
            then (if is_safe conditions.method then not_modified else failed)
            else if stale
            then ignore_range
            else proceed))

  -- Where `If-Match` and `If-None-Match` are each absent, `*` or a list of tags of printable ASCII, and the
  -- current tag, if there is one, is of printable ASCII, each answer is given exactly on its condition.
  -- 412: `If-Match` lists tags, none of them the current one by the strong comparison and the tag
  -- unambiguous, or it is absent and the resource changed after `If-Unmodified-Since`; or the client has
  -- a copy and the method is neither GET nor HEAD. 304: none of the former two, GET or HEAD, and the
  -- client has a copy or, `If-None-Match` being absent, the resource did not change after
  -- `If-Modified-Since`. The client has a copy where `If-None-Match` is `*`, or lists the current tag by
  -- the weak comparison and the tag is unambiguous. The range is ignored where none of this holds, a range
  -- is asked for and `If-Range` is repeated or does not match; else the request goes on.
  pub evaluate_with_response_validators-Means :
      (if_match if_none_match : Field)
      → IsField if_match
      → IsField if_none_match
      → IsCurrent current
      → conditions.if_match ≡ written if_match
      → conditions.if_none_match ≡ written if_none_match
      → Means
          (refuses current is_unambiguous last_modified if_match conditions.if_unmodified_since)
          (has_copy current is_unambiguous last_modified if_none_match)
          (is_safe conditions.method)
          (is_fresh current is_unambiguous last_modified if_none_match conditions.if_modified_since)
          (is_stale parse_date conditions (tag_text current) last_modified range_requested)
          (evaluate_with_response_validators parse_date conditions
            (tag_text current)
            is_unambiguous
            last_modified
            range_requested)
  evaluate_with_response_validators-Means if_match if_none_match h k c e l =
      let refused =
        refuses current is_unambiguous last_modified if_match conditions.if_unmodified_since in
      let copy = has_copy current is_unambiguous last_modified if_none_match in
      let safe = is_safe conditions.method in
      let fresh =
        is_fresh current is_unambiguous last_modified if_none_match conditions.if_modified_since in
      subst (Means refused copy safe fresh stale)
        (sym (evaluate_with_response_validators-outcome if_match if_none_match h k c e l))
        (outcome-Means refused copy safe fresh stale)
