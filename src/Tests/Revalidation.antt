-- ===== src/Tests/Revalidation.antt =====
-- Conditional requests with two tags, one of which has a comma.
use rustrest.Prelude.{
  ℕ, ◌≤◌, ◌≡◌, ◌≢◌, refl, arith, Bool, true, false, List, [], ◌∷◌, Option, none, some, any, All,
  lookup, ℕ_eq, list_eq,
}
use rustrest.Text.{Bytes, codes}
use rustrest.Conditional.{
  Request, ConditionalHeaders, missing, PreconditionResult, not_modified, failed, ignore_range,
  weak, strong, entity_tag_list_matches, may_go_on, evaluate_with_response_validators, is_safe,
  evaluate_preconditions,
}
use rustrest.Conditional.Tags.{
  EntityTag, IsTag, write_tag, write_tags, same_tag, entity_tag_list_matches-write_tags,
}
use rustrest.Conditional.Fields.{absent, tags, refuses, has_copy, is_fresh}
use rustrest.Conditional.Answers.{Means, is_stale, evaluate_with_response_validators-Means}

abbrev undated : Bytes → Option ℕ
undated raw = none

abbrev old : EntityTag
old = record { is_weak = true; opaque = codes "v1" }

abbrev current : EntityTag
current = record { is_weak = false; opaque = codes "v2,b" }

old-IsTag : IsTag old
old-IsTag = (
  (omega arith, omega arith, λ e. omega arith),
  ((omega arith, omega arith, λ e. omega arith), tt),
)

current-IsTag : IsTag current
current-IsTag = (
  (omega arith, omega arith, λ e. omega arith),
  (
    (omega arith, omega arith, λ e. omega arith),
    (
      (omega arith, omega arith, λ e. omega arith),
      ((omega arith, omega arith, λ e. omega arith), tt),
    ),
  ),
)

abbrev revalidation : Bytes → ConditionalHeaders
revalidation method = record {
  method = method;
  if_match = none;
  if_none_match = some (write_tags old (current ∷ []));
  if_unmodified_since = none;
  if_modified_since = none;
  if_range = missing;
  has_range = false;
}

entity_tag_list_matches-write_tags_example :
    entity_tag_list_matches (write_tags old (current ∷ [])) (some (write_tag current)) true strong
    ≡ some (any (λ candidate. same_tag strong candidate current) (old ∷ current ∷ []))
entity_tag_list_matches-write_tags_example =
    entity_tag_list_matches-write_tags strong old (current ∷ []) current old-IsTag
      (current-IsTag, tt) current-IsTag

evaluate_with_response_validators-Means_example :
    Means
      (refuses (some current) true none absent none)
      (has_copy (some current) true none (tags old (current ∷ [])))
      (is_safe (codes "GET"))
      (is_fresh (some current) true none (tags old (current ∷ [])) none)
      (is_stale undated (revalidation (codes "GET")) (some (write_tag current)) none false)
      (evaluate_with_response_validators undated
        (revalidation (codes "GET"))
        (some (write_tag current))
        true
        none
        false)
evaluate_with_response_validators-Means_example =
    evaluate_with_response_validators-Means undated (revalidation (codes "GET")) (some current) true
      none false absent (tags old (current ∷ [])) tt (old-IsTag, (current-IsTag, tt)) current-IsTag
      refl refl

abbrev lists_tags : Request
lists_tags = record {
  method = codes "PUT";
  headers = (codes "if-none-match", codes "\"v1\", \"v2\"") ∷ [];
  header_pairs =
      (codes "If-None-Match", codes "\"v1\"") ∷ (codes "If-None-Match", codes "\"v2\"") ∷ [];
}

repeated_lists_join :
    evaluate_preconditions undated lists_tags (some (codes "\"v2\"")) none false ≡ failed
unfolding evaluate_preconditions rustrest.Prelude.list_beq rustrest.Text.to_ascii_lower lookup
    rustrest.Text.Utf8.trim rustrest.Text.join rustrest.Conditional.weak_tag_matches
repeated_lists_join = refl
