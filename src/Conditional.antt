-- ===== src/Conditional.antt =====
-- Conditional requests of src/app/middleware/conditional.rs: `ConditionalHeaders` with its evaluation,
-- entity tags and their lists. A request is what the evaluation reads of it; a `SystemTime` is its
-- nanoseconds since the epoch. The dates are those of the crate httpdate, the parameter `parse_date`.
pub mod Tags
pub mod Fields
pub mod Answers
use rustrest.Prelude.{
  ℕ, ◌/◌, ◌^◌, Bool, true, false, not, ◌&&◌, ◌||◌, List, [], ◌∷◌, ◌++◌, map, Option, none, some,
  leb, ltb, nat_eq, if◌then◌else◌, is_empty, is_some, any, all, keep, lookup, ◌==◌, ℕ_eq, list_eq,
}
use rustrest.Text.{Bytes, codes, between, join, strip_prefix, to_ascii_lower}
use rustrest.Text.Utf8.{trim}

-- The method, the map of headers and the header lines of a request.
pub record Request : Type 0 where
  pub method : Bytes
  pub headers : List (Bytes × Bytes)
  pub header_pairs : List (Bytes × Bytes)

-- `Request::header`.
unfoldable pub header : Bytes → Request → Option Bytes
header name req = elim (lookup name req.headers) [
  | some text ↦ some text
  | none ↦ lookup (map to_ascii_lower name) req.headers
]

abbrev pub same_name : Bytes → Bytes → Bool
same_name a b = map to_ascii_lower a == map to_ascii_lower b

abbrev pub values_of : Bytes → List (Bytes × Bytes) → List Bytes
values_of name [] = []
values_of name ((key, text) ∷ pairs) =
    let rest = values_of name pairs in if same_name key name then text ∷ rest else rest

-- `Request::headers_all`.
unfoldable pub headers_all : Bytes → Request → List Bytes
headers_all name req = values_of name req.header_pairs

abbrev pub or_header : List Bytes → Option Bytes → Option Bytes
or_header [] single = single
or_header (text ∷ values) single = some (join b',' (text ∷ values))

unfoldable pub combined_request_header : Request → Bytes → Option Bytes
unfolding header headers_all
combined_request_header req name = or_header (headers_all name req) (header name req)

pub data SingletonRequestHeader : Type 0 where
  missing invalid : SingletonRequestHeader
  value : Bytes → SingletonRequestHeader

abbrev pub only_value : List Bytes → Option Bytes → Option Bytes
only_value [] single = single
only_value (v ∷ []) single = some v
only_value (v ∷ w ∷ values) single = none

abbrev pub only_state : List Bytes → Option Bytes → SingletonRequestHeader
only_state [] none = missing
only_state [] (some v) = value v
only_state (v ∷ []) single = value v
only_state (v ∷ w ∷ values) single = invalid

unfoldable pub singleton_request_header : Request → Bytes → Option Bytes
unfolding header headers_all
singleton_request_header req name = only_value (headers_all name req) (header name req)

unfoldable pub singleton_request_header_state : Request → Bytes → SingletonRequestHeader
unfolding header headers_all
singleton_request_header_state req name = only_state (headers_all name req) (header name req)

pub data PreconditionResult : Type 0 where
  proceed not_modified failed ignore_range : PreconditionResult

pub record ConditionalHeaders : Type 0 where
  pub method : Bytes
  pub if_match : Option Bytes
  pub if_none_match : Option Bytes
  pub if_unmodified_since : Option ℕ
  pub if_modified_since : Option ℕ
  pub if_range : SingletonRequestHeader
  pub has_range : Bool

abbrev pub and_then : Option Bytes → (Bytes → Option ℕ) → Option ℕ
and_then none f = none
and_then (some x) f = f x

-- `str::strip_suffix` of one ASCII byte.
unfoldable pub strip_suffix : ℕ → Bytes → Option Bytes
strip_suffix sep [] = none
strip_suffix sep (c ∷ []) = if nat_eq c sep then some [] else none
strip_suffix sep (c ∷ d ∷ s) = elim (strip_suffix sep (d ∷ s)) [
  | none ↦ none
  | some init ↦ some (c ∷ init)
]

unfoldable pub is_opaque_byte : ℕ → Bool
is_opaque_byte byte = nat_eq byte b'!' || between b'#' b'~' byte || leb 0x80 byte

-- The tag without its mark, and whether it is weak.
abbrev pub split_weak : Bytes → Bool × Bytes
split_weak (c ∷ d ∷ s) = if nat_eq c b'W' && nat_eq d b'/' then (true, s) else (false, c ∷ d ∷ s)
split_weak (c ∷ []) = (false, c ∷ [])
split_weak [] = (false, [])

-- What stands between quotes.
unfoldable pub unquoted : Bytes → Option Bytes
unfolding strip_suffix
unquoted tag = elim (strip_prefix b'"' tag) [ none ↦ none | some rest ↦ strip_suffix b'"' rest ]

abbrev pub with_mark : Bool → Option Bytes → Option (Bool × Bytes)
with_mark marked none = none
with_mark marked (some opaque) = if all is_opaque_byte opaque then some (marked, opaque) else none

unfoldable pub parse_entity_tag : Bytes → Option (Bool × Bytes)
unfolding unquoted is_opaque_byte
parse_entity_tag raw = let tag = split_weak (trim raw) in with_mark tag.0 (unquoted tag.1)

-- The loop of `entity_tag_list`: the first value and the others.
unfoldable pub tag_parts : Bool → Bytes → Bytes × List Bytes
tag_parts quoted [] = ([], [])
tag_parts quoted (byte ∷ s) =
    let rest = tag_parts (if nat_eq byte b'"' then not quoted else quoted) s in
    if not (nat_eq byte b'"') && nat_eq byte b',' && not quoted
    then ([], rest.0 ∷ rest.1)
    else (byte ∷ rest.0, rest.1)

unfoldable pub entity_tag_list : Bytes → List Bytes
unfolding tag_parts
entity_tag_list raw = let parts = tag_parts false raw in parts.0 ∷ parts.1

pub data TagComparison : Type 0 where
  strong weak : TagComparison

abbrev pub strong_eq : Option (Bool × Bytes) → Option (Bool × Bytes) → Bool
strong_eq (some (false, left)) (some (false, right)) = left == right
strong_eq _ _ = false

abbrev pub weak_eq : Option (Bool × Bytes) → Option (Bool × Bytes) → Bool
weak_eq (some (_, left)) (some (_, right)) = left == right
weak_eq _ _ = false

unfoldable pub strong_tag_matches : Bytes → Bytes → Bool
unfolding parse_entity_tag
strong_tag_matches left right = strong_eq (parse_entity_tag left) (parse_entity_tag right)

unfoldable pub weak_tag_matches : Bytes → Bytes → Bool
unfolding parse_entity_tag
weak_tag_matches left right = weak_eq (parse_entity_tag left) (parse_entity_tag right)

abbrev pub compare_tags : TagComparison → Bytes → Option Bytes → Bool
compare_tags comparison candidate none = false
compare_tags strong candidate (some current) = strong_tag_matches candidate current
compare_tags weak candidate (some current) = weak_tag_matches candidate current

unfoldable pub entity_tag_list_matches : Bytes → Option Bytes → Bool → TagComparison → Option Bool
unfolding entity_tag_list
entity_tag_list_matches raw current current_is_unambiguous comparison =
    let candidates = entity_tag_list raw in
    if any (λ candidate. trim candidate == codes "*") candidates
    then some true
    else if not current_is_unambiguous
    then none
    else some (any (λ candidate. compare_tags comparison (trim candidate) current) candidates)

-- `seconds`.
abbrev pub seconds : ℕ → ℕ
seconds time = time / 10 ^ 9

abbrev pub modified_after : ℕ → ℕ → Bool
modified_after last_modified since = ltb (seconds since) (seconds last_modified)

abbrev pub not_modified_since : ℕ → ℕ → Bool
not_modified_since last_modified since = leb (seconds last_modified) (seconds since)

abbrev pub both_dates : (ℕ → ℕ → Bool) → Option ℕ → Option ℕ → Bool
both_dates test (some since) (some last_modified) = test last_modified since
both_dates test _ _ = false

abbrev pub same_second : Option ℕ → Option ℕ → Bool
same_second (some if_range) (some last_modified) = nat_eq (seconds last_modified) (seconds if_range)
same_second _ _ = false

-- `starts_with('"') || starts_with("W/")`.
abbrev pub is_tag : Bytes → Bool
is_tag [] = false
is_tag (c ∷ []) = nat_eq c b'"'
is_tag (c ∷ d ∷ s) = nat_eq c b'"' || nat_eq c b'W' && nat_eq d b'/'

-- `matches!(self.method.as_str(), "GET" | "HEAD")`.
abbrev pub is_safe : Bytes → Bool
is_safe method = method == codes "GET" || method == codes "HEAD"

-- What the first two headers say: whether the request goes on.
unfoldable pub may_go_on : ConditionalHeaders → Option Bytes → Bool → Option ℕ → Bool
unfolding entity_tag_list_matches
may_go_on conditions etag is_unambiguous last_modified = elim conditions.if_match [
  | some if_match ↦ not (is_refusal (entity_tag_list_matches if_match etag is_unambiguous strong))
  | none ↦ not (both_dates modified_after conditions.if_unmodified_since last_modified)
]
  where
    is_refusal : Option Bool → Bool
    is_refusal none = false
    is_refusal (some matched) = not matched

module _ (parse_date : Bytes → Option ℕ) where
  -- `ConditionalHeaders::from_request`.
  unfoldable pub from_request : Request → ConditionalHeaders
  unfolding combined_request_header singleton_request_header singleton_request_header_state header
  from_request req = record {
    method = req.method;
    if_match = combined_request_header req (codes "if-match");
    if_none_match = combined_request_header req (codes "if-none-match");
    if_unmodified_since =
        and_then (singleton_request_header req (codes "if-unmodified-since")) parse_date;
    if_modified_since =
        and_then (singleton_request_header req (codes "if-modified-since")) parse_date;
    if_range = singleton_request_header_state req (codes "if-range");
    has_range = is_some (header (codes "range") req);
  }

  unfoldable pub if_range_matches : Bytes → Option Bytes → Option ℕ → Bool
  unfolding strong_tag_matches
  if_range_matches raw etag last_modified =
      let trimmed = trim raw in
      if is_tag trimmed
      then compare_tags strong trimmed etag
      else same_second (parse_date trimmed) last_modified

  abbrev pub range_result : SingletonRequestHeader → Option Bytes → Option ℕ → PreconditionResult
  range_result missing etag last_modified = proceed
  range_result invalid etag last_modified = ignore_range
  range_result (value if_range) etag last_modified =
      if if_range_matches if_range etag last_modified then proceed else ignore_range

  -- The last part of the evaluation.
  abbrev pub range_part : ConditionalHeaders → Option Bytes → Option ℕ → Bool → PreconditionResult
  range_part conditions etag last_modified range_requested =
      if range_requested && conditions.has_range
      then range_result conditions.if_range etag last_modified
      else proceed

  -- What the list of `If-None-Match` decides; the last argument is the rest.
  abbrev pub none_match_result : Option Bool → Bool → PreconditionResult → PreconditionResult
  none_match_result (some true) safe rest = if safe then not_modified else failed
  none_match_result (some false) safe rest = rest
  none_match_result none safe rest = rest

  unfoldable pub evaluate_with_response_validators :
      ConditionalHeaders → Option Bytes → Bool → Option ℕ → Bool → PreconditionResult
  unfolding may_go_on entity_tag_list_matches if_range_matches
  evaluate_with_response_validators conditions etag is_unambiguous last_modified range_requested =
      let safe = is_safe conditions.method in
      let rest = range_part conditions etag last_modified range_requested in
      let decided : PreconditionResult = elim conditions.if_none_match [
        | some if_none_match ↦
            none_match_result (entity_tag_list_matches if_none_match etag is_unambiguous weak) safe
              rest
        | none ↦
            if safe && both_dates not_modified_since conditions.if_modified_since last_modified
            then not_modified
            else rest
      ] in
      if may_go_on conditions etag is_unambiguous last_modified then decided else failed

  unfoldable pub evaluate_preconditions :
      Request → Option Bytes → Option ℕ → Bool → PreconditionResult
  unfolding from_request evaluate_with_response_validators
  evaluate_preconditions req etag last_modified range_requested =
      evaluate_with_response_validators (from_request req) etag true last_modified range_requested
