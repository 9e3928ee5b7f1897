-- ===== src/Pattern/Parse.antt =====
-- Parsing, validating, joining and rendering route patterns: `RoutePattern` of src/app/router.rs.
-- A `RouteError` is its kind; the message text is left out.
use rustrest.Prelude.{
  ℕ, Bool, false, not, ◌||◌, List, [], ◌∷◌, ◌++◌, map, none, some, nat_eq, ltb, if◌then◌else◌, all,
  is_empty, length, Result, ok, err, ◌>>=◌, ◌>>◌, refuse, ok_or, contains, add, ℕ_eq, list_eq,
}
use rustrest.Text.{Bytes, is_ascii_alphanumeric, strip_prefix}
use rustrest.Percent.{
  max_path_segments, path_segments, validate_percent_triplets, encode_path_segment, decode_text,
}
use rustrest.Pattern.{Segment, ConflictSegment}

pub data RouteErrorKind : Type 0 where
  missing_leading_slash empty_parameter invalid_parameter duplicate_parameter : RouteErrorKind
  non_terminal_wildcard too_many_segments duplicate_route conflicting_pattern : RouteErrorKind
  duplicate_name invalid_host_pattern missing_url_parameter : RouteErrorKind
  unexpected_url_parameter invalid_percent_encoding invalid_static_root : RouteErrorKind
  invalid_static_options unsupported_method : RouteErrorKind

pub record RoutePattern : Type 0 where
  pub rendered : Bytes
  pub segments : List Segment
  pub parameter_names : List Bytes
  pub conflict_key : List ConflictSegment

-- The body of the loop of `render_pattern`.
abbrev pub render_segment : Segment → Bytes
render_segment (Segment.static s) = encode_path_segment s
render_segment (Segment.param name) = b':' ∷ name
render_segment (Segment.wildcard name) = b'*' ∷ name

unfoldable pub render_segments : List Segment → Bytes
render_segments [] = []
render_segments (segment ∷ pattern) = b'/' ∷ (render_segment segment ++ render_segments pattern)

unfoldable pub render_pattern : List Segment → Bytes
unfolding render_segments
render_pattern [] = b'/' ∷ []
render_pattern (segment ∷ pattern) = render_segments (segment ∷ pattern)

abbrev pub conflict_segment : Segment → ConflictSegment
conflict_segment (Segment.static value) = ConflictSegment.static value
conflict_segment (Segment.param name) = ConflictSegment.param
conflict_segment (Segment.wildcard name) = ConflictSegment.wildcard

unfoldable pub from_validated_segments : List Segment → List Bytes → RoutePattern
from_validated_segments segments parameter_names = record {
  rendered = render_pattern segments;
  segments = segments;
  parameter_names = parameter_names;
  conflict_key = map conflict_segment segments;
}

unfoldable pub is_name_byte : ℕ → Bool
is_name_byte byte = is_ascii_alphanumeric byte || (nat_eq byte b'_' || nat_eq byte b'-')

-- The variables `seen` and `parameter_names` of the two loops.
pub record Names : Type 0 where
  pub seen : List Bytes
  pub parameter_names : List Bytes

abbrev pub no_names : Names
no_names = record { seen = []; parameter_names = [] }

unfoldable pub validate_parameter_name : Bytes → Names → Result RouteErrorKind Names
validate_parameter_name name names = do
  refuse (is_empty name) empty_parameter
  refuse (not (all is_name_byte name)) invalid_parameter
  refuse (contains name names.seen) duplicate_parameter
  ok (record { seen = add name names.seen; parameter_names = names.parameter_names ++ name ∷ [] })

-- The body of the loop of `validate_segments`; `last` says that no segment follows.
unfoldable pub validate_segment : Segment → Bool → Names → Result RouteErrorKind Names
unfolding validate_parameter_name
validate_segment (Segment.param name) last names = validate_parameter_name name names
validate_segment (Segment.wildcard name) last names =
    refuse (not last) non_terminal_wildcard >> validate_parameter_name name names
validate_segment (Segment.static s) last names = ok names

unfoldable pub validate_from : List Segment → Names → Result RouteErrorKind Names
validate_from [] names = ok names
validate_from (segment ∷ rest) names = do
  next ← validate_segment segment (is_empty rest) names
  validate_from rest next

unfoldable pub validate_segments : List Segment → Result RouteErrorKind RoutePattern
validate_segments segments = do
  refuse (ltb max_path_segments (length segments)) too_many_segments
  names ← validate_from segments no_names
  ok (from_validated_segments segments names.parameter_names)

-- `RoutePattern::join`.
unfoldable pub join : RoutePattern → RoutePattern → Result RouteErrorKind RoutePattern
join prefix suffix = validate_segments (prefix.segments ++ suffix.segments)

abbrev pub starts_with_slash : Bytes → Bool
starts_with_slash [] = false
starts_with_slash (c ∷ s) = nat_eq c b'/'

module _ (percent_decode : Bytes → Bytes) where
  unfoldable pub decode_route_static_segment : Bytes → Result RouteErrorKind Bytes
  decode_route_static_segment raw =
      if validate_percent_triplets raw
      then ok_or (decode_text percent_decode raw) invalid_percent_encoding
      else err invalid_percent_encoding

  -- What the loop of `RoutePattern::parse` makes of one raw segment; `last` as above.
  unfoldable pub parse_segment : Bytes → Bool → Names → Result RouteErrorKind (Segment × Names)
  parse_segment raw last names = elim (strip_prefix b':' raw) [
    | some name ↦ do next ← validate_parameter_name name names; ok (Segment.param name, next)
    | none ↦ elim (strip_prefix b'*' raw) [
      | some name ↦ do
        refuse (not last) non_terminal_wildcard
        next ← validate_parameter_name name names
        ok (Segment.wildcard name, next)
      | none ↦ do decoded ← decode_route_static_segment raw; ok (Segment.static decoded, names)
    ]
  ]

  unfoldable pub parse_from : List Bytes → Names → Result RouteErrorKind (List Segment × Names)
  parse_from [] names = ok ([], names)
  parse_from (raw ∷ rest) names = do
    (segment, next) ← parse_segment raw (is_empty rest) names
    (segments, final) ← parse_from rest next
    ok (segment ∷ segments, final)

  unfoldable pub parse : Bytes → Result RouteErrorKind RoutePattern
  parse path = do
    refuse (not (starts_with_slash path)) missing_leading_slash
    refuse (ltb max_path_segments (length (path_segments path))) too_many_segments
    (segments, names) ← parse_from (path_segments path) no_names
    ok (from_validated_segments segments names.parameter_names)
