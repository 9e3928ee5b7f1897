-- ===== src/Percent.antt =====
-- Percent encoding of path segments in src/app/router.rs: `encode_path_segment`,
-- `validate_percent_triplets`, `decode_path_segment` and `decode_path_segments`.
-- The crate percent_encoding is not part of the repository: its `percent_decode_str` is a
-- parameter, and the standard library's UTF-8 check is `Utf8.decode_chars`.
pub mod RoundTrip
use rustrest.Prelude.{
  ℕ, zero, suc, ◌+◌, ◌-◌, ◌*◌, ◌/◌, ◌%◌, Bool, true, false, not, ◌&&◌, ◌||◌, List, [], ◌∷◌, ◌++◌,
  Option, none, some, leb, ltb, nat_eq, if◌then◌else◌, any, keep, is_empty, length, Result, ok, err,
  ◌>>=◌, refuse, traverse,
}
use rustrest.Text.{Bytes, between, is_ascii_alphanumeric, is_ascii_hexdigit, split}
use rustrest.Text.Utf8.{decode_chars, is_control}

abbrev pub max_path_segments : ℕ
max_path_segments = 256

pub data RouteMatchErrorKind : Type 0 where
  invalid_path_encoding too_many_segments : RouteMatchErrorKind

-- `path.split('/').filter(|s| !s.is_empty())`.
unfoldable pub path_segments : Bytes → List Bytes
path_segments path = keep (λ s. not (is_empty s)) (split b'/' path)

-- `validate_percent_triplets`; the same loop opens `decode_route_static_segment`.
unfoldable pub validate_percent_triplets : Bytes → Bool
validate_percent_triplets [] = true
validate_percent_triplets (c ∷ []) = not (nat_eq c b'%')
validate_percent_triplets (c ∷ a ∷ []) =
    let rest = validate_percent_triplets (a ∷ []) in if nat_eq c b'%' then false else rest
validate_percent_triplets (c ∷ a ∷ b ∷ s) =
    let triplet = is_ascii_hexdigit a && is_ascii_hexdigit b && validate_percent_triplets s in
    let rest = validate_percent_triplets (a ∷ b ∷ s) in if nat_eq c b'%' then triplet else rest

-- The digit of `{:02X}` for a value below 16.
unfoldable pub upper_hex : ℕ → ℕ
upper_hex d = if ltb d 10 then b'0' + d else b'A' + (d - 10)

unfoldable pub is_unreserved : ℕ → Bool
is_unreserved c =
    is_ascii_alphanumeric c || nat_eq c b'-' || nat_eq c b'.' || nat_eq c b'_' || nat_eq c b'~'

unfoldable pub encode_path_segment : Bytes → Bytes
encode_path_segment [] = []
encode_path_segment (byte ∷ input) =
    (if is_unreserved byte
      then byte ∷ []
      else b'%' ∷ upper_hex (byte / 16) ∷ upper_hex (byte % 16) ∷ [])
    ++ encode_path_segment input

module _ (percent_decode : Bytes → Bytes) where
  -- `percent_decode_str(raw).decode_utf8()` and the check for control characters.
  unfoldable pub decode_text : Bytes → Option Bytes
  decode_text raw = elim (decode_chars (percent_decode raw)) [
    | none ↦ none
    | some chars ↦ if any is_control chars then none else some (percent_decode raw)
  ]

  unfoldable pub decode_path_segment : Bytes → Result RouteMatchErrorKind Bytes
  decode_path_segment segment =
      if validate_percent_triplets segment
      then elim (decode_text segment) [
        | none ↦ err invalid_path_encoding
        | some decoded ↦ ok decoded
      ]
      else err invalid_path_encoding

  unfoldable pub decode_path_segments : Bytes → Result RouteMatchErrorKind (List Bytes)
  decode_path_segments path =
      let segments = path_segments path in
      if ltb max_path_segments (length segments)
      then err too_many_segments
      else traverse decode_path_segment segments
