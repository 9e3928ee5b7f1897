-- ===== src/Tests/Parsing.antt =====
-- Patterns and path segments, printed and read back.
use rustrest.Prelude.{
  ℕ, ◌≡◌, refl, false, List, [], ◌∷◌, Option, none, some, Result, ok, All, any, arith, list_beq,
  contains,
}
use rustrest.Text.{Bytes, codes}
use rustrest.Pattern.{Segment}
use rustrest.Pattern.Parse.{RoutePattern, from_validated_segments, validate_segments, parse}
use rustrest.Pattern.Render.{parse-render}
use rustrest.Text.Utf8.{decode_chars, is_control}
use rustrest.Percent.{decode_path_segment, encode_path_segment}
use rustrest.Percent.RoundTrip.{IsPlainText, decode_path_segment-encode}
use rustrest.Ranges.{satisfiable, InResource, parse_byte_range, parse_byte_range-InResource}
use rustrest.Router.Url.{build_url}
use rustrest.Tests.Decoder.{decoder, decoder-DecodesTriplets}

abbrev spaced : Bytes
spaced = codes "a b"

spaced-IsPlainText : IsPlainText spaced
unfolding decode_chars is_control
spaced-IsPlainText = record {
  bytes = (omega arith, (omega arith, (omega arith, tt)));
  chars = codes "a b";
  valid = refl;
  printable = refl;
}

decode_path_segment-encode_example :
    decode_path_segment decoder (encode_path_segment spaced) ≡ ok spaced
decode_path_segment-encode_example =
    decode_path_segment-encode decoder decoder-DecodesTriplets spaced spaced-IsPlainText

abbrev segments : List Segment
segments = Segment.static spaced ∷ Segment.param (codes "id") ∷ Segment.wildcard (codes "rest") ∷ []

abbrev pattern : RoutePattern
pattern = from_validated_segments segments (codes "id" ∷ codes "rest" ∷ [])

valid : validate_segments segments ≡ ok pattern
unfolding validate_segments rustrest.Pattern.Parse.validate_from
    rustrest.Pattern.Parse.validate_segment rustrest.Pattern.Parse.is_name_byte
    rustrest.Text.is_ascii_alphanumeric contains rustrest.Prelude.add list_beq
valid = refl

parse-render_example : parse decoder pattern.rendered ≡ ok pattern
parse-render_example =
    parse-render decoder decoder-DecodesTriplets segments pattern
      (((λ e. cc), spaced-IsPlainText), (tt, (tt, tt))) valid

parse_byte_range-InResource_example : InResource 100 (parse_byte_range (codes "bytes=10-500") 100)
parse_byte_range-InResource_example = parse_byte_range-InResource (codes "bytes=10-500") 100

clamped : parse_byte_range (codes "bytes=10-500") 100 ≡ satisfiable 10 99
unfolding parse_byte_range rustrest.Text.Utf8.trim list_beq rustrest.Text.to_ascii_lower contains
    rustrest.Text.is_ascii_digit
clamped = refl

last_bytes : parse_byte_range (codes "bytes=-30") 100 ≡ satisfiable 70 99
unfolding parse_byte_range rustrest.Text.Utf8.trim list_beq rustrest.Text.to_ascii_lower contains
    rustrest.Text.is_ascii_digit
last_bytes = refl

link :
    build_url pattern ((codes "id", codes "x/y") ∷ (codes "rest", codes "//a/b") ∷ [])
    ≡ ok (codes "/a%20b/x%2Fy/a/b")
unfolding build_url from_validated_segments rustrest.Prelude.lookup rustrest.Prelude.insert list_beq
    contains rustrest.Router.Url.url_segment encode_path_segment rustrest.Percent.is_unreserved
    rustrest.Text.is_ascii_alphanumeric rustrest.Percent.upper_hex rustrest.Text.join
    rustrest.Text.split
link = refl
