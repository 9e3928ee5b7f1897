-- ===== src/Pattern/Render.antt =====
-- Rendering a validated pattern and parsing it again gives the same pattern.
use rustrest.Prelude.{
  suc, ◌∙◌, ◌≡◌, ◌≢◌, refl, ap, inl, inr, Bool-cases, List, [], ◌∷◌, true, false, Bool, arith, All,
  all, is_empty, and_true, ok, ◌>>=◌, >>=-eq-ok, map, length, ltb, none,
}
use rustrest.Text.{Bytes, is_ascii_alphanumeric, strip_prefix, split}
use rustrest.Text.Split.{HasNo, prefix_all, keep-split-prefix_all}
use rustrest.Percent.{path_segments, max_path_segments}
use rustrest.Percent.RoundTrip.{
  IsPlainText, IsSafeByte, DecodesTriplets, validate-encode_path_segment,
  encode_path_segment-IsSafeByte, encode_path_segment_ne, decode_text-encode,
}
use rustrest.Pattern.{Segment}
use rustrest.Pattern.Parse.{
  starts_with_slash, RoutePattern, render_segment, render_segments, render_pattern,
  from_validated_segments, is_name_byte, Names, no_names, validate_parameter_name, validate_segment,
  validate_from, validate_segments, decode_route_static_segment, parse_segment, parse_from, parse,
}

-- The static text of a segment is not empty, and is text that a path can hold.
abbrev pub HasPlainText : Segment → Type 0
HasPlainText (Segment.static s) = (s ≢ []) × IsPlainText s
HasPlainText (Segment.param name) = Unit
HasPlainText (Segment.wildcard name) = Unit

abbrev HasName : Segment → Type 0
HasName (Segment.static s) = Unit
HasName (Segment.param name) = all is_name_byte name ≡ true
HasName (Segment.wildcard name) = all is_name_byte name ≡ true

length-map : (pattern : List Segment) → length (map render_segment pattern) ≡ length pattern
length-map [] = refl
length-map (segment ∷ pattern) = ap suc (length-map pattern)

map-is_empty : (pattern : List Segment) → is_empty (map render_segment pattern) ≡ is_empty pattern
map-is_empty [] = refl
map-is_empty (segment ∷ pattern) = refl

render_segments-eq-prefix_all :
    (pattern : List Segment)
    → render_segments pattern ≡ prefix_all b'/' (map render_segment pattern)
unfolding render_segments prefix_all
render_segments-eq-prefix_all [] = refl
render_segments-eq-prefix_all (segment ∷ pattern) = rw (render_segments-eq-prefix_all pattern)

name_HasNo : (name : Bytes) → all is_name_byte name ≡ true → HasNo b'/' name
unfolding is_name_byte is_ascii_alphanumeric
name_HasNo [] h = tt
name_HasNo (c ∷ name) h =
    let (here, rest) = and_true (is_name_byte c) (all is_name_byte name) h in
    (λ e. cc (rw e at here), name_HasNo name rest)

validate_segment-HasName :
    (segment : Segment) (last : Bool) (names next : Names)
    → validate_segment segment last names ≡ ok next
    → HasName segment
unfolding validate_segment validate_parameter_name
validate_segment-HasName (Segment.static s) last names next h = tt
validate_segment-HasName (Segment.param name) last names next h = ground arith
validate_segment-HasName (Segment.wildcard name) last names next h = ground arith

validate_from-HasName :
    (pattern : List Segment) (names final : Names)
    → validate_from pattern names ≡ ok final
    → All HasName pattern
unfolding validate_from
validate_from-HasName [] names final h = tt
validate_from-HasName (segment ∷ pattern) names final h =
    let (next, here, rest) = >>=-eq-ok _ _ h in
    (
      validate_segment-HasName segment (is_empty pattern) names next here,
      validate_from-HasName pattern next final rest,
    )

strip_prefix_safe :
    (s : Bytes) → All IsSafeByte s → (strip_prefix b':' s ≡ none) × (strip_prefix b'*' s ≡ none)
strip_prefix_safe [] h = (refl, refl)
strip_prefix_safe (c ∷ s) h = (ground arith, ground arith)

weaken : (s : Bytes) → All IsSafeByte s → HasNo b'/' s
weaken [] h = tt
weaken (c ∷ s) h = (h.0.0, weaken s h.1)

render_segment-HasNo :
    (segment : Segment)
    → HasPlainText segment
    → HasName segment
    → HasNo b'/' (render_segment segment) × (render_segment segment ≢ [])
render_segment-HasNo (Segment.static []) h k = absurd (h.0 refl)
render_segment-HasNo (Segment.static (c ∷ s)) h k =
    (weaken _ (encode_path_segment-IsSafeByte (c ∷ s) h.1.bytes), encode_path_segment_ne c s)
render_segment-HasNo (Segment.param name) h k = ((omega arith, name_HasNo name k), λ e. cc)
render_segment-HasNo (Segment.wildcard name) h k = ((omega arith, name_HasNo name k), λ e. cc)

render-HasNo :
    (pattern : List Segment)
    → All HasPlainText pattern
    → All HasName pattern
    → All (λ part. HasNo b'/' part × (part ≢ [])) (map render_segment pattern)
render-HasNo [] h k = tt
render-HasNo (segment ∷ pattern) h k =
    (render_segment-HasNo segment h.0 k.0, render-HasNo pattern h.1 k.1)

-- The segments of a rendered pattern are its rendered segments.
path_segments-render_pattern :
    (pattern : List Segment)
    → All HasPlainText pattern
    → All HasName pattern
    → path_segments (render_pattern pattern) ≡ map render_segment pattern
unfolding path_segments render_pattern
path_segments-render_pattern [] h k = unfold split in refl
path_segments-render_pattern (segment ∷ pattern) h k =
    ap path_segments (render_segments-eq-prefix_all (segment ∷ pattern))
    ∙ keep-split-prefix_all b'/' (map render_segment (segment ∷ pattern))
        (render-HasNo (segment ∷ pattern) h k)

starts_with_slash-render_pattern :
    (pattern : List Segment) → starts_with_slash (render_pattern pattern) ≡ true
unfolding render_pattern
starts_with_slash-render_pattern [] = refl
starts_with_slash-render_pattern (segment ∷ pattern) = refl

module _ (percent_decode : Bytes → Bytes) (decodes : DecodesTriplets percent_decode) where
  parse_segment-render :
      (segment : Segment) (last : Bool) (names : Names)
      → HasPlainText segment
      → parse_segment percent_decode (render_segment segment) last names
        ≡ (validate_segment segment last names >>= λ next. ok (segment, next))
  unfolding parse_segment validate_segment decode_route_static_segment
  parse_segment-render (Segment.param name) last names h = refl
  parse_segment-render (Segment.wildcard name) true names h = refl
  parse_segment-render (Segment.wildcard name) false names h = refl
  parse_segment-render (Segment.static s) last names h =
      let (no_colon, no_star) = strip_prefix_safe _ (encode_path_segment-IsSafeByte s h.1.bytes) in
      rw (
        parse_segment,
        no_colon,
        no_star,
        validate-encode_path_segment s h.1.bytes,
        decode_text-encode percent_decode decodes s h.1,
      )

  parse_from-render :
      (pattern : List Segment) (names final : Names)
      → All HasPlainText pattern
      → validate_from pattern names ≡ ok final
      → parse_from percent_decode (map render_segment pattern) names ≡ ok (pattern, final)
  unfolding parse_from validate_from
  parse_from-render [] names final h e = (let e' : names ≡ final = cc in rw e')
  parse_from-render (segment ∷ pattern) names final h e =
      let (next, here, rest) =
        >>=-eq-ok (validate_segment segment (is_empty pattern) names) (validate_from pattern) e in
      rw (
        map-is_empty pattern,
        parse_segment-render segment (is_empty pattern) names h.0,
        here,
        parse_from-render pattern next final h.1 rest,
      )

  -- Parsing the rendering of segments that `validate_segments` accepts gives the pattern back.
  pub parse-render :
      (segments : List Segment) (pattern : RoutePattern)
      → All HasPlainText segments
      → validate_segments segments ≡ ok pattern
      → parse percent_decode pattern.rendered ≡ ok pattern
  unfolding parse validate_segments from_validated_segments
  parse-render segments pattern h e = elim (Bool-cases (ltb max_path_segments (length segments))) [
    | inl big ↦ cc (rw big at e)
    | inr small ↦
        let (final, valid, same) =
          >>=-eq-ok (validate_from segments no_names)
            (λ names. ok (from_validated_segments segments names.parameter_names))
            (rw small at e) in
        let names = validate_from-HasName segments no_names final valid in
        let result : from_validated_segments segments final.parameter_names ≡ pattern = cc in
        rw (
          ← result,
          starts_with_slash-render_pattern segments,
          path_segments-render_pattern segments h names,
          length-map segments,
          small,
          parse_from-render segments no_names final h valid,
        )
  ]
