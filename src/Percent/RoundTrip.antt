-- ===== src/Percent/RoundTrip.antt =====
-- Decoding gives back what `encode_path_segment` of src/app/router.rs encodes, and what an encoded
-- segment looks like.
use rustrest.Prelude.{
  ℕ, ◌+◌, ◌-◌, ◌*◌, ◌/◌, ◌%◌, ◌<◌, ◌≡◌, ◌≢◌, refl, inl, inr, true, false, List, [], ◌∷◌, some,
  arith, ltb, if◌then◌else◌, any, All, Bool-cases, ok, ap,
}
use rustrest.Text.{Bytes, is_ascii_alphanumeric, is_ascii_hexdigit}
use rustrest.Text.Utf8.{decode_chars, is_control}
use rustrest.Percent.{
  validate_percent_triplets, upper_hex, is_unreserved, encode_path_segment, decode_text,
  decode_path_segment,
}

abbrev pub AllBytes : Bytes → Type 0
AllBytes s = All (λ c. c < 256) s

-- The value of a hexadecimal digit.
abbrev pub digit_value : ℕ → ℕ
digit_value c = if ltb c b'A' then c - b'0' else if ltb c b'a' then c - b'A' + 10 else c - b'a' + 10

-- What the crate percent_encoding documents: a triplet stands for its byte, and any other byte
-- stands for itself.
pub record DecodesTriplets (percent_decode : Bytes → Bytes) : Type 0 where
  pub empty : percent_decode [] ≡ []
  pub plain : (c : ℕ) (s : Bytes) → c ≢ b'%' → percent_decode (c ∷ s) ≡ c ∷ percent_decode s
  pub triplet :
      (a b : ℕ) (s : Bytes)
      → is_ascii_hexdigit a ≡ true
      → is_ascii_hexdigit b ≡ true
      → percent_decode (b'%' ∷ a ∷ b ∷ s) ≡ (digit_value a * 16 + digit_value b) ∷ percent_decode s

upper_hex_digit :
    (d : ℕ) → d < 16 → (is_ascii_hexdigit (upper_hex d) ≡ true) × (digit_value (upper_hex d) ≡ d)
unfolding is_ascii_hexdigit upper_hex
upper_hex_digit d h = ground arith

unreserved_ne : (c : ℕ) → is_unreserved c ≡ true → (c ≢ b'%') × (c ≢ b'/') × (c ≢ b':') × (c ≢ b'*')
unfolding is_unreserved is_ascii_alphanumeric
unreserved_ne c h =
    (λ e. cc (rw e at h), λ e. cc (rw e at h), λ e. cc (rw e at h), λ e. cc (rw e at h))

upper_hex_ne :
    (d : ℕ)
    → d < 16
    → (upper_hex d ≢ b'/') × (upper_hex d ≢ b':') × (upper_hex d ≢ b'*') × (upper_hex d ≢ b'%')
unfolding upper_hex
upper_hex_ne d h = ground arith

validate_plain :
    (c : ℕ) (s : Bytes) → c ≢ b'%' → validate_percent_triplets (c ∷ s) ≡ validate_percent_triplets s
unfolding validate_percent_triplets
validate_plain c [] h = ground arith
validate_plain c (a ∷ []) h = ground arith
validate_plain c (a ∷ b ∷ s) h = ground arith

validate_triplet :
    (a b : ℕ) (s : Bytes)
    → is_ascii_hexdigit a ≡ true
    → is_ascii_hexdigit b ≡ true
    → validate_percent_triplets (b'%' ∷ a ∷ b ∷ s) ≡ validate_percent_triplets s
unfolding validate_percent_triplets
validate_triplet a b s h k = rw (h, k)

-- Every triplet of an encoded segment is well formed.
pub validate-encode_path_segment :
    (s : Bytes) → AllBytes s → validate_percent_triplets (encode_path_segment s) ≡ true
unfolding encode_path_segment
validate-encode_path_segment [] h = unfold validate_percent_triplets in refl
validate-encode_path_segment (c ∷ s) h = elim (Bool-cases (is_unreserved c)) [
  | inl free ↦
      rw (free, validate_plain c _ (unreserved_ne c free).0) (validate-encode_path_segment s h.1)
  | inr coded ↦
      rw
        (
          coded,
          validate_triplet _ _ (encode_path_segment s) (upper_hex_digit (c / 16) (omega arith)).0
              (upper_hex_digit (c % 16) (omega arith)).0,
        )
        (validate-encode_path_segment s h.1)
]

-- What `format!("{:02X}")` and the unreserved bytes leave: no separator and no pattern mark.
abbrev pub IsSafeByte : ℕ → Type 0
IsSafeByte c = (c ≢ b'/') × (c ≢ b':') × (c ≢ b'*')

pub encode_path_segment-IsSafeByte :
    (s : Bytes) → AllBytes s → All IsSafeByte (encode_path_segment s)
unfolding encode_path_segment
encode_path_segment-IsSafeByte [] h = tt
encode_path_segment-IsSafeByte (c ∷ s) h = elim (Bool-cases (is_unreserved c)) [
  | inl free ↦
      let (_, slash, colon, star) = unreserved_ne c free in
      rw free ((slash, colon, star), encode_path_segment-IsSafeByte s h.1)
  | inr coded ↦
      let high = upper_hex_ne (c / 16) (omega arith) in
      let low = upper_hex_ne (c % 16) (omega arith) in
      rw coded (
        (omega arith, omega arith, omega arith),
        ((high.0, high.1, high.2), ((low.0, low.1, low.2), encode_path_segment-IsSafeByte s h.1)),
      )
]

pub encode_path_segment_ne : (c : ℕ) (s : Bytes) → encode_path_segment (c ∷ s) ≢ []
unfolding encode_path_segment
encode_path_segment_ne c s h = ground arith

-- Text that a route or a request may hold: bytes that are UTF-8, without control characters.
pub record IsPlainText (s : Bytes) : Type 0 where
  pub bytes : AllBytes s
  pub chars : List ℕ
  pub valid : decode_chars s ≡ some chars
  pub printable : any is_control chars ≡ false

module _ (percent_decode : Bytes → Bytes) (decodes : DecodesTriplets percent_decode) where
  pub percent_decode-encode : (s : Bytes) → AllBytes s → percent_decode (encode_path_segment s) ≡ s
  unfolding encode_path_segment
  percent_decode-encode [] h = decodes.empty
  percent_decode-encode (c ∷ s) h = elim (Bool-cases (is_unreserved c)) [
    | inl free ↦
        rw (free, decodes.plain c _ (unreserved_ne c free).0)
          (ap (λ r. c ∷ r) (percent_decode-encode s h.1))
    | inr coded ↦
        let (hex_high, high) = upper_hex_digit (c / 16) (omega arith) in
        let (hex_low, low) = upper_hex_digit (c % 16) (omega arith) in
        rw
          (
            coded,
            decodes.triplet _ _ (encode_path_segment s) hex_high hex_low,
            high,
            low,
            percent_decode-encode s h.1,
          )
          (ap (λ k. k ∷ s) (omega arith))
  ]

  pub decode_text-encode :
      (s : Bytes) → IsPlainText s → decode_text percent_decode (encode_path_segment s) ≡ some s
  unfolding decode_text
  decode_text-encode s plain =
      rw (decode_text, percent_decode-encode s plain.bytes, plain.valid, plain.printable)
        (ap some (percent_decode-encode s plain.bytes))

  -- Percent decoding a segment that was encoded gives the text back.
  pub decode_path_segment-encode :
      (s : Bytes)
      → IsPlainText s
      → decode_path_segment percent_decode (encode_path_segment s) ≡ ok s
  unfolding decode_path_segment
  decode_path_segment-encode s plain =
      rw (validate-encode_path_segment s plain.bytes, decode_text-encode s plain)
