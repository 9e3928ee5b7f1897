-- ===== src/Query/Decoding.antt =====
-- `decode_component` of src/app/request.rs on what was encoded.
use rustrest.Prelude.{
  ℕ, ◌/◌, ◌%◌, ◌<◌, ◌≡◌, ◌≢◌, refl, ap, inl, inr, true, false, [], ◌∷◌, some, nat_eq, All, arith,
  Bool-cases,
}
use rustrest.Text.{Bytes, is_ascii_alphanumeric}
use rustrest.Percent.{upper_hex, is_unreserved, encode_path_segment}
use rustrest.Percent.RoundTrip.{AllBytes}
use rustrest.Query.{hex_value, triplet, decode_bytes}

hex_value-upper_hex : (d : ℕ) → d < 16 → hex_value (upper_hex d) ≡ some d
unfolding hex_value upper_hex
hex_value-upper_hex d h = ground arith

triplet-upper_hex :
    (c : ℕ) → c < 256 → triplet b'%' (upper_hex (c / 16)) (upper_hex (c % 16)) ≡ some c
unfolding triplet
triplet-upper_hex c h =
    let high = hex_value-upper_hex (c / 16) (omega arith) in
    let low = hex_value-upper_hex (c % 16) (omega arith) in
    rw (triplet, high, low) (ap some (omega arith))

-- A byte that is no percent sign and no plus sign stands for itself.
decode_bytes-plain :
    (c : ℕ) (s : Bytes) → c ≢ b'%' → c ≢ b'+' → decode_bytes true (c ∷ s) ≡ c ∷ decode_bytes true s
unfolding decode_bytes triplet
decode_bytes-plain c [] h k = ground arith
decode_bytes-plain c (a ∷ []) h k = ground arith
decode_bytes-plain c (a ∷ b ∷ s) h k =
    let mark : nat_eq c b'%' ≡ false = ground arith in
    let plus : nat_eq c b'+' ≡ false = ground arith in rw (decode_bytes, triplet, mark, plus)

unreserved_ne : (c : ℕ) → is_unreserved c ≡ true → (c ≢ b'%') × (c ≢ b'+') × (c ≢ b'&') × (c ≢ b'=')
unfolding is_unreserved is_ascii_alphanumeric
unreserved_ne c h =
    (λ e. cc (rw e at h), λ e. cc (rw e at h), λ e. cc (rw e at h), λ e. cc (rw e at h))

decode_bytes-triplet :
    (c a b d : ℕ) (s : Bytes)
    → triplet c a b ≡ some d
    → decode_bytes true (c ∷ a ∷ b ∷ s) ≡ d ∷ decode_bytes true s
unfolding decode_bytes
decode_bytes-triplet c a b d s h = rw (decode_bytes, h)

-- Decoding gives the bytes back.
pub decode_bytes-encode : (s : Bytes) → AllBytes s → decode_bytes true (encode_path_segment s) ≡ s
unfolding encode_path_segment
decode_bytes-encode [] h = unfold decode_bytes in refl
decode_bytes-encode (c ∷ s) h = elim (Bool-cases (is_unreserved c)) [
  | inl free ↦
      let (mark, plus, _, _) = unreserved_ne c free in
      rw (free, decode_bytes-plain c (encode_path_segment s) mark plus)
        (ap (λ x. c ∷ x) (decode_bytes-encode s h.1))
  | inr coded ↦
      let here = triplet-upper_hex c h.0 in
      rw
        (
          coded,
          decode_bytes-triplet b'%' (upper_hex (c / 16)) (upper_hex (c % 16)) c
              (encode_path_segment s) here,
        )
        (ap (λ x. c ∷ x) (decode_bytes-encode s h.1))
]

-- What `format!("{:02X}")` and the unreserved bytes leave: no separator of pairs or of their parts.
abbrev pub IsPairByte : ℕ → Type 0
IsPairByte c = (c ≢ b'&') × (c ≢ b'=')

upper_hex-IsPairByte : (d : ℕ) → d < 16 → IsPairByte (upper_hex d)
unfolding upper_hex
upper_hex-IsPairByte d h = ground arith

pub encode_path_segment-IsPairByte :
    (s : Bytes) → AllBytes s → All IsPairByte (encode_path_segment s)
unfolding encode_path_segment
encode_path_segment-IsPairByte [] h = tt
encode_path_segment-IsPairByte (c ∷ s) h = elim (Bool-cases (is_unreserved c)) [
  | inl free ↦
      let (_, _, amp, eq) = unreserved_ne c free in
      rw (free) ((amp, eq), encode_path_segment-IsPairByte s h.1)
  | inr coded ↦ rw (coded) (
    (omega arith, omega arith),
    (
      upper_hex-IsPairByte (c / 16) (omega arith),
      (upper_hex-IsPairByte (c % 16) (omega arith), encode_path_segment-IsPairByte s h.1),
    ),
  )
]
