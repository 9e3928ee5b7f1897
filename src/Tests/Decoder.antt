-- ===== src/Tests/Decoder.antt =====
-- A concrete percent decoder, to run the model with and to show that what is asked of
-- percent_encoding can be met.
use rustrest.Prelude.{ℕ, ◌+◌, ◌*◌, ◌≡◌, refl, true, ◌&&◌, [], ◌∷◌, nat_eq, if◌then◌else◌, arith}
use rustrest.Text.{Bytes, is_ascii_hexdigit}
use rustrest.Percent.RoundTrip.{digit_value, DecodesTriplets}

unfoldable pub decoder : Bytes → Bytes
decoder [] = []
decoder (c ∷ []) = c ∷ []
decoder (c ∷ a ∷ []) = c ∷ decoder (a ∷ [])
decoder (c ∷ a ∷ b ∷ s) =
    let triplet = (digit_value a * 16 + digit_value b) ∷ decoder s in
    let plain = c ∷ decoder (a ∷ b ∷ s) in
    if nat_eq c b'%' && (is_ascii_hexdigit a && is_ascii_hexdigit b) then triplet else plain

decoder_plain : (c : ℕ) (s : Bytes) → ¬ (c ≡ b'%') → decoder (c ∷ s) ≡ c ∷ decoder s
unfolding decoder
decoder_plain c [] h = refl
decoder_plain c (a ∷ []) h = refl
decoder_plain c (a ∷ b ∷ s) h = ground arith

decoder_triplet :
    (a b : ℕ) (s : Bytes)
    → is_ascii_hexdigit a ≡ true
    → is_ascii_hexdigit b ≡ true
    → decoder (b'%' ∷ a ∷ b ∷ s) ≡ (digit_value a * 16 + digit_value b) ∷ decoder s
unfolding decoder
decoder_triplet a b s h k = rw (h, k)

pub decoder-DecodesTriplets : DecodesTriplets decoder
unfolding decoder
decoder-DecodesTriplets = record { empty = refl; plain = decoder_plain; triplet = decoder_triplet }
