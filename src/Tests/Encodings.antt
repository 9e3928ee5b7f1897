-- ===== src/Tests/Encodings.antt =====
-- Negotiations of encodings.
use rustrest.Prelude.{ℕ, ◌≡◌, refl, true, false, List, [], ◌∷◌, ℕ_eq, list_eq}
use rustrest.Text.{codes, split}
use rustrest.Compression.{
  Encoding, gzip, brotli, deflate, encode, identity, not_acceptable, AcceptEncodingToken,
  negotiate_tokens, negotiate_encoding,
}
use rustrest.Compression.Best.{IsChoice, negotiate_tokens-IsChoice}

abbrev all_encodings : List Encoding
all_encodings = gzip ∷ brotli ∷ deflate ∷ []

prefers_brotli :
    negotiate_encoding (codes "gzip;q=0.5, br;q=0.8, *;q=0.1") all_encodings ≡ encode brotli true
unfolding negotiate_encoding split rustrest.Text.Utf8.trim rustrest.Prelude.list_beq
    rustrest.Text.to_ascii_lower
prefers_brotli = refl

refuses_all : negotiate_encoding (codes "*;q=0") all_encodings ≡ not_acceptable
unfolding negotiate_encoding split rustrest.Text.Utf8.trim rustrest.Prelude.list_beq
    rustrest.Text.to_ascii_lower
refuses_all = refl

stays_uncoded : negotiate_encoding (codes "identity, gzip;q=0.5") all_encodings ≡ identity
unfolding negotiate_encoding split rustrest.Text.Utf8.trim rustrest.Prelude.list_beq
    rustrest.Text.to_ascii_lower
stays_uncoded = refl

abbrev wanted : List AcceptEncodingToken
wanted =
    record { name = codes "gzip"; quality = 500; client_order = 0 }
    ∷ record { name = codes "br"; quality = 800; client_order = 1 }
    ∷ []

negotiate_tokens-IsChoice_example :
    IsChoice wanted all_encodings (negotiate_tokens wanted all_encodings)
negotiate_tokens-IsChoice_example = negotiate_tokens-IsChoice wanted all_encodings
