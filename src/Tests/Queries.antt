-- ===== src/Tests/Queries.antt =====
-- Query strings and cookies of requests.
use rustrest.Prelude.{ℕ, ◌≡◌, refl, arith, List, [], ◌∷◌, All, lookup, some, ℕ_eq, list_eq}
use rustrest.Text.{Bytes, codes, join}
use rustrest.Query.{values_at, parse_query, parse_cookies}
use rustrest.Query.RoundTrip.{IsPair, write_pairs, values_at-parse_query}

-- The decoding of texts that are UTF-8.
abbrev kept : Bytes → Bytes
kept s = s

abbrev pairs : List (Bytes × Bytes)
pairs = (codes "q", codes "a&b") ∷ (codes "q", codes "=") ∷ []

texts : All (IsPair kept) pairs
texts = (
  (
    record { bytes = (omega arith, tt); kept = refl },
    record { bytes = (omega arith, (omega arith, (omega arith, tt))); kept = refl },
  ),
  (
    (
      record { bytes = (omega arith, tt); kept = refl },
      record { bytes = (omega arith, tt); kept = refl },
    ),
    tt,
  ),
)

values_at-parse_query_example :
    values_at (lookup (codes "q") (parse_query kept (join b'&' (write_pairs pairs))))
    ≡ codes "a&b" ∷ codes "=" ∷ []
unfolding rustrest.Prelude.list_beq
values_at-parse_query_example = values_at-parse_query kept pairs (codes "q") texts

plus_is_space :
    parse_query kept (codes "a=1+2&&a=%41%4") ≡ (codes "a", codes "1 2" ∷ codes "A%4" ∷ []) ∷ []
unfolding parse_query rustrest.Text.split rustrest.Prelude.insert rustrest.Prelude.list_beq lookup
    rustrest.Query.triplet
plus_is_space = refl

last_cookie_wins :
    parse_cookies (codes "a=1; b = 2 ;a=3") ≡ (codes "a", codes "3") ∷ (codes "b", codes "2") ∷ []
unfolding parse_cookies rustrest.Text.split rustrest.Text.Utf8.trim rustrest.Prelude.insert
    rustrest.Prelude.list_beq
last_cookie_wins = refl
