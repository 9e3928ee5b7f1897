-- ===== src/Query.antt =====
-- Query strings and request cookies in src/app/request.rs: `decode_component`, `hex_value`,
-- `parse_query` and `parse_cookies`. `String::from_utf8_lossy` of the standard library is the parameter
-- `lossy`. A map is an association list.
pub mod Decoding
pub mod RoundTrip
use rustrest.Prelude.{
  ℕ, ◌+◌, ◌-◌, ◌*◌, Bool, true, false, not, ◌&&◌, List, [], ◌∷◌, ◌++◌, Option, none, some, nat_eq,
  if◌then◌else◌, is_empty, keep, lookup, insert, ◌==◌, ℕ_eq, list_eq,
}
use rustrest.Text.{Bytes, between, split}
use rustrest.Text.Utf8.{trim}
use rustrest.Ranges.{split_once}

unfoldable pub hex_value : ℕ → Option ℕ
hex_value byte =
    if between b'0' b'9' byte
    then some (byte - b'0')
    else if between b'a' b'f' byte
    then some (byte - b'a' + 10)
    else if between b'A' b'F' byte
    then some (byte - b'A' + 10)
    else none

abbrev pub both_digits : Option ℕ → Option ℕ → Option ℕ
both_digits (some high) (some low) = some (high * 16 + low)
both_digits _ _ = none

-- The byte that a `%` with two digits stands for.
unfoldable pub triplet : ℕ → ℕ → ℕ → Option ℕ
unfolding hex_value
triplet byte high low =
    if nat_eq byte b'%' then both_digits (hex_value high) (hex_value low) else none

-- A byte that stands for itself, or a plus sign for a space.
abbrev pub plain_byte : Bool → ℕ → ℕ
plain_byte plus_as_space byte = if nat_eq byte b'+' && plus_as_space then 32 else byte

-- The loop of `decode_component`.
unfoldable pub decode_bytes : Bool → Bytes → Bytes
decode_bytes plus_as_space [] = []
decode_bytes plus_as_space (byte ∷ []) = plain_byte plus_as_space byte ∷ []
decode_bytes plus_as_space (byte ∷ high ∷ []) =
    plain_byte plus_as_space byte ∷ decode_bytes plus_as_space (high ∷ [])
decode_bytes plus_as_space (byte ∷ high ∷ low ∷ input) = elim (triplet byte high low) [
  | none ↦ plain_byte plus_as_space byte ∷ decode_bytes plus_as_space (high ∷ low ∷ input)
  | some decoded ↦ decoded ∷ decode_bytes plus_as_space input
]

-- `split_once('=').unwrap_or((pair, ""))`.
abbrev pub key_and_value : Bytes → Option (Bytes × Bytes) → Bytes × Bytes
key_and_value pair none = (pair, [])
key_and_value pair (some parts) = parts

abbrev pub values_at : Option (List Bytes) → List Bytes
values_at none = []
values_at (some values) = values

-- `params.entry(key).or_insert_with(Vec::new).push(value)`.
unfoldable pub push_value : Bytes → Bytes → List (Bytes × List Bytes) → List (Bytes × List Bytes)
push_value key text params = insert key (values_at (lookup key params) ++ text ∷ []) params

module _ (lossy : Bytes → Bytes) where
  unfoldable pub decode_component : Bytes → Bool → Bytes
  unfolding decode_bytes
  decode_component input plus_as_space = lossy (decode_bytes plus_as_space input)

  -- The loop of `parse_query` over the pairs.
  unfoldable pub push_pairs : List Bytes → List (Bytes × List Bytes) → List (Bytes × List Bytes)
  unfolding decode_component push_value split_once
  push_pairs [] params = params
  push_pairs (pair ∷ pairs) params =
      let parts = key_and_value pair (split_once b'=' pair) in
      push_pairs pairs
        (push_value (decode_component parts.0 true) (decode_component parts.1 true) params)

  unfoldable pub parse_query : Bytes → List (Bytes × List Bytes)
  unfolding push_pairs
  parse_query query = push_pairs (keep (λ part. not (is_empty part)) (split b'&' query)) []

abbrev pub insert_cookie : Option (Bytes × Bytes) → List (Bytes × Bytes) → List (Bytes × Bytes)
insert_cookie none cookies = cookies
insert_cookie (some (name, text)) cookies = insert (trim name) (trim text) cookies

-- The loop of `parse_cookies`.
unfoldable pub insert_cookies : List Bytes → List (Bytes × Bytes) → List (Bytes × Bytes)
unfolding split_once
insert_cookies [] cookies = cookies
insert_cookies (part ∷ parts) cookies =
    let trimmed = trim part in
    insert_cookies parts
      (if is_empty trimmed then cookies else insert_cookie (split_once b'=' trimmed) cookies)

unfoldable pub parse_cookies : Bytes → List (Bytes × Bytes)
unfolding insert_cookies
parse_cookies header = insert_cookies (split b';' header) []
