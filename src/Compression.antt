-- ===== src/Compression.antt =====
-- The negotiation of encodings in src/app/middleware/compression.rs: `parse_quality`,
-- `parse_accept_encoding_token` and `negotiate_encoding`. The encodings that the build supports are a
-- list.
pub mod Best
use rustrest.Prelude.{
  ℕ, ◌+◌, ◌-◌, ◌^◌, Bool, true, false, not, ◌&&◌, ◌||◌, List, [], ◌∷◌, ◌++◌, map, Option, none,
  some, leb, ltb, nat_eq, if◌then◌else◌, is_empty, length, all, any, ◌==◌, ℕ_eq, list_eq,
}
use rustrest.Text.{Bytes, codes, split, to_ascii_lower, is_ascii_digit}
use rustrest.Text.Utf8.{trim}
use rustrest.Ranges.{split_once, parse_digits}

pub data Encoding : Type 0 where
  gzip brotli deflate : Encoding

abbrev pub name_of : Encoding → Bytes
name_of gzip = codes "gzip"
name_of brotli = codes "br"
name_of deflate = codes "deflate"

abbrev pub server_preference : Encoding → ℕ
server_preference gzip = 0
server_preference brotli = 1
server_preference deflate = 2

pub data Negotiation : Type 0 where
  encode : Encoding → Bool → Negotiation
  identity not_acceptable : Negotiation

pub record AcceptEncodingToken : Type 0 where
  pub name : Bytes
  pub quality : ℕ
  pub client_order : ℕ

pub record CodingPreference : Type 0 where
  pub coding : Encoding
  pub quality : ℕ
  pub client_order : ℕ

abbrev pub or_whole : Bytes → Option (Bytes × Bytes) → Bytes × Bytes
or_whole raw none = (raw, [])
or_whole raw (some parts) = parts

-- The loop that pads a fraction, which has three digits at most.
abbrev pub padded : Bytes → Bytes
padded [] = codes "000"
padded (a ∷ []) = a ∷ codes "00"
padded (a ∷ b ∷ []) = a ∷ b ∷ codes "0"
padded (a ∷ b ∷ c ∷ s) = a ∷ b ∷ c ∷ s

unfoldable pub parse_quality : Bytes → Option ℕ
unfolding split_once parse_digits is_ascii_digit
parse_quality raw =
    let (whole, fraction) = or_whole raw (split_once b'.' raw) in
    let below : Option ℕ =
      if ltb 3 (length fraction) || not (all is_ascii_digit fraction)
      then none
      else parse_digits (padded fraction) 0 in
    let full : Option ℕ =
      if any (λ byte. not (nat_eq byte b'0')) fraction || ltb 3 (length fraction)
      then none
      else some 1000 in
    if whole == codes "0" then below else if whole == codes "1" then full else none

abbrev pub or_zero : Option ℕ → ℕ
or_zero none = 0
or_zero (some quality) = quality

abbrev pub quality_param : Option (Bytes × Bytes) → ℕ → ℕ
quality_param none quality = quality
quality_param (some (key, text)) quality =
    if map to_ascii_lower (trim key) == codes "q"
    then or_zero (parse_quality (trim text))
    else quality

-- The loop over the parameters of a token.
unfoldable pub quality_params : List Bytes → ℕ → ℕ
unfolding split_once parse_quality
quality_params [] quality = quality
quality_params (param ∷ params) quality =
    quality_params params (quality_param (split_once b'=' (trim param)) quality)

abbrev pub token_of : ℕ → List Bytes → Option AcceptEncodingToken
token_of client_order [] = none
token_of client_order (part ∷ params) =
    let name = map to_ascii_lower (trim part) in
    if is_empty name
    then none
    else some
        (record { name = name; quality = quality_params params 1000; client_order = client_order })

unfoldable pub parse_accept_encoding_token : ℕ → Bytes → Option AcceptEncodingToken
unfolding quality_params
parse_accept_encoding_token client_order raw =
    let trimmed = trim raw in
    if is_empty trimmed then none else token_of client_order (split b';' trimmed)

abbrev pub push_token :
    Option AcceptEncodingToken → List AcceptEncodingToken → List AcceptEncodingToken
push_token none tokens = tokens
push_token (some token) tokens = token ∷ tokens

-- `split(',').enumerate().filter_map(...)`, from the number `index` on.
unfoldable pub tokens_from : ℕ → List Bytes → List AcceptEncodingToken
unfolding parse_accept_encoding_token
tokens_from index [] = []
tokens_from index (raw ∷ parts) =
    push_token (parse_accept_encoding_token index raw) (tokens_from (index + 1) parts)

-- `tokens.iter().find(|token| token.name == name)`.
unfoldable pub find_token : Bytes → List AcceptEncodingToken → Option AcceptEncodingToken
find_token name [] = none
find_token name (token ∷ tokens) =
    let rest = find_token name tokens in if token.name == name then some token else rest

-- The token that counts for a coding: its own, or the wildcard's.
abbrev pub either_token :
    Option AcceptEncodingToken → Option AcceptEncodingToken → Option AcceptEncodingToken
either_token none wildcard = wildcard
either_token (some token) wildcard = some token

abbrev pub quality_or : Option AcceptEncodingToken → ℕ → ℕ
quality_or none default = default
quality_or (some token) default = token.quality

-- `usize::MAX` stands for no order.
abbrev pub order_of : Option AcceptEncodingToken → ℕ
order_of none = 2 ^ 64 - 1
order_of (some token) = token.client_order

unfoldable pub preference_of : List AcceptEncodingToken → Encoding → CodingPreference
unfolding find_token
preference_of tokens coding =
    let token = either_token (find_token (name_of coding) tokens) (find_token (codes "*") tokens) in
    record { coding = coding; quality = quality_or token 0; client_order = order_of token }

-- The loop over the supported encodings.
unfoldable pub preferences : List AcceptEncodingToken → List Encoding → List CodingPreference
unfolding preference_of
preferences tokens [] = []
preferences tokens (coding ∷ supported) =
    let preference = preference_of tokens coding in
    let rest = preferences tokens supported in
    if ltb 0 preference.quality then preference ∷ rest else rest

-- `left` is greater in the order of `max_by`.
unfoldable pub is_greater : CodingPreference → CodingPreference → Bool
is_greater left right =
    ltb right.quality left.quality
    || nat_eq left.quality right.quality
      && (ltb (server_preference left.coding) (server_preference right.coding)
          || nat_eq (server_preference left.coding) (server_preference right.coding)
            && ltb left.client_order right.client_order)

-- `max_by`: of equal ones the last.
unfoldable pub max_from : CodingPreference → List CodingPreference → CodingPreference
unfolding is_greater
max_from best [] = best
max_from best (next ∷ rest) = max_from (if is_greater best next then best else next) rest

abbrev pub exceeds : Option AcceptEncodingToken → ℕ → Bool
exceeds none quality = false
exceeds (some token) quality = ltb quality token.quality

-- The quality of an uncoded representation.
unfoldable pub identity_quality : List AcceptEncodingToken → ℕ
unfolding find_token
identity_quality tokens =
    quality_or (find_token (codes "identity") tokens)
      (if nat_eq (quality_or (find_token (codes "*") tokens) 1) 0 then 0 else 1000)

abbrev pub negotiated : List AcceptEncodingToken → List CodingPreference → Negotiation
negotiated tokens [] = if nat_eq (identity_quality tokens) 0 then not_acceptable else identity
negotiated tokens (first ∷ rest) =
    let best = max_from first rest in
    if exceeds (find_token (codes "identity") tokens) best.quality
    then identity
    else encode best.coding (ltb 0 (identity_quality tokens))

-- The decision of `negotiate_encoding` on the tokens.
unfoldable pub negotiate_tokens : List AcceptEncodingToken → List Encoding → Negotiation
unfolding preferences max_from identity_quality find_token
negotiate_tokens tokens supported = negotiated tokens (preferences tokens supported)

unfoldable pub negotiate_encoding : Bytes → List Encoding → Negotiation
unfolding tokens_from negotiate_tokens
negotiate_encoding header supported = negotiate_tokens (tokens_from 0 (split b',' header)) supported
