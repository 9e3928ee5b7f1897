-- ===== src/Hosts.antt =====
-- Host constraints of src/app/router.rs: `HostPattern`, `normalize_host`, `strip_valid_port`,
-- `host_matches`, `hosts_overlap` and `suffix_overlaps`.
use rustrest.Prelude.{
  ℕ, ◌+◌, ◌-◌, Bool, true, false, not, ◌&&◌, ◌||◌, List, [], ◌∷◌, ◌++◌, map, reverse, Option, none,
  some, ltb, nat_eq, if◌then◌else◌, all, any, count, drop, is_empty, length, get_elem?, Result, ok,
  err, ◌>>=◌, ok_or, contains, ◌==◌, ℕ_eq, list_eq,
}
use rustrest.Text.{Bytes, is_ascii_digit, to_ascii_lower, strip_prefix}
use rustrest.Text.Utf8.{decode_chars, is_control, is_whitespace, trim}
use rustrest.Pattern.Parse.{RouteErrorKind, invalid_host_pattern}

pub data HostPattern : Type 0 where
  exact : Bytes → HostPattern
  wildcard_subdomain : Bytes → HostPattern

-- What follows the first `sep`, and what stands before it: `str::find` and the two slices.
before_first : ℕ → Bytes → Option (Bytes × Bytes)
before_first sep [] = none
before_first sep (c ∷ s) =
    let rest = before_first sep s in
    let longer : Option (Bytes × Bytes) = elim rest [
      | none ↦ none
      | some (a, b) ↦ some (c ∷ a, b)
    ] in
    if nat_eq c sep then some ([], s) else longer

-- `str::rsplit_once`: the part before the last `sep` and the part behind it.
rsplit_once : ℕ → Bytes → Option (Bytes × Bytes)
unfolding before_first
rsplit_once sep s = elim (before_first sep (reverse s)) [
  | none ↦ none
  | some (after, before) ↦ some (reverse before, reverse after)
]

is_port : Bytes → Bool
is_port port = not (is_empty port) && all is_ascii_digit port

-- The branch of `strip_valid_port` for an address in brackets.
strip_bracketed : Bytes → Option Bytes
unfolding before_first is_port
strip_bracketed host = elim (before_first b']' host) [
  | none ↦ none
  | some (inner, after) ↦ if is_empty after then some host else elim (strip_prefix b':' after) [
    | none ↦ none
    | some port ↦ if is_port port then some (inner ++ b']' ∷ []) else none
  ]
]

strip_named : Bytes → Option Bytes
unfolding rsplit_once is_port
strip_named host = elim (rsplit_once b':' host) [
  | none ↦ some host
  | some (name, port) ↦
      if is_port port
      then some name
      else if nat_eq (count (λ c. nat_eq c b':') host) 1
      then none
      else some host
]

unfoldable pub strip_valid_port : Bytes → Option Bytes
unfolding strip_bracketed strip_named
strip_valid_port [] = strip_named []
strip_valid_port (c ∷ s) = if nat_eq c b'[' then strip_bracketed (c ∷ s) else strip_named (c ∷ s)

abbrev has_bad_char : Option (List ℕ) → Bool
has_bad_char none = true
has_bad_char (some chars) = any (λ ch. is_control ch || is_whitespace ch) chars

unfoldable pub normalize_host : Bytes → Option Bytes
unfolding strip_valid_port
normalize_host raw =
    let trimmed = trim raw in
    if is_empty trimmed
      || contains b'@' trimmed
      || contains b'/' trimmed
      || contains b'\\' trimmed
      || has_bad_char (decode_chars trimmed)
    then none
    else elim (strip_valid_port trimmed) [
      | none ↦ none
      | some without_port ↦
          if is_empty without_port then none else some (map to_ascii_lower without_port)
    ]

-- `host.strip_prefix("*.")`.
abbrev strip_wildcard : Bytes → Option Bytes
strip_wildcard [] = none
strip_wildcard (c ∷ s) = if nat_eq c b'*' then strip_prefix b'.' s else none

parse_normalized : Bytes → Result RouteErrorKind HostPattern
parse_normalized host = elim (strip_wildcard host) [
  | some suffix ↦
      if is_empty suffix || contains b'*' suffix
      then err invalid_host_pattern
      else ok (wildcard_subdomain suffix)
  | none ↦ if contains b'*' host then err invalid_host_pattern else ok (exact host)
]

-- `HostPattern::parse`.
unfoldable pub parse_host : Bytes → Result RouteErrorKind HostPattern
unfolding normalize_host parse_normalized
parse_host pattern = do
  host ← ok_or (normalize_host pattern) invalid_host_pattern
  parse_normalized host

-- `str::ends_with`, of a text at least as long.
ends_with : Bytes → Bytes → Bool
ends_with host suffix = drop (length host - length suffix) host == suffix

abbrev is_dot : Option ℕ → Bool
is_dot none = false
is_dot (some c) = nat_eq c b'.'

-- The test that `matches_normalized` and `suffix_overlaps` share: `suffix` behind a dot.
under_suffix : Bytes → Bytes → Bool
unfolding ends_with
under_suffix host suffix =
    ends_with host suffix && is_dot (get_elem? host (length host - length suffix - 1))

unfoldable pub matches_normalized : HostPattern → Bytes → Bool
unfolding under_suffix
matches_normalized (exact expected) host = expected == host
matches_normalized (wildcard_subdomain suffix) host =
    ltb (length suffix + 1) (length host) && under_suffix host suffix

-- `HostPattern::matches_request`.
unfoldable pub matches_request : HostPattern → Option Bytes → Bool
matches_request pattern none = false
matches_request pattern (some host) = elim (normalize_host host) [
  | none ↦ false
  | some normal ↦ matches_normalized pattern normal
]

unfoldable pub host_matches : Option HostPattern → Option Bytes → Bool
host_matches none host = true
host_matches (some pattern) host = matches_request pattern host

unfoldable pub suffix_overlaps : Bytes → Bytes → Bool
unfolding under_suffix
suffix_overlaps more_specific broader =
    ltb (length broader) (length more_specific) && under_suffix more_specific broader

unfoldable pub hosts_overlap : Option HostPattern → Option HostPattern → Bool
unfolding matches_normalized suffix_overlaps
hosts_overlap none right = true
hosts_overlap (some left) none = true
hosts_overlap (some (exact left)) (some (exact right)) = left == right
hosts_overlap (some (exact host)) (some (wildcard_subdomain suffix)) =
    matches_normalized (wildcard_subdomain suffix) host
hosts_overlap (some (wildcard_subdomain suffix)) (some (exact host)) =
    matches_normalized (wildcard_subdomain suffix) host
hosts_overlap (some (wildcard_subdomain left)) (some (wildcard_subdomain right)) =
    left == right || suffix_overlaps left right || suffix_overlaps right left
