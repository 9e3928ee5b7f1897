-- ===== src/Text.antt =====
-- Rust's `str` as the list of its UTF-8 bytes, with the operations of the standard library that
-- the program uses.
pub mod Utf8
pub mod Split
use Prim.Native.Char.{code}
use Prim.Native.String.{String}
use rustrest.Prelude.{
  ℕ, ◌+◌, Bool, ◌&&◌, ◌||◌, List, [], ◌∷◌, ◌++◌, Option, none, some, leb, ltb, nat_eq,
  if◌then◌else◌, true, false,
}

abbrev pub Bytes : Type 0
Bytes = List ℕ

-- The bytes of an ASCII literal.
abbrev pub codes : String → Bytes
codes String.[] = []
codes (String.◌∷◌ c s) = code c ∷ codes s

abbrev pub between : ℕ → ℕ → ℕ → Bool
between lo hi c = leb lo c && leb c hi

unfoldable pub is_ascii_digit : ℕ → Bool
is_ascii_digit c = between b'0' b'9' c

unfoldable pub is_ascii_alphanumeric : ℕ → Bool
is_ascii_alphanumeric c = between b'0' b'9' c || between b'A' b'Z' c || between b'a' b'z' c

unfoldable pub is_ascii_hexdigit : ℕ → Bool
is_ascii_hexdigit c = between b'0' b'9' c || between b'A' b'F' c || between b'a' b'f' c

unfoldable pub to_ascii_lower : ℕ → ℕ
to_ascii_lower c = if between b'A' b'Z' c then c + 32 else c

-- The first part of `str::split` on one byte, and the parts behind it.
push_front : ℕ → Bytes × List Bytes → Bytes × List Bytes
push_front c (part, parts) = (c ∷ part, parts)

split_parts : ℕ → Bytes → Bytes × List Bytes
split_parts sep [] = ([], [])
split_parts sep (c ∷ s) =
    let rest = split_parts sep s in
    if nat_eq c sep then ([], rest.0 ∷ rest.1) else push_front c rest

-- `str::split` on an ASCII byte: always one part at least.
unfoldable pub split : ℕ → Bytes → List Bytes
unfolding split_parts push_front
split sep s = let parts = split_parts sep s in parts.0 ∷ parts.1

-- `[T]::join`.
unfoldable pub join : ℕ → List Bytes → Bytes
join sep [] = []
join sep (part ∷ []) = part
join sep (part ∷ next ∷ parts) = part ++ (sep ∷ join sep (next ∷ parts))

-- `str::strip_prefix` of one ASCII byte.
abbrev pub strip_prefix : ℕ → Bytes → Option Bytes
strip_prefix c [] = none
strip_prefix c (d ∷ s) = if nat_eq d c then some s else none

-- `Ord` of strings: lexicographic on bytes.
unfoldable pub bytes_lt : Bytes → Bytes → Bool
bytes_lt [] [] = false
bytes_lt [] (y ∷ ys) = true
bytes_lt (x ∷ xs) [] = false
bytes_lt (x ∷ xs) (y ∷ ys) = ltb x y || nat_eq x y && bytes_lt xs ys
