-- ===== src/Text/Utf8.antt =====
-- UTF-8 and the character classes of Rust's `char`, as the standard library documents them.
pub mod Ascii
use rustrest.Prelude.{
  ℕ, ◌+◌, ◌-◌, ◌*◌, ◌/◌, ◌%◌, Bool, ◌||◌, List, [], ◌∷◌, ◌++◌, Option, none, some, leb, ltb, nat_eq,
  if◌then◌else◌, reverse,
}
use rustrest.Text.{Bytes, between}

-- What a lead byte asks for: how many bytes follow, its bits, and the range of the next byte.
record Lead : Type 0 where
  pub needed : ℕ
  pub bits : ℕ
  pub low : ℕ
  pub high : ℕ

abbrev lead_of : ℕ → ℕ → ℕ → ℕ → Option Lead
lead_of needed bits low high =
    some (record { needed = needed; bits = bits; low = low; high = high })

lead : ℕ → Option Lead
lead b =
    if leb b 0x7f
    then lead_of 0 b 0x80 0xbf
    else if between 0xc2 0xdf b
    then lead_of 1 (b - 0xc0) 0x80 0xbf
    else if nat_eq b 0xe0
    then lead_of 2 0 0xa0 0xbf
    else if nat_eq b 0xed
    then lead_of 2 0xd 0x80 0x9f
    else if between 0xe1 0xef b
    then lead_of 2 (b - 0xe0) 0x80 0xbf
    else if nat_eq b 0xf0
    then lead_of 3 0 0x90 0xbf
    else if nat_eq b 0xf4
    then lead_of 3 4 0x80 0x8f
    else if between 0xf1 0xf3 b
    then lead_of 3 (b - 0xf0) 0x80 0xbf
    else none

-- The state behind one more byte of a sequence that has begun.
continue_with : Lead → ℕ → Option Lead
continue_with l b =
    if between l.low l.high b
    then lead_of (l.needed - 1) (l.bits * 64 + (b - 0x80)) 0x80 0xbf
    else none

next_lead : Lead → ℕ → Option Lead
unfolding lead continue_with
next_lead l b = if nat_eq l.needed 0 then lead b else continue_with l b

-- Adds the character if the sequence is complete.
emit : Lead → Option (List ℕ) → Option (List ℕ)
emit l none = none
emit l (some cs) = if nat_eq l.needed 0 then some (l.bits ∷ cs) else some cs

decode_from : Lead → Bytes → Option (List ℕ)
unfolding next_lead emit
decode_from l [] = if nat_eq l.needed 0 then some [] else none
decode_from l (b ∷ s) = elim (next_lead l b) [ none ↦ none | some l' ↦ emit l' (decode_from l' s) ]

-- `str::from_utf8(…).chars()`: the code points, or `none` if the bytes are not UTF-8.
unfoldable pub decode_chars : Bytes → Option (List ℕ)
unfolding decode_from
decode_chars s = decode_from (record { needed = 0; bits = 0; low = 0x80; high = 0xbf }) s

-- `char::encode_utf8`.
unfoldable pub encode_char : ℕ → Bytes
encode_char c =
    if ltb c 0x80
    then c ∷ []
    else if ltb c 0x800
    then (0xc0 + c / 64) ∷ (0x80 + c % 64) ∷ []
    else if ltb c 0x10000
    then (0xe0 + c / 4096) ∷ (0x80 + c / 64 % 64) ∷ (0x80 + c % 64) ∷ []
    else (0xf0 + c / 262144) ∷ (0x80 + c / 4096 % 64) ∷ (0x80 + c / 64 % 64) ∷ (0x80 + c % 64) ∷ []

unfoldable pub encode_chars : List ℕ → Bytes
unfolding encode_char
encode_chars [] = []
encode_chars (c ∷ cs) = encode_char c ++ encode_chars cs

-- `char::is_control`: general category Cc.
unfoldable pub is_control : ℕ → Bool
is_control c = leb c 0x1f || between 0x7f 0x9f c

-- `char::is_whitespace`: the property White_Space.
unfoldable pub is_whitespace : ℕ → Bool
is_whitespace c =
    between 0x9 0xd c
    || nat_eq c 0x20
    || nat_eq c 0x85
    || nat_eq c 0xa0
    || nat_eq c 0x1680
    || between 0x2000 0x200a c
    || nat_eq c 0x2028
    || nat_eq c 0x2029
    || nat_eq c 0x202f
    || nat_eq c 0x205f
    || nat_eq c 0x3000

skip_spaces : List ℕ → List ℕ
unfolding is_whitespace
skip_spaces [] = []
skip_spaces (c ∷ cs) = let rest = skip_spaces cs in if is_whitespace c then rest else c ∷ cs

-- `str::trim`.
unfoldable pub trim : Bytes → Bytes
unfolding skip_spaces decode_chars encode_chars
trim s = elim (decode_chars s) [
  | none ↦ s
  | some cs ↦ encode_chars (reverse (skip_spaces (reverse (skip_spaces cs))))
]
