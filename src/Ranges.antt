-- ===== src/Ranges.antt =====
-- The `Range` header of static files in src/app/router.rs: `parse_byte_range`.
use rustrest.Prelude.{
  ℕ, ◌+◌, ◌-◌, ◌*◌, ◌^◌, ◌≤◌, ◌<◌, ◌≡◌, refl, inl, inr, [], ◌∷◌, map, Option, none, some, arith,
  leb, ltb, min, nat_eq, if◌then◌else◌, is_empty, contains, ◌==◌, ℕ_eq, list_eq, Bool-cases,
  Option-cases,
}
use rustrest.Text.{Bytes, codes, is_ascii_digit, to_ascii_lower}
use rustrest.Text.Utf8.{trim}

pub data RangeParse : Type 0 where
  ignored unsatisfiable : RangeParse
  satisfiable : ℕ → ℕ → RangeParse

-- `str::split_once` on one byte.
unfoldable pub split_once : ℕ → Bytes → Option (Bytes × Bytes)
split_once sep [] = none
split_once sep (c ∷ s) =
    let rest = split_once sep s in
    let longer : Option (Bytes × Bytes) = elim rest [
      | none ↦ none
      | some (a, b) ↦ some (c ∷ a, b)
    ] in
    if nat_eq c sep then some ([], s) else longer

-- The digits of `str::parse::<u64>`, behind a value that was read; too large a value is an error.
unfoldable pub parse_digits : Bytes → ℕ → Option ℕ
parse_digits [] value = some value
parse_digits (c ∷ s) value =
    let next = value * 10 + (c - b'0') in
    let rest = parse_digits s next in
    if is_ascii_digit c then (if ltb next (2 ^ 64) then rest else none) else none

-- `str::parse::<u64>`: an optional plus sign and one digit at least.
unfoldable pub parse_u64 : Bytes → Option ℕ
unfolding parse_digits
parse_u64 [] = none
parse_u64 (c ∷ []) = parse_digits (c ∷ []) 0
parse_u64 (c ∷ d ∷ s) = if nat_eq c b'+' then parse_digits (d ∷ s) 0 else parse_digits (c ∷ d ∷ s) 0

-- The suffix form: the last `suffix` bytes.
abbrev pub suffix_range : Option ℕ → ℕ → RangeParse
suffix_range none total_len = ignored
suffix_range (some suffix) total_len =
    if nat_eq suffix 0
    then unsatisfiable
    else if nat_eq total_len 0
    then unsatisfiable
    else satisfiable (total_len - suffix) (total_len - 1)

-- The end of the range, where it is given well.
abbrev pub range_end : Bytes → ℕ → Option ℕ
range_end end_raw total_len =
    if is_empty end_raw
    then some (total_len - 1)
    else elim (parse_u64 end_raw) [ none ↦ none | some last ↦ some (min last (total_len - 1)) ]

abbrev pub bounded_range : ℕ → Option ℕ → RangeParse
bounded_range start none = ignored
bounded_range start (some last) = if ltb last start then ignored else satisfiable start last

abbrev pub range_from : Option ℕ → Bytes → ℕ → RangeParse
range_from none end_raw total_len = ignored
range_from (some start) end_raw total_len =
    if leb total_len start then unsatisfiable else bounded_range start (range_end end_raw total_len)

-- What follows the unit.
unfoldable pub parse_range_spec : Bytes → ℕ → RangeParse
unfolding split_once parse_u64
parse_range_spec spec total_len =
    if contains b',' spec then ignored else elim (split_once b'-' spec) [
      | none ↦ ignored
      | some (start_raw, end_raw) ↦
          if is_empty (trim start_raw)
          then suffix_range (parse_u64 (trim end_raw)) total_len
          else range_from (parse_u64 (trim start_raw)) (trim end_raw) total_len
    ]

unfoldable pub parse_byte_range : Bytes → ℕ → RangeParse
unfolding parse_range_spec split_once
parse_byte_range raw total_len = elim (split_once b'=' (trim raw)) [
  | none ↦ ignored
  | some (unit, spec) ↦
      if map to_ascii_lower (trim unit) == codes "bytes"
      then parse_range_spec (trim spec) total_len
      else ignored
]

-- A range that lies in a resource of the length.
abbrev pub InResource : ℕ → RangeParse → Type 0
InResource total_len ignored = Unit
InResource total_len unsatisfiable = Unit
InResource total_len (satisfiable start last) = (start ≤ last) × (last < total_len)

suffix_range-InResource :
    (suffix : Option ℕ) (total_len : ℕ) → InResource total_len (suffix_range suffix total_len)
suffix_range-InResource none total_len = tt
suffix_range-InResource (some suffix) total_len = elim (Bool-cases (nat_eq suffix 0)) [
  | inl empty ↦ rw (empty) tt
  | inr some_bytes ↦ elim (Bool-cases (nat_eq total_len 0)) [
    | inl nothing ↦ rw (some_bytes, nothing) tt
    | inr longer ↦ rw (some_bytes, longer) (ground arith, ground arith)
  ]
]

range_end_lt :
    (end_raw : Bytes) (total_len last : ℕ)
    → 0 < total_len
    → range_end end_raw total_len ≡ some last
    → last < total_len
range_end_lt end_raw total_len last h e = ground arith

bounded_range-InResource :
    (start total_len : ℕ) (last : Option ℕ)
    → ((n : ℕ) → last ≡ some n → n < total_len)
    → InResource total_len (bounded_range start last)
bounded_range-InResource start total_len none h = tt
bounded_range-InResource start total_len (some last) h = elim (Bool-cases (ltb last start)) [
  | inl reversed ↦ rw (reversed) tt
  | inr ordered ↦ rw (ordered) (ground arith, h last refl)
]

range_from-InResource :
    (start : Option ℕ) (end_raw : Bytes) (total_len : ℕ)
    → InResource total_len (range_from start end_raw total_len)
range_from-InResource none end_raw total_len = tt
range_from-InResource (some start) end_raw total_len = elim (Bool-cases (leb total_len start)) [
  | inl beyond ↦ rw (beyond) tt
  | inr inside ↦ rw (inside) (
      bounded_range-InResource start total_len (range_end end_raw total_len)
        (λ n. range_end_lt end_raw total_len n (ground arith)))
]

parse_range_spec-InResource :
    (spec : Bytes) (total_len : ℕ) → InResource total_len (parse_range_spec spec total_len)
unfolding parse_range_spec
parse_range_spec-InResource spec total_len = elim (Bool-cases (contains b',' spec)) [
  | inl several ↦ rw (several) tt
  | inr single ↦ elim (Option-cases (split_once b'-' spec)) [
    | inl undashed ↦ rw (single, undashed) tt
    | inr ((start_raw, end_raw), dashed) ↦ elim (Bool-cases (is_empty (trim start_raw))) [
      | inl suffix ↦
          rw (single, dashed, suffix) (suffix_range-InResource (parse_u64 (trim end_raw)) total_len)
      | inr full ↦
          rw (single, dashed, full)
            (range_from-InResource (parse_u64 (trim start_raw)) (trim end_raw) total_len)
    ]
  ]
]

-- Whatever the header says, the range that `parse_byte_range` answers for a resource is not empty
-- and lies within the resource.
pub parse_byte_range-InResource :
    (raw : Bytes) (total_len : ℕ) → InResource total_len (parse_byte_range raw total_len)
unfolding parse_byte_range
parse_byte_range-InResource raw total_len = elim (Option-cases (split_once b'=' (trim raw))) [
  | inl unsplit ↦ rw (parse_byte_range, unsplit) tt
  | inr ((unit, spec), parts) ↦
      elim (Bool-cases (map to_ascii_lower (trim unit) == codes "bytes")) [
        | inl bytes ↦
            rw (parse_byte_range, parts, bytes) (parse_range_spec-InResource (trim spec) total_len)
        | inr other ↦ rw (parse_byte_range, parts, other) tt
      ]
]
