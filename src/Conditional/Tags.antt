-- ===== src/Conditional/Tags.antt =====
-- Lists of entity tags in src/app/middleware/conditional.rs: what is read of a field that a client
-- writes.
use rustrest.Prelude.{
  ℕ, ◌≤◌, ◌<◌, ◌≡◌, ◌≢◌, refl, ◌∙◌, ap, inl, inr, Bool, true, false, not, ◌&&◌, List, [], ◌∷◌, ◌++◌,
  some, nat_eq, if◌then◌else◌, any, all, All, All-append, ◌==◌, ℕ_eq, list_eq, list_beq, arith,
  Bool-cases, append_assoc, append-nil,
}
use rustrest.Text.{Bytes, codes}
use rustrest.Text.Utf8.{trim, is_whitespace}
use rustrest.Text.Utf8.Ascii.{IsAscii, trim-between, trim-space}
use rustrest.Conditional.{
  is_opaque_byte, split_weak, strip_suffix, unquoted, parse_entity_tag, tag_parts, TagComparison,
  strong, weak, strong_eq, strong_tag_matches, weak_tag_matches, compare_tags,
  entity_tag_list_matches,
}

pub record EntityTag : Type 0 where
  pub is_weak : Bool
  pub opaque : Bytes

-- A printable ASCII character other than a quote.
abbrev pub IsTagByte : ℕ → Type 0
IsTagByte c = (0x21 ≤ c) × (c ≤ 0x7e) × (c ≢ b'"')

abbrev pub IsTag : EntityTag → Type 0
IsTag tag = All IsTagByte tag.opaque

abbrev quoted : Bytes → Bytes
quoted opaque = b'"' ∷ (opaque ++ b'"' ∷ [])

abbrev pub write_tag : EntityTag → Bytes
write_tag tag = if tag.is_weak then b'W' ∷ b'/' ∷ quoted tag.opaque else quoted tag.opaque

-- The tags behind the first one, each behind a comma and a space.
abbrev pub write_more : List EntityTag → Bytes
write_more [] = []
write_more (tag ∷ tags) = b',' ∷ 32 ∷ (write_tag tag ++ write_more tags)

abbrev pub write_tags : EntityTag → List EntityTag → Bytes
write_tags tag tags = write_tag tag ++ write_more tags

-- Up to the closing quote, no comma separates.
tag_parts-opaque :
    (opaque s : Bytes)
    → All IsTagByte opaque
    → tag_parts true (opaque ++ b'"' ∷ s)
      ≡ (opaque ++ b'"' ∷ (tag_parts false s).0, (tag_parts false s).1)
unfolding tag_parts
tag_parts-opaque [] s h = refl
tag_parts-opaque (c ∷ opaque) s h =
    let plain : nat_eq c b'"' ≡ false = ground (arith, h.0.2) in
    let inside : (not (nat_eq c b'"') && nat_eq c b',' && not true) ≡ false = ground arith in
    rw (plain, tag_parts-opaque opaque s h.1) (ground arith)

tag_parts-quoted :
    (opaque s : Bytes)
    → All IsTagByte opaque
    → tag_parts false (quoted opaque ++ s)
      ≡ (quoted opaque ++ (tag_parts false s).0, (tag_parts false s).1)
unfolding tag_parts
tag_parts-quoted opaque s h =
    let rest = tag_parts-opaque opaque s h in
    rw (
      append_assoc opaque (b'"' ∷ []) s,
      append_assoc opaque (b'"' ∷ []) (tag_parts false s).0,
      rest,
    )

tag_parts-write_tag :
    (tag : EntityTag) (s : Bytes)
    → IsTag tag
    → tag_parts false (write_tag tag ++ s)
      ≡ (write_tag tag ++ (tag_parts false s).0, (tag_parts false s).1)
unfolding tag_parts
tag_parts-write_tag tag s h = elim (Bool-cases tag.is_weak) [
  | inl marked ↦
      rw (marked) (
        ap (λ (p : Bytes × List Bytes). (b'W' ∷ b'/' ∷ p.0, p.1)) (tag_parts-quoted tag.opaque s h))
  | inr bare ↦ rw (bare) (tag_parts-quoted tag.opaque s h)
]

abbrev pub spaced : List EntityTag → List Bytes
spaced [] = []
spaced (tag ∷ tags) = (32 ∷ write_tag tag) ∷ spaced tags

tag_parts-write_more :
    (tags : List EntityTag) → All IsTag tags → tag_parts false (write_more tags) ≡ ([], spaced tags)
unfolding tag_parts
tag_parts-write_more [] h = refl
tag_parts-write_more (tag ∷ tags) h =
    let here = tag_parts-write_tag tag (write_more tags) h.0 in
    let rest = tag_parts-write_more tags h.1 in rw (here, rest, append-nil)

-- The list is cut between the tags, whatever commas they have.
pub tag_parts-write_tags :
    (tag : EntityTag) (tags : List EntityTag)
    → IsTag tag
    → All IsTag tags
    → tag_parts false (write_tags tag tags) ≡ (write_tag tag, spaced tags)
tag_parts-write_tags tag tags h k =
    let here = tag_parts-write_tag tag (write_more tags) h in
    here ∙ rw (tag_parts-write_more tags k, append-nil)

IsTagByte-IsAscii : (opaque : Bytes) → All IsTagByte opaque → IsAscii opaque
IsTagByte-IsAscii [] h = tt
IsTagByte-IsAscii (c ∷ opaque) h = (omega arith, IsTagByte-IsAscii opaque h.1)

-- A tag has no white space at its ends, and a space in front of it is cut off.
pub trim-write_tag :
    (tag : EntityTag)
    → IsTag tag
    → (trim (write_tag tag) ≡ write_tag tag) × (trim (32 ∷ write_tag tag) ≡ write_tag tag)
unfolding is_whitespace
trim-write_tag tag h =
    let body =
      All-append (λ c. c < 0x80) tag.opaque (b'"' ∷ []) (IsTagByte-IsAscii tag.opaque h)
        (omega arith, tt) in
    elim (Bool-cases tag.is_weak) [
      | inl marked ↦
          let ascii : IsAscii (b'W' ∷ ((b'/' ∷ b'"' ∷ tag.opaque) ++ b'"' ∷ [])) =
            (omega arith, (omega arith, (omega arith, body))) in
          rw (marked) (
            trim-between b'W' b'"' (b'/' ∷ b'"' ∷ tag.opaque) ascii refl refl,
            trim-space b'W' b'"' (b'/' ∷ b'"' ∷ tag.opaque) ascii refl refl,
          )
      | inr bare ↦
          let ascii : IsAscii (b'"' ∷ (tag.opaque ++ b'"' ∷ [])) = (omega arith, body) in
          rw (bare) (
            trim-between b'"' b'"' tag.opaque ascii refl refl,
            trim-space b'"' b'"' tag.opaque ascii refl refl,
          )
    ]

strip_suffix-concat : (c : ℕ) (s : Bytes) → strip_suffix c (s ++ c ∷ []) ≡ some s
unfolding strip_suffix
strip_suffix-concat c [] = ground arith
strip_suffix-concat c (d ∷ []) = let rest = strip_suffix-concat c [] in rw (strip_suffix, rest)
strip_suffix-concat c (d ∷ e ∷ s) =
    let rest = strip_suffix-concat c (e ∷ s) in rw (strip_suffix, rest)

all-is_opaque_byte : (opaque : Bytes) → All IsTagByte opaque → all is_opaque_byte opaque ≡ true
unfolding is_opaque_byte
all-is_opaque_byte [] h = refl
all-is_opaque_byte (c ∷ opaque) h = ground (arith, h.0, all-is_opaque_byte opaque h.1)

unquoted-quoted : (opaque : Bytes) → unquoted (quoted opaque) ≡ some opaque
unfolding unquoted
unquoted-quoted opaque = strip_suffix-concat b'"' opaque

split_weak-bare : (s : Bytes) → split_weak (b'"' ∷ s) ≡ (false, b'"' ∷ s)
split_weak-bare [] = refl
split_weak-bare (c ∷ s) = refl

parse_entity_tag-write_tag :
    (tag : EntityTag)
    → IsTag tag
    → parse_entity_tag (write_tag tag) ≡ some (tag.is_weak, tag.opaque)
unfolding parse_entity_tag
parse_entity_tag-write_tag tag h =
    let (trimmed, _) = trim-write_tag tag h in
    let inner = unquoted-quoted tag.opaque in
    let bytes = all-is_opaque_byte tag.opaque h in
    elim (Bool-cases tag.is_weak) [
      | inl marked ↦ rw (parse_entity_tag, trimmed, marked, inner, bytes)
      | inr bare ↦
          let strong_mark = split_weak-bare (tag.opaque ++ b'"' ∷ []) in
          rw (parse_entity_tag, trimmed, bare, strong_mark, inner, bytes)
    ]

-- The comparison of two tags that a list asks for.
abbrev pub same_tag : TagComparison → EntityTag → EntityTag → Bool
same_tag strong a b = not a.is_weak && not b.is_weak && a.opaque == b.opaque
same_tag weak a b = a.opaque == b.opaque

strong_eq-marks :
    (marked marked' : Bool) (a b : Bytes)
    → strong_eq (some (marked, a)) (some (marked', b)) ≡ (not marked && not marked' && a == b)
strong_eq-marks true true a b = refl
strong_eq-marks true false a b = refl
strong_eq-marks false true a b = refl
strong_eq-marks false false a b = refl

compare_tags-write_tag :
    (comparison : TagComparison) (a b : EntityTag)
    → IsTag a
    → IsTag b
    → compare_tags comparison (write_tag a) (some (write_tag b)) ≡ same_tag comparison a b
unfolding strong_tag_matches weak_tag_matches
compare_tags-write_tag strong a b h k =
    rw (parse_entity_tag-write_tag a h, parse_entity_tag-write_tag b k)
      (strong_eq-marks a.is_weak b.is_weak a.opaque b.opaque)
compare_tags-write_tag weak a b h k =
    rw (parse_entity_tag-write_tag a h, parse_entity_tag-write_tag b k)

any-spaced :
    (comparison : TagComparison) (tags : List EntityTag) (current : EntityTag)
    → All IsTag tags
    → IsTag current
    → any
        (λ candidate. compare_tags comparison (trim candidate) (some (write_tag current)))
        (spaced tags)
      ≡ any (λ tag. same_tag comparison tag current) tags
any-spaced comparison [] current h k = refl
any-spaced comparison (tag ∷ tags) current h k =
    let (_, trimmed) = trim-write_tag tag h.0 in
    let here = compare_tags-write_tag comparison tag current h.0 k in
    rw (trimmed, here, any-spaced comparison tags current h.1 k)

pub not_star : (tag : EntityTag) → (write_tag tag == codes "*") ≡ false
unfolding list_beq
not_star tag = elim (Bool-cases tag.is_weak) [ inl marked ↦ rw (marked) | inr bare ↦ rw (bare) ]

pub no_star :
    (tags : List EntityTag)
    → All IsTag tags
    → any (λ candidate. trim candidate == codes "*") (spaced tags) ≡ false
no_star [] h = refl
no_star (tag ∷ tags) h =
    let (_, trimmed) = trim-write_tag tag h.0 in
    let other = not_star tag in rw (trimmed, other, no_star tags h.1)

-- A list of entity tags of printable ASCII, written with a comma and a space between them, matches the
-- current tag exactly where one of the tags is the same: by the strong comparison, where both are
-- strong and their texts agree, by the weak one, where their texts agree. Commas in the texts do not
-- matter.
pub entity_tag_list_matches-write_tags :
    (comparison : TagComparison) (tag : EntityTag) (tags : List EntityTag) (current : EntityTag)
    → IsTag tag
    → All IsTag tags
    → IsTag current
    → entity_tag_list_matches (write_tags tag tags) (some (write_tag current)) true comparison
      ≡ some (any (λ candidate. same_tag comparison candidate current) (tag ∷ tags))
unfolding entity_tag_list_matches
entity_tag_list_matches-write_tags comparison tag tags current h k l =
    let listed = tag_parts-write_tags tag tags h k in
    let (trimmed, _) = trim-write_tag tag h in
    let first = not_star tag in
    let others = no_star tags k in
    let here = compare_tags-write_tag comparison tag current h l in
    rw (
      entity_tag_list_matches,
      listed,
      trimmed,
      first,
      others,
      here,
      any-spaced comparison tags current k l,
    )
