-- ===== src/Text/Utf8/Ascii.antt =====
-- `str::trim` on ASCII texts.
use rustrest.Prelude.{
  ℕ, ◌<◌, ◌≡◌, refl, sym, ◌∙◌, ap, true, false, List, [], ◌∷◌, ◌++◌, some, leb, All, arith, reverse,
}
use mathlib.Core.List.{reverse-reverse, reverse-append}
use rustrest.Text.{Bytes}
use rustrest.Text.Utf8.{
  Lead, lead, next_lead, emit, decode_from, decode_chars, encode_char, encode_chars, is_whitespace,
  skip_spaces, trim,
}

abbrev pub IsAscii : Bytes → Type 0
IsAscii s = All (λ c. c < 0x80) s

decode_from-ascii : (l : Lead) (s : Bytes) → l.needed ≡ 0 → IsAscii s → decode_from l s ≡ some s
unfolding decode_from next_lead lead emit
decode_from-ascii l [] done h = rw (done)
decode_from-ascii l (c ∷ s) done h =
    let small : leb c 0x7f ≡ true = ground (arith, h.0) in
    let next : Lead = record { needed = 0; bits = c; low = 0x80; high = 0xbf } in
    let here : next_lead l c ≡ some next = rw (done, small) in
    let rest = decode_from-ascii next s refl h.1 in rw (decode_from, here, rest)

encode_chars-ascii : (s : Bytes) → IsAscii s → encode_chars s ≡ s
unfolding encode_chars encode_char
encode_chars-ascii [] h = refl
encode_chars-ascii (c ∷ s) h = ground (arith, h.0, encode_chars-ascii s h.1)

pub decode_chars-ascii : (s : Bytes) → IsAscii s → decode_chars s ≡ some s
unfolding decode_chars
decode_chars-ascii s h =
    decode_from-ascii (record { needed = 0; bits = 0; low = 0x80; high = 0xbf }) s refl h

skip_spaces-first : (c : ℕ) (s : List ℕ) → is_whitespace c ≡ false → skip_spaces (c ∷ s) ≡ c ∷ s
unfolding skip_spaces
skip_spaces-first c s black = rw (black)

-- What has no white space at its ends is left alone.
trim_between :
    (c d : ℕ) (s : List ℕ)
    → is_whitespace c ≡ false
    → is_whitespace d ≡ false
    → reverse (skip_spaces (reverse (skip_spaces (c ∷ (s ++ d ∷ []))))) ≡ c ∷ (s ++ d ∷ [])
trim_between c d s left right =
    ap (λ (x : List ℕ). reverse (skip_spaces (reverse x))) (skip_spaces-first c (s ++ d ∷ []) left)
    ∙ ap (λ (x : List ℕ). reverse (skip_spaces x)) (reverse-append (c ∷ s) (d ∷ []))
    ∙ ap reverse (skip_spaces-first d (reverse (c ∷ s)) right)
    ∙ ap reverse (sym (reverse-append (c ∷ s) (d ∷ [])))
    ∙ reverse-reverse (c ∷ (s ++ d ∷ []))

pub trim-between :
    (c d : ℕ) (s : Bytes)
    → IsAscii (c ∷ (s ++ d ∷ []))
    → is_whitespace c ≡ false
    → is_whitespace d ≡ false
    → trim (c ∷ (s ++ d ∷ [])) ≡ c ∷ (s ++ d ∷ [])
unfolding trim
trim-between c d s ascii left right =
    let decoded = decode_chars-ascii (c ∷ (s ++ d ∷ [])) ascii in
    let trimmed = trim_between c d s left right in
    rw (trim, decoded) (ap encode_chars trimmed ∙ encode_chars-ascii (c ∷ (s ++ d ∷ [])) ascii)

-- A space in front goes.
pub trim-space :
    (c d : ℕ) (s : Bytes)
    → IsAscii (c ∷ (s ++ d ∷ []))
    → is_whitespace c ≡ false
    → is_whitespace d ≡ false
    → trim (32 ∷ c ∷ (s ++ d ∷ [])) ≡ c ∷ (s ++ d ∷ [])
unfolding trim skip_spaces is_whitespace
trim-space c d s ascii left right =
    let decoded = decode_chars-ascii (32 ∷ c ∷ (s ++ d ∷ [])) (omega arith, ascii) in
    let trimmed = trim_between c d s left right in
    rw (trim, decoded) (ap encode_chars trimmed ∙ encode_chars-ascii (c ∷ (s ++ d ∷ [])) ascii)
