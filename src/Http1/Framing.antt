-- ===== src/Http1/Framing.antt =====
-- The framing of a request head in src/app/http1.rs: what `parse_content_length` and `inspect_head`
-- read of it.
use rustrest.Prelude.{
  ℕ, ◌+◌, ◌-◌, ◌*◌, ◌^◌, ◌≤◌, ◌≡◌, refl, ap, ◌∙◌, inl, inr, Bool, true, false, not, ◌&&◌, ◌||◌,
  List, [], ◌∷◌, Option, none, some, leb, ltb, if◌then◌else◌, is_empty, length, map, list_beq,
  list_beq_iff, all, any, All, Bool-cases, Option-cases, arith, ℕ_eq, list_eq, ◌==◌, ◌⊎◌, ◌↔◌,
  subst,
}
use rustrest.Text.{Bytes, codes, is_ascii_digit, to_ascii_lower}
use rustrest.Http1.{
  content_digits, parse_content_length, and_then, decodable, max_decodable_length, Header, Request,
  Found, found_nothing, scan_header, scan_headers, agrees, eq_ignore_ascii_case, is_connect,
  verdict_of, classify, complete, complete_head, HeadVerdict, persistent, ambiguous, unwrap_or_zero,
}

-- The number that digits write, behind a number.
abbrev pub decimal : Bytes → ℕ → ℕ
decimal [] n = n
decimal (byte ∷ value) n = decimal value (n * 10 + (byte - b'0'))

decimal-ge : (value : Bytes) (n : ℕ) → n ≤ decimal value n
decimal-ge [] n = omega arith
decimal-ge (byte ∷ value) n = omega (arith, decimal-ge value (n * 10 + (byte - b'0')))

-- Digits are read as the number that they write, or it is no machine word.
content_digits-decimal :
    (value : Bytes) (n : ℕ)
    → and_then (content_digits value n) decodable ≡ (
        if all is_ascii_digit value && leb (decimal value n) max_decodable_length
        then some (decimal value n)
        else none)
unfolding content_digits
content_digits-decimal [] n = refl
content_digits-decimal (byte ∷ value) n = elim (Bool-cases (is_ascii_digit byte)) [
  | inr other ↦ rw (content_digits, other)
  | inl digit ↦
      let big = decimal-ge value (n * 10 + (byte - b'0')) in
      elim (Bool-cases (ltb (n * 10) (2 ^ 64))) [
        | inr over ↦
            let no : leb (decimal value (n * 10 + (byte - b'0'))) max_decodable_length ≡ false =
              ground arith in
            rw (content_digits, digit, over, no) (ground arith)
        | inl room ↦ elim (Bool-cases (ltb (n * 10 + (byte - b'0')) (2 ^ 64))) [
          | inr over ↦
              let no : leb (decimal value (n * 10 + (byte - b'0'))) max_decodable_length ≡ false =
                ground arith in
              rw (content_digits, digit, room, over, no) (ground arith)
          | inl fits ↦
              rw (content_digits, digit, room, fits)
                (content_digits-decimal value (n * 10 + (byte - b'0')))
        ]
      ]
]

-- `parse_content_length` reads one digit at least and nothing but digits, as the number that they write, and refuses
-- numbers above `u64::MAX - 2`.
pub parse_content_length-decimal :
    (value : Bytes)
    → parse_content_length value ≡ (
        if not (is_empty value)
          && all is_ascii_digit value
          && leb (decimal value 0) max_decodable_length
        then some (decimal value 0)
        else none)
unfolding parse_content_length
parse_content_length-decimal [] = refl
parse_content_length-decimal (byte ∷ value) = content_digits-decimal (byte ∷ value) 0

-- Names that the loop looks for.
abbrev pub names : Bytes → Header → Bool
names name header = eq_ignore_ascii_case header.name name

abbrev te : Bytes
te = codes "transfer-encoding"

abbrev cl : Bytes
cl = codes "content-length"

abbrev up : Bytes
up = codes "upgrade"

-- A header that leaves the framing to the length `n`.
pub record IsTracked (n : ℕ) (header : Header) : Type 0 where
  pub not_encoded : names (codes "transfer-encoding") header ≡ false
  pub no_upgrade : names (codes "upgrade") header ≡ false
  pub same_length :
      names (codes "content-length") header ≡ true → parse_content_length header.value ≡ some n

-- No name is two of them.
exclusive :
    (a b name : Bytes)
    → (map to_ascii_lower a == map to_ascii_lower b) ≡ false
    → eq_ignore_ascii_case name a ≡ true
    → eq_ignore_ascii_case name b ≡ false
unfolding eq_ignore_ascii_case
exclusive a b name different same = ground (
  arith,
  list_beq_iff (map to_ascii_lower name) (map to_ascii_lower a),
  list_beq_iff (map to_ascii_lower name) (map to_ascii_lower b),
  list_beq_iff (map to_ascii_lower a) (map to_ascii_lower b),
)

length_not_upgrade :
    (name : Bytes) → eq_ignore_ascii_case name cl ≡ true → eq_ignore_ascii_case name up ≡ false
unfolding list_beq to_ascii_lower
length_not_upgrade name = exclusive cl up name refl

encoding_not_length :
    (name : Bytes) → eq_ignore_ascii_case name te ≡ true → eq_ignore_ascii_case name cl ≡ false
unfolding list_beq to_ascii_lower
encoding_not_length name = exclusive te cl name refl

-- What the loop keeps where it found no reason to stop tracking.
record Tracked (f : Found) (headers : List Header) (g : Found) : Type 0 where
  headers_tracked : All (IsTracked (unwrap_or_zero g.content_length)) headers
  transfer_encoding : f.transfer_encoding ≡ false
  upgrade : f.upgrade ≡ false
  valid : f.invalid_content_length ≡ false
  kept : (f.content_length ≡ none) ⊎ (f.content_length ≡ g.content_length)

agrees-cases : (o : Option ℕ) (m : ℕ) → agrees o m ≡ true → (o ≡ none) ⊎ (o ≡ some m)
agrees-cases none m h = inl refl
agrees-cases (some n) m h = inr (ap some (ground arith))

header-Tracked :
    (f : Found) (header : Header) (headers : List Header) (g : Found)
    → Tracked (scan_header f header) headers g
    → Tracked f (header ∷ headers) g
unfolding scan_header
header-Tracked f header headers g h = elim (Bool-cases (names te header)) [
  | inl encoded ↦ let no = rw (scan_header, encoded) at h.transfer_encoding in absurd (cc)
  | inr not_te ↦ elim (Bool-cases (names cl header)) [
    | inl is_cl ↦ elim (Option-cases (parse_content_length header.value)) [
      | inl bad ↦ let no = rw (scan_header, not_te, is_cl, bad) at h.valid in absurd (cc)
      | inr (m, good) ↦ elim (Bool-cases (agrees f.content_length m)) [
        | inr other ↦
            let no = rw (scan_header, not_te, is_cl, good, other) at h.valid in absurd (cc)
        | inl agreed ↦
            let t = rw (scan_header, not_te, is_cl, good, agreed) at h.transfer_encoding in
            let u = rw (scan_header, not_te, is_cl, good, agreed) at h.upgrade in
            let v = rw (scan_header, not_te, is_cl, good, agreed) at h.valid in
            let k = rw (scan_header, not_te, is_cl, good, agreed) at h.kept in
            let same : some m ≡ g.content_length = elim k [
              | inl none_left ↦ absurd (cc)
              | inr e ↦ e
            ] in
            let n : m ≡ unwrap_or_zero g.content_length = ap unwrap_or_zero same in
            record {
              headers_tracked = (
                record {
                  not_encoded = not_te;
                  no_upgrade = length_not_upgrade header.name is_cl;
                  same_length = λ here. good ∙ ap some n;
                },
                h.headers_tracked,
              );
              transfer_encoding = t;
              upgrade = u;
              valid = v;
              kept = elim (agrees-cases f.content_length m agreed) [
                | inl fresh ↦ inl fresh
                | inr e ↦ inr (e ∙ same)
              ];
            }
      ]
    ]
    | inr not_cl ↦ elim (Bool-cases (names up header)) [
      | inl upgrades ↦
          let no = rw (scan_header, not_te, not_cl, upgrades) at h.upgrade in absurd (cc)
      | inr not_up ↦
          let h' : Tracked f headers g = rw (scan_header, not_te, not_cl, not_up) at h in
          record {
            headers_tracked = (
              record {
                not_encoded = not_te;
                no_upgrade = not_up;
                same_length = λ is_cl. absurd (cc);
              },
              h'.headers_tracked,
            );
            transfer_encoding = h'.transfer_encoding;
            upgrade = h'.upgrade;
            valid = h'.valid;
            kept = h'.kept;
          }
    ]
  ]
]

scan_headers-Tracked :
    (f : Found) (headers : List Header)
    → let g = scan_headers f headers in
      g.transfer_encoding ≡ false
      → g.upgrade ≡ false
      → g.invalid_content_length ≡ false
      → Tracked f headers g
unfolding scan_headers
scan_headers-Tracked f [] t u v = record {
  headers_tracked = tt;
  transfer_encoding = t;
  upgrade = u;
  valid = v;
  kept = inr refl;
}
scan_headers-Tracked f (header ∷ headers) t u v =
    header-Tracked f header headers (scan_headers (scan_header f header) headers)
      (scan_headers-Tracked (scan_header f header) headers t u v)

-- What the loop finds of one kind of header.
scan_header-flags :
    (f : Found) (header : Header)
    → ((scan_header f header).transfer_encoding ≡ (f.transfer_encoding || names te header))
      × ((scan_header f header).content_length_present
          ≡ (f.content_length_present || names cl header))
unfolding scan_header
scan_header-flags f header = elim (Bool-cases (names te header)) [
  | inl encoded ↦
      let not_length = encoding_not_length header.name encoded in
      rw (scan_header, encoded, not_length) (ground arith, ground arith)
  | inr not_te ↦ elim (Bool-cases (names cl header)) [
    | inr not_cl ↦ elim (Bool-cases (names up header)) [
      | inl upgrades ↦ rw (scan_header, not_te, not_cl, upgrades) (ground arith, ground arith)
      | inr not_up ↦ rw (scan_header, not_te, not_cl, not_up) (ground arith, ground arith)
    ]
    | inl is_cl ↦ elim (Option-cases (parse_content_length header.value)) [
      | inl bad ↦ rw (scan_header, not_te, is_cl, bad) (ground arith, ground arith)
      | inr (m, good) ↦ elim (Bool-cases (agrees f.content_length m)) [
        | inr other ↦ rw (scan_header, not_te, is_cl, good, other) (ground arith, ground arith)
        | inl agreed ↦ rw (scan_header, not_te, is_cl, good, agreed) (ground arith, ground arith)
      ]
    ]
  ]
]

scan_headers-flags :
    (f : Found) (headers : List Header)
    → let g = scan_headers f headers in
      (g.transfer_encoding ≡ (f.transfer_encoding || any (names te) headers))
      × (g.content_length_present ≡ (f.content_length_present || any (names cl) headers))
unfolding scan_headers
scan_headers-flags f [] = (ground arith, ground arith)
scan_headers-flags f (header ∷ headers) =
    let (t, c) = scan_headers-flags (scan_header f header) headers in
    let (t', c') = scan_header-flags f header in (ground arith, ground arith)

verdict_of-ambiguous :
    (f : Found) (connect : Bool)
    → (verdict_of f connect ≡ ambiguous)
      ↔ ((f.transfer_encoding && f.content_length_present) ≡ true)
verdict_of-ambiguous f connect =
    elim (Bool-cases (f.transfer_encoding && f.content_length_present)) [
      | inl both ↦ rw (both) (λ h. refl, λ h. refl)
      | inr not_both ↦
          elim (Bool-cases
            (f.transfer_encoding || f.upgrade || connect || f.invalid_content_length)) [
              | inl ends ↦ rw (not_both, ends) (λ h. cc, λ h. cc)
              | inr tracks ↦ rw (not_both, tracks) (λ h. cc, λ h. cc)
            ]
    ]

verdict_of-persistent :
    (f : Found) (connect : Bool)
    → verdict_of f connect ≡ persistent
    → (f.transfer_encoding || f.upgrade || connect || f.invalid_content_length) ≡ false
verdict_of-persistent f connect =
    elim (Bool-cases (f.transfer_encoding && f.content_length_present)) [
      | inl both ↦ rw (both) (λ h. cc)
      | inr not_both ↦
          elim (Bool-cases
            (f.transfer_encoding || f.upgrade || connect || f.invalid_content_length)) [
              | inl ends ↦ rw (not_both, ends) (λ h. cc)
              | inr tracks ↦ λ h. tracks
            ]
    ]

-- `inspect_head` calls a complete head ambiguous exactly when it has a `Transfer-Encoding` and a `Content-Length`
-- header, in whatever order and case.
pub classify-ambiguous :
    (length : ℕ) (request : Request) (verdict : HeadVerdict) (body : ℕ)
    → classify (complete length request) ≡ complete_head length verdict body
    → (verdict ≡ ambiguous) ↔ (
        (any (names (codes "transfer-encoding")) request.headers
          && any (names (codes "content-length")) request.headers)
        ≡ true)
unfolding classify
classify-ambiguous length request verdict body h =
    let found = scan_headers found_nothing request.headers in
    let (t, c) = scan_headers-flags found_nothing request.headers in
    let e : verdict_of found (is_connect request.method) ≡ verdict = cc in
    rw (← e, ← t, ← c) (verdict_of-ambiguous found (is_connect request.method))

-- If `inspect_head` calls a complete head persistent, then the request is no CONNECT, no header is `Transfer-Encoding` or
-- `Upgrade`, and every `Content-Length` header reads as the length of the body.
pub classify-persistent :
    (length : ℕ) (request : Request) (body : ℕ)
    → classify (complete length request) ≡ complete_head length persistent body
    → All (IsTracked body) request.headers × (is_connect request.method ≡ false)
unfolding classify
classify-persistent length request body h =
    let found = scan_headers found_nothing request.headers in
    let e : verdict_of found (is_connect request.method) ≡ persistent = cc in
    let n : unwrap_or_zero found.content_length ≡ body = cc in
    let clear = verdict_of-persistent found (is_connect request.method) e in
    let tracked =
      scan_headers-Tracked found_nothing request.headers (ground arith) (ground arith)
        (ground arith) in
    (subst (λ (m : ℕ). All (IsTracked m) request.headers) n tracked.headers_tracked, ground arith)
