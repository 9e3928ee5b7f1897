-- ===== src/Http1.antt =====
-- src/app/http1.rs: `inspect_head`, which classifies the framing of one HTTP/1 request head, and
-- the queue of verdicts. The parser of the crate httparse is the parameter `parse`, which takes the
-- number of header slots and the bytes. A length is a `u64`.
pub mod Framing
pub mod Stream
use rustrest.Prelude.{
  ℕ, ◌+◌, ◌-◌, ◌*◌, ◌^◌, Bool, true, false, not, ◌&&◌, ◌||◌, List, [], ◌∷◌, ◌++◌, map, Option, none,
  some, leb, ltb, nat_eq, if◌then◌else◌, is_empty, length, ◌==◌, ℕ_eq, list_eq, checked_mul,
  checked_add,
}
use rustrest.Text.{Bytes, codes, is_ascii_digit, to_ascii_lower}

-- `u64::MAX - 2`.
abbrev pub max_decodable_length : ℕ
max_decodable_length = 2 ^ 64 - 3

abbrev pub max_pending_verdicts : ℕ
max_pending_verdicts = 256

pub data HeadVerdict : Type 0 where
  persistent terminal ambiguous unclassified : HeadVerdict

-- `Http1Verdicts::push`.
unfoldable pub push : HeadVerdict → List HeadVerdict → List HeadVerdict × Bool
push verdict pending =
    if leb max_pending_verdicts (length pending)
    then (pending, false)
    else (pending ++ verdict ∷ [], true)

-- `Http1Verdicts::next`.
abbrev pub next_verdict : List HeadVerdict → List HeadVerdict × HeadVerdict
next_verdict [] = ([], unclassified)
next_verdict (verdict ∷ pending) = (pending, verdict)

-- What httparse reads of a request.
pub record Header : Type 0 where
  pub name : Bytes
  pub value : Bytes

pub record Request : Type 0 where
  pub method : Option Bytes
  pub headers : List Header

pub data ParseStatus : Type 0 where
  complete : ℕ → Request → ParseStatus
  partial invalid : ParseStatus

pub data HeadParse : Type 0 where
  complete_head : ℕ → HeadVerdict → ℕ → HeadParse
  partial_head invalid_head : HeadParse

unfoldable pub eq_ignore_ascii_case : Bytes → Bytes → Bool
eq_ignore_ascii_case a b = map to_ascii_lower a == map to_ascii_lower b

abbrev pub and_then : Option ℕ → (ℕ → Option ℕ) → Option ℕ
and_then none f = none
and_then (some n) f = f n

-- The loop of `parse_content_length`, behind the length that was read.
unfoldable pub content_digits : Bytes → ℕ → Option ℕ
content_digits [] n = some n
content_digits (byte ∷ value) n =
    if is_ascii_digit byte
    then and_then (and_then (checked_mul n 10) (λ m. checked_add m (byte - b'0')))
        (content_digits value)
    else none

abbrev pub decodable : ℕ → Option ℕ
decodable n = if leb n max_decodable_length then some n else none

unfoldable pub parse_content_length : Bytes → Option ℕ
unfolding content_digits
parse_content_length value =
    if is_empty value then none else and_then (content_digits value 0) decodable

-- What the loop over the headers has found.
pub record Found : Type 0 where
  pub transfer_encoding : Bool
  pub content_length_present : Bool
  pub content_length : Option ℕ
  pub invalid_content_length : Bool
  pub upgrade : Bool

abbrev pub found_nothing : Found
found_nothing = record {
  transfer_encoding = false;
  content_length_present = false;
  content_length = none;
  invalid_content_length = false;
  upgrade = false;
}

-- `content_length.is_none_or(|previous| previous == value)`.
abbrev pub agrees : Option ℕ → ℕ → Bool
agrees none value = true
agrees (some previous) value = nat_eq previous value

abbrev pub with_length : Found → Option ℕ → Found
with_length found none = record found {
  content_length_present = true;
  invalid_content_length = true;
}
with_length found (some n) =
    if agrees found.content_length n
    then record found { content_length_present = true; content_length = some n }
    else record found { content_length_present = true; invalid_content_length = true }

unfoldable pub scan_header : Found → Header → Found
unfolding eq_ignore_ascii_case parse_content_length
scan_header found header =
    if eq_ignore_ascii_case header.name (codes "transfer-encoding")
    then record found { transfer_encoding = true }
    else if eq_ignore_ascii_case header.name (codes "content-length")
    then with_length found (parse_content_length header.value)
    else if eq_ignore_ascii_case header.name (codes "upgrade")
    then record found { upgrade = true }
    else found

unfoldable pub scan_headers : Found → List Header → Found
unfolding scan_header
scan_headers found [] = found
scan_headers found (header ∷ headers) = scan_headers (scan_header found header) headers

unfoldable pub is_connect : Option Bytes → Bool
unfolding eq_ignore_ascii_case
is_connect none = false
is_connect (some method) = eq_ignore_ascii_case method (codes "CONNECT")

abbrev pub verdict_of : Found → Bool → HeadVerdict
verdict_of found connect =
    if found.transfer_encoding && found.content_length_present
    then ambiguous
    else if found.transfer_encoding || found.upgrade || connect || found.invalid_content_length
    then terminal
    else persistent

abbrev pub unwrap_or_zero : Option ℕ → ℕ
unwrap_or_zero none = 0
unwrap_or_zero (some n) = n

unfoldable pub classify : ParseStatus → HeadParse
unfolding scan_headers is_connect
classify (complete length request) =
    let found = scan_headers found_nothing request.headers in
    complete_head length (verdict_of found (is_connect request.method))
      (unwrap_or_zero found.content_length)
classify partial = partial_head
classify invalid = invalid_head

unfoldable pub inspect_head : (ℕ → Bytes → ParseStatus) → Bytes → ℕ → HeadParse
unfolding classify
inspect_head parse bytes max_headers = classify (parse max_headers bytes)
