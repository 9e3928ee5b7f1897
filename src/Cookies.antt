-- ===== src/Cookies.antt =====
-- Response cookies in src/app/cookie.rs: `Cookie` with its builder and `to_header_value`. A `str` is
-- its bytes; the number of seconds is an `i64`. Signatures are HMAC of third-party crates.
pub mod Header
pub mod Plain
use rustrest.Prelude.{
  ℕ, zero, suc, ◌+◌, ◌-◌, ◌/◌, ◌%◌, Bool, true, false, not, ◌&&◌, ◌||◌, List, [], ◌∷◌, ◌++◌, Option,
  none, some, nat_eq, ltb, if◌then◌else◌, any, keep, is_empty, contains, ℕ_eq, list_eq, ◌==◌,
}
use rustrest.Text.{Bytes, codes, between, is_ascii_alphanumeric}
use rustrest.Text.Utf8.{decode_chars, encode_chars, is_control}

pub data SameSite : Type 0 where
  strict lax none_site : SameSite

abbrev pub as_str : SameSite → Bytes
as_str strict = codes "Strict"
as_str lax = codes "Lax"
as_str none_site = codes "None"

-- An `i64`: a number, or one more than a number below zero.
pub data ℤ : Type 0 where
  pos : ℕ → ℤ
  negsuc : ℕ → ℤ

pub record Cookie : Type 0 where
  pub name : Bytes
  pub value : Bytes
  pub path : Bytes
  pub domain : Option Bytes
  pub max_age_secs : Option ℤ
  pub secure : Bool
  pub http_only : Bool
  pub same_site : Option SameSite

abbrev pub name_symbols : Bytes
name_symbols = codes "!#$%&'*+-.^_`|~"

unfoldable pub sanitize_cookie_name : Bytes → Bytes
sanitize_cookie_name value =
    keep (λ byte. is_ascii_alphanumeric byte || any (nat_eq byte) name_symbols) value

unfoldable pub sanitize_cookie_value : Bytes → Bytes
sanitize_cookie_value value =
    keep
      (λ byte.
        nat_eq byte 0x21
        || between 0x23 0x2b byte
        || between 0x2d 0x3a byte
        || between 0x3c 0x5b byte
        || between 0x5d 0x7e byte)
      value

-- Every `str` is UTF-8, so the first case does not arise.
unfoldable pub sanitize_cookie_path : Bytes → Bytes
sanitize_cookie_path value = elim (decode_chars value) [
  | none ↦ []
  | some chars ↦
      encode_chars
        (keep (λ character. not (nat_eq character b';') && not (is_control character)) chars)
]

unfoldable pub sanitize_cookie_domain : Bytes → Bytes
sanitize_cookie_domain value =
    keep (λ byte. is_ascii_alphanumeric byte || any (nat_eq byte) (codes ".-:[]")) value

unfoldable pub new_cookie : Bytes → Bytes → Cookie
unfolding sanitize_cookie_name sanitize_cookie_value
new_cookie name value = record {
  name = sanitize_cookie_name name;
  value = sanitize_cookie_value value;
  path = codes "/";
  domain = none;
  max_age_secs = none;
  secure = false;
  http_only = false;
  same_site = none;
}

unfoldable pub with_path : Bytes → Cookie → Cookie
unfolding sanitize_cookie_path
with_path path cookie =
    let clean = sanitize_cookie_path path in
    record cookie { path = if is_empty clean then codes "/" else clean }

unfoldable pub with_domain : Bytes → Cookie → Cookie
unfolding sanitize_cookie_domain
with_domain domain cookie =
    let clean = sanitize_cookie_domain domain in
    record cookie { domain = if is_empty clean then none else some clean }

-- What `Response::clear_cookie_with` makes of a cookie before it is set.
abbrev pub cleared : Cookie → Cookie
cleared cookie = record cookie { value = []; max_age_secs = some (pos 0) }

-- The decimal digits of a number below ten to the power of the fuel.
unfoldable pub digits : ℕ → ℕ → Bytes
digits zero n = []
digits (suc fuel) n =
    let rest = digits fuel (n / 10) in
    if ltb n 10 then (b'0' + n) ∷ [] else rest ++ (b'0' + n % 10) ∷ []

-- `i64::to_string`: a number has fewer digits than one more than itself.
unfoldable pub to_string : ℤ → Bytes
to_string (pos n) = digits (suc n) n
to_string (negsuc n) = b'-' ∷ digits (suc (n + 1)) (n + 1)

abbrev pub starts_with : Bytes → Bytes → Bool
starts_with s [] = true
starts_with [] (p ∷ prefix) = false
starts_with (c ∷ s) (p ∷ prefix) = nat_eq c p && starts_with s prefix

abbrev pub is_none_site : Option SameSite → Bool
is_none_site (some none_site) = true
is_none_site (some strict) = false
is_none_site (some lax) = false
is_none_site none = false

abbrev pub domain_text : Option Bytes → Bytes
domain_text none = []
domain_text (some domain) = codes "; Domain=" ++ domain

abbrev pub max_age_text : Option ℤ → Bytes
max_age_text none = []
max_age_text (some max_age) = codes "; Max-Age=" ++ to_string max_age

abbrev pub same_site_text : Option SameSite → Bytes
same_site_text none = []
same_site_text (some same_site) = codes "; SameSite=" ++ as_str same_site

abbrev pub host_prefix : Cookie → Bool
host_prefix cookie = starts_with cookie.name (codes "__Host-")

abbrev pub is_secure : Cookie → Bool
is_secure cookie =
    cookie.secure
    || is_none_site cookie.same_site
    || host_prefix cookie
    || starts_with cookie.name (codes "__Secure-")

unfoldable pub to_header_value : Cookie → Bytes
to_header_value cookie =
    (cookie.name ++ codes "=" ++ cookie.value)
    ++ (codes "; Path=" ++ (if host_prefix cookie then codes "/" else cookie.path))
    ++ (if host_prefix cookie then [] else domain_text cookie.domain)
    ++ max_age_text cookie.max_age_secs
    ++ (if is_secure cookie then codes "; Secure" else [])
    ++ (if cookie.http_only then codes "; HttpOnly" else [])
    ++ same_site_text cookie.same_site
