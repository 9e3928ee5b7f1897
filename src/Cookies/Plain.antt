-- ===== src/Cookies/Plain.antt =====
-- What the builder of src/app/cookie.rs leaves in a cookie: texts without a semicolon.
use rustrest.Prelude.{
  ℕ, zero, suc, ◌/◌, ◌≡◌, ◌≢◌, refl, sym, ap, ◌∙◌, inl, inr, Bool, true, false, not, ◌&&◌, List, [],
  ◌∷◌, none, some, arith, subst, nat_eq, nat_eq_iff, ltb, if◌then◌else◌, all, keep, is_empty, All,
  All-append, Bool-cases, Option-cases, ℕ_eq,
}
use rustrest.Text.{Bytes, codes, is_ascii_alphanumeric}
use rustrest.Text.Split.{HasNo}
use rustrest.Text.Utf8.{decode_chars, encode_chars, encode_char, is_control}
use rustrest.Cookies.{
  Cookie, SameSite, ℤ, digits, new_cookie, with_path, with_domain, cleared, sanitize_cookie_name,
  sanitize_cookie_value, sanitize_cookie_path, sanitize_cookie_domain,
}

-- No part of the cookie has a semicolon.
pub record IsPlain (cookie : Cookie) : Type 0 where
  pub plain_name : HasNo b';' cookie.name
  pub plain_value : HasNo b';' cookie.value
  pub plain_path : HasNo b';' cookie.path
  pub plain_domain : (domain : Bytes) → cookie.domain ≡ some domain → HasNo b';' domain

pub lacks : (s : Bytes) → all (λ c. not (nat_eq c b';')) s ≡ true → HasNo b';' s
lacks [] h = tt
lacks (c ∷ s) h = elim (Bool-cases (nat_eq c b';')) [
  | inl semi ↦ absurd (let no = rw (semi) at h in cc)
  | inr other ↦
      let rest : all (λ c. not (nat_eq c b';')) s ≡ true = rw (other) at h in
      (λ e. cc (sym other ∙ (nat_eq_iff c b';').1 e), lacks s rest)
]

HasNo-keep : (p : ℕ → Bool) → p b';' ≡ false → (s : Bytes) → HasNo b';' (keep p s)
HasNo-keep p h [] = tt
HasNo-keep p h (c ∷ s) = elim (Bool-cases (p c)) [
  | inl kept ↦ rw (kept) (λ e. cc (sym h ∙ ap p (sym e) ∙ kept), HasNo-keep p h s)
  | inr dropped ↦ rw (dropped) (HasNo-keep p h s)
]

HasNo-encode_chars : (chars : List ℕ) → All (λ c. c ≢ b';') chars → HasNo b';' (encode_chars chars)
unfolding encode_chars encode_char
HasNo-encode_chars [] h = tt
HasNo-encode_chars (c ∷ chars) h =
    All-append (λ b. b ≢ b';') (encode_char c) (encode_chars chars) (one c h.0)
      (HasNo-encode_chars chars h.1)
  where
    one : (c : ℕ) → c ≢ b';' → HasNo b';' (encode_char c)
    one c n = ground arith

pub HasNo-digits : (fuel n : ℕ) → HasNo b';' (digits fuel n)
unfolding digits
HasNo-digits zero n = tt
HasNo-digits (suc fuel) n = elim (Bool-cases (ltb n 10)) [
  | inl small ↦ rw (small) (ground arith, tt)
  | inr large ↦ rw (large) (
      All-append (λ b. b ≢ b';') (digits fuel (n / 10)) _ (HasNo-digits fuel (n / 10))
        (ground arith, tt))
]

-- The cookies that the builder makes.
pub data Built : Cookie → Type 0 where
  made : (name value : Bytes) → Built (new_cookie name value)
  paths : (path : Bytes) (cookie : Cookie) → Built cookie → Built (with_path path cookie)
  domains : (domain : Bytes) (cookie : Cookie) → Built cookie → Built (with_domain domain cookie)
  ages :
      (seconds : ℤ) (cookie : Cookie)
      → Built cookie
      → Built (record cookie { max_age_secs = some seconds })
  secures :
      (secure : Bool) (cookie : Cookie) → Built cookie → Built (record cookie { secure = secure })
  http_onlies :
      (http_only : Bool) (cookie : Cookie)
      → Built cookie
      → Built (record cookie { http_only = http_only })
  same_sites :
      (same_site : SameSite) (cookie : Cookie)
      → Built cookie
      → Built (record cookie { same_site = some same_site })
  clears : (cookie : Cookie) → Built cookie → Built (cleared cookie)

sanitize_cookie_path-HasNo : (path : Bytes) → HasNo b';' (sanitize_cookie_path path)
unfolding sanitize_cookie_path
sanitize_cookie_path-HasNo path = elim (Option-cases (decode_chars path)) [
  | inl invalid ↦ rw (sanitize_cookie_path, invalid) tt
  | inr (chars, valid) ↦
      rw (sanitize_cookie_path, valid)
        (HasNo-encode_chars _ (
          HasNo-keep (λ character. not (nat_eq character b';') && not (is_control character)) refl
            chars))
]

plain_or : (s : Bytes) → HasNo b';' s → HasNo b';' (if is_empty s then codes "/" else s)
plain_or [] h = lacks (codes "/") refl
plain_or (c ∷ s) h = h

HasNo-sanitize_cookie_domain : (domain : Bytes) → HasNo b';' (sanitize_cookie_domain domain)
unfolding sanitize_cookie_domain is_ascii_alphanumeric
HasNo-sanitize_cookie_domain domain = HasNo-keep _ refl domain

domain_or :
    (s d : Bytes) → HasNo b';' s → (if is_empty s then none else some s) ≡ some d → HasNo b';' d
domain_or [] d h e = cc
domain_or (c ∷ s) d h e = let same : (c ∷ s) ≡ d = cc in subst (HasNo b';') same h

pub Built-IsPlain : (cookie : Cookie) → Built cookie → IsPlain cookie
unfolding new_cookie with_path with_domain sanitize_cookie_name sanitize_cookie_value
    is_ascii_alphanumeric
Built-IsPlain _ (made name value) = record {
  plain_name = HasNo-keep _ refl name;
  plain_value = HasNo-keep _ refl value;
  plain_path = lacks (codes "/") refl;
  plain_domain = λ domain e. cc;
}
Built-IsPlain _ (paths path cookie b) =
    let h = Built-IsPlain cookie b in
    record {
      plain_name = h.plain_name;
      plain_value = h.plain_value;
      plain_path = plain_or (sanitize_cookie_path path) (sanitize_cookie_path-HasNo path);
      plain_domain = h.plain_domain;
    }
Built-IsPlain _ (domains domain cookie b) =
    let h = Built-IsPlain cookie b in
    record {
      plain_name = h.plain_name;
      plain_value = h.plain_value;
      plain_path = h.plain_path;
      plain_domain = λ found e.
          domain_or (sanitize_cookie_domain domain) found (HasNo-sanitize_cookie_domain domain) e;
    }
Built-IsPlain _ (ages seconds cookie b) =
    let h = Built-IsPlain cookie b in
    record {
      plain_name = h.plain_name;
      plain_value = h.plain_value;
      plain_path = h.plain_path;
      plain_domain = h.plain_domain;
    }
Built-IsPlain _ (secures secure cookie b) =
    let h = Built-IsPlain cookie b in
    record {
      plain_name = h.plain_name;
      plain_value = h.plain_value;
      plain_path = h.plain_path;
      plain_domain = h.plain_domain;
    }
Built-IsPlain _ (http_onlies http_only cookie b) =
    let h = Built-IsPlain cookie b in
    record {
      plain_name = h.plain_name;
      plain_value = h.plain_value;
      plain_path = h.plain_path;
      plain_domain = h.plain_domain;
    }
Built-IsPlain _ (same_sites same_site cookie b) =
    let h = Built-IsPlain cookie b in
    record {
      plain_name = h.plain_name;
      plain_value = h.plain_value;
      plain_path = h.plain_path;
      plain_domain = h.plain_domain;
    }
Built-IsPlain _ (clears cookie b) =
    let h = Built-IsPlain cookie b in
    record {
      plain_name = h.plain_name;
      plain_value = tt;
      plain_path = h.plain_path;
      plain_domain = h.plain_domain;
    }
