-- ===== src/Cookies/Header.antt =====
-- The `Set-Cookie` header of src/app/cookie.rs, as a client reads it: split at semicolons.
use rustrest.Prelude.{
  suc, ◌+◌, ◌≡◌, ◌≢◌, refl, sym, ap, ◌∙◌, Bool, true, false, List, [], ◌∷◌, ◌++◌, append_assoc,
  append-nil, Option, none, some, arith, if◌then◌else◌, All, All-append, ℕ_eq,
}
use rustrest.Text.{Bytes, codes, split}
use rustrest.Text.Split.{HasNo, prefix_all, prefix_all-append, split-prefix_all}
use rustrest.Cookies.{
  Cookie, SameSite, strict, lax, none_site, as_str, ℤ, pos, negsuc, to_string, host_prefix,
  is_secure, domain_text, max_age_text, same_site_text, to_header_value,
}
use rustrest.Cookies.Plain.{IsPlain, lacks, HasNo-digits, Built, Built-IsPlain}

abbrev domain_part : Option Bytes → List Bytes
domain_part none = []
domain_part (some domain) = (codes " Domain=" ++ domain) ∷ []

abbrev max_age_part : Option ℤ → List Bytes
max_age_part none = []
max_age_part (some max_age) = (codes " Max-Age=" ++ to_string max_age) ∷ []

abbrev same_site_part : Option SameSite → List Bytes
same_site_part none = []
same_site_part (some same_site) = (codes " SameSite=" ++ as_str same_site) ∷ []

-- The attributes of a cookie, each behind a space.
abbrev pub attributes : Cookie → List Bytes
attributes cookie =
    (codes " Path=" ++ (if host_prefix cookie then codes "/" else cookie.path)) ∷ []
    ++ (if host_prefix cookie then [] else domain_part cookie.domain)
    ++ max_age_part cookie.max_age_secs
    ++ (if is_secure cookie then codes " Secure" ∷ [] else [])
    ++ (if cookie.http_only then codes " HttpOnly" ∷ [] else [])
    ++ same_site_part cookie.same_site

abbrev semis : List Bytes → Bytes
semis = prefix_all b';'

domain-semis :
    (b : Bool) (o : Option Bytes)
    → (if b then [] else domain_text o) ≡ semis (if b then [] else domain_part o)
unfolding prefix_all
domain-semis true o = refl
domain-semis false none = refl
domain-semis false (some domain) =
    ap (λ (s : Bytes). codes "; Domain=" ++ s) (sym (append-nil domain))

max_age-semis : (o : Option ℤ) → max_age_text o ≡ semis (max_age_part o)
unfolding prefix_all
max_age-semis none = refl
max_age-semis (some max_age) =
    ap (λ (s : Bytes). codes "; Max-Age=" ++ s) (sym (append-nil (to_string max_age)))

same_site-semis : (o : Option SameSite) → same_site_text o ≡ semis (same_site_part o)
unfolding prefix_all
same_site-semis none = refl
same_site-semis (some same_site) =
    ap (λ (s : Bytes). codes "; SameSite=" ++ s) (sym (append-nil (as_str same_site)))

secure-semis :
    (b : Bool)
    → (if b then codes "; Secure" else []) ≡ semis (if b then codes " Secure" ∷ [] else [])
unfolding prefix_all
secure-semis true = refl
secure-semis false = refl

http_only-semis :
    (b : Bool)
    → (if b then codes "; HttpOnly" else []) ≡ semis (if b then codes " HttpOnly" ∷ [] else [])
unfolding prefix_all
http_only-semis true = refl
http_only-semis false = refl

path-semis : (s : Bytes) → codes "; Path=" ++ s ≡ semis ((codes " Path=" ++ s) ∷ [])
unfolding prefix_all
path-semis s = ap (λ (s : Bytes). codes "; Path=" ++ s) (sym (append-nil s))

semis-append :
    (q : Bytes) (p a b c d e : List Bytes)
    → q ++ semis p ++ semis a ++ semis b ++ semis c ++ semis d ++ semis e
      ≡ q ++ semis (p ++ a ++ b ++ c ++ d ++ e)
semis-append q p a b c d e =
    let p' = semis p in
    let a' = semis a in
    let b' = semis b in
    let c' = semis c in
    let d' = semis d in
    let e' = semis e in
    rw (
      prefix_all-append b';' (p ++ a ++ b ++ c ++ d) e,
      prefix_all-append b';' (p ++ a ++ b ++ c) d,
      prefix_all-append b';' (p ++ a ++ b) c,
      prefix_all-append b';' (p ++ a) b,
      prefix_all-append b';' p a,
      ← append_assoc q (p' ++ a' ++ b' ++ c' ++ d') e',
      ← append_assoc q (p' ++ a' ++ b' ++ c') d',
      ← append_assoc q (p' ++ a' ++ b') c',
      ← append_assoc q (p' ++ a') b',
      ← append_assoc q p' a',
    )

header-semis :
    (cookie : Cookie)
    → to_header_value cookie
      ≡ (cookie.name ++ codes "=" ++ cookie.value) ++ semis (attributes cookie)
unfolding to_header_value
header-semis cookie =
    let b = host_prefix cookie in
    let path = if b then codes "/" else cookie.path in
    ap
      (λ (s : Bytes).
        cookie.name
        ++ codes "="
        ++ cookie.value
        ++ s
        ++ (if b then [] else domain_text cookie.domain)
        ++ max_age_text cookie.max_age_secs
        ++ (if is_secure cookie then codes "; Secure" else [])
        ++ (if cookie.http_only then codes "; HttpOnly" else [])
        ++ same_site_text cookie.same_site)
      (path-semis path)
    ∙ rw
        (
          domain-semis b cookie.domain,
          max_age-semis cookie.max_age_secs,
          secure-semis (is_secure cookie),
          http_only-semis cookie.http_only,
          same_site-semis cookie.same_site,
        )
        (semis-append (cookie.name ++ codes "=" ++ cookie.value) ((codes " Path=" ++ path) ∷ [])
          (if b then [] else domain_part cookie.domain) (max_age_part cookie.max_age_secs)
          (if is_secure cookie then codes " Secure" ∷ [] else [])
          (if cookie.http_only then codes " HttpOnly" ∷ [] else [])
          (same_site_part cookie.same_site))

HasNo-to_string : (n : ℤ) → HasNo b';' (to_string n)
unfolding to_string
HasNo-to_string (pos n) = HasNo-digits (suc n) n
HasNo-to_string (negsuc n) = (λ e. omega arith, HasNo-digits (suc (n + 1)) (n + 1))

All-if :
    (b : Bool) (xs ys : List Bytes)
    → All (HasNo b';') xs
    → All (HasNo b';') ys
    → All (HasNo b';') (if b then xs else ys)
All-if true xs ys h k = h
All-if false xs ys h k = k

domain_part-HasNo :
    (o : Option Bytes)
    → ((domain : Bytes) → o ≡ some domain → HasNo b';' domain)
    → All (HasNo b';') (domain_part o)
domain_part-HasNo none h = tt
domain_part-HasNo (some domain) h = (
  All-append (λ c. c ≢ b';') (codes " Domain=") domain (lacks (codes " Domain=") refl)
      (h domain refl),
  tt,
)

max_age_part-HasNo : (o : Option ℤ) → All (HasNo b';') (max_age_part o)
max_age_part-HasNo none = tt
max_age_part-HasNo (some n) = (
  All-append (λ c. c ≢ b';') (codes " Max-Age=") (to_string n) (lacks (codes " Max-Age=") refl)
      (HasNo-to_string n),
  tt,
)

same_site_part-HasNo : (o : Option SameSite) → All (HasNo b';') (same_site_part o)
same_site_part-HasNo none = tt
same_site_part-HasNo (some strict) = (lacks (codes " SameSite=Strict") refl, tt)
same_site_part-HasNo (some lax) = (lacks (codes " SameSite=Lax") refl, tt)
same_site_part-HasNo (some none_site) = (lacks (codes " SameSite=None") refl, tt)

path_part-HasNo :
    (b : Bool) (path : Bytes)
    → HasNo b';' path
    → HasNo b';' (codes " Path=" ++ (if b then codes "/" else path))
path_part-HasNo true path h = lacks (codes " Path=/") refl
path_part-HasNo false path h =
    All-append (λ c. c ≢ b';') (codes " Path=") path (lacks (codes " Path=") refl) h

attributes-HasNo : (cookie : Cookie) → IsPlain cookie → All (HasNo b';') (attributes cookie)
attributes-HasNo cookie h =
    let path = codes " Path=" ++ (if host_prefix cookie then codes "/" else cookie.path) in
    let path_first : All (HasNo b';') (path ∷ []) =
      (path_part-HasNo (host_prefix cookie) cookie.path h.plain_path, tt) in
    let domain = if host_prefix cookie then [] else domain_part cookie.domain in
    let domain_next : All (HasNo b';') domain =
      All-if (host_prefix cookie) [] (domain_part cookie.domain) tt
        (domain_part-HasNo cookie.domain h.plain_domain) in
    let age = max_age_part cookie.max_age_secs in
    let secure = if is_secure cookie then codes " Secure" ∷ [] else [] in
    let secure_next : All (HasNo b';') secure =
      All-if (is_secure cookie) (codes " Secure" ∷ []) [] (lacks (codes " Secure") refl, tt) tt in
    let http = if cookie.http_only then codes " HttpOnly" ∷ [] else [] in
    let http_next : All (HasNo b';') http =
      All-if cookie.http_only (codes " HttpOnly" ∷ []) [] (lacks (codes " HttpOnly") refl, tt) tt in
    let site = same_site_part cookie.same_site in
    All-append (HasNo b';') ((path ∷ []) ++ domain ++ age ++ secure ++ http) site
      (All-append (HasNo b';') ((path ∷ []) ++ domain ++ age ++ secure) http
        (All-append (HasNo b';') ((path ∷ []) ++ domain ++ age) secure
          (All-append (HasNo b';') ((path ∷ []) ++ domain) age
            (All-append (HasNo b';') (path ∷ []) domain path_first domain_next)
            (max_age_part-HasNo cookie.max_age_secs))
          secure_next)
        http_next)
      (same_site_part-HasNo cookie.same_site)

-- Whatever the texts that a cookie is built from, a client that splits the `Set-Cookie` header at semicolons finds the
-- name with the value and then the attributes that were set, and nothing else.
pub split-to_header_value :
    (cookie : Cookie)
    → Built cookie
    → split b';' (to_header_value cookie)
      ≡ (cookie.name ++ codes "=" ++ cookie.value) ∷ attributes cookie
split-to_header_value cookie b =
    let h = Built-IsPlain cookie b in
    let pair_plain : HasNo b';' (cookie.name ++ codes "=" ++ cookie.value) =
      All-append (λ c. c ≢ b';') (cookie.name ++ codes "=") cookie.value
        (All-append (λ c. c ≢ b';') cookie.name (codes "=") h.plain_name (lacks (codes "=") refl))
        h.plain_value in
    ap (split b';') (header-semis cookie)
    ∙ split-prefix_all b';' (cookie.name ++ codes "=" ++ cookie.value) (attributes cookie)
        pair_plain (attributes-HasNo cookie h)
