-- ===== src/Tests/CookieJar.antt =====
-- A cookie built from texts that try to add an attribute.
use rustrest.Prelude.{◌≡◌, refl, ◌∷◌, ◌++◌}
use rustrest.Text.{Bytes, codes, split}
use rustrest.Cookies.{Cookie, new_cookie, with_domain, to_header_value}
use rustrest.Cookies.Header.{attributes, split-to_header_value}
use rustrest.Cookies.Plain.{Built, made, domains}

abbrev cookie : Cookie
cookie = with_domain (codes "a.b; Secure") (new_cookie (codes "id") (codes "1; HttpOnly"))

abbrev built_cookie : Built cookie
built_cookie =
    domains (codes "a.b; Secure") (new_cookie (codes "id") (codes "1; HttpOnly"))
      (made (codes "id") (codes "1; HttpOnly"))

split-to_header_value_example :
    split b';' (to_header_value cookie)
    ≡ (cookie.name ++ codes "=" ++ cookie.value) ∷ attributes cookie
split-to_header_value_example = split-to_header_value cookie built_cookie

rendered : to_header_value cookie ≡ codes "id=1HttpOnly; Path=/; Domain=a.bSecure"
unfolding to_header_value with_domain new_cookie rustrest.Text.is_ascii_alphanumeric
rendered = refl
