-- ===== src/Router/Url.antt =====
-- Links to named routes in src/app/router.rs: `url_for` and `build_url`.
use rustrest.Prelude.{
  Bool, not, List, [], ◌∷◌, ◌++◌, map, Option, none, some, if◌then◌else◌, is_empty, any, keep,
  Result, ok, err, ◌>>=◌, ◌>>◌, refuse, lookup, insert, contains, is_some, ℕ_eq, list_eq,
}
use rustrest.Text.{Bytes, split, join}
use rustrest.Percent.{encode_path_segment}
use rustrest.Pattern.{Segment, Params}
use rustrest.Pattern.Parse.{
  RouteErrorKind, RoutePattern, missing_url_parameter, unexpected_url_parameter,
}
use rustrest.Router.{Route, Router, has_name}

-- `collect` into a `HashMap`, a later pair over an earlier one of the same name.
unfoldable pub collect : List (Bytes × Bytes) → Params → Params
collect [] params = params
collect ((name, value) ∷ pairs) params = collect pairs (insert name value params)

-- The value of a wildcard: its segments that are not empty, encoded.
unfoldable pub encode_wildcard : Bytes → Bytes
encode_wildcard value =
    join b'/'
      (map encode_path_segment (keep (λ segment. not (is_empty segment)) (split b'/' value)))

-- What the loop of `build_url` pushes behind the slash; a missing value does not occur there.
unfoldable pub url_segment : Segment → Params → Result RouteErrorKind Bytes
unfolding encode_wildcard
url_segment (Segment.static value) params = ok (encode_path_segment value)
url_segment (Segment.param name) params = elim (lookup name params) [
  | none ↦ err missing_url_parameter
  | some value ↦
      if is_empty value then err missing_url_parameter else ok (encode_path_segment value)
]
url_segment (Segment.wildcard name) params = elim (lookup name params) [
  | none ↦ err missing_url_parameter
  | some value ↦ ok (encode_wildcard value)
]

unfoldable pub url_from : List Segment → Params → Result RouteErrorKind Bytes
url_from [] params = ok []
url_from (segment ∷ segments) params = do
  part ← url_segment segment params
  rest ← url_from segments params
  ok (b'/' ∷ (part ++ rest))

-- A name of the pattern without a value, and a value without a name of the pattern.
abbrev pub lacks : List Bytes → Params → Bool
lacks expected params = any (λ name. not (is_some (lookup name params))) expected

abbrev pub exceeds : List Bytes → Params → Bool
exceeds expected params = any (λ (p : Bytes × Bytes). not (contains p.0 expected)) params

unfoldable pub build_url : RoutePattern → List (Bytes × Bytes) → Result RouteErrorKind Bytes
unfolding collect url_from
build_url pattern pairs = do
  refuse (lacks pattern.parameter_names (collect pairs [])) missing_url_parameter
  refuse (exceeds pattern.parameter_names (collect pairs [])) unexpected_url_parameter
  if is_empty pattern.segments then ok (b'/' ∷ []) else url_from pattern.segments (collect pairs [])

module _ {H M W : Type 0} where
  -- `routes.iter().find` by name.
  unfoldable pub find_named : Bytes → List (Route H M W) → Option (Route H M W)
  find_named name [] = none
  find_named name (route ∷ routes) =
      if has_name name route.name then some route else find_named name routes

  unfoldable pub url_for : Router H M W → Bytes → List (Bytes × Bytes) → Result RouteErrorKind Bytes
  unfolding find_named build_url
  url_for router name params = elim (find_named name router.routes) [
    | none ↦ err missing_url_parameter
    | some route ↦ build_url route.pattern params
  ]
