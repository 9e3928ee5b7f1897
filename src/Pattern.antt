-- ===== src/Pattern.antt =====
-- Route patterns of src/app/router.rs: `Segment`, `ConflictSegment`, and the match of a pattern
-- against decoded path segments. A `HashMap` of captured parameters is an association list.
pub mod Parse
pub mod Render
pub mod Accepts
use rustrest.Prelude.{
  Bool, true, false, List, [], ◌∷◌, Option, none, some, ◌==◌, if◌then◌else◌, insert, ℕ_eq, list_eq,
}
use rustrest.Text.{Bytes, join}

pub data Segment : Type 0 where
  static : Bytes → Segment
  param : Bytes → Segment
  wildcard : Bytes → Segment

pub data ConflictSegment : Type 0 where
  static : Bytes → ConflictSegment
  param : ConflictSegment
  wildcard : ConflictSegment

abbrev pub Params : Type 0
Params = List (Bytes × Bytes)

-- The loop of `match_decoded_pattern`: `segments` is what lies behind `index`, and a wildcard
-- matches only as the last entry of the pattern.
pub match_from : List Segment → List Bytes → Params → Option Params
match_from [] [] params = some params
match_from [] (actual ∷ segments) params = none
match_from (Segment.wildcard name ∷ []) segments params =
    some (insert name (join b'/' segments) params)
match_from (Segment.wildcard name ∷ _ ∷ _) segments params = none
match_from (Segment.static s ∷ pattern) [] params = none
match_from (Segment.static s ∷ pattern) (actual ∷ segments) params =
    if s == actual then match_from pattern segments params else none
match_from (Segment.param name ∷ pattern) [] params = none
match_from (Segment.param name ∷ pattern) (actual ∷ segments) params =
    match_from pattern segments (insert name actual params)

unfoldable pub match_decoded_pattern : List Segment → List Bytes → Option Params
unfolding match_from
match_decoded_pattern pattern segments = match_from pattern segments []

-- What a pattern accepts, with the captured values left out.
unfoldable pub accepts : List Segment → List Bytes → Bool
accepts [] [] = true
accepts [] (actual ∷ segments) = false
accepts (Segment.wildcard name ∷ []) segments = true
accepts (Segment.wildcard name ∷ _ ∷ _) segments = false
accepts (Segment.static s ∷ pattern) [] = false
accepts (Segment.static s ∷ pattern) (actual ∷ segments) =
    if s == actual then accepts pattern segments else false
accepts (Segment.param name ∷ pattern) [] = false
accepts (Segment.param name ∷ pattern) (actual ∷ segments) = accepts pattern segments
