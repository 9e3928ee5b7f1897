-- ===== src/Pattern/Accepts.antt =====
-- What `match_decoded_pattern` accepts, and patterns of one shape: two patterns with the same
-- conflict key accept the same paths.
use rustrest.Prelude.{◌≡◌, refl, List, [], ◌∷◌, arith, is_some, map, ℕ_eq, list_eq}
use rustrest.Text.{Bytes}
use rustrest.Pattern.{Segment, ConflictSegment, Params, match_from, match_decoded_pattern, accepts}
use rustrest.Pattern.Parse.{conflict_segment}

is_some-match_from :
    (pattern : List Segment) (segments : List Bytes) (params : Params)
    → is_some (match_from pattern segments params) ≡ accepts pattern segments
unfolding match_from accepts
is_some-match_from [] [] params = refl
is_some-match_from [] (s ∷ segments) params = refl
is_some-match_from (Segment.wildcard name ∷ []) segments params = refl
is_some-match_from (Segment.wildcard name ∷ _ ∷ _) segments params = refl
is_some-match_from (Segment.static t ∷ pattern) [] params = refl
is_some-match_from (Segment.static t ∷ pattern) (s ∷ segments) params =
    ground (arith, is_some-match_from pattern segments params)
is_some-match_from (Segment.param name ∷ pattern) [] params = refl
is_some-match_from (Segment.param name ∷ pattern) (s ∷ segments) params =
    is_some-match_from pattern segments _

-- Matching succeeds exactly where the pattern accepts.
pub is_some-match_decoded_pattern :
    (pattern : List Segment) (segments : List Bytes)
    → is_some (match_decoded_pattern pattern segments) ≡ accepts pattern segments
unfolding match_decoded_pattern
is_some-match_decoded_pattern pattern segments = is_some-match_from pattern segments []

abbrev shapes : List Segment → List ConflictSegment
shapes = map conflict_segment

same_shape :
    (x y : Segment)
    → conflict_segment x ≡ conflict_segment y
    → (xs ys : List Segment) → shapes xs ≡ shapes ys
    → ((segments : List Bytes) → accepts xs segments ≡ accepts ys segments)
    → (segments : List Bytes) → accepts (x ∷ xs) segments ≡ accepts (y ∷ ys) segments
unfolding accepts
same_shape (Segment.static a) (Segment.static b) e xs ys es ih [] = refl
same_shape (Segment.static a) (Segment.static b) e xs ys es ih (s ∷ segments) =
    ground (arith, ih segments)
same_shape (Segment.param a) (Segment.param b) e xs ys es ih [] = refl
same_shape (Segment.param a) (Segment.param b) e xs ys es ih (s ∷ segments) = ih segments
same_shape (Segment.wildcard a) (Segment.wildcard b) e [] [] es ih segments = refl
same_shape (Segment.wildcard a) (Segment.wildcard b) e [] (y ∷ ys) es ih segments = cc
same_shape (Segment.wildcard a) (Segment.wildcard b) e (x ∷ xs) [] es ih segments = cc
same_shape (Segment.wildcard a) (Segment.wildcard b) e (x ∷ xs) (y ∷ ys) es ih segments = refl
same_shape _ _ e xs ys es ih segments = cc

-- Patterns with one conflict key accept the same paths, whatever their parameters are called.
pub accepts_of_conflict_key :
    (p q : List Segment)
    → map conflict_segment p ≡ map conflict_segment q
    → (segments : List Bytes) → accepts p segments ≡ accepts q segments
accepts_of_conflict_key [] [] e segments = refl
accepts_of_conflict_key [] (y ∷ q) e segments = cc
accepts_of_conflict_key (x ∷ p) [] e segments = cc
accepts_of_conflict_key (x ∷ p) (y ∷ q) e segments =
    same_shape x y (cc) p q (cc) (accepts_of_conflict_key p q (cc)) segments
