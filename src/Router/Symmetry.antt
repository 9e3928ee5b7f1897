-- ===== src/Router/Symmetry.antt =====
-- Routes in each other's way, in src/app/router.rs: it does not matter which of the two comes first.
use rustrest.Prelude.{
  ◌≡◌, refl, ◌∙◌, List, [], ◌∷◌, Option, none, some, arith, ℕ_eq, list_eq, beq_comm,
}
use rustrest.Text.{Bytes}
use rustrest.Pattern.{ConflictSegment}
use rustrest.Hosts.{HostPattern, exact, wildcard_subdomain, hosts_overlap}
use rustrest.Router.{Route, key_eq, segment_eq, conflicts, name_taken}
use rustrest.Router.Clear.{Apart}

segment_eq_comm : (x y : ConflictSegment) → segment_eq x y ≡ segment_eq y x
segment_eq_comm (ConflictSegment.static a) (ConflictSegment.static b) = beq_comm a b
segment_eq_comm (ConflictSegment.static a) ConflictSegment.param = refl
segment_eq_comm (ConflictSegment.static a) ConflictSegment.wildcard = refl
segment_eq_comm ConflictSegment.param (ConflictSegment.static b) = refl
segment_eq_comm ConflictSegment.param ConflictSegment.param = refl
segment_eq_comm ConflictSegment.param ConflictSegment.wildcard = refl
segment_eq_comm ConflictSegment.wildcard (ConflictSegment.static b) = refl
segment_eq_comm ConflictSegment.wildcard ConflictSegment.param = refl
segment_eq_comm ConflictSegment.wildcard ConflictSegment.wildcard = refl

key_eq_comm : (xs ys : List ConflictSegment) → key_eq xs ys ≡ key_eq ys xs
unfolding key_eq
key_eq_comm [] [] = refl
key_eq_comm [] (y ∷ ys) = refl
key_eq_comm (x ∷ xs) [] = refl
key_eq_comm (x ∷ xs) (y ∷ ys) = rw (segment_eq_comm x y, key_eq_comm xs ys)

hosts_overlap_comm :
    (left right : Option HostPattern) → hosts_overlap left right ≡ hosts_overlap right left
unfolding hosts_overlap
hosts_overlap_comm none none = refl
hosts_overlap_comm none (some right) = refl
hosts_overlap_comm (some (exact left)) none = refl
hosts_overlap_comm (some (wildcard_subdomain left)) none = refl
hosts_overlap_comm (some (exact left)) (some (exact right)) = beq_comm left right
hosts_overlap_comm (some (exact left)) (some (wildcard_subdomain right)) = refl
hosts_overlap_comm (some (wildcard_subdomain left)) (some (exact right)) = refl
hosts_overlap_comm (some (wildcard_subdomain left)) (some (wildcard_subdomain right)) =
    rw (beq_comm left right) (ground arith)

module _ {H M W : Type 0} where
  name_taken_comm :
      (a b : Option Bytes) (route later : Route H M W)
      → route.name ≡ a
      → later.name ≡ b
      → name_taken a (later ∷ []) ≡ name_taken b (route ∷ [])
  name_taken_comm none none route later h k = refl
  name_taken_comm none (some b) route later h k = rw (h)
  name_taken_comm (some a) none route later h k = rw (k)
  name_taken_comm (some a) (some b) route later h k = rw (h, k, beq_comm a b)

  pub Apart-comm : (route later : Route H M W) → Apart route later → Apart later route
  unfolding conflicts
  Apart-comm route later h = record {
    separate =
        rw
          (
            beq_comm later.method route.method,
            key_eq_comm later.pattern.conflict_key route.pattern.conflict_key,
            hosts_overlap_comm later.host route.host,
          )
          h.separate;
    unnamed = name_taken_comm route.name later.name route later refl refl ∙ h.unnamed;
  }
