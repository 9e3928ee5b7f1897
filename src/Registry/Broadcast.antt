-- ===== src/Registry/Broadcast.antt =====
-- The recipients of a broadcast in src/app/websocket/runtime.rs: `select_broadcast_recipients`, and
-- `local_socket`. A `HashSet` of identifiers is a list without repetition.
use rustrest.Prelude.{
  ℕ, Bool, true, false, not, List, [], ◌∷◌, Option, none, some, ltb, if◌then◌else◌, keep, map, ◌==◌,
  ℕ_eq, list_eq, pair_eq, lookup, contains, add,
}
use rustrest.Text.{Bytes}
use rustrest.Registry.{Registry, ConnectionEntry, Key}
use rustrest.Registry.Rooms.{members_of}
use rustrest.Registry.Metrics.{Snapshot, snapshot}

-- `route.is_none_or(|route| entry.route == route)`.
abbrev pub in_scope : Option Bytes → ConnectionEntry → Bool
in_scope none entry = true
in_scope (some route) entry = entry.route == route

-- The identifiers of the connections on the route.
unfoldable pub scoped_ids : Option Bytes → List (ℕ × ConnectionEntry) → List ℕ
scoped_ids route [] = []
scoped_ids route ((id, entry) ∷ connections) =
    let rest = scoped_ids route connections in if in_scope route entry then add id rest else rest

-- `extend` of a set.
unfoldable pub add_all : List ℕ → List ℕ → List ℕ
add_all [] ids = ids
add_all (id ∷ more) ids = add id (add_all more ids)

-- The members of the rooms.
unfoldable pub member_ids : Bytes → List Bytes → List (Key × List ℕ) → List ℕ
unfolding add_all
member_ids route [] index = []
member_ids route (room ∷ rooms) index =
    add_all (members_of (lookup (route, room) index)) (member_ids route rooms index)

-- `sort_by_key` on distinct identifiers.
unfoldable pub insert_sorted : ℕ → List ℕ → List ℕ
insert_sorted id [] = id ∷ []
insert_sorted id (next ∷ ids) = if ltb id next then id ∷ next ∷ ids else next ∷ insert_sorted id ids

unfoldable pub sort_ids : List ℕ → List ℕ
unfolding insert_sorted
sort_ids [] = []
sort_ids (id ∷ ids) = insert_sorted id (sort_ids ids)

abbrev pub sender_of : Option ConnectionEntry → Option ℕ
sender_of none = none
sender_of (some entry) = entry.internal_sender

-- The first `let ids` of the source.
unfoldable pub candidate_ids : Option Bytes → List Bytes → Bool → Registry → List ℕ
unfolding scoped_ids member_ids
candidate_ids route rooms true r = scoped_ids route r.connections
candidate_ids none rooms false r = []
candidate_ids (some route) rooms false r = member_ids route rooms r.rooms

unfoldable pub select_broadcast_recipients :
    Option Bytes → List Bytes → Bool → List ℕ → Registry → List (ℕ × Option ℕ)
unfolding candidate_ids sort_ids
select_broadcast_recipients route rooms all_in_scope excluded r =
    map (λ (id : ℕ). (id, sender_of (lookup id r.connections)))
      (sort_ids
        (keep (λ (id : ℕ). not (contains id excluded)) (candidate_ids route rooms all_in_scope r)))

abbrev pub socket_of : ℕ → ConnectionEntry → Option ℕ → Option (Snapshot × ℕ)
socket_of id entry none = none
socket_of id entry (some sender) = some (snapshot id entry, sender)

unfoldable pub local_socket : ℕ → Registry → Option (Snapshot × ℕ)
local_socket id r = elim (lookup id r.connections) [
  | none ↦ none
  | some entry ↦ socket_of id entry entry.internal_sender
]
