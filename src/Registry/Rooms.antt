-- ===== src/Registry/Rooms.antt =====
-- Rooms in src/app/websocket/runtime.rs: `validate_room`, `join`, `leave`, `leave_all`, `rooms`,
-- `local_room_size`, `remove_room_memberships` and `release`.
use rustrest.Prelude.{
  ℕ, ◌+◌, not, ◌||◌, List, [], ◌∷◌, Option, none, some, ltb, if◌then◌else◌, is_empty, length, keep,
  Result, ok, err, ◌>>◌, refuse, ◌==◌, ℕ_eq, list_eq, pair_eq, lookup, insert, remove, contains,
  add, discard, map,
}
use rustrest.Text.{Bytes, bytes_lt}
use rustrest.Registry.{
  Registry, ConnectionEntry, Key, WsError, connection_not_found, invalid_room, room_limit,
  Observation, room_joined, room_left, set_entry, saturating_add, add_u64, decrement_count,
  decrement_ip, ip_of,
}

-- `BTreeSet::insert`.
unfoldable pub tree_add : Bytes → List Bytes → List Bytes
unfolding bytes_lt
tree_add x [] = x ∷ []
tree_add x (y ∷ ys) =
    if x == y then y ∷ ys else if bytes_lt x y then x ∷ y ∷ ys else y ∷ tree_add x ys

-- `collect::<BTreeSet<_>>()`.
unfoldable pub to_tree : List Bytes → List Bytes
unfolding tree_add
to_tree [] = []
to_tree (x ∷ xs) = tree_add x (to_tree xs)

unfoldable pub validate_room : ℕ → Bytes → Result WsError (Unit {0})
validate_room limit room =
    refuse (is_empty room || contains 0 room || ltb limit (length room)) (invalid_room room)

unfoldable pub validate_rooms : ℕ → List Bytes → Result WsError (Unit {0})
unfolding validate_room
validate_rooms limit [] = ok tt
validate_rooms limit (room ∷ rooms) = validate_room limit room >> validate_rooms limit rooms

-- The loop that puts the additions into the entry's set.
unfoldable pub add_rooms : List Bytes → List Bytes → List Bytes
unfolding tree_add
add_rooms [] rooms = rooms
add_rooms (room ∷ additions) rooms = add_rooms additions (tree_add room rooms)

abbrev pub members_of : Option (List ℕ) → List ℕ
members_of none = []
members_of (some members) = members

-- `rooms.entry((route, room)).or_default().insert(id)` for each room.
unfoldable pub add_memberships : Bytes → ℕ → List Bytes → List (Key × List ℕ) → List (Key × List ℕ)
add_memberships route id [] index = index
add_memberships route id (room ∷ rooms) index =
    add_memberships route id rooms
      (insert (route, room) (add id (members_of (lookup (route, room) index))) index)

-- The body of the loop of `remove_room_memberships`.
unfoldable pub remove_membership : Bytes → ℕ → Bytes → List (Key × List ℕ) → List (Key × List ℕ)
remove_membership route id room index = elim (lookup (route, room) index) [
  | none ↦ index
  | some members ↦
      let rest = discard id members in
      if is_empty rest then remove (route, room) index else insert (route, room) rest index
]

unfoldable pub remove_room_memberships :
    Bytes → ℕ → List Bytes → List (Key × List ℕ) → List (Key × List ℕ)
unfolding remove_membership
remove_room_memberships route id [] index = index
remove_room_memberships route id (room ∷ rooms) index =
    remove_room_memberships route id rooms (remove_membership route id room index)

-- The additions of `join`: what was asked for and is not there.
abbrev pub additions_of : List Bytes → ConnectionEntry → List Bytes
additions_of requested entry = keep (λ room. not (contains room entry.rooms)) requested

abbrev pub removals_of : List Bytes → ConnectionEntry → List Bytes
removals_of requested entry = keep (λ room. contains room entry.rooms) requested

abbrev pub joined : ℕ → ConnectionEntry → List Bytes → Registry → Registry
joined id entry additions r =
    let r' = set_entry id (record entry { rooms = add_rooms additions entry.rooms }) r in
    record r' {
      rooms = add_memberships entry.route id additions r.rooms;
      counters = record r.counters {
        room_joins = saturating_add r.counters.room_joins (length additions);
      };
    }

-- `join` for the entry that was found.
unfoldable pub join_entry :
    ℕ
    → ConnectionEntry
    → List Bytes
    → Registry
    → Registry × Result WsError (Unit {0}) × List Observation
join_entry id entry requested r = elim (validate_rooms entry.max_room_name_bytes requested) [
  | err error ↦ (r, err error, [])
  | ok valid ↦
      let additions = additions_of requested entry in
      if ltb entry.max_rooms_per_connection (length entry.rooms + length additions)
      then (r, err room_limit, [])
      else (joined id entry additions r, ok tt, map (room_joined id entry.route) additions)
]

unfoldable pub join :
    ℕ → List Bytes → Registry → Registry × Result WsError (Unit {0}) × List Observation
unfolding join_entry
join id rooms r = elim (lookup id r.connections) [
  | none ↦ (r, err (connection_not_found id), [])
  | some entry ↦ join_entry id entry (to_tree rooms) r
]

-- The entry keeps `kept`, and `gone` leave the index.
abbrev pub left : ℕ → ConnectionEntry → List Bytes → List Bytes → Registry → Registry
left id entry kept gone r =
    let r' = set_entry id (record entry { rooms = kept }) r in
    record r' {
      rooms = remove_room_memberships entry.route id gone r.rooms;
      counters = record r.counters {
        room_leaves = saturating_add r.counters.room_leaves (length gone);
      };
    }

unfoldable pub discard_rooms : List Bytes → List Bytes → List Bytes
discard_rooms [] rooms = rooms
discard_rooms (room ∷ gone) rooms = discard_rooms gone (discard room rooms)

unfoldable pub leave :
    ℕ → List Bytes → Registry → Registry × Result WsError (Unit {0}) × List Observation
leave id rooms r = elim (lookup id r.connections) [
  | none ↦ (r, err (connection_not_found id), [])
  | some entry ↦
      let gone = removals_of (to_tree rooms) entry in
      (
        left id entry (discard_rooms gone entry.rooms) gone r,
        ok tt,
        map (room_left id entry.route) gone,
      )
]

unfoldable pub leave_all : ℕ → Registry → Registry × Result WsError (Unit {0}) × List Observation
leave_all id r = elim (lookup id r.connections) [
  | none ↦ (r, err (connection_not_found id), [])
  | some entry ↦ (left id entry [] entry.rooms r, ok tt, map (room_left id entry.route) entry.rooms)
]

unfoldable pub rooms_of : ℕ → Registry → Option (List Bytes)
rooms_of id r = elim (lookup id r.connections) [ none ↦ none | some entry ↦ some entry.rooms ]

unfoldable pub local_room_size : Bytes → Bytes → Registry → ℕ
local_room_size route room r = length (members_of (lookup (route, room) r.rooms))

abbrev pub released : ℕ → ConnectionEntry → Registry → Registry
released id entry r = record r {
  connections = remove id r.connections;
  route_counts = decrement_count entry.route r.route_counts;
  ip_counts = decrement_ip (ip_of entry.remote_addr) r.ip_counts;
  rooms = remove_room_memberships entry.route id entry.rooms r.rooms;
  counters = record r.counters {
    closed_connections = add_u64 r.counters.closed_connections 1;
    room_leaves = saturating_add r.counters.room_leaves (length entry.rooms);
  };
}

unfoldable pub release : ℕ → Registry → Registry × List Observation
release id r = elim (lookup id r.connections) [
  | none ↦ (r, [])
  | some entry ↦ (released id entry r, map (room_left id entry.route) entry.rooms)
]
