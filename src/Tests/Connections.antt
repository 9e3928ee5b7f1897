-- ===== src/Tests/Connections.antt =====
-- A short run of the connection registry.
use rustrest.Prelude.{
  ℕ, ◌+◌, ◌^◌, ◌<◌, ◌≡◌, refl, List, [], ◌∷◌, Option, none, some, Result, ok, err, arith, ℕ_eq,
  list_eq, lookup,
}
use rustrest.Text.{Bytes, codes}
use rustrest.Registry.{Registry, Limits, SocketAddr, AdmissionError, route_capacity, admit}
use rustrest.Registry.Rooms.{join, release}
use rustrest.Registry.Counts.{IsCounted}
use rustrest.Registry.Reach.{started, Reach, start, next, admits, joins, Reach-IsCounted}
use rustrest.Prelude.{false, not, contains, pair_eq}
use rustrest.Registry.{mark_publication_seen}
use rustrest.Registry.Seen.{IsRemembered, mark_publication_seen-IsRemembered}
use rustrest.Registry.Admission.{WithinLimits, admit-WithinLimits}
use rustrest.Registry.Index.{IsIndexed}
use rustrest.Registry.Runs.{Reach-IsIndexed}
use rustrest.Registry.Broadcast.{select_broadcast_recipients}
use rustrest.Registry.Recipients.{IsSelection, select_broadcast_recipients-IsSelection}

abbrev limits : Limits
limits = record {
  process_max_connections = some 10;
  route_max_connections = some 2;
  max_connections_per_ip = some 2;
  close_timeout = 5;
  max_rooms_per_connection = 3;
  max_room_name_bytes = 16;
  runtime_max_rooms = 8;
  runtime_max_room_name = 32;
}

abbrev chat : Bytes
chat = codes "/chat"

abbrev client : Option SocketAddr
client = some (record { ip = 7; port = 4000 })

abbrev one : Registry
one = (admit limits chat client none 0 started).0

abbrev talking : Registry
talking = (join 1 (codes "lobby" ∷ []) one).0

one-Reach : Reach one
one-Reach = next started one start (admits limits chat client none 0 started (omega arith))

talking-Reach : Reach talking
talking-Reach = next one talking one-Reach (joins 1 (codes "lobby" ∷ []) one)

Reach-IsCounted_example : IsCounted talking
Reach-IsCounted_example = Reach-IsCounted talking talking-Reach

second_admitted : (admit limits chat client none 1 talking).1 ≡ ok 2
unfolding admit join lookup rustrest.Registry.count_of rustrest.Prelude.insert
    rustrest.Registry.Rooms.validate_rooms rustrest.Registry.Rooms.to_tree rustrest.Prelude.contains
    rustrest.Registry.set_entry rustrest.Registry.increment_count rustrest.Prelude.list_beq
second_admitted = refl

talking_id : talking.next_id ≡ 2
unfolding join lookup admit rustrest.Registry.count_of rustrest.Prelude.insert
    rustrest.Registry.Rooms.validate_rooms rustrest.Registry.Rooms.to_tree rustrest.Prelude.contains
    rustrest.Registry.set_entry
talking_id = refl

admit-WithinLimits_example :
    WithinLimits limits chat client (admit limits chat client none 1 talking).0
admit-WithinLimits_example =
    admit-WithinLimits limits chat client none 1 2 talking talking-Reach
      (rw (talking_id) (omega arith)) second_admitted

third_refused :
    (admit limits chat client none 2 (admit limits chat client none 1 talking).0).1
    ≡ err route_capacity
unfolding admit join lookup rustrest.Registry.count_of rustrest.Prelude.insert
    rustrest.Registry.Rooms.validate_rooms rustrest.Registry.Rooms.to_tree rustrest.Prelude.contains
    rustrest.Registry.set_entry rustrest.Registry.increment_count rustrest.Prelude.list_beq
third_refused = refl

started-IsRemembered : IsRemembered started
started-IsRemembered = record {
  agree = record { same = λ key. refl; once = tt };
  bounded = omega arith;
}

mark_publication_seen-IsRemembered_example :
    IsRemembered (mark_publication_seen 7 1 started).0
    × ((mark_publication_seen 7 1 started).1 ≡ not (contains (7, 1) started.seen_publication_order))
    × ((mark_publication_seen 7 1 started).0.seen_publication_order ≡ (7, 1) ∷ [])
unfolding contains
mark_publication_seen-IsRemembered_example =
    mark_publication_seen-IsRemembered 7 1 started started-IsRemembered

seen_once : (mark_publication_seen 7 1 (mark_publication_seen 7 1 started).0).1 ≡ false
unfolding mark_publication_seen contains rustrest.Prelude.add rustrest.Prelude.pair_beq
seen_once = refl

Reach-IsIndexed_example : IsIndexed talking
Reach-IsIndexed_example = Reach-IsIndexed talking talking-Reach

select_broadcast_recipients-IsSelection_example :
    IsSelection
      (some chat)
      (codes "lobby" ∷ [])
      false
      []
      talking
      (select_broadcast_recipients (some chat) (codes "lobby" ∷ []) false [] talking)
select_broadcast_recipients-IsSelection_example =
    select_broadcast_recipients-IsSelection (some chat) (codes "lobby" ∷ []) false [] talking
      (Reach-IsCounted talking talking-Reach) (Reach-IsIndexed talking talking-Reach)

lobby_recipients :
    select_broadcast_recipients (some chat) (codes "lobby" ∷ []) false [] talking ≡ (1, none) ∷ []
unfolding select_broadcast_recipients lookup join admit rustrest.Registry.count_of
    rustrest.Prelude.insert rustrest.Registry.Rooms.validate_rooms rustrest.Registry.Rooms.to_tree
    contains rustrest.Registry.Rooms.add_memberships rustrest.Prelude.pair_beq
    rustrest.Prelude.list_beq rustrest.Prelude.add rustrest.Registry.set_entry
lobby_recipients = refl

lobby_excluded :
    select_broadcast_recipients (some chat) (codes "lobby" ∷ []) false (1 ∷ []) talking ≡ []
unfolding select_broadcast_recipients lookup join admit rustrest.Registry.count_of
    rustrest.Prelude.insert rustrest.Registry.Rooms.validate_rooms rustrest.Registry.Rooms.to_tree
    contains rustrest.Registry.Rooms.add_memberships rustrest.Prelude.pair_beq
    rustrest.Prelude.list_beq rustrest.Prelude.add
lobby_excluded = refl
