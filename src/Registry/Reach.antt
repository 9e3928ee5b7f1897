-- ===== src/Registry/Reach.antt =====
-- Runs of the registry of src/app/websocket/runtime.rs: sequences of its operations from the empty
-- registry, and the counters that they keep.
use rustrest.Prelude.{
  ℕ, ◌+◌, ◌^◌, ◌<◌, refl, true, false, List, [], Option, ℕ_eq, list_eq, lookup, pair_eq,
}
use rustrest.Text.{Bytes}
use rustrest.Registry.{
  Registry, no_counts, Limits, SocketAddr, count_of, admit, register_driver, register_upgrade_task,
  record_opened, record_closing, mark_publication_seen,
}
use rustrest.Registry.{WsBroadcastReport}
use rustrest.Registry.Metrics.{
  record_message, record_saturated_send, record_heartbeat_timeout, record_broadcast,
  record_broker_publication, record_broker_error, set_broker_connected, set_broker_disconnected,
  begin_shutdown, abort_remaining, start_closing, mark_forced,
}
use rustrest.Prelude.{Bool}
use rustrest.Registry.Rooms.{join, leave, leave_all, release}
use rustrest.Registry.Counts.{IsCounted}
use rustrest.Registry.Counted.{
  copied, admit-IsCounted, drive-IsCounted, upgrade-IsCounted, open-IsCounted, close-IsCounted,
  join-IsCounted, leave-IsCounted, leave_all-IsCounted, release-IsCounted, mark-IsCounted,
  map_entries-IsCounted,
}

abbrev pub started : Registry
started = record {
  next_id = 1;
  accepting = true;
  connections = [];
  route_counts = [];
  ip_counts = [];
  rooms = [];
  seen_publications = [];
  seen_publication_order = [];
  broker_connected = false;
  counters = no_counts;
}

-- The operations that the lock of the registry puts in one order.
pub data Step : Registry → Registry → Type 0 where
  admits :
      (limits : Limits) (route : Bytes) (addr : Option SocketAddr) (protocol : Option Bytes)
      (now : ℕ) (r : Registry)
      → r.next_id + 1 < 2 ^ 64
      → Step r (admit limits route addr protocol now r).0
  drives : (id sender abort : ℕ) (r : Registry) → Step r (register_driver id sender abort r).0
  upgrades : (id abort : ℕ) (r : Registry) → Step r (register_upgrade_task id abort r).0
  opens : (id : ℕ) (r : Registry) → Step r (record_opened id r).0
  closes : (id : ℕ) (r : Registry) → Step r (record_closing id r)
  joins : (id : ℕ) (rooms : List Bytes) (r : Registry) → Step r (join id rooms r).0
  leaves : (id : ℕ) (rooms : List Bytes) (r : Registry) → Step r (leave id rooms r).0
  leaves_all : (id : ℕ) (r : Registry) → Step r (leave_all id r).0
  releases : (id : ℕ) (r : Registry) → Step r (release id r).0
  marks : (origin id : ℕ) (r : Registry) → Step r (mark_publication_seen origin id r).0
  counts_message :
      (id : ℕ) (outbound : Bool) (bytes : ℕ) (r : Registry)
      → Step r (record_message id outbound bytes r).0
  counts_saturated :
      (id : ℕ) (outbound : Bool) (r : Registry) → Step r (record_saturated_send id outbound r).0
  counts_timeout : (id : ℕ) (r : Registry) → Step r (record_heartbeat_timeout id r).0
  counts_broadcast :
      (route : Option Bytes) (room_count : ℕ) (report : WsBroadcastReport) (r : Registry)
      → Step r (record_broadcast route room_count report r).0
  counts_publication : (r : Registry) → Step r (record_broker_publication r)
  counts_error :
      (node : ℕ) (lagged : Option ℕ) (r : Registry) → Step r (record_broker_error node lagged r).0
  connects_broker : (node : ℕ) (r : Registry) → Step r (set_broker_connected node r).0
  disconnects_broker :
      (node reason : ℕ) (r : Registry) → Step r (set_broker_disconnected node reason r).0
  shuts_down : (r : Registry) → Step r (begin_shutdown r)
  aborts : (r : Registry) → Step r (abort_remaining r).0

-- The registries that operations lead to from a new runtime.
pub data Reach : Registry → Type 0 where
  start : Reach started
  next : (r s : Registry) → Reach r → Step r s → Reach s

Step-IsCounted : (r s : Registry) → Step r s → IsCounted r → IsCounted s
unfolding record_message record_saturated_send record_heartbeat_timeout record_broadcast
    record_broker_publication record_broker_error set_broker_connected set_broker_disconnected
    begin_shutdown abort_remaining
Step-IsCounted _ _ (admits limits route addr protocol now r small) h =
    admit-IsCounted limits route addr protocol now r small h
Step-IsCounted _ _ (drives id sender abort r) h = drive-IsCounted id sender abort r h
Step-IsCounted _ _ (upgrades id abort r) h = upgrade-IsCounted id abort r h
Step-IsCounted _ _ (opens id r) h = open-IsCounted id r h
Step-IsCounted _ _ (closes id r) h = close-IsCounted id r h
Step-IsCounted _ _ (joins id rooms r) h = join-IsCounted id rooms r h
Step-IsCounted _ _ (leaves id rooms r) h = leave-IsCounted id rooms r h
Step-IsCounted _ _ (leaves_all id r) h = leave_all-IsCounted id r h
Step-IsCounted _ _ (releases id r) h = release-IsCounted id r h
Step-IsCounted _ _ (marks origin id r) h = mark-IsCounted origin id r h
Step-IsCounted _ _ (counts_message id outbound bytes r) h = copied r _ refl refl refl refl h
Step-IsCounted _ _ (counts_saturated id outbound r) h = copied r _ refl refl refl refl h
Step-IsCounted _ _ (counts_timeout id r) h = copied r _ refl refl refl refl h
Step-IsCounted _ _ (counts_broadcast route room_count report r) h = copied r _ refl refl refl refl h
Step-IsCounted _ _ (counts_publication r) h = copied r _ refl refl refl refl h
Step-IsCounted _ _ (counts_error node lagged r) h = copied r _ refl refl refl refl h
Step-IsCounted _ _ (connects_broker node r) h = copied r _ refl refl refl refl h
Step-IsCounted _ _ (disconnects_broker node reason r) h = copied r _ refl refl refl refl h
Step-IsCounted _ _ (shuts_down r) h =
    map_entries-IsCounted start_closing false r (λ entry. refl) (λ entry. refl) h
Step-IsCounted _ _ (aborts r) h =
    map_entries-IsCounted mark_forced r.accepting r (λ entry. refl) (λ entry. refl) h

-- In every registry that operations lead to from a new runtime, as long as the identifiers have
-- not run out, each route's counter and each
-- address's counter is the number of the registered connections of that route or address, and no
-- two connections have one identifier.
pub Reach-IsCounted : (r : Registry) → Reach r → IsCounted r
unfolding count_of lookup
Reach-IsCounted _ start = record {
  distinct = tt;
  issued = tt;
  by_route = λ j. refl;
  by_ip = λ j. refl;
}
Reach-IsCounted s (next r _ reached step) = Step-IsCounted r s step (Reach-IsCounted r reached)
