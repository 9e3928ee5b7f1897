-- ===== src/Registry.antt =====
-- The WebSocket connection registry of src/app/websocket/runtime.rs: `Registry`, `ConnectionEntry`,
-- `admit`, `register_driver`, `register_upgrade_task`, `join`, `leave`, `leave_all`, `rooms`,
-- `local_room_size`, `release`, `record_opened`, `record_closing` and `mark_publication_seen`.
-- Each operation is one critical section under the registry's lock: it maps the registry to the
-- new one, its result and the observations that it reports, in order. `next_id` of `RuntimeInner`
-- stands with the registry. A map is an association list, a `HashSet` a list without repetition and
-- a `BTreeSet` a sorted list. Addresses, senders and abort handles are numbers. The notifications to
-- waiting tasks are left out.
pub mod Admission
pub mod Counted
pub mod Counts
pub mod Broadcast
pub mod Index
pub mod Indexed
pub mod Recipients
pub mod Metrics
pub mod Reach
pub mod Rooms
pub mod Runs
pub mod Seen
pub mod Sorting
use rustrest.Prelude.{
  ℕ, zero, suc, ◌+◌, ◌-◌, ◌%◌, ◌^◌, Bool, true, false, not, ◌&&◌, ◌||◌, List, [], ◌∷◌, ◌++◌, Option,
  none, some, min, ltb, leb, nat_eq, if◌then◌else◌, is_empty, is_some, length, keep, Result, ok,
  err, Eq, ◌==◌, ℕ_eq, list_eq, pair_eq, lookup, insert, remove, contains, add, discard, map,
}
use rustrest.Text.{Bytes}

pub data Lifecycle : Type 0 where
  connecting opened closing : Lifecycle

pub record SocketAddr : Type 0 where
  pub ip : ℕ
  pub port : ℕ

pub record ConnectionEntry : Type 0 where
  pub route : Bytes
  pub remote_addr : Option SocketAddr
  pub protocol : Option Bytes
  pub opened_at : ℕ
  pub close_timeout : ℕ
  pub max_rooms_per_connection : ℕ
  pub max_room_name_bytes : ℕ
  pub rooms : List Bytes
  pub lifecycle : Lifecycle
  pub internal_sender : Option ℕ
  pub driver_abort : Option ℕ
  pub forced_shutdown_observed : Bool

-- `WebSocketCounters`, words of 64 bits.
pub record Counters : Type 0 where
  pub accepted_connections : ℕ
  pub rejected_connections : ℕ
  pub closed_connections : ℕ
  pub messages_received : ℕ
  pub messages_sent : ℕ
  pub bytes_received : ℕ
  pub bytes_sent : ℕ
  pub saturated_sends : ℕ
  pub heartbeat_timeouts : ℕ
  pub room_joins : ℕ
  pub room_leaves : ℕ
  pub local_broadcasts : ℕ
  pub partial_broadcasts : ℕ
  pub broker_publications : ℕ
  pub broker_errors : ℕ

abbrev pub no_counts : Counters
no_counts = record {
  accepted_connections = 0;
  rejected_connections = 0;
  closed_connections = 0;
  messages_received = 0;
  messages_sent = 0;
  bytes_received = 0;
  bytes_sent = 0;
  saturated_sends = 0;
  heartbeat_timeouts = 0;
  room_joins = 0;
  room_leaves = 0;
  local_broadcasts = 0;
  partial_broadcasts = 0;
  broker_publications = 0;
  broker_errors = 0;
}

abbrev pub Key : Type 0
Key = Bytes × Bytes

pub record Registry : Type 0 where
  pub next_id : ℕ
  pub accepting : Bool
  pub connections : List (ℕ × ConnectionEntry)
  pub route_counts : List (Bytes × ℕ)
  pub ip_counts : List (ℕ × ℕ)
  pub rooms : List (Key × List ℕ)
  pub broker_connected : Bool
  pub seen_publications : List (ℕ × ℕ)
  pub seen_publication_order : List (ℕ × ℕ)
  pub counters : Counters

-- The limits of `RuntimeInner` and those of `ResolvedWebSocketConfig` that admission reads.
pub record Limits : Type 0 where
  pub process_max_connections : Option ℕ
  pub route_max_connections : Option ℕ
  pub max_connections_per_ip : Option ℕ
  pub close_timeout : ℕ
  pub max_rooms_per_connection : ℕ
  pub max_room_name_bytes : ℕ
  pub runtime_max_rooms : ℕ
  pub runtime_max_room_name : ℕ

pub data AdmissionError : Type 0 where
  shutdown process_capacity route_capacity ip_capacity : AdmissionError

pub data WsError : Type 0 where
  connection_not_found : ℕ → WsError
  invalid_room : Bytes → WsError
  room_limit : WsError

-- `WsRemotePublish::Published` or `NotConfigured` is the last field.
pub record WsBroadcastReport : Type 0 where
  pub matched : ℕ
  pub enqueued : ℕ
  pub rejected_sends : ℕ
  pub disconnected : ℕ
  pub is_published : Bool

-- A node and the category of an error are numbers.
pub data Observation : Type 0 where
  accepted : ℕ → Bytes → Observation
  rejected : Bytes → AdmissionError → Observation
  was_opened : ℕ → Observation
  room_joined room_left : ℕ → Bytes → Bytes → Observation
  message : ℕ → Bool → ℕ → Observation
  queue_saturated : ℕ → Bool → Observation
  heartbeat_timeout handler_failed forced_shutdown : ℕ → Observation
  was_closed : ℕ → ℕ → Bool → Observation
  broadcast : Option Bytes → ℕ → WsBroadcastReport → Observation
  broker_was_connected : ℕ → Observation
  broker_was_disconnected : ℕ → ℕ → Observation
  broker_lagged : ℕ → ℕ → Observation

-- `u64` addition: `+=` wraps in a release build, and `saturating_add` stops at the maximum.
abbrev pub add_u64 : ℕ → ℕ → ℕ
add_u64 a b = (a + b) % 2 ^ 64

abbrev pub saturating_add : ℕ → ℕ → ℕ
saturating_add a b = min (a + b) (2 ^ 64 - 1)

module _ {K : Type 0} ⦃e : Eq K⦄ where
  -- `counts.get(key).copied().unwrap_or(0)`.
  unfoldable pub count_of : K → List (K × ℕ) → ℕ
  count_of key counts = elim (lookup key counts) [ none ↦ 0 | some n ↦ n ]

  -- `*counts.entry(key).or_default() += 1`.
  unfoldable pub increment_count : K → List (K × ℕ) → List (K × ℕ)
  unfolding count_of
  increment_count key counts = insert key (count_of key counts + 1) counts

  unfoldable pub decrement_count : K → List (K × ℕ) → List (K × ℕ)
  decrement_count key counts = elim (lookup key counts) [
    | none ↦ counts
    | some n ↦ if nat_eq (n - 1) 0 then remove key counts else insert key (n - 1) counts
  ]

-- `Option::is_some_and(|limit| used >= limit)`.
abbrev pub reaches : Option ℕ → ℕ → Bool
reaches none used = false
reaches (some limit) used = leb limit used

abbrev pub ip_of : Option SocketAddr → Option ℕ
ip_of none = none
ip_of (some addr) = some addr.ip

abbrev pub ip_reaches : Option ℕ → Option ℕ → List (ℕ × ℕ) → Bool
ip_reaches none limit counts = false
ip_reaches (some ip) limit counts = reaches limit (count_of ip counts)

-- The `rejection` of `admit`.
unfoldable pub rejection : Limits → Bytes → Option ℕ → Registry → Option AdmissionError
rejection limits route ip r =
    if not r.accepting
    then some shutdown
    else if reaches limits.process_max_connections (length r.connections)
    then some process_capacity
    else if reaches limits.route_max_connections (count_of route r.route_counts)
    then some route_capacity
    else if ip_reaches ip limits.max_connections_per_ip r.ip_counts
    then some ip_capacity
    else none

abbrev pub increment_ip : Option ℕ → List (ℕ × ℕ) → List (ℕ × ℕ)
increment_ip none counts = counts
increment_ip (some ip) counts = increment_count ip counts

abbrev pub decrement_ip : Option ℕ → List (ℕ × ℕ) → List (ℕ × ℕ)
decrement_ip none counts = counts
decrement_ip (some ip) counts = decrement_count ip counts

-- The entry that `admit` stores; `now` is `SystemTime::now()`.
abbrev pub new_entry : Limits → Bytes → Option SocketAddr → Option Bytes → ℕ → ConnectionEntry
new_entry limits route addr protocol now = record {
  route = route;
  remote_addr = addr;
  protocol = protocol;
  opened_at = now;
  close_timeout = limits.close_timeout;
  max_rooms_per_connection = min limits.max_rooms_per_connection limits.runtime_max_rooms;
  max_room_name_bytes = min limits.max_room_name_bytes limits.runtime_max_room_name;
  rooms = [];
  lifecycle = connecting;
  internal_sender = none;
  driver_abort = none;
  forced_shutdown_observed = false;
}

abbrev pub admitted : Limits → Bytes → Option SocketAddr → Option Bytes → ℕ → Registry → Registry
admitted limits route addr protocol now r = record r {
  next_id = add_u64 r.next_id 1;
  connections = insert r.next_id (new_entry limits route addr protocol now) r.connections;
  route_counts = increment_count route r.route_counts;
  ip_counts = increment_ip (ip_of addr) r.ip_counts;
  counters = record r.counters { accepted_connections = add_u64 r.counters.accepted_connections 1 };
}

abbrev pub turned_away : Registry → Registry
turned_away r = record r {
  counters = record r.counters { rejected_connections = add_u64 r.counters.rejected_connections 1 };
}

unfoldable pub admit :
    Limits
    → Bytes
    → Option SocketAddr
    → Option Bytes
    → ℕ
    → Registry
    → Registry × Result AdmissionError ℕ × List Observation
unfolding rejection
admit limits route addr protocol now r = elim (rejection limits route (ip_of addr) r) [
  | some error ↦ (turned_away r, err error, rejected route error ∷ [])
  | none ↦ (admitted limits route addr protocol now r, ok r.next_id, accepted r.next_id route ∷ [])
]

-- `connections.get_mut(&id)` where the entry is changed in place.
unfoldable pub set_entry : ℕ → ConnectionEntry → Registry → Registry
set_entry id entry r = record r { connections = insert id entry r.connections }

unfoldable pub register_driver : ℕ → ℕ → ℕ → Registry → Registry × Bool
unfolding set_entry
register_driver id sender abort r = elim (lookup id r.connections) [
  | none ↦ (r, false)
  | some entry ↦ (
    set_entry id (record entry { internal_sender = some sender; driver_abort = some abort }) r,
    true,
  )
]

unfoldable pub register_upgrade_task : ℕ → ℕ → Registry → Registry × Bool
unfolding set_entry
register_upgrade_task id abort r = elim (lookup id r.connections) [
  | none ↦ (r, false)
  | some entry ↦
      if is_some entry.driver_abort
      then (r, false)
      else (set_entry id (record entry { driver_abort = some abort }) r, true)
]

unfoldable pub record_opened : ℕ → Registry → Registry × List Observation
unfolding set_entry
record_opened id r = elim (lookup id r.connections) [
  | none ↦ (r, was_opened id ∷ [])
  | some entry ↦ (set_entry id (record entry { lifecycle = opened }) r, was_opened id ∷ [])
]

unfoldable pub record_closing : ℕ → Registry → Registry
unfolding set_entry
record_closing id r = elim (lookup id r.connections) [
  | none ↦ r
  | some entry ↦ set_entry id (record entry { lifecycle = closing }) r
]

abbrev pub max_seen_publications : ℕ
max_seen_publications = 4096

-- What `mark_publication_seen` drops when the queue is too long.
abbrev pub forget_oldest : Registry → Registry
forget_oldest r = elim r.seen_publication_order [
  | [] ↦ r
  | expired ∷ rest ↦ record r {
    seen_publications = discard expired r.seen_publications;
    seen_publication_order = rest;
  }
]

abbrev pub remember : ℕ × ℕ → Registry → Registry
remember key r = record r {
  seen_publications = add key r.seen_publications;
  seen_publication_order = r.seen_publication_order ++ key ∷ [];
}

unfoldable pub mark_publication_seen : ℕ → ℕ → Registry → Registry × Bool
mark_publication_seen origin id r =
    if contains (origin, id) r.seen_publications
    then (r, false)
    else let r' = remember (origin, id) r in
      (
        if ltb max_seen_publications (length r'.seen_publication_order)
            then forget_oldest r'
            else r',
        true,
      )
