-- ===== src/Registry/Metrics.antt =====
-- What src/app/websocket/runtime.rs counts and reports: the `record_` operations, the broker's
-- state, `stats`, `connection`, `connections`, and the sections of `begin_shutdown`,
-- `shutdown_grace_period` and `abort_remaining` under the lock. Tracing is left out.
use rustrest.Prelude.{
  ℕ, ◌-◌, ◌^◌, Bool, true, false, not, ◌||◌, ◌&&◌, List, [], ◌∷◌, Option, none, some, min, ltb,
  if◌then◌else◌, is_some, length, ℕ_eq, list_eq, pair_eq, lookup,
}
use rustrest.Text.{Bytes}
use rustrest.Registry.{
  Registry, Counters, ConnectionEntry, Lifecycle, closing, SocketAddr, Observation,
  WsBroadcastReport, message, queue_saturated, heartbeat_timeout, handler_failed, forced_shutdown,
  was_closed, broadcast, broker_was_connected, broker_was_disconnected, broker_lagged,
  saturating_add, add_u64,
}

abbrev pub with_counters : Counters → Registry → Registry
with_counters counters r = record r { counters = counters }

unfoldable pub record_message : ℕ → Bool → ℕ → Registry → Registry × List Observation
record_message id outbound bytes r =
    let c = r.counters in
    let counted = min bytes (2 ^ 64 - 1) in
    let sent = record c {
      messages_sent = saturating_add c.messages_sent 1;
      bytes_sent = saturating_add c.bytes_sent counted;
    } in
    let received = record c {
      messages_received = saturating_add c.messages_received 1;
      bytes_received = saturating_add c.bytes_received counted;
    } in
    (with_counters (if outbound then sent else received) r, message id outbound bytes ∷ [])

unfoldable pub record_saturated_send : ℕ → Bool → Registry → Registry × List Observation
record_saturated_send id outbound r = (
  with_counters (record r.counters { saturated_sends = add_u64 r.counters.saturated_sends 1 }) r,
  queue_saturated id outbound ∷ [],
)

unfoldable pub record_heartbeat_timeout : ℕ → Registry → Registry × List Observation
record_heartbeat_timeout id r = (
  with_counters (record r.counters { heartbeat_timeouts = add_u64 r.counters.heartbeat_timeouts 1 })
      r,
  heartbeat_timeout id ∷ [],
)

abbrev pub record_closed : ℕ → ℕ → Bool → Registry → Registry × List Observation
record_closed id code clean r = (r, was_closed id code clean ∷ [])

abbrev pub record_handler_failed : ℕ → Registry → Registry × List Observation
record_handler_failed id r = (r, handler_failed id ∷ [])

-- A broadcast that did not reach every recipient.
abbrev pub is_partial : WsBroadcastReport → Bool
is_partial report = ltb 0 report.rejected_sends || ltb 0 report.disconnected

unfoldable pub record_broadcast :
    Option Bytes → ℕ → WsBroadcastReport → Registry → Registry × List Observation
record_broadcast route room_count report r =
    let c = record r.counters { local_broadcasts = saturating_add r.counters.local_broadcasts 1 } in
    let partly = record c { partial_broadcasts = saturating_add c.partial_broadcasts 1 } in
    (
      with_counters (if is_partial report then partly else c) r,
      broadcast route room_count report ∷ [],
    )

unfoldable pub record_broker_publication : Registry → Registry
record_broker_publication r =
    with_counters
      (record r.counters { broker_publications = saturating_add r.counters.broker_publications 1 })
      r

-- The argument is how many messages a `Lagged` error skipped.
unfoldable pub record_broker_error : ℕ → Option ℕ → Registry → Registry × List Observation
record_broker_error node lagged r = (
  with_counters (record r.counters { broker_errors = saturating_add r.counters.broker_errors 1 }) r,
  elim lagged [ none ↦ [] | some skipped ↦ broker_lagged node skipped ∷ [] ],
)

unfoldable pub set_broker_connected : ℕ → Registry → Registry × List Observation
set_broker_connected node r = (
  record r { broker_connected = true },
  if r.broker_connected then [] else broker_was_connected node ∷ [],
)

unfoldable pub set_broker_disconnected : ℕ → ℕ → Registry → Registry × List Observation
set_broker_disconnected node reason r =
    (record r { broker_connected = false }, broker_was_disconnected node reason ∷ [])

-- A change of every entry in place, under its identifier.
abbrev pub map_entries :
    (ConnectionEntry → ConnectionEntry) → List (ℕ × ConnectionEntry) → List (ℕ × ConnectionEntry)
map_entries f [] = []
map_entries f ((id, entry) ∷ connections) = (id, f entry) ∷ map_entries f connections

abbrev pub start_closing : ConnectionEntry → ConnectionEntry
start_closing entry = record entry { lifecycle = closing }

unfoldable pub begin_shutdown : Registry → Registry
begin_shutdown r = record r {
  accepting = false;
  connections = map_entries start_closing r.connections;
}

abbrev pub longest : List (ℕ × ConnectionEntry) → ℕ
longest [] = 0
longest ((id, entry) ∷ connections) =
    let rest = longest connections in
    if ltb rest entry.close_timeout then entry.close_timeout else rest

-- The longest time that a connection may take to close.
unfoldable pub shutdown_grace_period : Registry → ℕ
shutdown_grace_period r = longest r.connections

abbrev pub is_aborted : ConnectionEntry → Bool
is_aborted entry = is_some entry.driver_abort && not entry.forced_shutdown_observed

abbrev pub mark_forced : ConnectionEntry → ConnectionEntry
mark_forced entry = record entry {
  forced_shutdown_observed = entry.forced_shutdown_observed || is_some entry.driver_abort;
}

abbrev pub aborted_in : List (ℕ × ConnectionEntry) → List Observation
aborted_in [] = []
aborted_in ((id, entry) ∷ connections) =
    let rest = aborted_in connections in
    if is_aborted entry then forced_shutdown id ∷ rest else rest

unfoldable pub abort_remaining : Registry → Registry × List Observation
abort_remaining r =
    (record r { connections = map_entries mark_forced r.connections }, aborted_in r.connections)

pub record WebSocketStats : Type 0 where
  pub active_connections : ℕ
  pub active_rooms : ℕ
  pub counted : Counters
  pub is_broker_connected : Bool

unfoldable pub stats : Registry → WebSocketStats
stats r = record {
  active_connections = length r.connections;
  active_rooms = length r.rooms;
  counted = r.counters;
  is_broker_connected = r.broker_connected;
}

pub record Snapshot : Type 0 where
  pub id : ℕ
  pub route : Bytes
  pub remote_addr : Option SocketAddr
  pub protocol : Option Bytes
  pub opened_at : ℕ
  pub rooms : List Bytes
  pub lifecycle : Lifecycle

abbrev pub snapshot : ℕ → ConnectionEntry → Snapshot
snapshot id entry = record {
  id = id;
  route = entry.route;
  remote_addr = entry.remote_addr;
  protocol = entry.protocol;
  opened_at = entry.opened_at;
  rooms = entry.rooms;
  lifecycle = entry.lifecycle;
}

unfoldable pub connection : ℕ → Registry → Option Snapshot
connection id r = elim (lookup id r.connections) [
  | none ↦ none
  | some entry ↦ some (snapshot id entry)
]
