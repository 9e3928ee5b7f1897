-- ===== src/Registry/Runs.antt =====
-- Runs of the registry of src/app/websocket/runtime.rs and the index of rooms.
use rustrest.Prelude.{
  ℕ, ◌+◌, ◌≡◌, refl, inl, inr, false, List, [], Option, some, ltb, length, arith, ℕ_eq, list_eq,
  pair_eq, lookup, contains, Option-cases, Bool-cases, Result-cases,
}
use rustrest.Text.{Bytes}
use rustrest.Registry.{
  Registry, ConnectionEntry, Limits, SocketAddr, admit, rejection, ip_of, register_driver,
  register_upgrade_task, record_opened, record_closing, mark_publication_seen, remember,
  turned_away, max_seen_publications,
}
use rustrest.Registry.Rooms.{
  to_tree, additions_of, removals_of, join_entry, join, discard_rooms, leave, leave_all, release,
  validate_rooms,
}
use rustrest.Registry.Metrics.{
  start_closing, mark_forced, begin_shutdown, abort_remaining, record_message,
  record_saturated_send, record_heartbeat_timeout, record_broadcast, record_broker_publication,
  record_broker_error, set_broker_connected, set_broker_disconnected,
}
use rustrest.Registry.Indexed.{
  same_index, set_entry-IsIndexed, joined-IsIndexed, left-IsIndexed, released-IsIndexed,
  admitted-IsIndexed, map_entries-IsIndexed, forget_oldest-IsIndexed,
}
use rustrest.Registry.Index.{IsIndexed, contains-discard_rooms}
use rustrest.Registry.Counts.{IsCounted}
use rustrest.Registry.Reach.{
  Step, admits, drives, upgrades, opens, closes, joins, leaves, leaves_all, releases, marks,
  counts_message, counts_saturated, counts_timeout, counts_broadcast, counts_publication,
  counts_error, connects_broker, disconnects_broker, shuts_down, aborts, Reach, start, next,
  Reach-IsCounted,
}

-- One operation at a time.
module _ (r : Registry) (h : IsIndexed r) where
  admit-IsIndexed :
      (limits : Limits) (route : Bytes) (addr : Option SocketAddr) (protocol : Option Bytes)
      (now : ℕ)
      → IsCounted r
      → IsIndexed (admit limits route addr protocol now r).0
  unfolding admit
  admit-IsIndexed limits route addr protocol now c =
      elim (Option-cases (rejection limits route (ip_of addr) r)) [
        | inl allowed ↦
            rw (admit, allowed) (admitted-IsIndexed limits route addr protocol now r c h)
        | inr (error, denied) ↦ rw (admit, denied) (same_index r (turned_away r) refl refl h)
      ]

  drive-IsIndexed : (id sender abort : ℕ) → IsIndexed (register_driver id sender abort r).0
  unfolding register_driver
  drive-IsIndexed id sender abort = elim (Option-cases (lookup id r.connections)) [
    | inl missing ↦ rw (register_driver, missing) h
    | inr (entry, found) ↦
        rw (register_driver, found) (set_entry-IsIndexed id _ r h entry found refl refl)
  ]

  upgrade-IsIndexed : (id abort : ℕ) → IsIndexed (register_upgrade_task id abort r).0
  unfolding register_upgrade_task
  upgrade-IsIndexed id abort = elim (Option-cases (lookup id r.connections)) [
    | inl missing ↦ rw (register_upgrade_task, missing) h
    | inr (entry, found) ↦ elim (Option-cases entry.driver_abort) [
      | inl free ↦
          rw (register_upgrade_task, found, free)
            (set_entry-IsIndexed id _ r h entry found refl refl)
      | inr (_, taken) ↦ rw (register_upgrade_task, found, taken) h
    ]
  ]

  open-IsIndexed : (id : ℕ) → IsIndexed (record_opened id r).0
  unfolding record_opened
  open-IsIndexed id = elim (Option-cases (lookup id r.connections)) [
    | inl missing ↦ rw (record_opened, missing) h
    | inr (entry, found) ↦
        rw (record_opened, found) (set_entry-IsIndexed id _ r h entry found refl refl)
  ]

  close-IsIndexed : (id : ℕ) → IsIndexed (record_closing id r)
  unfolding record_closing
  close-IsIndexed id = elim (Option-cases (lookup id r.connections)) [
    | inl missing ↦ rw (record_closing, missing) h
    | inr (entry, found) ↦
        rw (record_closing, found) (set_entry-IsIndexed id _ r h entry found refl refl)
  ]

  join_entry-IsIndexed :
      (id : ℕ) (entry : ConnectionEntry) (requested : List Bytes)
      → lookup id r.connections ≡ some entry
      → IsIndexed (join_entry id entry requested r).0
  unfolding join_entry
  join_entry-IsIndexed id entry requested found =
      elim (Result-cases (validate_rooms entry.max_room_name_bytes requested)) [
        | inl (valid, checked) ↦
            elim (Bool-cases (
              ltb entry.max_rooms_per_connection
                (length entry.rooms + length (additions_of requested entry)))) [
                  | inl full ↦ rw (join_entry, checked, full) h
                  | inr fits ↦
                      rw (join_entry, checked, fits)
                        (joined-IsIndexed id entry (additions_of requested entry) r found h)
                ]
        | inr (error, refused) ↦ rw (join_entry, refused) h
      ]

  join-IsIndexed : (id : ℕ) (rooms : List Bytes) → IsIndexed (join id rooms r).0
  unfolding join
  join-IsIndexed id rooms = elim (Option-cases (lookup id r.connections)) [
    | inl missing ↦ rw (join, missing) h
    | inr (entry, found) ↦ rw (join, found) (join_entry-IsIndexed id entry (to_tree rooms) found)
  ]

  leave-IsIndexed : (id : ℕ) (rooms : List Bytes) → IsIndexed (leave id rooms r).0
  unfolding leave
  leave-IsIndexed id rooms = elim (Option-cases (lookup id r.connections)) [
    | inl missing ↦ rw (leave, missing) h
    | inr (entry, found) ↦
        let gone = removals_of (to_tree rooms) entry in
        rw (leave, found)
          (left-IsIndexed id entry (discard_rooms gone entry.rooms) gone r found
            (λ m. contains-discard_rooms m gone entry.rooms) h)
  ]

  leave_all-IsIndexed : (id : ℕ) → IsIndexed (leave_all id r).0
  unfolding leave_all contains
  leave_all-IsIndexed id = elim (Option-cases (lookup id r.connections)) [
    | inl missing ↦ rw (leave_all, missing) h
    | inr (entry, found) ↦
        rw (leave_all, found) (left-IsIndexed id entry [] entry.rooms r found (λ m. ground arith) h)
  ]

  release-IsIndexed : (id : ℕ) → IsIndexed (release id r).0
  unfolding release
  release-IsIndexed id = elim (Option-cases (lookup id r.connections)) [
    | inl missing ↦ rw (release, missing) h
    | inr (entry, found) ↦ rw (release, found) (released-IsIndexed id entry r found h)
  ]

  mark-IsIndexed : (origin id : ℕ) → IsIndexed (mark_publication_seen origin id r).0
  unfolding mark_publication_seen
  mark-IsIndexed origin id =
      let r' = remember (origin, id) r in
      let h' : IsIndexed r' = same_index r r' refl refl h in
      elim (Bool-cases (contains (origin, id) r.seen_publications)) [
        | inl seen ↦ rw (seen) h
        | inr new ↦
            elim (Bool-cases (ltb max_seen_publications (length r'.seen_publication_order))) [
              | inl long ↦ rw (new, long) (forget_oldest-IsIndexed r' h')
              | inr short ↦ rw (new, short) h'
            ]
      ]

Step-IsIndexed : (r s : Registry) → Step r s → IsCounted r → IsIndexed r → IsIndexed s
unfolding record_message record_saturated_send record_heartbeat_timeout record_broadcast
    record_broker_publication record_broker_error set_broker_connected set_broker_disconnected
    begin_shutdown abort_remaining
Step-IsIndexed _ _ (admits limits route addr protocol now r small) c h =
    admit-IsIndexed r h limits route addr protocol now c
Step-IsIndexed _ _ (drives id sender abort r) c h = drive-IsIndexed r h id sender abort
Step-IsIndexed _ _ (upgrades id abort r) c h = upgrade-IsIndexed r h id abort
Step-IsIndexed _ _ (opens id r) c h = open-IsIndexed r h id
Step-IsIndexed _ _ (closes id r) c h = close-IsIndexed r h id
Step-IsIndexed _ _ (joins id rooms r) c h = join-IsIndexed r h id rooms
Step-IsIndexed _ _ (leaves id rooms r) c h = leave-IsIndexed r h id rooms
Step-IsIndexed _ _ (leaves_all id r) c h = leave_all-IsIndexed r h id
Step-IsIndexed _ _ (releases id r) c h = release-IsIndexed r h id
Step-IsIndexed _ _ (marks origin id r) c h = mark-IsIndexed r h origin id
Step-IsIndexed _ _ (counts_message id outbound bytes r) c h = same_index r _ refl refl h
Step-IsIndexed _ _ (counts_saturated id outbound r) c h = same_index r _ refl refl h
Step-IsIndexed _ _ (counts_timeout id r) c h = same_index r _ refl refl h
Step-IsIndexed _ _ (counts_broadcast route room_count report r) c h = same_index r _ refl refl h
Step-IsIndexed _ _ (counts_publication r) c h = same_index r _ refl refl h
Step-IsIndexed _ _ (counts_error node lagged r) c h = same_index r _ refl refl h
Step-IsIndexed _ _ (connects_broker node r) c h = same_index r _ refl refl h
Step-IsIndexed _ _ (disconnects_broker node reason r) c h = same_index r _ refl refl h
Step-IsIndexed _ _ (shuts_down r) c h =
    map_entries-IsIndexed start_closing false r (λ entry. refl) (λ entry. refl) h
Step-IsIndexed _ _ (aborts r) c h =
    map_entries-IsIndexed mark_forced r.accepting r (λ entry. refl) (λ entry. refl) h

-- In every registry that operations lead to from a new runtime, as long as the identifiers have
-- not run out, the index of rooms has a connection under a route and a room exactly where the
-- connection is registered on that route and is in that room.
pub Reach-IsIndexed : (r : Registry) → Reach r → IsIndexed r
unfolding lookup contains
Reach-IsIndexed _ start = record { exact = λ id route room. refl }
Reach-IsIndexed s (next r _ reached step) =
    Step-IsIndexed r s step (Reach-IsCounted r reached) (Reach-IsIndexed r reached)
