-- ===== src/Registry/Counted.antt =====
-- Each operation on the registry of src/app/websocket/runtime.rs keeps the counters by route and by
-- address exact.
use rustrest.Prelude.{
  ℕ, ◌+◌, ◌^◌, ◌<◌, ◌≡◌, refl, sym, ◌∙◌, ap, inl, inr, List, [], Option, some, ltb, length, count,
  ℕ_eq, list_eq, lookup, contains, pair_eq, Option-cases, List-cases, Result-cases, Bool-cases,
}
use rustrest.Text.{Bytes}
use rustrest.Registry.{
  ConnectionEntry, Registry, Counters, Limits, SocketAddr, count_of, ip_of, rejection, admit,
  turned_away, set_entry, register_driver, register_upgrade_task, record_opened, record_closing,
  mark_publication_seen, max_seen_publications, forget_oldest, remember, Key,
}
use rustrest.Registry.Metrics.{map_entries}
use rustrest.Prelude.{Bool, All, Distinct, Absent, ◌∷◌}
use rustrest.Registry.Rooms.{
  join, leave, leave_all, release, validate_rooms, join_entry, to_tree, additions_of,
}
use rustrest.Registry.Counts.{
  IsCounted, on_route, from_ip, admitted-IsCounted, set_entry-IsCounted, released-IsCounted,
}

Absent-map_entries :
    (f : ConnectionEntry → ConnectionEntry) (k : ℕ) (m : List (ℕ × ConnectionEntry))
    → Absent k m
    → Absent k (map_entries f m)
Absent-map_entries f k [] h = tt
Absent-map_entries f k ((id, entry) ∷ m) h = (h.0, Absent-map_entries f k m h.1)

Distinct-map_entries :
    (f : ConnectionEntry → ConnectionEntry) (m : List (ℕ × ConnectionEntry))
    → Distinct m
    → Distinct (map_entries f m)
Distinct-map_entries f [] h = tt
Distinct-map_entries f ((id, entry) ∷ m) h =
    (Absent-map_entries f id m h.0, Distinct-map_entries f m h.1)

-- The fields that counting reads are the same.
pub copied :
    (r s : Registry)
    → s.next_id ≡ r.next_id
    → s.connections ≡ r.connections
    → s.route_counts ≡ r.route_counts
    → s.ip_counts ≡ r.ip_counts
    → IsCounted r
    → IsCounted s
copied r s a b c d h = record {
  distinct = rw (b) h.distinct;
  issued = rw (a, b) h.issued;
  by_route = λ j. ap (count_of j) c ∙ h.by_route j ∙ ap (count (on_route j)) (sym b);
  by_ip = λ j. ap (count_of j) d ∙ h.by_ip j ∙ ap (count (from_ip j)) (sym b);
}

pub admit-IsCounted :
    (limits : Limits) (route : Bytes) (addr : Option SocketAddr) (protocol : Option Bytes) (now : ℕ)
    (r : Registry)
    → r.next_id + 1 < 2 ^ 64
    → IsCounted r
    → IsCounted (admit limits route addr protocol now r).0
unfolding admit
admit-IsCounted limits route addr protocol now r small h =
    elim (Option-cases (rejection limits route (ip_of addr) r)) [
      | inl allowed ↦
          rw (admit, allowed) (admitted-IsCounted limits route addr protocol now r small h)
      | inr (error, denied) ↦ rw (admit, denied) (copied r (turned_away r) refl refl refl refl h)
    ]

pub drive-IsCounted :
    (id sender abort : ℕ) (r : Registry)
    → IsCounted r
    → IsCounted (register_driver id sender abort r).0
unfolding register_driver
drive-IsCounted id sender abort r h = elim (Option-cases (lookup id r.connections)) [
  | inl missing ↦ rw (register_driver, missing) h
  | inr (entry, found) ↦
      rw (register_driver, found) (set_entry-IsCounted id entry _ r found refl refl h)
]

pub upgrade-IsCounted :
    (id abort : ℕ) (r : Registry) → IsCounted r → IsCounted (register_upgrade_task id abort r).0
unfolding register_upgrade_task
upgrade-IsCounted id abort r h = elim (Option-cases (lookup id r.connections)) [
  | inl missing ↦ rw (register_upgrade_task, missing) h
  | inr (entry, found) ↦ elim (Option-cases entry.driver_abort) [
    | inl free ↦
        rw (register_upgrade_task, found, free) (set_entry-IsCounted id entry _ r found refl refl h)
    | inr (_, taken) ↦ rw (register_upgrade_task, found, taken) h
  ]
]

pub open-IsCounted : (id : ℕ) (r : Registry) → IsCounted r → IsCounted (record_opened id r).0
unfolding record_opened
open-IsCounted id r h = elim (Option-cases (lookup id r.connections)) [
  | inl missing ↦ rw (record_opened, missing) h
  | inr (entry, found) ↦
      rw (record_opened, found) (set_entry-IsCounted id entry _ r found refl refl h)
]

pub close-IsCounted : (id : ℕ) (r : Registry) → IsCounted r → IsCounted (record_closing id r)
unfolding record_closing
close-IsCounted id r h = elim (Option-cases (lookup id r.connections)) [
  | inl missing ↦ rw (record_closing, missing) h
  | inr (entry, found) ↦
      rw (record_closing, found) (set_entry-IsCounted id entry _ r found refl refl h)
]

-- An entry whose rooms change, with the index of rooms and the counters of rooms.
with_rooms-IsCounted :
    (id : ℕ) (entry : ConnectionEntry) (kept : List Bytes) (index : List (Key × List ℕ))
    (counters : Counters) (r : Registry)
    → lookup id r.connections ≡ some entry
    → IsCounted r
    → IsCounted (record (set_entry id (record entry { rooms = kept }) r) {
      rooms = index;
      counters = counters;
    })
unfolding set_entry
with_rooms-IsCounted id entry kept index counters r found h =
    copied (set_entry id (record entry { rooms = kept }) r) _ refl refl refl refl
      (set_entry-IsCounted id entry (record entry { rooms = kept }) r found refl refl h)

join_entry-IsCounted :
    (id : ℕ) (entry : ConnectionEntry) (requested : List Bytes) (r : Registry)
    → lookup id r.connections ≡ some entry
    → IsCounted r
    → IsCounted (join_entry id entry requested r).0
unfolding join_entry
join_entry-IsCounted id entry requested r found h =
    elim (Result-cases (validate_rooms entry.max_room_name_bytes requested)) [
      | inl (u, valid) ↦
          elim (Bool-cases (
            ltb entry.max_rooms_per_connection
              (length entry.rooms + length (additions_of requested entry)))) [
                | inl full ↦ rw (join_entry, valid, full) h
                | inr fits ↦
                    rw (join_entry, valid, fits) (with_rooms-IsCounted id entry _ _ _ r found h)
              ]
      | inr (error, invalid) ↦ rw (join_entry, invalid) h
    ]

pub join-IsCounted :
    (id : ℕ) (rooms : List Bytes) (r : Registry) → IsCounted r → IsCounted (join id rooms r).0
unfolding join
join-IsCounted id rooms r h = elim (Option-cases (lookup id r.connections)) [
  | inl missing ↦ rw (join, missing) h
  | inr (entry, found) ↦ rw (join, found) (join_entry-IsCounted id entry (to_tree rooms) r found h)
]

pub leave-IsCounted :
    (id : ℕ) (rooms : List Bytes) (r : Registry) → IsCounted r → IsCounted (leave id rooms r).0
unfolding leave
leave-IsCounted id rooms r h = elim (Option-cases (lookup id r.connections)) [
  | inl missing ↦ rw (leave, missing) h
  | inr (entry, found) ↦ rw (leave, found) (with_rooms-IsCounted id entry _ _ _ r found h)
]

pub leave_all-IsCounted : (id : ℕ) (r : Registry) → IsCounted r → IsCounted (leave_all id r).0
unfolding leave_all
leave_all-IsCounted id r h = elim (Option-cases (lookup id r.connections)) [
  | inl missing ↦ rw (leave_all, missing) h
  | inr (entry, found) ↦ rw (leave_all, found) (with_rooms-IsCounted id entry _ _ _ r found h)
]

pub release-IsCounted : (id : ℕ) (r : Registry) → IsCounted r → IsCounted (release id r).0
unfolding release
release-IsCounted id r h = elim (Option-cases (lookup id r.connections)) [
  | inl missing ↦ rw (release, missing) h
  | inr (entry, found) ↦ rw (release, found) (released-IsCounted id entry r found h)
]

forget_oldest-IsCounted : (r : Registry) → IsCounted r → IsCounted (forget_oldest r)
forget_oldest-IsCounted r h = elim (List-cases r.seen_publication_order) [
  | inl nothing ↦ rw (nothing) (copied r _ refl refl refl refl h)
  | inr (expired, rest, queued) ↦ rw (queued) (copied r _ refl refl refl refl h)
]

pub mark-IsCounted :
    (origin id : ℕ) (r : Registry) → IsCounted r → IsCounted (mark_publication_seen origin id r).0
unfolding mark_publication_seen
mark-IsCounted origin id r h =
    let r' = remember (origin, id) r in
    let h' : IsCounted r' = copied r r' refl refl refl refl h in
    elim (Bool-cases (contains (origin, id) r.seen_publications)) [
      | inl seen ↦ rw (seen) h
      | inr new ↦ elim (Bool-cases (ltb max_seen_publications (length r'.seen_publication_order))) [
        | inl long ↦ rw (new, long) (forget_oldest-IsCounted r' h')
        | inr short ↦ rw (new, short) h'
      ]
    ]

-- Every entry changes in place, with its route and its address.
pub map_entries-IsCounted :
    (f : ConnectionEntry → ConnectionEntry) (accepting : Bool) (r : Registry)
    → ((entry : ConnectionEntry) → (f entry).route ≡ entry.route)
    → ((entry : ConnectionEntry) → (f entry).remote_addr ≡ entry.remote_addr)
    → IsCounted r
    → IsCounted (record r { accepting = accepting; connections = map_entries f r.connections })
map_entries-IsCounted f accepting r route addr h = record {
  distinct = Distinct-map_entries f r.connections h.distinct;
  issued = issued r.connections h.issued;
  by_route = λ j. h.by_route j ∙ sym (routes j r.connections);
  by_ip = λ j. h.by_ip j ∙ sym (addresses j r.connections);
}
  where
    issued :
        (m : List (ℕ × ConnectionEntry))
        → All (λ c. c.0 < r.next_id) m
        → All (λ c. c.0 < r.next_id) (map_entries f m)
    issued [] h = tt
    issued ((id, entry) ∷ m) h = (h.0, issued m h.1)

    routes :
        (j : Bytes) (m : List (ℕ × ConnectionEntry))
        → count (on_route j) (map_entries f m) ≡ count (on_route j) m
    routes j [] = refl
    routes j ((id, entry) ∷ m) = rw (route entry, routes j m)

    addresses :
        (j : ℕ) (m : List (ℕ × ConnectionEntry))
        → count (from_ip j) (map_entries f m) ≡ count (from_ip j) m
    addresses j [] = refl
    addresses j ((id, entry) ∷ m) = rw (addr entry, addresses j m)
