-- ===== src/Registry/Indexed.antt =====
-- Every operation on the registry of src/app/websocket/runtime.rs keeps the index of rooms exact.
use rustrest.Prelude.{
  ℕ, ◌≡◌, refl, sym, ap, ◌∙◌, inl, inr, Bool, true, false, not, ◌&&◌, ◌||◌, List, [], ◌∷◌, Option,
  none, some, if◌then◌else◌, arith, ◌⊎◌, ◌==◌, ℕ_eq, list_eq, pair_eq, nat_eq, nat_eq_iff, lookup,
  insert, lookup-insert, lookup-remove, contains, Bool-cases, List-cases, Absent-lookup,
}
use rustrest.Text.{Bytes}
use rustrest.Registry.{
  Registry, ConnectionEntry, Key, Limits, SocketAddr, set_entry, forget_oldest, admitted,
}
use rustrest.Registry.Rooms.{
  add_rooms, members_of, add_memberships, remove_room_memberships, joined, left, released,
}
use rustrest.Registry.Metrics.{map_entries}
use rustrest.Registry.Index.{
  IsIndexed, holds, contains-add_rooms, contains-add_memberships, contains-remove_room_memberships,
}
use rustrest.Registry.Counts.{IsCounted, Absent-issued}

-- The connections and the index are the same.
pub same_index :
    (r s : Registry) → s.connections ≡ r.connections → s.rooms ≡ r.rooms → IsIndexed r → IsIndexed s
same_index r s c i h = record {
  exact = λ id route room.
      ap (λ (index : List (Key × List ℕ)). contains id (members_of (lookup (route, room) index))) i
      ∙ h.exact id route room
      ∙ ap (λ (m : List (ℕ × ConnectionEntry)). holds (lookup id m) route room) (sym c);
}

-- A new entry for an identifier, with an index that fits its rooms.
module _ (id : ℕ) (entry : ConnectionEntry) (r : Registry) (h : IsIndexed r) where
  -- The entry may change but for its route and its rooms.
  pub set_entry-IsIndexed :
      (old : ConnectionEntry)
      → lookup id r.connections ≡ some old
      → entry.route ≡ old.route
      → entry.rooms ≡ old.rooms
      → IsIndexed (set_entry id entry r)
  unfolding set_entry
  set_entry-IsIndexed old found route rooms = record {
    exact = λ j q m.
        h.exact j q m
        ∙ sym (
            ap (λ (o : Option ConnectionEntry). holds o q m)
              (lookup-insert id j entry r.connections)
            ∙ go j q m (Bool-cases (nat_eq id j)));
  }
    where
      go :
          (j : ℕ) (q m : Bytes)
          → (nat_eq id j ≡ true) ⊎ (nat_eq id j ≡ false)
          → holds (if nat_eq id j then some entry else lookup j r.connections) q m
            ≡ holds (lookup j r.connections) q m
      go j q m (inl same) =
          let there : lookup j r.connections ≡ some old =
            ap (λ (k : ℕ). lookup k r.connections) (sym ((nat_eq_iff id j).0 same)) ∙ found in
          rw (same, there, route, rooms)
      go j q m (inr other) = rw (other)

  -- The entry comes in place of one on its route, and the index changes with its rooms.
  change_rooms :
      (before : Option ConnectionEntry) (rooms : List (Key × List ℕ)) (change : Bytes → Bool → Bool)
      → lookup id r.connections ≡ before
      → ((q m : Bytes)
          → holds (some entry) q m
            ≡ (if entry.route == q then change m (holds before q m) else holds before q m))
      → ((j : ℕ) (q m : Bytes)
          → contains j (members_of (lookup (q, m) rooms)) ≡ (
              if nat_eq id j && entry.route == q
              then change m (contains j (members_of (lookup (q, m) r.rooms)))
              else contains j (members_of (lookup (q, m) r.rooms))))
      → IsIndexed (record r { connections = insert id entry r.connections; rooms = rooms })
  change_rooms before rooms change found held listed = record {
    exact = λ j q m.
        listed j q m
        ∙ go j q m (Bool-cases (nat_eq id j))
        ∙ sym (
            ap (λ (o : Option ConnectionEntry). holds o q m)
              (lookup-insert id j entry r.connections));
  }
    where
      go :
          (j : ℕ) (q m : Bytes)
          → (nat_eq id j ≡ true) ⊎ (nat_eq id j ≡ false)
          → (if nat_eq id j && entry.route == q
              then change m (contains j (members_of (lookup (q, m) r.rooms)))
              else contains j (members_of (lookup (q, m) r.rooms)))
            ≡ holds (if nat_eq id j then some entry else lookup j r.connections) q m
      go j q m (inl same) =
          let there : lookup j r.connections ≡ before =
            ap (λ (k : ℕ). lookup k r.connections) (sym ((nat_eq_iff id j).0 same)) ∙ found in
          let was = h.exact j q m ∙ ap (λ (o : Option ConnectionEntry). holds o q m) there in
          rw (same, was) (sym (held q m))
      go j q m (inr other) = rw (other) (h.exact j q m)

pub joined-IsIndexed :
    (id : ℕ) (entry : ConnectionEntry) (additions : List Bytes) (r : Registry)
    → lookup id r.connections ≡ some entry
    → IsIndexed r
    → IsIndexed (joined id entry additions r)
unfolding set_entry
joined-IsIndexed id entry additions r found h = same_index _ _ refl refl (
    change_rooms id (record entry { rooms = add_rooms additions entry.rooms }) r h (some entry)
      (add_memberships entry.route id additions r.rooms) (λ m here. here || contains m additions)
      found (λ q m. ground (arith, contains-add_rooms m additions entry.rooms))
      (λ j q m. contains-add_memberships id entry.route j q m additions r.rooms ∙ ground arith))

pub left-IsIndexed :
    (id : ℕ) (entry : ConnectionEntry) (kept gone : List Bytes) (r : Registry)
    → lookup id r.connections ≡ some entry
    → ((m : Bytes) → contains m kept ≡ (contains m entry.rooms && not (contains m gone)))
    → IsIndexed r
    → IsIndexed (left id entry kept gone r)
unfolding set_entry
left-IsIndexed id entry kept gone r found stays h = same_index _ _ refl refl (
    change_rooms id (record entry { rooms = kept }) r h (some entry)
      (remove_room_memberships entry.route id gone r.rooms)
      (λ m here. here && not (contains m gone)) found (λ q m. ground (arith, stays m))
      (λ j q m. contains-remove_room_memberships id entry.route j q m gone r.rooms ∙ ground arith))

pub released-IsIndexed :
    (id : ℕ) (entry : ConnectionEntry) (r : Registry)
    → lookup id r.connections ≡ some entry
    → IsIndexed r
    → IsIndexed (released id entry r)
released-IsIndexed id entry r found h = record {
  exact = λ j q m.
      contains-remove_room_memberships id entry.route j q m entry.rooms r.rooms
      ∙ go j q m (Bool-cases (nat_eq id j))
      ∙ sym (ap (λ (o : Option ConnectionEntry). holds o q m) (lookup-remove id j r.connections));
}
  where
    go :
        (j : ℕ) (q m : Bytes)
        → (nat_eq id j ≡ true) ⊎ (nat_eq id j ≡ false)
        → (contains j (members_of (lookup (q, m) r.rooms))
            && not (nat_eq id j && (entry.route == q && contains m entry.rooms)))
          ≡ holds (if nat_eq id j then none else lookup j r.connections) q m
    go j q m (inl same) =
        let there : lookup j r.connections ≡ some entry =
          ap (λ (k : ℕ). lookup k r.connections) (sym ((nat_eq_iff id j).0 same)) ∙ found in
        let was = h.exact j q m ∙ ap (λ (o : Option ConnectionEntry). holds o q m) there in
        rw (same, was) (ground arith)
    go j q m (inr other) = rw (other) (ground (arith, h.exact j q m))

pub admitted-IsIndexed :
    (limits : Limits) (route : Bytes) (addr : Option SocketAddr) (protocol : Option Bytes) (now : ℕ)
    (r : Registry)
    → IsCounted r
    → IsIndexed r
    → IsIndexed (admitted limits route addr protocol now r)
unfolding contains
admitted-IsIndexed limits route addr protocol now r c h = same_index _ _ refl refl (
    change_rooms r.next_id _ r h none r.rooms (λ m here. here)
      (Absent-lookup r.next_id r.connections (Absent-issued r.next_id r.connections c.issued))
      (λ q m. ground arith) (λ j q m. ground arith))

lookup-map_entries :
    (f : ConnectionEntry → ConnectionEntry) (id : ℕ) (m : List (ℕ × ConnectionEntry))
    → lookup id (map_entries f m) ≡ elim (lookup id m) [ none ↦ none | some entry ↦ some (f entry) ]
unfolding lookup
lookup-map_entries f id [] = refl
lookup-map_entries f id ((j, entry) ∷ m) = elim (Bool-cases (nat_eq j id)) [
  | inl same ↦ rw (same)
  | inr other ↦ rw (other) (lookup-map_entries f id m)
]

pub map_entries-IsIndexed :
    (f : ConnectionEntry → ConnectionEntry) (accepting : Bool) (r : Registry)
    → ((entry : ConnectionEntry) → (f entry).route ≡ entry.route)
    → ((entry : ConnectionEntry) → (f entry).rooms ≡ entry.rooms)
    → IsIndexed r
    → IsIndexed (record r { accepting = accepting; connections = map_entries f r.connections })
map_entries-IsIndexed f accepting r route rooms h = record {
  exact = λ j q m.
      h.exact j q m
      ∙ sym (
          ap (λ (o : Option ConnectionEntry). holds o q m) (lookup-map_entries f j r.connections)
          ∙ go q m (lookup j r.connections));
}
  where
    go :
        (q m : Bytes) (o : Option ConnectionEntry)
        → holds (elim o [ none ↦ none | some entry ↦ some (f entry) ]) q m ≡ holds o q m
    go q m none = refl
    go q m (some entry) = rw (route entry, rooms entry)

pub forget_oldest-IsIndexed : (r : Registry) → IsIndexed r → IsIndexed (forget_oldest r)
forget_oldest-IsIndexed r h = elim (List-cases r.seen_publication_order) [
  | inl nothing ↦ rw (nothing) (same_index r _ refl refl h)
  | inr (expired, rest, queued) ↦ rw (queued) (same_index r _ refl refl h)
]
