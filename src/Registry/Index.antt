-- ===== src/Registry/Index.antt =====
-- The index of rooms in src/app/websocket/runtime.rs: it names exactly the registered connections
-- that are in a room of their route, after every operation.
use rustrest.Prelude.{
  ℕ, ◌≡◌, refl, sym, ap, ◌∙◌, inl, inr, Bool, true, false, not, ◌&&◌, ◌||◌, List, [], ◌∷◌, Option,
  none, some, if◌then◌else◌, is_empty, arith, ◌==◌, ℕ_eq, list_eq, pair_eq, pair_beq, pair_beq_iff,
  nat_eq, list_beq_iff, lookup, insert, remove, lookup-insert, lookup-remove, contains, add,
  discard, contains-add, contains-discard, Option-cases, Bool-cases,
}
use rustrest.Text.{Bytes}
use rustrest.Registry.{Registry, ConnectionEntry, Key}
use rustrest.Registry.Rooms.{
  tree_add, add_rooms, members_of, add_memberships, remove_membership, remove_room_memberships,
  discard_rooms,
}

-- The connection is on the route and in the room.
abbrev pub holds : Option ConnectionEntry → Bytes → Bytes → Bool
holds none route room = false
holds (some entry) route room = entry.route == route && contains room entry.rooms

-- The index has a connection under a route and a room exactly where it is on that route and in that room.
pub record IsIndexed (r : Registry) : Type 0 where
  pub exact :
      (id : ℕ) (route room : Bytes)
      → contains id (members_of (lookup (route, room) r.rooms))
        ≡ holds (lookup id r.connections) route room

pub contains-tree_add :
    (m x : Bytes) (ys : List Bytes) → contains m (tree_add x ys) ≡ (contains m ys || x == m)
unfolding tree_add contains
contains-tree_add m x [] = ground arith
contains-tree_add m x (y ∷ ys) = ground (arith, contains-tree_add m x ys, list_beq_iff x y)

pub contains-add_rooms :
    (m : Bytes) (additions rooms : List Bytes)
    → contains m (add_rooms additions rooms) ≡ (contains m rooms || contains m additions)
unfolding add_rooms contains
contains-add_rooms m [] rooms = ground arith
contains-add_rooms m (x ∷ additions) rooms =
    ground (arith, contains-add_rooms m additions (tree_add x rooms), contains-tree_add m x rooms)

pub contains-discard_rooms :
    (m : Bytes) (gone rooms : List Bytes)
    → contains m (discard_rooms gone rooms) ≡ (contains m rooms && not (contains m gone))
unfolding discard_rooms contains
contains-discard_rooms m [] rooms = ground arith
contains-discard_rooms m (x ∷ gone) rooms =
    ground (arith, contains-discard_rooms m gone (discard x rooms), contains-discard m x rooms)

module _ (i : ℕ) (route : Bytes) (id : ℕ) (q m : Bytes) where
  abbrev listed : List (Key × List ℕ) → Bool
  listed index = contains id (members_of (lookup (q, m) index))

  listed-insert :
      (room : Bytes) (members : List ℕ) (index : List (Key × List ℕ))
      → listed (insert (route, room) members index)
        ≡ (if route == q && room == m then contains id members else listed index)
  unfolding pair_beq
  listed-insert room members index =
      ap (λ (o : Option (List ℕ)). contains id (members_of o))
        (lookup-insert (route, room) (q, m) members index)
      ∙ elim (Bool-cases (route == q && room == m)) [
        | inl same ↦ rw (same)
        | inr other ↦ rw (other)
      ]

  listed-remove :
      (room : Bytes) (index : List (Key × List ℕ))
      → listed (remove (route, room) index)
        ≡ (if route == q && room == m then false else listed index)
  unfolding pair_beq contains
  listed-remove room index =
      ap (λ (o : Option (List ℕ)). contains id (members_of o))
        (lookup-remove (route, room) (q, m) index)
      ∙ elim (Bool-cases (route == q && room == m)) [
        | inl same ↦ rw (same)
        | inr other ↦ rw (other)
      ]

  -- The members that are read for the room are those of the key.
  listed-same :
      (room : Bytes) (index : List (Key × List ℕ))
      → (route == q && room == m) ≡ true
      → contains id (members_of (lookup (route, room) index)) ≡ listed index
  unfolding pair_beq
  listed-same room index same =
      ap (λ (k : Key). contains id (members_of (lookup k index)))
        ((pair_beq_iff (route, room) (q, m)).0 same)

  -- One room more for the connection.
  contains-add_membership :
      (room : Bytes) (index : List (Key × List ℕ))
      → listed (insert (route, room) (add i (members_of (lookup (route, room) index))) index)
        ≡ (listed index || (nat_eq i id && (route == q && room == m)))
  contains-add_membership room index =
      let members = members_of (lookup (route, room) index) in
      let more = contains-add id i members in
      listed-insert room (add i members) index ∙ elim (Bool-cases (route == q && room == m)) [
        | inl same ↦ let read = listed-same room index same in rw (same, more, read) (ground arith)
        | inr other ↦ rw (other) (ground arith)
      ]

  pub contains-add_memberships :
      (rooms : List Bytes) (index : List (Key × List ℕ))
      → listed (add_memberships route i rooms index)
        ≡ (listed index || (nat_eq i id && (route == q && contains m rooms)))
  unfolding add_memberships contains
  contains-add_memberships [] index = ground arith
  contains-add_memberships (room ∷ rooms) index =
      let here = insert (route, room) (add i (members_of (lookup (route, room) index))) index in
      let one = contains-add_membership room index in
      contains-add_memberships rooms here
      ∙ rw (one) (bools (listed index) (nat_eq i id) (route == q) (room == m) (contains m rooms))
    where
      bools :
          (a b c d e : Bool)
          → ((a || (b && (c && d))) || (b && (c && e))) ≡ (a || (b && (c && (d || e))))
      bools a b c d e = ground arith

  contains-empty : (members : List ℕ) → is_empty members ≡ true → contains id members ≡ false
  unfolding contains
  contains-empty [] h = refl
  contains-empty (x ∷ members) h = cc

  contains-remove_membership :
      (room : Bytes) (index : List (Key × List ℕ))
      → listed (remove_membership route i room index)
        ≡ (listed index && not (nat_eq i id && (route == q && room == m)))
  unfolding remove_membership contains
  contains-remove_membership room index = elim (Option-cases (lookup (route, room) index)) [
    | inl missing ↦
        rw (remove_membership, missing)
          (elim (Bool-cases (route == q && room == m)) [
            | inl same ↦
                let nothing : listed index ≡ false =
                  sym (listed-same room index same) ∙ rw (missing) in
                rw (nothing)
            | inr other ↦ rw (other) (ground arith)
          ])
    | inr (members, found) ↦
        let less = contains-discard id i members in
        let read : (route == q && room == m) ≡ true → contains id members ≡ listed index =
          λ same. sym (rw (found)) ∙ listed-same room index same in
        elim (Bool-cases (is_empty (discard i members))) [
          | inl bare ↦
              let gone = contains-empty (discard i members) bare in
              rw (remove_membership, found, bare)
                (listed-remove room index ∙ elim (Bool-cases (route == q && room == m)) [
                  | inl same ↦
                      let here = read same in rw (same, ← here) (sym gone ∙ less ∙ ground arith)
                  | inr other ↦ rw (other) (ground arith)
                ])
          | inr some_left ↦
              rw (remove_membership, found, some_left)
                (listed-insert room (discard i members) index
                  ∙ elim (Bool-cases (route == q && room == m)) [
                    | inl same ↦ let here = read same in rw (same, ← here) (less ∙ ground arith)
                    | inr other ↦ rw (other) (ground arith)
                  ])
        ]
  ]

  pub contains-remove_room_memberships :
      (rooms : List Bytes) (index : List (Key × List ℕ))
      → listed (remove_room_memberships route i rooms index)
        ≡ (listed index && not (nat_eq i id && (route == q && contains m rooms)))
  unfolding remove_room_memberships contains
  contains-remove_room_memberships [] index = ground arith
  contains-remove_room_memberships (room ∷ rooms) index =
      let one = contains-remove_membership room index in
      contains-remove_room_memberships rooms (remove_membership route i room index)
      ∙ rw (one) (bools (listed index) (nat_eq i id) (route == q) (room == m) (contains m rooms))
    where
      bools :
          (a b c d e : Bool)
          → ((a && not (b && (c && d))) && not (b && (c && e))) ≡ (a && not (b && (c && (d || e))))
      bools a b c d e = ground arith
