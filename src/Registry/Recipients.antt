-- ===== src/Registry/Recipients.antt =====
-- The recipients of a broadcast in src/app/websocket/runtime.rs against the connections that are
-- registered.
use rustrest.Prelude.{
  ℕ, ◌≡◌, refl, sym, ap, ◌∙◌, inl, inr, Bool, true, false, not, ◌&&◌, ◌||◌, List, [], ◌∷◌, Option,
  none, some, keep, any, map, arith, All, NoRepeat, NoRepeat-add, NoRepeat-keep, ◌==◌, nat_eq, ℕ_eq,
  list_eq, pair_eq, lookup, contains, contains-add, contains-keep, Distinct, Absent-lookup,
  nat_eq_iff, Bool-cases,
}
use rustrest.Text.{Bytes}
use rustrest.Registry.{Registry, ConnectionEntry, Key}
use rustrest.Registry.Rooms.{members_of}
use rustrest.Registry.Broadcast.{
  in_scope, scoped_ids, add_all, member_ids, sort_ids, sender_of, candidate_ids,
  select_broadcast_recipients,
}
use rustrest.Registry.Index.{IsIndexed, holds}
use rustrest.Registry.Counts.{IsCounted}
use rustrest.Registry.Sorting.{Ascending, contains-sort_ids, Ascending-sort_ids}

-- The connection is in scope: on the route, or on any when none is given, and in one of the rooms,
-- unless all connections are asked for. Rooms without a route reach nobody.
abbrev pub is_reached : Option Bytes → List Bytes → Bool → Option ConnectionEntry → Bool
is_reached route rooms all_in_scope none = false
is_reached route rooms true (some entry) = in_scope route entry
is_reached none rooms false (some entry) = false
is_reached (some route) rooms false (some entry) =
    entry.route == route && any (λ room. contains room entry.rooms) rooms

contains-scoped_ids :
    (route : Option Bytes) (rooms : List Bytes) (id : ℕ) (m : List (ℕ × ConnectionEntry))
    → Distinct m
    → contains id (scoped_ids route m) ≡ is_reached route rooms true (lookup id m)
unfolding scoped_ids lookup contains
contains-scoped_ids route rooms id [] h = refl
contains-scoped_ids route rooms id ((j, entry) ∷ m) h =
    let rest = contains-scoped_ids route rooms id m h.1 in
    elim (Bool-cases (nat_eq j id)) [
      | inl same ↦
          let missing : lookup id m ≡ none =
            ap (λ (k : ℕ). lookup k m) (sym ((nat_eq_iff j id).0 same)) ∙ Absent-lookup j m h.0 in
          let others : contains id (scoped_ids route m) ≡ false = rest ∙ rw (missing) in
          elim (Bool-cases (in_scope route entry)) [
            | inl inside ↦
                rw (same, inside)
                  (contains-add id j (scoped_ids route m) ∙ rw (same) (ground arith))
            | inr outside ↦ rw (same, outside) others
          ]
      | inr other ↦ elim (Bool-cases (in_scope route entry)) [
        | inl inside ↦
            rw (other, inside)
              (contains-add id j (scoped_ids route m) ∙ rw (other) (ground (arith, rest)))
        | inr outside ↦ rw (other, outside) rest
      ]
    ]

contains-add_all :
    (id : ℕ) (more ids : List ℕ)
    → contains id (add_all more ids) ≡ (contains id ids || contains id more)
unfolding add_all contains
contains-add_all id [] ids = ground arith
contains-add_all id (x ∷ more) ids =
    ground (arith, contains-add id x (add_all more ids), contains-add_all id more ids)

contains-member_ids :
    (r : Registry)
    → IsIndexed r
    → (id : ℕ) (route : Bytes) (rooms : List Bytes)
    → contains id (member_ids route rooms r.rooms)
      ≡ any (λ room. holds (lookup id r.connections) route room) rooms
unfolding member_ids contains
contains-member_ids r h id route [] = refl
contains-member_ids r h id route (room ∷ rooms) =
    let here = h.exact id route room in
    let rest = contains-member_ids r h id route rooms in
    ground (
      arith,
      contains-add_all id (members_of (lookup (route, room) r.rooms))
          (member_ids route rooms r.rooms),
      here,
      rest,
    )

any-holds :
    (o : Option ConnectionEntry) (route : Bytes) (rooms : List Bytes)
    → any (λ room. holds o route room) rooms ≡ is_reached (some route) rooms false o
any-holds none route [] = refl
any-holds none route (room ∷ rooms) = any-holds none route rooms
any-holds (some entry) route [] = ground arith
any-holds (some entry) route (room ∷ rooms) = ground (arith, any-holds (some entry) route rooms)

unreached :
    (rooms : List Bytes) (o : Option ConnectionEntry) → is_reached none rooms false o ≡ false
unreached rooms none = refl
unreached rooms (some entry) = refl

contains-candidate_ids :
    (r : Registry)
    → IsCounted r
    → IsIndexed r
    → (route : Option Bytes) (rooms : List Bytes) (all_in_scope : Bool) (id : ℕ)
    → contains id (candidate_ids route rooms all_in_scope r)
      ≡ is_reached route rooms all_in_scope (lookup id r.connections)
unfolding candidate_ids contains
contains-candidate_ids r c h route rooms true id =
    contains-scoped_ids route rooms id r.connections c.distinct
contains-candidate_ids r c h none rooms false id = sym (unreached rooms (lookup id r.connections))
contains-candidate_ids r c h (some route) rooms false id =
    contains-member_ids r h id route rooms ∙ any-holds (lookup id r.connections) route rooms

NoRepeat-add_all : (more ids : List ℕ) → NoRepeat ids → NoRepeat (add_all more ids)
unfolding add_all
NoRepeat-add_all [] ids h = h
NoRepeat-add_all (x ∷ more) ids h = NoRepeat-add x (add_all more ids) (NoRepeat-add_all more ids h)

NoRepeat-scoped_ids :
    (route : Option Bytes) (m : List (ℕ × ConnectionEntry)) → NoRepeat (scoped_ids route m)
unfolding scoped_ids
NoRepeat-scoped_ids route [] = tt
NoRepeat-scoped_ids route ((id, entry) ∷ m) = elim (Bool-cases (in_scope route entry)) [
  | inl inside ↦ rw (inside) (NoRepeat-add id (scoped_ids route m) (NoRepeat-scoped_ids route m))
  | inr outside ↦ rw (outside) (NoRepeat-scoped_ids route m)
]

NoRepeat-member_ids :
    (route : Bytes) (rooms : List Bytes) (index : List (Key × List ℕ))
    → NoRepeat (member_ids route rooms index)
unfolding member_ids
NoRepeat-member_ids route [] index = tt
NoRepeat-member_ids route (room ∷ rooms) index =
    NoRepeat-add_all (members_of (lookup (route, room) index)) (member_ids route rooms index)
      (NoRepeat-member_ids route rooms index)

NoRepeat-candidate_ids :
    (route : Option Bytes) (rooms : List Bytes) (all_in_scope : Bool) (r : Registry)
    → NoRepeat (candidate_ids route rooms all_in_scope r)
unfolding candidate_ids
NoRepeat-candidate_ids route rooms true r = NoRepeat-scoped_ids route r.connections
NoRepeat-candidate_ids none rooms false r = tt
NoRepeat-candidate_ids (some route) rooms false r = NoRepeat-member_ids route rooms r.rooms

-- The identifiers of a list of recipients, and the sender that each one has in the registry.
abbrev pub ids_of : List (ℕ × Option ℕ) → List ℕ
ids_of recipients = map (λ (x : ℕ × Option ℕ). x.0) recipients

abbrev pub HasSender : Registry → ℕ × Option ℕ → Type 0
HasSender r recipient = recipient.1 ≡ sender_of (lookup recipient.0 r.connections)

ids_of-map :
    (r : Registry) (ids : List ℕ)
    → ids_of (map (λ (id : ℕ). (id, sender_of (lookup id r.connections))) ids) ≡ ids
ids_of-map r [] = refl
ids_of-map r (id ∷ ids) = ap (λ rest. id ∷ rest) (ids_of-map r ids)

All-HasSender :
    (r : Registry) (ids : List ℕ)
    → All (HasSender r) (map (λ (id : ℕ). (id, sender_of (lookup id r.connections))) ids)
All-HasSender r [] = tt
All-HasSender r (id ∷ ids) = (refl, All-HasSender r ids)

-- What a broadcast asks of its recipients.
pub record IsSelection (route : Option Bytes) (rooms : List Bytes) (all_in_scope : Bool)
    (excluded : List ℕ) (r : Registry) (recipients : List (ℕ × Option ℕ)) : Type 0 where
  pub exact :
      (id : ℕ)
      → contains id (ids_of recipients) ≡ (
          is_reached route rooms all_in_scope (lookup id r.connections)
          && not (contains id excluded))
  pub ascending : Ascending (ids_of recipients)
  pub senders : All (HasSender r) recipients

-- In a registry with exact counters and an exact index, the recipients of a broadcast are exactly the
-- registered connections on its route (any route when none is given) and in one of its rooms, or in
-- none when all in scope are asked for, less the excluded ones; without a route, rooms reach nobody.
-- Each is named once, in ascending order, with the sender that its entry has.
pub select_broadcast_recipients-IsSelection :
    (route : Option Bytes) (rooms : List Bytes) (all_in_scope : Bool) (excluded : List ℕ)
    (r : Registry)
    → IsCounted r
    → IsIndexed r
    → IsSelection route rooms all_in_scope excluded r
        (select_broadcast_recipients route rooms all_in_scope excluded r)
unfolding select_broadcast_recipients
select_broadcast_recipients-IsSelection route rooms all_in_scope excluded r c h =
    let candidates = candidate_ids route rooms all_in_scope r in
    let kept = keep (λ (id : ℕ). not (contains id excluded)) candidates in
    let named = ids_of-map r (sort_ids kept) in
    record {
      exact = λ id.
          ap (contains id) named
          ∙ contains-sort_ids id kept
          ∙ contains-keep (λ (x : ℕ). not (contains x excluded)) id candidates
          ∙ ap (λ b. b && not (contains id excluded))
              (contains-candidate_ids r c h route rooms all_in_scope id);
      ascending = rw (named) (
          Ascending-sort_ids kept (
            NoRepeat-keep (λ (x : ℕ). not (contains x excluded)) candidates
              (NoRepeat-candidate_ids route rooms all_in_scope r)));
      senders = All-HasSender r (sort_ids kept);
    }
