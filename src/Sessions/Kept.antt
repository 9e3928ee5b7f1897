-- ===== src/Sessions/Kept.antt =====
-- Sessions that an operation of `SessionStore` in src/app/session.rs is not about: what creating a
-- session and cleaning leave of the others.
use rustrest.Prelude.{
  ℕ, zero, suc, ◌+◌, ◌-◌, ◌^◌, ◌<◌, ◌≡◌, ◌≢◌, sym, ap, ◌∙◌, inl, inr, List, [], some, arith, ltb,
  leb, nat_eq, nat_eq_iff, length, All, Bool-cases, Option-cases, ℕ_eq, list_eq, list_beq_iff,
  get_or, set, get_or-set, get_or-set_ne, length-set, All-set, All-get_or, lookup, lookup-insert,
  lookup-remove,
}
use rustrest.Text.{Bytes}
use rustrest.Sessions.{
  SessionEntry, SessionShard, insert_entry, remove_entry, renew, remove_expired_entries, expiry,
  is_expired,
}
use rustrest.Sessions.Shards.{IsExact}
use rustrest.Sessions.Expiry.{remove_expired_entries-Swept, remove_expired_entries-keeps_live}
use rustrest.Sessions.Store.{
  SessionStore, Platform, sweep_loop, sweep_index, cleanup_expired_batch, cleanup_if_needed,
  empty_shard, put_shard, shard_of, shard_index, session_of, drop_session, renew_session,
  drop_if_expired, make_room, admit_session, create,
}
use rustrest.Sessions.Consistent.{
  IsConsistent, empty-IsExact, drop_if_expired-IsConsistent, renew_session-IsConsistent,
}
use rustrest.Sessions.Sweeps.{sweep_loop-SweepKeeps, make_room-IsConsistent}

-- The session is stored in the shard with number `i`.
abbrev Holds : List SessionShard → ℕ → Bytes → SessionEntry → Type 0
Holds shards i id entry = lookup id (get_or shards i empty_shard).entries ≡ some entry

-- A write to a shard that keeps the session.
set-Holds :
    (shards : List SessionShard) (i j : ℕ) (shard : SessionShard) (id : Bytes)
    (entry : SessionEntry)
    → i < length shards
    → (lookup id (get_or shards i empty_shard).entries ≡ some entry
        → lookup id shard.entries ≡ some entry)
    → Holds shards j id entry
    → Holds (set shards i shard) j id entry
set-Holds shards i j shard id entry inside keeps found = elim (Bool-cases (nat_eq i j)) [
  | inl same ↦
      let e : i ≡ j = (nat_eq_iff i j).0 same in
      let found' : lookup id (get_or shards i empty_shard).entries ≡ some entry = rw (e) found in
      let there : get_or (set shards i shard) j empty_shard ≡ shard =
        rw (sym e) (get_or-set shards i shard empty_shard inside) in
      rw (there) (keeps found')
  | inr other ↦
      let n : i ≢ j = λ e. cc (sym other ∙ (nat_eq_iff i j).1 e) in
      rw (get_or-set_ne shards i j shard empty_shard n) found
]

module _ (now : ℕ) (id : Bytes) (entry : SessionEntry) (live : now < entry.expires_at) (j : ℕ) where
  sweep_loop-Holds :
      (left first visited remaining : ℕ) (shards : List SessionShard) (removed : ℕ)
      → All IsExact shards
      → 0 < length shards
      → Holds shards j id entry
      → Holds (sweep_loop left now first visited remaining shards removed).shards j id entry
  unfolding sweep_loop
  sweep_loop-Holds zero first visited remaining shards removed exact pos found = found
  sweep_loop-Holds (suc left) first visited remaining shards removed exact pos found =
      let i = sweep_index first visited shards in
      let shard = get_or shards i empty_shard in
      let shard-IsExact = All-get_or IsExact shards i empty_shard empty-IsExact exact in
      let swept = remove_expired_entries-Swept now remaining shard shard-IsExact in
      let r = remove_expired_entries now remaining shard in
      let shards' = set shards i r.0 in
      let longer : length shards' ≡ length shards = length-set shards i r.0 in
      let inside : i < length shards = grind arith in
      let found' : Holds shards' j id entry =
        set-Holds shards i j r.0 id entry inside
          (remove_expired_entries-keeps_live now id entry live remaining shard shard-IsExact)
          found in
      elim (Bool-cases (nat_eq remaining 0)) [
        | inl none_left ↦ rw (none_left) found
        | inr some_left ↦ elim (Bool-cases (nat_eq (remaining - r.1) 0)) [
          | inl done ↦ rw (some_left, done) found'
          | inr more ↦
              rw (some_left, more)
                (sweep_loop-Holds left first (visited + 1) (remaining - r.1) shards' (removed + r.1)
                  (All-set IsExact shards i r.0 swept.exact exact) (omega arith) found')
        ]
      ]

module _ (p : Platform) where
  -- What a write to the shard of one identifier does to the sessions.
  module _ (id : Bytes) (shard : SessionShard) (store : SessionStore)
      (pos : 0 < length store.shards) where
    abbrev stored : SessionStore
    stored = put_shard (shard_index p id store) shard store

    pub session_of-put_same : session_of p id stored ≡ lookup id shard.entries
    unfolding shard_of shard_index
    session_of-put_same =
        let i = shard_index p id store in
        let inside : i < length store.shards = grind arith in
        let longer : length (set store.shards i shard) ≡ length store.shards =
          length-set store.shards i shard in
        rw (longer, get_or-set store.shards i shard empty_shard inside)

    pub session_of-put_ne :
        (other : Bytes)
        → lookup other shard.entries ≡ lookup other (shard_of p id store).entries
        → session_of p other stored ≡ session_of p other store
    unfolding shard_of shard_index
    session_of-put_ne other same =
        let i = shard_index p id store in
        let j = shard_index p other store in
        let inside : i < length store.shards = grind arith in
        let longer : length (set store.shards i shard) ≡ length store.shards =
          length-set store.shards i shard in
        elim (Bool-cases (nat_eq i j)) [
          | inl e ↦
              let e' : i ≡ j = (nat_eq_iff i j).0 e in
              let there : get_or (set store.shards i shard) j empty_shard ≡ shard =
                rw (sym e') (get_or-set store.shards i shard empty_shard inside) in
              let here : get_or store.shards i empty_shard ≡ get_or store.shards j empty_shard =
                rw (e') in
              rw (longer, there) (same ∙ ap (λ (s : SessionShard). lookup other s.entries) here)
          | inr n ↦
              let n' : i ≢ j = λ e. cc (sym n ∙ (nat_eq_iff i j).1 e) in
              rw (longer, get_or-set_ne store.shards i j shard empty_shard n')
        ]

  module _ (id other : Bytes) (n : other ≢ id) where
    lookup-remove_entry :
        (shard : SessionShard)
        → lookup other (remove_entry id shard).0.entries ≡ lookup other shard.entries
    unfolding remove_entry
    lookup-remove_entry shard = ground (
      arith,
      Option-cases (lookup id shard.entries),
      lookup-remove id other shard.entries,
      list_beq_iff id other,
    )

    lookup-renew :
        (latest now idle_timeout : ℕ) (shard : SessionShard)
        → lookup other (renew latest id now idle_timeout shard).0.entries
          ≡ lookup other shard.entries
    unfolding renew
    lookup-renew latest now idle_timeout shard = elim (Option-cases (lookup id shard.entries)) [
      | inl missing ↦ rw (renew, missing)
      | inr (entry, found) ↦
          rw (renew, found)
            (ground (
              arith,
              lookup-insert id other (record entry { expires_at = expiry latest now idle_timeout })
                  shard.entries,
              list_beq_iff id other,
            ))
    ]

    pub lookup-insert_entry :
        (entry : SessionEntry) (shard : SessionShard)
        → lookup other (insert_entry id entry shard).0.entries ≡ lookup other shard.entries
    unfolding insert_entry
    lookup-insert_entry entry shard =
        ground (arith, lookup-insert id other entry shard.entries, list_beq_iff id other)

  module _ (max_sessions : ℕ) (small : max_sessions < 2 ^ 64) (now : ℕ) (other : Bytes)
      (entry : SessionEntry) (live : now < entry.expires_at) where
    cleanup_expired_batch-keeps_live :
        (latest : ℕ) (store : SessionStore)
        → IsConsistent max_sessions store
        → session_of p other store ≡ some entry
        → session_of p other (cleanup_expired_batch latest now store) ≡ some entry
    unfolding cleanup_expired_batch shard_of shard_index
    cleanup_expired_batch-keeps_live latest store h found =
        let n = length store.shards in
        let keeps =
          sweep_loop-SweepKeeps n now store.cleanup_shard 0 256 store.shards 0 h.exact
            h.has_shards in
        rw (keeps.same_length) (
          sweep_loop-Holds now other entry live (shard_index p other store) n store.cleanup_shard 0
            256 store.shards 0 h.exact h.has_shards found)

    make_room-keeps_live :
        (store : SessionStore)
        → IsConsistent max_sessions store
        → session_of p other store ≡ some entry
        → session_of p other (make_room p now max_sessions store) ≡ some entry
    unfolding make_room cleanup_if_needed
    make_room-keeps_live store h found =
        let swept = cleanup_expired_batch-keeps_live p.latest store h found in
        elim (Bool-cases (ltb now store.next_cleanup)) [
          | inl early ↦ elim (Bool-cases (leb max_sessions store.entries)) [
            | inl full ↦ rw (early, full) swept
            | inr room ↦ rw (early, room) found
          ]
          | inr due ↦
              elim (Bool-cases
                (leb max_sessions (cleanup_expired_batch p.latest now store).entries)) [
                  | inl full ↦ rw (due, full) swept
                  | inr room ↦ rw (due, room) swept
                ]
        ]

  -- The operations on the session of another identifier.
  module _ (id other : Bytes) (n : other ≢ id) (store : SessionStore)
      (pos : 0 < length store.shards) where
    pub drop_session_ne : session_of p other (drop_session p id store) ≡ session_of p other store
    unfolding shard_of shard_index
    drop_session_ne =
        session_of-put_ne id (remove_entry id (shard_of p id store)).0 store pos other
          (lookup-remove_entry id other n (shard_of p id store))

    pub drop_if_expired_ne :
        (now : ℕ) → session_of p other (drop_if_expired p now id store) ≡ session_of p other store
    unfolding drop_if_expired
    drop_if_expired_ne now = elim (Bool-cases (is_expired now (session_of p id store))) [
      | inl old ↦ rw (old) drop_session_ne
      | inr fresh ↦ rw (fresh)
    ]

    pub renew_session_ne :
        (now idle_timeout : ℕ)
        → session_of p other (renew_session p now id idle_timeout store).0
          ≡ session_of p other store
    unfolding renew_session
    renew_session_ne now idle_timeout =
        session_of-put_ne id (renew p.latest id now idle_timeout (shard_of p id store)).0 store pos
          other (lookup-renew id other n p.latest now idle_timeout (shard_of p id store))

    admit_session_ne :
        (now idle_timeout : ℕ)
        → session_of p other (admit_session p now id idle_timeout store) ≡ session_of p other store
    unfolding admit_session shard_of shard_index
    admit_session_ne now idle_timeout =
        let entry : SessionEntry = record {
          data_of = [];
          expires_at = expiry p.latest now idle_timeout;
        } in
        let shard = shard_of p id store in
        let same =
          session_of-put_ne id (insert_entry id entry shard).0 store pos other
            (lookup-insert_entry id other n entry shard) in
        elim (Bool-cases (insert_entry id entry shard).1) [
          | inl new ↦ rw (new) same
          | inr old ↦ rw (old) same
        ]

  -- In a consistent store with a capacity below 2^64, `create` for one identifier keeps every session of another identifier that has not
  -- expired, with its data and its time, whether the store is full or not.
  pub create-keeps_live :
      (max_sessions : ℕ) (store : SessionStore) (now : ℕ) (id other : Bytes) (idle_timeout : ℕ)
      (entry : SessionEntry)
      → max_sessions < 2 ^ 64
      → IsConsistent max_sessions store
      → other ≢ id
      → session_of p other store ≡ some entry
      → now < entry.expires_at
      → session_of p other (create p now id idle_timeout max_sessions store).0 ≡ some entry
  unfolding create
  create-keeps_live max_sessions store now id other idle_timeout entry small h n found live =
      let dropped = drop_if_expired p now id store in
      let h1 = drop_if_expired-IsConsistent p max_sessions small store h now id in
      let found1 = drop_if_expired_ne id other n store h.has_shards now ∙ found in
      let renewed = renew_session p now id idle_timeout dropped in
      let h2 = renew_session-IsConsistent p max_sessions small dropped h1 now id idle_timeout in
      let found2 = renew_session_ne id other n dropped h1.has_shards now idle_timeout ∙ found1 in
      let cleaned = make_room p now max_sessions renewed.0 in
      let h3 = make_room-IsConsistent p max_sessions small now renewed.0 h2 in
      let found3 =
        make_room-keeps_live max_sessions small now other entry live renewed.0 h2 found2 in
      elim (Bool-cases renewed.1) [
        | inl there ↦ rw (there) found2
        | inr new ↦ elim (Bool-cases (leb max_sessions cleaned.entries)) [
          | inl full ↦ rw (new, full) found3
          | inr room ↦
              rw (new, room)
                (admit_session_ne id other n cleaned h3.has_shards now idle_timeout ∙ found3)
        ]
      ]
