-- ===== src/Sessions/Consistent.antt =====
-- What every operation of `SessionStore` in src/app/session.rs keeps: exact indices, an exact
-- counter, and the capacity.
use rustrest.Prelude.{
  ℕ, ◌+◌, ◌^◌, ◌≤◌, ◌<◌, ◌≡◌, refl, inl, inr, true, Option, none, some, arith, is_some, length,
  to_ℕ, ℕ_eq, list_eq, All, Bool-cases, Option-cases, lookup, contains, sub_usize, total, total-set,
  length-set, All-set, All-get_or, get_or-le-total, length-remove, length-insert_lem,
}
use rustrest.Text.{Bytes}
use rustrest.Sessions.{
  SessionEntry, SessionShard, insert_entry, remove_entry, renew, is_expired, expiry,
}
use rustrest.Sessions.Shards.{IsExact, remove_entry-IsExact, renew-IsExact}
use rustrest.Sessions.Store.{
  SessionStore, Platform, empty_shard, put_shard, shard_index, shard_of, without, drop_session,
  session_of, renew_session, resume, drop_if_expired,
}

abbrev pub size : SessionShard → ℕ
size shard = length shard.entries

-- The indices are exact, the counter is the number of sessions, and the capacity is kept.
pub record IsConsistent (max_sessions : ℕ) (store : SessionStore) : Type 0 where
  pub exact : All IsExact store.shards
  pub has_shards : 0 < length store.shards
  pub counted : store.entries ≡ total size store.shards
  pub bounded : store.entries ≤ max_sessions

pub empty-IsExact : IsExact empty_shard
unfolding lookup contains
empty-IsExact = record { distinct = tt; once = tt; ordered = tt; exact = λ key. refl }

module _ (id : Bytes) (shard : SessionShard) (h : IsExact shard) where
  pub size-remove_entry :
      (entry : SessionEntry)
      → lookup id shard.entries ≡ some entry
      → size (remove_entry id shard).0 + 1 ≡ size shard
  unfolding remove_entry
  size-remove_entry entry found =
      rw (remove_entry, found)
        (omega (arith, length-remove id entry shard.entries h.distinct found))

  size-remove_entry-none :
      lookup id shard.entries ≡ none → size (remove_entry id shard).0 ≡ size shard
  unfolding remove_entry
  size-remove_entry-none missing = rw (remove_entry, missing)

module _ (id : Bytes) (shard : SessionShard) where
  pub size-insert_entry :
      (entry : SessionEntry)
      → size (insert_entry id entry shard).0 ≡ size shard + to_ℕ (insert_entry id entry shard).1
  unfolding insert_entry
  size-insert_entry entry = ground (arith, length-insert_lem id entry shard.entries)

  size-renew :
      (latest now idle_timeout : ℕ) → size (renew latest id now idle_timeout shard).0 ≡ size shard
  unfolding renew
  size-renew latest now idle_timeout = elim (Option-cases (lookup id shard.entries)) [
    | inl missing ↦ rw (renew, missing)
    | inr (entry, found) ↦
        let longer =
          length-insert_lem id (record entry { expires_at = expiry latest now idle_timeout })
            shard.entries in
        let there : to_ℕ (is_some (lookup id shard.entries)) ≡ 1 = rw (found) in
        rw (renew, found) (omega arith)
  ]

module _ (p : Platform) (max_sessions : ℕ) (small : max_sessions < 2 ^ 64) where
  module _ (store : SessionStore) (h : IsConsistent max_sessions store) where
    pub shard_of-IsExact : (id : Bytes) → IsExact (shard_of p id store)
    unfolding shard_of
    shard_of-IsExact id = All-get_or IsExact store.shards _ empty_shard empty-IsExact h.exact

    shard_index-lt : (id : Bytes) → shard_index p id store < length store.shards
    unfolding shard_index
    shard_index-lt id = let q = h.has_shards in grind arith

    -- A new shard for an identifier, with the counter that fits it.
    pub put-IsConsistent :
        (id : Bytes) (shard : SessionShard) (entries : ℕ)
        → IsExact shard
        → entries + size (shard_of p id store) ≡ store.entries + size shard
        → entries ≤ max_sessions
        → IsConsistent max_sessions
            (record (put_shard (shard_index p id store) shard store) { entries = entries })
    unfolding shard_of
    put-IsConsistent id shard entries exact counted bounded = record {
      exact = All-set IsExact store.shards _ shard exact h.exact;
      has_shards =
          omega (arith, length-set store.shards (shard_index p id store) shard, h.has_shards);
      counted = omega (
        arith,
        h.counted,
        total-set size store.shards (shard_index p id store) shard empty_shard (shard_index-lt id),
      );
      bounded = bounded;
    }

    -- Where a session is taken out, the counter is positive.
    pub entries_pos :
        (id : Bytes) (entry : SessionEntry) → session_of p id store ≡ some entry → 0 < store.entries
    unfolding shard_of
    entries_pos id entry found =
        let shard = shard_of p id store in
        let taken = size-remove_entry id shard (shard_of-IsExact id) entry found in
        let part = get_or-le-total size store.shards (shard_index p id store) empty_shard refl in
        omega (arith, h.counted)

    pub drop_session-IsConsistent :
        (id : Bytes) (entry : SessionEntry)
        → session_of p id store ≡ some entry
        → IsConsistent max_sessions (drop_session p id store)
    drop_session-IsConsistent id entry found =
        let shard = shard_of p id store in
        let exact = shard_of-IsExact id in
        let taken = size-remove_entry id shard exact entry found in
        let pos = entries_pos id entry found in
        let less : sub_usize store.entries 1 + 1 ≡ store.entries = omega (arith, h.bounded) in
        put-IsConsistent id (remove_entry id shard).0 _ (remove_entry-IsExact shard exact id)
          (omega arith) (omega (arith, h.bounded))

    pub without-IsConsistent :
        (id : Bytes) → session_of p id store ≡ none → IsConsistent max_sessions (without p id store)
    without-IsConsistent id missing =
        let shard = shard_of p id store in
        let exact = shard_of-IsExact id in
        let same = size-remove_entry-none id shard exact missing in
        put-IsConsistent id (remove_entry id shard).0 store.entries
          (remove_entry-IsExact shard exact id) (omega arith) h.bounded

    pub renew_session-IsConsistent :
        (now : ℕ) (id : Bytes) (idle_timeout : ℕ)
        → IsConsistent max_sessions (renew_session p now id idle_timeout store).0
    unfolding renew_session
    renew_session-IsConsistent now id idle_timeout =
        let shard = shard_of p id store in
        put-IsConsistent id (renew p.latest id now idle_timeout shard).0 store.entries
          (renew-IsExact shard (shard_of-IsExact id) p.latest now idle_timeout id)
          (omega (arith, size-renew id shard p.latest now idle_timeout)) h.bounded

  pub is_expired-some :
      (now : ℕ) (o : Option SessionEntry)
      → is_expired now o ≡ true
      → (entry : SessionEntry) × (o ≡ some entry)
  is_expired-some now none h = cc
  is_expired-some now (some entry) h = (entry, refl)

  module _ (store : SessionStore) (h : IsConsistent max_sessions store) where
    pub drop_if_expired-IsConsistent :
        (now : ℕ) (id : Bytes) → IsConsistent max_sessions (drop_if_expired p now id store)
    unfolding drop_if_expired
    drop_if_expired-IsConsistent now id =
        elim (Bool-cases (is_expired now (session_of p id store))) [
          | inl old ↦
              let (entry, found) = is_expired-some now (session_of p id store) old in
              rw (old) (drop_session-IsConsistent store h id entry found)
          | inr fresh ↦ rw (fresh) h
        ]

    pub resume-IsConsistent :
        (now : ℕ) (id : Bytes) (idle_timeout : ℕ)
        → IsConsistent max_sessions (resume p now id idle_timeout store).0
    unfolding resume
    resume-IsConsistent now id idle_timeout =
        elim (Bool-cases (is_expired now (session_of p id store))) [
          | inl old ↦
              let (entry, found) = is_expired-some now (session_of p id store) old in
              rw (old) (drop_session-IsConsistent store h id entry found)
          | inr fresh ↦ rw (fresh) (renew_session-IsConsistent store h now id idle_timeout)
        ]
