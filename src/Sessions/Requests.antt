-- ===== src/Sessions/Requests.antt =====
-- The reads, writes, clearings and rotations of `SessionStore` in src/app/session.rs keep it
-- consistent.
use rustrest.Prelude.{
  ℕ, ◌+◌, ◌^◌, ◌<◌, ◌≡◌, ap, inl, inr, List, some, arith, leb, is_some, to_ℕ, Bool-cases,
  Option-cases, Result-cases, sub_usize, length-insert_lem, lookup, insert, list_eq, ℕ_eq,
}
use rustrest.Text.{Bytes}
use rustrest.Sessions.{SessionEntry, insert_entry, expiry, is_expired}
use rustrest.Sessions.Shards.{insert_entry-IsExact, write-IsExact}
use rustrest.Sessions.Data.{SessionDataLimits, check_data}
use rustrest.Sessions.Store.{
  SessionStore, Platform, shard_of, shard_index, without, drop_session, session_of, renew_session,
}
use rustrest.Sessions.Values.{get, write_data, write_value, clear, move_entry, rotate}
use rustrest.Sessions.Consistent.{
  IsConsistent, size-insert_entry, put-IsConsistent, shard_of-IsExact, drop_session-IsConsistent,
  without-IsConsistent, renew_session-IsConsistent, is_expired-some, entries_pos,
}

module _ (p : Platform) (max_sessions : ℕ) (small : max_sessions < 2 ^ 64) where
  module _ (store : SessionStore) (h : IsConsistent max_sessions store) where
    pub get-IsConsistent :
        (now : ℕ) (id key : Bytes) (idle_timeout : ℕ)
        → IsConsistent max_sessions (get p now id key idle_timeout store).0
    unfolding get
    get-IsConsistent now id key idle_timeout =
        let renewed = renew_session p now id idle_timeout store in
        let h' = renew_session-IsConsistent p max_sessions small store h now id idle_timeout in
        elim (Bool-cases (is_expired now (session_of p id store))) [
          | inl old ↦
              let (entry, found) =
                is_expired-some p max_sessions small now (session_of p id store) old in
              rw (old) (drop_session-IsConsistent p max_sessions small store h id entry found)
          | inr fresh ↦ elim (Bool-cases renewed.1) [
            | inl there ↦ rw (fresh, there) h'
            | inr gone ↦ rw (fresh, gone) h'
          ]
        ]

    pub write_data-IsConsistent :
        (id : Bytes) (entry : SessionEntry) (stored : List (Bytes × Bytes))
        → session_of p id store ≡ some entry
        → IsConsistent max_sessions (write_data p id entry stored store)
    write_data-IsConsistent id entry stored found =
        let shard = shard_of p id store in
        let longer = length-insert_lem id (record entry { data_of = stored }) shard.entries in
        let there : to_ℕ (is_some (lookup id shard.entries)) ≡ 1 = rw (found) in
        put-IsConsistent p max_sessions small store h id _ store.entries
          (write-IsExact shard (shard_of-IsExact p max_sessions small store h id) id entry stored
            found)
          (omega arith) h.bounded

    pub write_value-IsConsistent :
        (now : ℕ) (id key value : Bytes) (limits : SessionDataLimits)
        → IsConsistent max_sessions (write_value p now id key value limits store).0
    unfolding write_value
    write_value-IsConsistent now id key value limits =
        elim (Bool-cases (is_expired now (session_of p id store))) [
          | inl old ↦
              let (entry, found) =
                is_expired-some p max_sessions small now (session_of p id store) old in
              rw (old) (drop_session-IsConsistent p max_sessions small store h id entry found)
          | inr fresh ↦ elim (Option-cases (session_of p id store)) [
            | inl missing ↦ rw (write_value, fresh, missing) h
            | inr (entry, found) ↦ elim (Result-cases (check_data key value limits entry.data_of)) [
              | inl (checked, fits) ↦
                  rw (write_value, fresh, found, fits)
                    (write_data-IsConsistent id entry (insert key value entry.data_of) found)
              | inr (error, refused) ↦ rw (write_value, fresh, found, refused) h
            ]
          ]
        ]

    pub clear-IsConsistent : (id : Bytes) → IsConsistent max_sessions (clear p id store)
    unfolding clear
    clear-IsConsistent id = elim (Option-cases (session_of p id store)) [
      | inl missing ↦ rw (missing) (without-IsConsistent p max_sessions small store h id missing)
      | inr (entry, found) ↦
          rw (found) (drop_session-IsConsistent p max_sessions small store h id entry found)
    ]

    -- `drop_session` has the shards that `move_entry` starts from, and their exact number.
    move_entry-IsConsistent :
        (now : ℕ) (old new : Bytes) (idle_timeout : ℕ) (entry : SessionEntry)
        → session_of p old store ≡ some entry
        → IsConsistent max_sessions
            (move_entry p now new idle_timeout entry (without p old store)).0
    unfolding shard_of shard_index
    move_entry-IsConsistent now old new idle_timeout entry found =
        let dropped = drop_session p old store in
        let h' = drop_session-IsConsistent p max_sessions small store h old entry found in
        let pos = entries_pos p max_sessions small store h old entry found in
        let less : sub_usize store.entries 1 + 1 ≡ store.entries = omega (arith, h.bounded) in
        let moved : SessionEntry = record entry { expires_at = expiry p.latest now idle_timeout } in
        let shard = shard_of p new dropped in
        let exact =
          insert_entry-IsExact shard (shard_of-IsExact p max_sessions small dropped h' new) new
            moved in
        let grown = size-insert_entry new shard moved in
        elim (Bool-cases (leb entry.expires_at now)) [
          | inl dead ↦ rw (dead) h'
          | inr live ↦ elim (Bool-cases (insert_entry new moved shard).1) [
            | inl fresh ↦
                rw (live, fresh)
                  (put-IsConsistent p max_sessions small dropped h' new
                    (insert_entry new moved shard).0 store.entries exact
                    (omega (arith, ap to_ℕ fresh)) h.bounded)
            | inr taken ↦
                rw (live, taken)
                  (put-IsConsistent p max_sessions small dropped h' new
                    (insert_entry new moved shard).0 dropped.entries exact
                    (omega (arith, ap to_ℕ taken)) h'.bounded)
          ]
        ]

    pub rotate-IsConsistent :
        (now : ℕ) (old new : Bytes) (idle_timeout : ℕ)
        → IsConsistent max_sessions (rotate p now old new idle_timeout store).0
    unfolding rotate
    rotate-IsConsistent now old new idle_timeout = elim (Option-cases (session_of p old store)) [
      | inl missing ↦
          rw (rotate, missing) (without-IsConsistent p max_sessions small store h old missing)
      | inr (entry, found) ↦
          rw (rotate, found) (move_entry-IsConsistent now old new idle_timeout entry found)
    ]
