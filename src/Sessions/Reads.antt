-- ===== src/Sessions/Reads.antt =====
-- What the operations on one session in src/app/session.rs read back: `get` after `set`, `rotate`,
-- and sessions that have expired.
use rustrest.Prelude.{
  ℕ, ◌^◌, ◌≤◌, ◌<◌, ◌≡◌, ◌∙◌, inl, inr, true, false, List, none, some, arith, leb, length,
  Bool-cases, Option-cases, ok, Result-cases, ℕ_eq, list_eq, list_beq_iff, lookup, insert,
  lookup-insert, lookup-remove,
}
use rustrest.Text.{Bytes}
use rustrest.Sessions.{SessionEntry, remove_entry, renew, expiry, is_expired}
use rustrest.Sessions.Data.{SessionDataLimits, validate_session_value, check_data}
use rustrest.Sessions.Store.{
  SessionStore, Platform, shard_of, shard_index, session_of, drop_session, without, renew_session,
}
use rustrest.Sessions.Values.{get, write_data, write_value, admit_for_set, set_value}
use rustrest.Sessions.Consistent.{IsConsistent}
use rustrest.Sessions.Requests.{write_value-IsConsistent}
use rustrest.Sessions.Runs.{admit_for_set-IsConsistent}
use rustrest.Sessions.Kept.{session_of-put_same}

module _ (p : Platform) (id : Bytes) (store : SessionStore) (pos : 0 < length store.shards) where
  session_of-write_data :
      (entry : SessionEntry) (stored : List (Bytes × Bytes))
      → session_of p id (write_data p id entry stored store)
        ≡ some (record entry { data_of = stored })
  session_of-write_data entry stored =
      let entry' : SessionEntry = record entry { data_of = stored } in
      let shard = shard_of p id store in
      session_of-put_same p id (record shard { entries = insert id entry' shard.entries }) store pos
      ∙ ground (arith, lookup-insert id id entry' shard.entries, list_beq_iff id id)

  -- Renewing a session changes its time only.
  pub session_of-renew_session :
      (now idle_timeout : ℕ) (entry : SessionEntry)
      → session_of p id store ≡ some entry
      → ((renew_session p now id idle_timeout store).1 ≡ true)
        × (session_of p id (renew_session p now id idle_timeout store).0
            ≡ some (record entry { expires_at = expiry p.latest now idle_timeout }))
  unfolding renew_session renew
  session_of-renew_session now idle_timeout entry found =
      let shard = shard_of p id store in
      let entry' : SessionEntry = record entry { expires_at = expiry p.latest now idle_timeout } in
      let same = session_of-put_same p id (renew p.latest id now idle_timeout shard).0 store pos in
      let renewed : lookup id (renew p.latest id now idle_timeout shard).0.entries ≡ some entry' =
        rw (renew, found)
          (ground (arith, lookup-insert id id entry' shard.entries, list_beq_iff id id)) in
      let there : (renew p.latest id now idle_timeout shard).1 ≡ true = rw (renew, found) in
      (there, same ∙ renewed)

  pub session_of-without : session_of p id (without p id store) ≡ none
  unfolding remove_entry
  session_of-without =
      let shard = shard_of p id store in
      let gone : lookup id (remove_entry id shard).0.entries ≡ none = ground (
        arith,
        Option-cases (lookup id shard.entries),
        lookup-remove id id shard.entries,
        list_beq_iff id id,
      ) in
      session_of-put_same p id (remove_entry id shard).0 store pos ∙ gone

  session_of-drop_session : session_of p id (drop_session p id store) ≡ none
  unfolding shard_of shard_index
  session_of-drop_session = session_of-without

  -- `get` answers from the data of a session that has not expired.
  get-lookup :
      (now : ℕ) (key : Bytes) (idle_timeout : ℕ) (entry : SessionEntry)
      → session_of p id store ≡ some entry
      → now < entry.expires_at
      → (get p now id key idle_timeout store).1 ≡ lookup key entry.data_of
  unfolding get
  get-lookup now key idle_timeout entry found live =
      let (there, renewed) = session_of-renew_session now idle_timeout entry found in
      let fresh : leb entry.expires_at now ≡ false = ground arith in
      rw (found, fresh, there, renewed)

  -- In a store with shards, a session that has expired is not answered by `get`, and the call takes it out.
  pub get-expired :
      (now : ℕ) (key : Bytes) (idle_timeout : ℕ) (entry : SessionEntry)
      → session_of p id store ≡ some entry
      → entry.expires_at ≤ now
      → ((get p now id key idle_timeout store).1 ≡ none)
        × (session_of p id (get p now id key idle_timeout store).0 ≡ none)
  unfolding get
  get-expired now key idle_timeout entry found dead =
      let old : is_expired now (session_of p id store) ≡ true = rw (found) (ground arith) in
      (rw (old), rw (old) session_of-drop_session)

module _ (p : Platform) (max_sessions : ℕ) (small : max_sessions < 2 ^ 64) (id key value : Bytes)
    (limits : SessionDataLimits) where
  -- A write that succeeds stores the value.
  write_value-stores :
      (now : ℕ) (store : SessionStore)
      → 0 < length store.shards
      → (write_value p now id key value limits store).1 ≡ ok tt
      → (entry : SessionEntry) × (session_of p id (write_value p now id key value limits store).0
          ≡ some entry)
        × (lookup key entry.data_of ≡ some value)
  unfolding write_value
  write_value-stores now store pos = elim (Bool-cases (is_expired now (session_of p id store))) [
    | inl old ↦ rw (old) (λ written. cc)
    | inr fresh ↦ elim (Option-cases (session_of p id store)) [
      | inl missing ↦ rw (fresh, missing) (λ written. cc)
      | inr (entry, found) ↦ elim (Result-cases (check_data key value limits entry.data_of)) [
        | inr (error, refused) ↦ rw (fresh, found, refused) (λ written. cc)
        | inl (u, checked) ↦
            let stored = insert key value entry.data_of in
            rw (fresh, found, checked)
              (λ written. (
                record entry { data_of = stored },
                session_of-write_data p id store pos entry stored,
                ground (arith, lookup-insert key key value entry.data_of, list_beq_iff key key),
              ))
      ]
    ]
  ]

  set_value-stores :
      (now now' now'' : ℕ) (idle_timeout : ℕ) (store : SessionStore)
      → IsConsistent max_sessions store
      → (set_value p now now' now'' id key value idle_timeout max_sessions limits store).1 ≡ ok tt
      → let after =
          (set_value p now now' now'' id key value idle_timeout max_sessions limits store).0 in
        (entry : SessionEntry) × (session_of p id after ≡ some entry)
        × (lookup key entry.data_of ≡ some value)
        × (0 < length after.shards)
  unfolding set_value
  set_value-stores now now' now'' idle_timeout store h =
      let admitted = admit_for_set p now now' id idle_timeout max_sessions store in
      let h' = admit_for_set-IsConsistent p max_sessions small store h now now' id idle_timeout in
      let after-IsConsistent =
        write_value-IsConsistent p max_sessions small admitted.0 h' now'' id key value limits in
      elim (Result-cases (validate_session_value key value limits)) [
        | inr (error, refused) ↦ rw (set_value, refused) (λ written. cc)
        | inl (u, valid) ↦ elim (Bool-cases admitted.1) [
          | inr full ↦ rw (set_value, valid, full) (λ written. cc)
          | inl there ↦
              rw (set_value, valid, there)
                (λ written.
                  let (entry, found, read) =
                    write_value-stores now'' admitted.0 h'.has_shards written in
                  (entry, found, read, after-IsConsistent.has_shards))
        ]
      ]

-- In a consistent store with a capacity below 2^64, after a `set` that succeeds, `get` of the key at a time when the session has not expired
-- answers the value.
pub get-set_value :
    (p : Platform) (max_sessions : ℕ) (id key value : Bytes) (limits : SessionDataLimits)
    (now now' now'' idle_timeout : ℕ) (store : SessionStore) (time idle_timeout' : ℕ)
    → max_sessions < 2 ^ 64
    → IsConsistent max_sessions store
    → (set_value p now now' now'' id key value idle_timeout max_sessions limits store).1 ≡ ok tt
    → let after =
        (set_value p now now' now'' id key value idle_timeout max_sessions limits store).0 in
      is_expired time (session_of p id after) ≡ false
      → (get p time id key idle_timeout' after).1 ≡ some value
get-set_value p max_sessions id key value limits now now' now'' idle_timeout store time
      idle_timeout' small h written fresh =
    let after =
      (set_value p now now' now'' id key value idle_timeout max_sessions limits store).0 in
    let (entry, found, read, pos) =
      set_value-stores p max_sessions small id key value limits now now' now'' idle_timeout store h
        written in
    let live = rw (found) at fresh in
    get-lookup p id after pos time key idle_timeout' entry found (ground arith) ∙ read
