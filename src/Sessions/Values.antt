-- ===== src/Sessions/Values.antt =====
-- Reads and writes of sessions in src/app/session.rs: `get`, `set`, `remove`, `clear`, `rotate`,
-- `record_rotation`, `take_rotation` and `live_len` of `SessionStore`, and `Sessions::regenerate`.
-- An operation that reads the clock more than once takes each time.
use rustrest.Prelude.{
  ℕ, ◌+◌, ◌-◌, ◌^◌, Bool, true, false, List, [], ◌∷◌, Option, none, some, ltb, leb, if◌then◌else◌,
  is_some, length, keep, Result, ok, err, ℕ_eq, list_eq, lookup, insert, remove, sub_usize,
}
use rustrest.Text.{Bytes}
use rustrest.Sessions.{SessionEntry, SessionShard, is_expired, expiry, remove_expired_entries}
use rustrest.Sessions.Data.{
  SessionDataError, SessionDataLimits, unavailable, validate_session_value, check_data,
}
use rustrest.Sessions.Store.{
  Platform, Rotation, SessionStore, rotation_record_ttl, new_id_of, drop_count, put_shard,
  shard_index, shard_of, without, drop_session, session_of, renew_session, insert_session, resume,
  create,
}

module _ (p : Platform) where
  abbrev pub value_of : Bytes → Option SessionEntry → Option Bytes
  value_of key none = none
  value_of key (some entry) = lookup key entry.data_of

  unfoldable pub get : ℕ → Bytes → Bytes → ℕ → SessionStore → SessionStore × Option Bytes
  unfolding renew_session shard_of
  get now id key idle_timeout store =
      let (renewed, there) = renew_session p now id idle_timeout store in
      if is_expired now (session_of p id store)
      then (drop_session p id store, none)
      else if there
      then (renewed, value_of key (session_of p id renewed))
      else (renewed, none)

  abbrev pub write_data : Bytes → SessionEntry → List (Bytes × Bytes) → SessionStore → SessionStore
  write_data id entry stored store =
      let shard = shard_of p id store in
      put_shard (shard_index p id store)
        (record shard { entries = insert id (record entry { data_of = stored }) shard.entries })
        store

  -- The second half of `set`, behind the admission of the session.
  unfoldable pub write_value :
      ℕ
      → Bytes
      → Bytes
      → Bytes
      → SessionDataLimits
      → SessionStore
      → SessionStore × Result SessionDataError (Unit {0})
  unfolding shard_of
  write_value now id key value limits store =
      if is_expired now (session_of p id store)
      then (drop_session p id store, err unavailable)
      else elim (session_of p id store) [
        | none ↦ (store, err unavailable)
        | some entry ↦ elim (check_data key value limits entry.data_of) [
          | err error ↦ (store, err error)
          | ok checked ↦ (write_data id entry (insert key value entry.data_of) store, ok tt)
        ]
      ]

  -- The admission of `set`: `resume`, and `create` where it fails. Both read the clock.
  unfoldable pub admit_for_set : ℕ → ℕ → Bytes → ℕ → ℕ → SessionStore → SessionStore × Bool
  unfolding resume create
  admit_for_set now now' id idle_timeout max_sessions store =
      let (resumed, there) = resume p now id idle_timeout store in
      if there then (resumed, true) else create p now' id idle_timeout max_sessions resumed

  -- `SessionStore::set`, which reads the clock three times.
  unfoldable pub set_value :
      ℕ
      → ℕ
      → ℕ
      → Bytes
      → Bytes
      → Bytes
      → ℕ
      → ℕ
      → SessionDataLimits
      → SessionStore
      → SessionStore × Result SessionDataError (Unit {0})
  unfolding write_value
  set_value now now' now'' id key value idle_timeout max_sessions limits store =
      elim (validate_session_value key value limits) [
        | err error ↦ (store, err error)
        | ok valid ↦
            let (admitted, there) = admit_for_set now now' id idle_timeout max_sessions store in
            if there
            then write_value now'' id key value limits admitted
            else (admitted, err unavailable)
      ]

  -- The removal of a key from the entry that was renewed.
  abbrev pub remove_key : Bytes → Bytes → Option SessionEntry → SessionStore → SessionStore
  remove_key id key none store = store
  remove_key id key (some entry) store = write_data id entry (remove key entry.data_of) store

  -- `SessionStore::remove`.
  unfoldable pub remove_value : ℕ → Bytes → Bytes → ℕ → SessionStore → SessionStore
  unfolding renew_session shard_of
  remove_value now id key idle_timeout store =
      let (renewed, there) = renew_session p now id idle_timeout store in
      if is_expired now (session_of p id store)
      then drop_session p id store
      else if there
      then remove_key id key (session_of p id renewed) renewed
      else renewed

  unfoldable pub clear : Bytes → SessionStore → SessionStore
  unfolding shard_of
  clear id store =
      if is_some (session_of p id store) then drop_session p id store else without p id store

  -- `rotate` behind the removal of the old entry, that is `without old store`.
  abbrev pub move_entry : ℕ → Bytes → ℕ → SessionEntry → SessionStore → SessionStore × Bool
  move_entry now new idle_timeout entry store =
      let (moved, fresh) =
        insert_session p new (record entry { expires_at = expiry p.latest now idle_timeout })
          store in
      if leb entry.expires_at now
      then (drop_count 1 store, false)
      else (if fresh then moved else drop_count 1 moved, true)

  unfoldable pub rotate : ℕ → Bytes → Bytes → ℕ → SessionStore → SessionStore × Bool
  unfolding shard_of
  rotate now old new idle_timeout store = elim (session_of p old store) [
    | none ↦ (without p old store, false)
    | some entry ↦ move_entry now new idle_timeout entry (without p old store)
  ]

  unfoldable pub record_rotation : ℕ → Bytes → Bytes → ℕ → SessionStore → SessionStore
  record_rotation now old new max_records store =
      let kept =
        keep (λ (r : Bytes × Rotation). ltb (now - r.1.rotated_at) rotation_record_ttl)
          store.rotations in
      record store {
        rotations =
            if ltb (length kept) max_records
            then insert old (record { new_id = new; rotated_at = now }) kept
            else kept;
      }

  unfoldable pub take_rotation : Bytes → SessionStore → SessionStore × Option Bytes
  take_rotation old store = (
    record store { rotations = remove old store.rotations },
    new_id_of (lookup old store.rotations),
  )

  -- `Sessions::regenerate`; `new` is what `generate_id` made.
  unfoldable pub regenerate :
      ℕ
      → ℕ
      → ℕ
      → Bytes
      → Bytes
      → ℕ
      → ℕ
      → SessionStore
      → SessionStore × Result SessionDataError Bytes
  unfolding rotate create record_rotation
  regenerate now now' now'' id new idle_timeout max_sessions store =
      let (rotated, moved) = rotate now id new idle_timeout store in
      let (created, there) = create p now' new idle_timeout max_sessions rotated in
      if moved
      then (record_rotation now'' id new max_sessions rotated, ok new)
      else if there
      then (record_rotation now'' id new max_sessions created, ok new)
      else (created, err unavailable)

-- The loop of `live_len`, and the number of sessions that it removes.
unfoldable pub expire_all : ℕ → List SessionShard → List SessionShard × ℕ
expire_all now [] = ([], 0)
expire_all now (shard ∷ shards) =
    let swept = remove_expired_entries now (2 ^ 64 - 1) shard in
    let rest = expire_all now shards in (swept.0 ∷ rest.0, swept.1 + rest.1)

unfoldable pub live_len : ℕ → SessionStore → SessionStore × ℕ
unfolding expire_all
live_len now store =
    let (shards, removed) = expire_all now store.shards in
    let entries = if ltb 0 removed then sub_usize store.entries removed else store.entries in
    (record store { shards = shards; entries = entries }, entries)
