-- ===== src/Sessions/Store.antt =====
-- `SessionStore` of src/app/session.rs. Each operation takes the time that it reads from the clock
-- and runs to its end before the next one. The hash of an identifier by
-- `DefaultHasher` is a parameter. The shards are the list of all of them, at `shard_index`; the counter `entries` is a
-- word that wraps.
use rustrest.Prelude.{
  ℕ, zero, suc, ◌+◌, ◌-◌, ◌%◌, Bool, true, false, not, ◌&&◌, List, [], Option, none, some, ltb, leb,
  nat_eq, if◌then◌else◌, length, ℕ_eq, list_eq, lookup, get_or, set, replicate, add_usize,
  sub_usize,
}
use rustrest.Text.{Bytes}
use rustrest.Sessions.{
  SessionEntry, SessionShard, is_expired, expiry, insert_entry, remove_entry, renew,
  remove_expired_entries,
}

-- The identifier that replaced another one, and when.
pub record Rotation : Type 0 where
  pub new_id : Bytes
  pub rotated_at : ℕ

-- `next_cleanup` and `cleanup_shard` are those of `StoreMaintenance`.
pub record SessionStore : Type 0 where
  pub shards : List SessionShard
  pub entries : ℕ
  pub next_cleanup : ℕ
  pub cleanup_shard : ℕ
  pub rotations : List (Bytes × Rotation)

abbrev pub session_store_shards : ℕ
session_store_shards = 16

-- A minute, in nanoseconds: `STORE_CLEANUP_INTERVAL` and `ROTATION_RECORD_TTL`.
abbrev pub store_cleanup_interval : ℕ
store_cleanup_interval = 60_000_000_000

abbrev pub rotation_record_ttl : ℕ
rotation_record_ttl = 60_000_000_000

abbrev pub store_cleanup_batch : ℕ
store_cleanup_batch = 256

abbrev pub empty_shard : SessionShard
empty_shard = record { entries = []; expiry_index = [] }

unfoldable pub new_store : ℕ → SessionStore
new_store now = record {
  shards = replicate session_store_shards empty_shard;
  entries = 0;
  next_cleanup = now + store_cleanup_interval;
  cleanup_shard = 0;
  rotations = [];
}

abbrev pub new_id_of : Option Rotation → Option Bytes
new_id_of none = none
new_id_of (some rotation) = some rotation.new_id

-- `entries.fetch_sub(removed)`.
abbrev pub drop_count : ℕ → SessionStore → SessionStore
drop_count removed store = record store { entries = sub_usize store.entries removed }

abbrev pub put_shard : ℕ → SessionShard → SessionStore → SessionStore
put_shard i shard store = record store { shards = set store.shards i shard }

-- What the sweep over the shards leaves.
pub record Sweep : Type 0 where
  pub shards : List SessionShard
  pub remaining : ℕ
  pub removed : ℕ
  pub cleanup_shard : ℕ

abbrev pub sweep_index : ℕ → ℕ → List SessionShard → ℕ
sweep_index first visited shards = (first + visited) % length shards

-- The loop of `cleanup_expired_batch`, with the number of shards that are left to visit.
unfoldable pub sweep_loop : ℕ → ℕ → ℕ → ℕ → ℕ → List SessionShard → ℕ → Sweep
sweep_loop zero now first visited remaining shards removed = record {
  shards = shards;
  remaining = remaining;
  removed = removed;
  cleanup_shard = first;
}
sweep_loop (suc left) now first visited remaining shards removed =
    let i = sweep_index first visited shards in
    let swept = remove_expired_entries now remaining (get_or shards i empty_shard) in
    let shards' = set shards i swept.0 in
    let rest =
      sweep_loop left now first (visited + 1) (remaining - swept.1) shards' (removed + swept.1) in
    if nat_eq remaining 0
    then record { shards = shards; remaining = remaining; removed = removed; cleanup_shard = first }
    else if nat_eq (remaining - swept.1) 0
    then record { shards = shards'; remaining = 0; removed = removed + swept.1; cleanup_shard = i }
    else rest

module _ (latest : ℕ) where
  -- What `cleanup_expired_batch` stores behind its loop.
  abbrev pub after_sweep : ℕ → Sweep → SessionStore → SessionStore
  after_sweep now sweep store = record store {
    shards = sweep.shards;
    entries = sub_usize store.entries sweep.removed;
    cleanup_shard =
        if nat_eq sweep.remaining 0
        then sweep.cleanup_shard
        else (sweep.cleanup_shard + 1) % length sweep.shards;
    next_cleanup =
        if nat_eq sweep.remaining 0 then now else expiry latest now store_cleanup_interval;
  }

  unfoldable pub cleanup_expired_batch : ℕ → SessionStore → SessionStore
  unfolding sweep_loop
  cleanup_expired_batch now store =
      after_sweep now
        (sweep_loop (length store.shards) now store.cleanup_shard 0 store_cleanup_batch store.shards
          0)
        store

  unfoldable pub cleanup_if_needed : ℕ → SessionStore → SessionStore × Bool
  unfolding cleanup_expired_batch
  cleanup_if_needed now store =
      if ltb now store.next_cleanup then (store, false) else (cleanup_expired_batch now store, true)

-- What the operations take from the standard library.
pub record Platform : Type 0 where
  pub hash : Bytes → ℕ
  pub latest : ℕ

module _ (p : Platform) where
  unfoldable pub shard_index : Bytes → SessionStore → ℕ
  shard_index id store = p.hash id % length store.shards

  unfoldable pub shard_of : Bytes → SessionStore → SessionShard
  unfolding shard_index
  shard_of id store = get_or store.shards (shard_index id store) empty_shard

  -- `remove_entry` in the shard of the identifier.
  abbrev pub without : Bytes → SessionStore → SessionStore
  without id store = put_shard (shard_index id store) (remove_entry id (shard_of id store)).0 store

  -- The removal of a session that is found expired.
  abbrev pub drop_session : Bytes → SessionStore → SessionStore
  drop_session id store = drop_count 1 (without id store)

  abbrev pub session_of : Bytes → SessionStore → Option SessionEntry
  session_of id store = lookup id (shard_of id store).entries

  -- `renew` in the shard of the identifier.
  unfoldable pub renew_session : ℕ → Bytes → ℕ → SessionStore → SessionStore × Bool
  unfolding shard_of
  renew_session now id idle_timeout store =
      let renewed = renew p.latest id now idle_timeout (shard_of id store) in
      (put_shard (shard_index id store) renewed.0 store, renewed.1)

  -- `insert_entry` in the shard of the identifier.
  abbrev pub insert_session : Bytes → SessionEntry → SessionStore → SessionStore × Bool
  insert_session id entry store =
      let inserted = insert_entry id entry (shard_of id store) in
      (put_shard (shard_index id store) inserted.0 store, inserted.1)

  unfoldable pub resume : ℕ → Bytes → ℕ → SessionStore → SessionStore × Bool
  unfolding renew_session shard_of
  resume now id idle_timeout store =
      if is_expired now (session_of id store)
      then (drop_session id store, false)
      else renew_session now id idle_timeout store

  -- The first block of `create`: the session may be there.
  unfoldable pub drop_if_expired : ℕ → Bytes → SessionStore → SessionStore
  unfolding shard_of
  drop_if_expired now id store =
      if is_expired now (session_of id store) then drop_session id store else store

  -- The cleaning of `create` before it admits a session.
  unfoldable pub make_room : ℕ → ℕ → SessionStore → SessionStore
  make_room now max_sessions store =
      let (cleaned, attempted) = cleanup_if_needed p.latest now store in
      if leb max_sessions cleaned.entries && not attempted
      then cleanup_expired_batch p.latest now cleaned
      else cleaned

  -- The end of `create`: a new session, and the counter.
  unfoldable pub admit_session : ℕ → Bytes → ℕ → SessionStore → SessionStore
  unfolding shard_of
  admit_session now id idle_timeout store =
      let (admitted, new) =
        insert_session id (record { data_of = []; expires_at = expiry p.latest now idle_timeout })
          store in
      if new then record admitted { entries = add_usize admitted.entries 1 } else admitted

  unfoldable pub create : ℕ → Bytes → ℕ → ℕ → SessionStore → SessionStore × Bool
  unfolding drop_if_expired renew_session make_room admit_session
  create now id idle_timeout max_sessions store =
      let (renewed, there) = renew_session now id idle_timeout (drop_if_expired now id store) in
      let cleaned = make_room now max_sessions renewed in
      if there
      then (renewed, true)
      else if leb max_sessions cleaned.entries
      then (cleaned, false)
      else (admit_session now id idle_timeout cleaned, true)
