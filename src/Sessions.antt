-- ===== src/Sessions.antt =====
-- Sessions in src/app/session.rs: one shard of `SessionStore`, its entries and their expiry index.
-- An `Instant` is a number of nanoseconds, and `latest` the last one that is representable. A
-- `BTreeSet` is a sorted list; taking its first element out leaves the rest of the list.
pub mod Data
pub mod Consistent
pub mod Expiry
pub mod Moves
pub mod Reads
pub mod Requests
pub mod Runs
pub mod Kept
pub mod Full
pub mod Limits
pub mod Live
pub mod Accepts
pub mod Shards
pub mod Store
pub mod Sweeps
pub mod Values
use rustrest.Prelude.{
  ℕ, zero, suc, ◌+◌, ◌-◌, ◌≤◌, Bool, true, false, not, ◌&&◌, ◌||◌, List, [], ◌∷◌, Option, none,
  some, ltb, leb, nat_eq, if◌then◌else◌, is_some, ◌==◌, ℕ_eq, list_eq, pair_eq, lookup, insert,
  remove, discard,
}
use rustrest.Text.{Bytes, bytes_lt}

pub record SessionEntry : Type 0 where
  pub data_of : List (Bytes × Bytes)
  pub expires_at : ℕ

-- `ShardExpiryKey`, compared by the time and then by the identifier.
abbrev pub ExpiryKey : Type 0
ExpiryKey = ℕ × Bytes

pub record SessionShard : Type 0 where
  pub entries : List (Bytes × SessionEntry)
  pub expiry_index : List (ℕ × Bytes)

unfoldable pub key_lt : ExpiryKey → ExpiryKey → Bool
key_lt a b = ltb a.0 b.0 || nat_eq a.0 b.0 && bytes_lt a.1 b.1

-- `BTreeSet::insert`.
unfoldable pub index_insert : ExpiryKey → List ExpiryKey → List ExpiryKey
unfolding key_lt
index_insert key [] = key ∷ []
index_insert key (k ∷ keys) =
    if key == k
    then k ∷ keys
    else if key_lt key k
    then key ∷ k ∷ keys
    else k ∷ index_insert key keys

-- `now.checked_add(idle_timeout).unwrap_or(now)`.
unfoldable pub expiry : ℕ → ℕ → ℕ → ℕ
expiry latest now idle_timeout = if leb (now + idle_timeout) latest then now + idle_timeout else now

abbrev pub is_expired : ℕ → Option SessionEntry → Bool
is_expired now none = false
is_expired now (some entry) = leb entry.expires_at now

-- The index without the key of the entry that is stored under an identifier.
abbrev pub forget_key : Bytes → Option SessionEntry → List ExpiryKey → List ExpiryKey
forget_key id none keys = keys
forget_key id (some previous) keys = discard (previous.expires_at, id) keys

unfoldable pub insert_entry : Bytes → SessionEntry → SessionShard → SessionShard × Bool
unfolding index_insert
insert_entry id entry shard = (
  record {
    entries = insert id entry shard.entries;
    expiry_index =
        index_insert (entry.expires_at, id)
          (forget_key id (lookup id shard.entries) shard.expiry_index);
  },
  not (is_some (lookup id shard.entries)),
)

unfoldable pub remove_entry : Bytes → SessionShard → SessionShard × Option SessionEntry
remove_entry id shard = elim (lookup id shard.entries) [
  | none ↦ (shard, none)
  | some entry ↦ (
    record {
      entries = remove id shard.entries;
      expiry_index = discard (entry.expires_at, id) shard.expiry_index;
    },
    some entry,
  )
]

unfoldable pub renew : ℕ → Bytes → ℕ → ℕ → SessionShard → SessionShard × Bool
unfolding expiry index_insert
renew latest id now idle_timeout shard = elim (lookup id shard.entries) [
  | none ↦ (shard, false)
  | some entry ↦
      let until = expiry latest now idle_timeout in
      (
        record {
          entries = insert id (record entry { expires_at = until }) shard.entries;
          expiry_index =
              index_insert (until, id) (discard (entry.expires_at, id) shard.expiry_index);
        },
        true,
      )
]

-- An entry is stored under the identifier of the key and expires at its time.
abbrev pub expires_then : Option SessionEntry → ℕ → Bool
expires_then none time = false
expires_then (some entry) time = nat_eq entry.expires_at time

abbrev pub indexed : List (Bytes × SessionEntry) → ExpiryKey → Bool
indexed entries key = expires_then (lookup key.1 entries) key.0

-- The loop of `remove_expired_entries`: `maximum` is what may still be removed.
pub expire_loop : ℕ → ℕ → List ExpiryKey → List (Bytes × SessionEntry) → SessionShard × ℕ
expire_loop now maximum [] entries = (record { entries = entries; expiry_index = [] }, 0)
expire_loop now maximum (candidate ∷ keys) entries =
    let next = expire_loop now (maximum - 1) keys (remove candidate.1 entries) in
    let skipped = expire_loop now maximum keys entries in
    if nat_eq maximum 0 || ltb now candidate.0
    then (record { entries = entries; expiry_index = candidate ∷ keys }, 0)
    else if indexed entries candidate
    then (next.0, next.1 + 1)
    else skipped

unfoldable pub remove_expired_entries : ℕ → ℕ → SessionShard → SessionShard × ℕ
unfolding expire_loop
remove_expired_entries now maximum shard = expire_loop now maximum shard.expiry_index shard.entries
