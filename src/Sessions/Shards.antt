-- ===== src/Sessions/Shards.antt =====
-- The expiry index of one shard in src/app/session.rs: what `insert_entry`, `remove_entry`, `renew`
-- and `remove_expired_entries` keep exact.
use rustrest.Prelude.{
  ℕ, ◌≤◌, ◌≡◌, refl, ap, ◌∙◌, inl, inr, false, not, ◌&&◌, ◌||◌, List, [], ◌∷◌, Option, none, some,
  arith, ◌==◌, ℕ_eq, list_eq, pair_eq, pair_beq_iff, list_beq_iff, All, Option-cases, lookup,
  insert, remove, discard, contains, Distinct, Distinct-insert, Distinct-remove, NoRepeat,
  contains-discard, NoRepeat-discard, All-keep, lookup-insert, lookup-remove, beq_refl,
}
use rustrest.Text.{Bytes}
use rustrest.Sessions.{
  SessionEntry, SessionShard, ExpiryKey, key_lt, index_insert, forget_key, insert_entry,
  remove_entry, renew, expiry, indexed,
}

-- The keys stand in order of their times.
abbrev pub Ordered : List ExpiryKey → Type 0
Ordered [] = Unit
Ordered (k ∷ keys) = All (λ j. k.0 ≤ j.0) keys × Ordered keys

-- The index names exactly the stored entries, at their times, in order and once.
pub record IsExact (shard : SessionShard) : Type 0 where
  pub distinct : Distinct shard.entries
  pub once : NoRepeat shard.expiry_index
  pub ordered : Ordered shard.expiry_index
  pub exact : (key : ExpiryKey) → contains key shard.expiry_index ≡ indexed shard.entries key

contains-index_insert :
    (key j : ExpiryKey) (keys : List ExpiryKey)
    → contains j (index_insert key keys) ≡ (contains j keys || key == j)
unfolding index_insert contains
contains-index_insert key j [] = ground arith
contains-index_insert key j (k ∷ keys) = ground (
  arith,
  pair_beq_iff key k,
  pair_beq_iff k j,
  pair_beq_iff key j,
  contains-index_insert key j keys,
)

NoRepeat-index_insert :
    (key : ExpiryKey) (keys : List ExpiryKey)
    → contains key keys ≡ false
    → NoRepeat keys
    → NoRepeat (index_insert key keys)
unfolding index_insert contains
NoRepeat-index_insert key [] new h = (refl, tt)
NoRepeat-index_insert key (k ∷ keys) new h = ground (
  arith,
  contains-index_insert key k keys,
  pair_beq_iff key k,
  pair_beq_iff k key,
  NoRepeat-index_insert key keys,
)

All-le-index_insert :
    (n : ℕ) (key : ExpiryKey) (keys : List ExpiryKey)
    → n ≤ key.0
    → All (λ j. n ≤ j.0) keys
    → All (λ j. n ≤ j.0) (index_insert key keys)
unfolding index_insert
All-le-index_insert n key [] le h = (le, tt)
All-le-index_insert n key (k ∷ keys) le h = ground (arith, All-le-index_insert n key keys le h.1)

All-le_trans :
    (n m : ℕ) (keys : List ExpiryKey) → n ≤ m → All (λ j. m ≤ j.0) keys → All (λ j. n ≤ j.0) keys
All-le_trans n m [] le h = tt
All-le_trans n m (k ∷ keys) le h = (omega arith, All-le_trans n m keys le h.1)

Ordered-index_insert :
    (key : ExpiryKey) (keys : List ExpiryKey) → Ordered keys → Ordered (index_insert key keys)
unfolding index_insert key_lt
Ordered-index_insert key [] h = (tt, tt)
Ordered-index_insert key (k ∷ keys) h = ground (
  arith,
  All-le_trans key.0 k.0 keys,
  All-le-index_insert k.0 key keys,
  Ordered-index_insert key keys h.1,
)

Ordered-discard :
    (key : ExpiryKey) (keys : List ExpiryKey) → Ordered keys → Ordered (discard key keys)
unfolding discard
Ordered-discard key [] h = tt
Ordered-discard key (k ∷ keys) h =
    ground (
      arith,
      All-keep (λ j. k.0 ≤ j.0) (λ j. not (j == key)) keys h.0,
      Ordered-discard key keys h.1,
    )

module _ (shard : SessionShard) (h : IsExact shard) where
  -- Without the key of `id`, the index names the entries of the other identifiers.
  contains-forget_key :
      (id : Bytes) (j : ExpiryKey)
      → contains j (forget_key id (lookup id shard.entries) shard.expiry_index)
        ≡ (indexed shard.entries j && not (id == j.1))
  contains-forget_key id j = elim (Option-cases (lookup id shard.entries)) [
    | inl missing ↦ rw (missing) (ground (arith, h.exact j, missing, list_beq_iff id j.1))
    | inr (previous, found) ↦ rw (found) (
        contains-discard j (previous.expires_at, id) shard.expiry_index
        ∙ ground (
          arith,
          h.exact j,
          found,
          pair_beq_iff (previous.expires_at, id) j,
          list_beq_iff id j.1,
        ))
  ]

  NoRepeat-forget_key :
      (id : Bytes) (old : Option SessionEntry) → NoRepeat (forget_key id old shard.expiry_index)
  NoRepeat-forget_key id none = h.once
  NoRepeat-forget_key id (some previous) = NoRepeat-discard _ shard.expiry_index h.once

  Ordered-forget_key :
      (id : Bytes) (old : Option SessionEntry) → Ordered (forget_key id old shard.expiry_index)
  Ordered-forget_key id none = h.ordered
  Ordered-forget_key id (some previous) = Ordered-discard _ shard.expiry_index h.ordered

  pub insert_entry-IsExact :
      (id : Bytes) (entry : SessionEntry) → IsExact (insert_entry id entry shard).0
  unfolding insert_entry
  insert_entry-IsExact id entry = record {
    distinct = Distinct-insert id entry shard.entries h.distinct;
    once =
        NoRepeat-index_insert _ _
          (contains-forget_key id (entry.expires_at, id) ∙ ground (arith, beq_refl id))
          (NoRepeat-forget_key id _);
    ordered = Ordered-index_insert _ _ (Ordered-forget_key id _);
    exact = λ j.
        contains-index_insert (entry.expires_at, id) j _
        ∙ ap (λ b. b || (entry.expires_at, id) == j) (contains-forget_key id j)
        ∙ ground (
          arith,
          lookup-insert id j.1 entry shard.entries,
          pair_beq_iff (entry.expires_at, id) j,
          list_beq_iff id j.1,
        );
  }

  -- Taking an identifier out, with its key.
  pub taken-IsExact :
      (id : Bytes)
      → IsExact (record {
        entries = remove id shard.entries;
        expiry_index = forget_key id (lookup id shard.entries) shard.expiry_index;
      })
  taken-IsExact id = record {
    distinct = Distinct-remove id shard.entries h.distinct;
    once = NoRepeat-forget_key id _;
    ordered = Ordered-forget_key id _;
    exact = λ j.
        contains-forget_key id j
        ∙ ground (arith, lookup-remove id j.1 shard.entries, list_beq_iff id j.1);
  }

  pub remove_entry-IsExact : (id : Bytes) → IsExact (remove_entry id shard).0
  unfolding remove_entry
  remove_entry-IsExact id = elim (Option-cases (lookup id shard.entries)) [
    | inl missing ↦ rw (remove_entry, missing) h
    | inr (entry, found) ↦ rw (remove_entry, found) (rw (found) at (taken-IsExact id))
  ]

  pub renew-IsExact :
      (latest now idle_timeout : ℕ) (id : Bytes)
      → IsExact (renew latest id now idle_timeout shard).0
  unfolding renew insert_entry
  renew-IsExact latest now idle_timeout id = elim (Option-cases (lookup id shard.entries)) [
    | inl missing ↦ rw (renew, missing) h
    | inr (entry, found) ↦
        rw (renew, found)
          (rw (found) at (
            insert_entry-IsExact id (record entry { expires_at = expiry latest now idle_timeout })))
  ]

  -- New data under an identifier leave the times as they are.
  pub write-IsExact :
      (id : Bytes) (entry : SessionEntry) (stored : List (Bytes × Bytes))
      → lookup id shard.entries ≡ some entry
      → IsExact
          (record shard { entries = insert id (record entry { data_of = stored }) shard.entries })
  write-IsExact id entry stored found = record {
    distinct = Distinct-insert id _ shard.entries h.distinct;
    once = h.once;
    ordered = h.ordered;
    exact = λ j.
        h.exact j
        ∙ ground (
          arith,
          lookup-insert id j.1 (record entry { data_of = stored }) shard.entries,
          found,
          list_beq_iff id j.1,
        );
  }
