-- ===== src/Sessions/Expiry.antt =====
-- The sweep of one shard in src/app/session.rs: what `remove_expired_entries` takes out and what it
-- leaves.
use rustrest.Prelude.{
  ℕ, ◌+◌, ◌-◌, ◌≤◌, ◌<◌, ◌≡◌, refl, sym, ◌∙◌, inl, inr, ◌⊎◌, Bool, true, ◌||◌, List, [], ◌∷◌, some,
  arith, ltb, nat_eq, nat_eq_iff, length, count, to_ℕ, ℕ_eq, list_eq, pair_eq, pair_beq_iff,
  list_beq_iff, All, Bool-cases, Option-cases, lookup, remove, contains, Distinct-remove,
  lookup-remove, count-remove, length-remove, All-remove, All-lookup_each, All-contains,
}
use rustrest.Text.{Bytes}
use rustrest.Sessions.{
  SessionEntry, SessionShard, ExpiryKey, expire_loop, remove_expired_entries, indexed,
}
use rustrest.Sessions.Shards.{IsExact, Ordered}

abbrev pub shard_with : List ExpiryKey → List (Bytes × SessionEntry) → SessionShard
shard_with keys entries = record { entries = entries; expiry_index = keys }

first_indexed :
    (key : ExpiryKey) (keys : List ExpiryKey) (entries : List (Bytes × SessionEntry))
    → IsExact (shard_with (key ∷ keys) entries)
    → indexed entries key ≡ true
unfolding contains
first_indexed key keys entries h = sym (h.exact key) ∙ ground (arith, pair_beq_iff key key)

tail-IsExact :
    (key : ExpiryKey) (keys : List ExpiryKey) (entries : List (Bytes × SessionEntry))
    → IsExact (shard_with (key ∷ keys) entries)
    → IsExact (shard_with keys (remove key.1 entries))
unfolding contains
tail-IsExact key keys entries h = record {
  distinct = Distinct-remove key.1 entries h.distinct;
  once = h.once.1;
  ordered = h.ordered.1;
  exact = λ j. ground (
    arith,
    h.exact j,
    h.exact key,
    first_indexed key keys entries h,
    h.once.0,
    lookup-remove key.1 j.1 entries,
    pair_beq_iff key j,
    list_beq_iff key.1 j.1,
  );
}

-- Why the loop stops.
abbrev pub Stops : ℕ → ℕ → List ExpiryKey → Type 0
Stops now maximum [] = Unit
Stops now maximum (key ∷ keys) = (maximum ≡ 0) ⊎ (now < key.0)

-- Induction on the sweep of an exact shard: every round but the last takes the first key and its
-- entry out.
module _ {κ} (now : ℕ) (P : ℕ → SessionShard → SessionShard × ℕ → Type κ)
    (stop : (maximum : ℕ) (keys : List ExpiryKey) (entries : List (Bytes × SessionEntry))
      → IsExact (shard_with keys entries)
      → Stops now maximum keys
      → P maximum (shard_with keys entries) (shard_with keys entries, 0))
    (round : (maximum : ℕ) (key : ExpiryKey) (keys : List ExpiryKey)
        (entries : List (Bytes × SessionEntry)) (r : SessionShard × ℕ)
      → IsExact (shard_with (key ∷ keys) entries)
      → 0 < maximum
      → key.0 ≤ now
      → P (maximum - 1) (shard_with keys (remove key.1 entries)) r
      → P maximum (shard_with (key ∷ keys) entries) (r.0, r.1 + 1)) where
  expire_loop_ind :
      (maximum : ℕ) (keys : List ExpiryKey) (entries : List (Bytes × SessionEntry))
      → IsExact (shard_with keys entries)
      → P maximum (shard_with keys entries) (expire_loop now maximum keys entries)
  unfolding expire_loop
  expire_loop_ind maximum [] entries h = stop maximum [] entries h tt
  expire_loop_ind maximum (key ∷ keys) entries h =
      elim (Bool-cases (nat_eq maximum 0 || ltb now key.0)) [
        | inl stopped ↦ rw (stopped) (stop maximum (key ∷ keys) entries h (ground arith))
        | inr more ↦
            rw (more, first_indexed key keys entries h)
              (round maximum key keys entries _ h (ground arith) (ground arith) (
                expire_loop_ind (maximum - 1) keys (remove key.1 entries)
                  (tail-IsExact key keys entries h)))
      ]

  pub remove_expired_entries_ind :
      (maximum : ℕ) (shard : SessionShard)
      → IsExact shard
      → P maximum shard (remove_expired_entries now maximum shard)
  unfolding remove_expired_entries
  remove_expired_entries_ind maximum shard h =
      expire_loop_ind maximum shard.expiry_index shard.entries h

abbrev pub is_live : ℕ → Bytes × SessionEntry → Bool
is_live now session = ltb now session.1.expires_at

-- What a sweep does to the shard and its numbers.
pub record Swept (now maximum : ℕ) (shard : SessionShard) (r : SessionShard × ℕ) : Type 0 where
  pub exact : IsExact r.0
  pub counted : length r.0.entries + r.1 ≡ length shard.entries
  pub bounded : r.1 ≤ maximum
  pub same_live : count (is_live now) r.0.entries ≡ count (is_live now) shard.entries

-- The entry of a key that is indexed.
indexed_entry :
    (entries : List (Bytes × SessionEntry)) (key : ExpiryKey)
    → indexed entries key ≡ true
    → (entry : SessionEntry) × (lookup key.1 entries ≡ some entry) × (entry.expires_at ≡ key.0)
indexed_entry entries key h = elim (Option-cases (lookup key.1 entries)) [
  | inl missing ↦ cc (rw (missing) at h)
  | inr (entry, found) ↦ (entry, found, (nat_eq_iff entry.expires_at key.0).0 (rw (found) at h))
]

module _ (now : ℕ) where
  Swept-round :
      (maximum : ℕ) (key : ExpiryKey) (keys : List ExpiryKey)
      (entries : List (Bytes × SessionEntry)) (r : SessionShard × ℕ)
      → IsExact (shard_with (key ∷ keys) entries)
      → 0 < maximum
      → key.0 ≤ now
      → Swept now (maximum - 1) (shard_with keys (remove key.1 entries)) r
      → Swept now maximum (shard_with (key ∷ keys) entries) (r.0, r.1 + 1)
  Swept-round maximum key keys entries r h some_left due s =
      let (entry, found, time) = indexed_entry entries key (first_indexed key keys entries h) in
      let shorter = length-remove key.1 entry entries h.distinct found in
      let same = count-remove (is_live now) key.1 entry entries h.distinct found in
      let dead : to_ℕ (ltb now entry.expires_at) ≡ 0 = ground arith in
      record {
        exact = s.exact;
        counted = omega (arith, s.counted);
        bounded = omega (arith, s.bounded);
        same_live = omega (arith, s.same_live);
      }

  pub remove_expired_entries-Swept :
      (maximum : ℕ) (shard : SessionShard)
      → IsExact shard
      → Swept now maximum shard (remove_expired_entries now maximum shard)
  remove_expired_entries-Swept =
      remove_expired_entries_ind now (λ maximum shard r. Swept now maximum shard r)
        (λ maximum keys entries h s. record {
          exact = h;
          counted = omega arith;
          bounded = omega arith;
          same_live = refl;
        })
        Swept-round

  -- A live session stays.
  pub remove_expired_entries-keeps_live :
      (id : Bytes) (entry : SessionEntry)
      → now < entry.expires_at
      → (maximum : ℕ) (shard : SessionShard) → IsExact shard
      → lookup id shard.entries ≡ some entry
      → lookup id (remove_expired_entries now maximum shard).0.entries ≡ some entry
  remove_expired_entries-keeps_live id entry live =
      remove_expired_entries_ind now
        (λ maximum shard r.
          lookup id shard.entries ≡ some entry → lookup id r.0.entries ≡ some entry)
        (λ maximum keys entries h s found. found)
        (λ maximum key keys entries r h some_left due ih found.
          let (first, there, time) = indexed_entry entries key (first_indexed key keys entries h) in
          ih (ground (arith, lookup-remove key.1 id entries, list_beq_iff key.1 id)))

  pub All-remove_expired_entries {κ} :
      (P : Bytes × SessionEntry → Type κ) (maximum : ℕ) (shard : SessionShard)
      → IsExact shard
      → All P shard.entries
      → All P (remove_expired_entries now maximum shard).0.entries
  All-remove_expired_entries P =
      remove_expired_entries_ind now (λ maximum shard r. All P shard.entries → All P r.0.entries)
        (λ maximum keys entries h s k. k)
        (λ maximum key keys entries r h some_left due ih k. ih (All-remove P key.1 entries k))

  -- With room for every entry, what stays is live.
  pub count-is_live :
      (entries : List (Bytes × SessionEntry))
      → All (λ c. now < c.1.expires_at) entries
      → count (is_live now) entries ≡ length entries
  count-is_live [] h = refl
  count-is_live (c ∷ entries) h = ground (arith, count-is_live entries h.1)

  listed_live :
      (maximum : ℕ) (keys : List ExpiryKey) (entries : List (Bytes × SessionEntry))
      → Ordered keys
      → Stops now maximum keys
      → length entries ≤ maximum
      → (id : Bytes) (entry : SessionEntry) → lookup id entries ≡ some entry
      → contains (entry.expires_at, id) keys ≡ true
      → now < entry.expires_at
  unfolding contains lookup
  listed_live maximum [] entries o s room id entry found here = cc
  listed_live maximum (key ∷ keys) [] o s room id entry found here = cc
  listed_live maximum (key ∷ keys) (c ∷ entries) o (inl full) room id entry found here =
      absurd (omega arith)
  listed_live maximum (key ∷ keys) (c ∷ entries) o (inr later) room id entry found here =
      let first : key.0 ≤ entry.expires_at =
        All-contains (λ (j : ExpiryKey). key.0 ≤ j.0) (entry.expires_at, id) (key ∷ keys) here
          (omega arith, o.0) in
      omega arith

  pub Stops-live :
      (maximum : ℕ) (keys : List ExpiryKey) (entries : List (Bytes × SessionEntry))
      → IsExact (shard_with keys entries)
      → Stops now maximum keys
      → length entries ≤ maximum
      → All (λ c. now < c.1.expires_at) entries
  Stops-live maximum keys entries h s room =
      All-lookup_each (λ c. now < c.1.expires_at) entries h.distinct
        (λ id entry found.
          let here : contains (entry.expires_at, id) keys ≡ true =
            h.exact (entry.expires_at, id) ∙ rw (found) (ground arith) in
          listed_live maximum keys entries h.ordered s room id entry found here)

  pub remove_expired_entries-live_only :
      (maximum : ℕ) (shard : SessionShard)
      → IsExact shard
      → length shard.entries ≤ maximum
      → length (remove_expired_entries now maximum shard).0.entries
        ≡ count (is_live now) shard.entries
  remove_expired_entries-live_only =
      remove_expired_entries_ind now
        (λ maximum shard r.
          length shard.entries ≤ maximum → length r.0.entries ≡ count (is_live now) shard.entries)
        (λ maximum keys entries h s room.
          sym (count-is_live entries (Stops-live maximum keys entries h s room)))
        (λ maximum key keys entries r h some_left due ih room.
          let (entry, found, time) = indexed_entry entries key (first_indexed key keys entries h) in
          let shorter = length-remove key.1 entry entries h.distinct found in
          let same = count-remove (is_live now) key.1 entry entries h.distinct found in
          let dead : to_ℕ (ltb now entry.expires_at) ≡ 0 = ground arith in
          let smaller = ih (omega arith) in omega arith)
