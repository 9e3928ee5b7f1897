-- ===== src/Sessions/Live.antt =====
-- `live_len` of src/app/session.rs counts the sessions that have not expired.
use rustrest.Prelude.{
  ℕ, ◌+◌, ◌-◌, ◌^◌, ◌<◌, ◌≡◌, refl, inl, inr, List, [], ◌∷◌, arith, ltb, length, count, All,
  Bool-cases, sub_usize, total,
}
use rustrest.Sessions.{SessionShard}
use rustrest.Sessions.Shards.{IsExact}
use rustrest.Sessions.Expiry.{
  remove_expired_entries-Swept, remove_expired_entries-live_only, is_live,
}
use rustrest.Sessions.Store.{SessionStore}
use rustrest.Sessions.Values.{expire_all, live_len}
use rustrest.Sessions.Consistent.{IsConsistent, size}

-- The sessions of a shard that are live.
abbrev pub live_in : ℕ → SessionShard → ℕ
live_in now shard = count (is_live now) shard.entries

record AllSwept (now : ℕ) (shards : List SessionShard) (r : List SessionShard × ℕ) : Type 0 where
  exact : All IsExact r.0
  same_length : length r.0 ≡ length shards
  counted : total size r.0 + r.1 ≡ total size shards
  live_only : total size r.0 ≡ total (live_in now) shards

expire_all-AllSwept :
    (now : ℕ) (shards : List SessionShard)
    → All IsExact shards
    → total size shards < 2 ^ 64
    → AllSwept now shards (expire_all now shards)
unfolding expire_all
expire_all-AllSwept now [] h small = record {
  exact = tt;
  same_length = refl;
  counted = refl;
  live_only = refl;
}
expire_all-AllSwept now (shard ∷ shards) h small =
    let swept = remove_expired_entries-Swept now (2 ^ 64 - 1) shard h.0 in
    let left = remove_expired_entries-live_only now (2 ^ 64 - 1) shard h.0 (omega arith) in
    let rest = expire_all-AllSwept now shards h.1 (omega arith) in
    record {
      exact = (swept.exact, rest.exact);
      same_length = omega (arith, rest.same_length);
      counted = omega (arith, swept.counted, rest.counted);
      live_only = omega (arith, rest.live_only);
    }

-- In a consistent store with a capacity below 2^64, `live_len` answers the number of the sessions that have not expired, and
-- leaves a consistent store.
pub live_len-counts :
    (max_sessions : ℕ) (store : SessionStore) (now : ℕ)
    → max_sessions < 2 ^ 64
    → IsConsistent max_sessions store
    → ((live_len now store).1 ≡ total (live_in now) store.shards)
      × IsConsistent max_sessions (live_len now store).0
unfolding live_len
live_len-counts max_sessions store now small h =
    let swept =
      expire_all-AllSwept now store.shards h.exact (omega (arith, h.counted, h.bounded)) in
    let r = expire_all now store.shards in
    elim (Bool-cases (ltb 0 r.1)) [
      | inl some_removed ↦
          let less : sub_usize store.entries r.1 + r.1 ≡ store.entries =
            omega (arith, swept.counted, h.counted, h.bounded) in
          rw (some_removed) (
            omega (arith, swept.counted, swept.live_only, h.counted),
            record {
              exact = swept.exact;
              has_shards = omega (arith, swept.same_length, h.has_shards);
              counted = omega (arith, swept.counted, h.counted);
              bounded = omega (arith, h.bounded);
            },
          )
      | inr same ↦
          let zero_removed : r.1 ≡ 0 = ground arith in
          rw (same) (
            omega (arith, swept.counted, swept.live_only, h.counted),
            record {
              exact = swept.exact;
              has_shards = omega (arith, swept.same_length, h.has_shards);
              counted = omega (arith, swept.counted, h.counted);
              bounded = h.bounded;
            },
          )
    ]
