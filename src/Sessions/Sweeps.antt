-- ===== src/Sessions/Sweeps.antt =====
-- The sweep over all shards and the admission of sessions in src/app/session.rs: what
-- `cleanup_expired_batch`, `create` and `live_len` keep.
use rustrest.Prelude.{
  ℕ, zero, suc, ◌+◌, ◌-◌, ◌^◌, ◌<◌, ◌≡◌, refl, ap, ◌∙◌, inl, inr, not, ◌&&◌, List, [], arith, ltb,
  leb, nat_eq, length, to_ℕ, All, Bool-cases, get_or, set, sub_usize, add_usize, total, total-set,
  length-set, All-set, All-get_or,
}
use rustrest.Text.{Bytes}
use rustrest.Sessions.{SessionEntry, SessionShard, insert_entry, remove_expired_entries, expiry}
use rustrest.Sessions.Shards.{IsExact, insert_entry-IsExact}
use rustrest.Sessions.Expiry.{remove_expired_entries-Swept}
use rustrest.Sessions.Store.{
  SessionStore, Platform, Sweep, sweep_loop, sweep_index, cleanup_expired_batch, cleanup_if_needed,
  empty_shard, shard_of, make_room, admit_session, create, drop_if_expired, renew_session,
}
use rustrest.Sessions.Consistent.{
  IsConsistent, size, empty-IsExact, size-insert_entry, put-IsConsistent, shard_of-IsExact,
  drop_if_expired-IsConsistent, renew_session-IsConsistent,
}

-- What the loop keeps of the shards.
pub record SweepKeeps (shards : List SessionShard) (removed : ℕ) (sweep : Sweep) : Type 0 where
  pub exact : All IsExact sweep.shards
  pub same_length : length sweep.shards ≡ length shards
  pub counted : total size sweep.shards + sweep.removed ≡ total size shards + removed

pub sweep_loop-SweepKeeps :
    (left now first visited remaining : ℕ) (shards : List SessionShard) (removed : ℕ)
    → All IsExact shards
    → 0 < length shards
    → SweepKeeps shards removed (sweep_loop left now first visited remaining shards removed)
unfolding sweep_loop
sweep_loop-SweepKeeps zero now first visited remaining shards removed exact pos = record {
  exact = exact;
  same_length = refl;
  counted = refl;
}
sweep_loop-SweepKeeps (suc left) now first visited remaining shards removed exact pos =
    let i = sweep_index first visited shards in
    let shard = get_or shards i empty_shard in
    let swept =
      remove_expired_entries-Swept now remaining shard
        (All-get_or IsExact shards i empty_shard empty-IsExact exact) in
    let r = remove_expired_entries now remaining shard in
    let shards' = set shards i r.0 in
    let exact' : All IsExact shards' = All-set IsExact shards i r.0 swept.exact exact in
    let longer : length shards' ≡ length shards = length-set shards i r.0 in
    let inside : i < length shards = grind arith in
    let sums = total-set size shards i r.0 empty_shard inside in
    let counted' : total size shards' + (removed + r.1) ≡ total size shards + removed =
      omega (arith, swept.counted, sums) in
    elim (Bool-cases (nat_eq remaining 0)) [
      | inl none_left ↦
          rw (none_left) (record { exact = exact; same_length = refl; counted = refl })
      | inr some_left ↦ elim (Bool-cases (nat_eq (remaining - r.1) 0)) [
        | inl done ↦
            rw (some_left, done)
              (record { exact = exact'; same_length = longer; counted = counted' })
        | inr more ↦
            let rest =
              sweep_loop-SweepKeeps left now first (visited + 1) (remaining - r.1) shards'
                (removed + r.1) exact' (omega arith) in
            rw (some_left, more)
              (record {
                exact = rest.exact;
                same_length = rest.same_length ∙ longer;
                counted = rest.counted ∙ counted';
              })
      ]
    ]

module _ (p : Platform) (max_sessions : ℕ) (small : max_sessions < 2 ^ 64) where
  module _ (store : SessionStore) (h : IsConsistent max_sessions store) where
    pub cleanup_expired_batch-IsConsistent :
        (latest now : ℕ) → IsConsistent max_sessions (cleanup_expired_batch latest now store)
    unfolding cleanup_expired_batch
    cleanup_expired_batch-IsConsistent latest now =
        let keeps =
          sweep_loop-SweepKeeps (length store.shards) now store.cleanup_shard 0 256 store.shards 0
            h.exact h.has_shards in
        let sweep = sweep_loop (length store.shards) now store.cleanup_shard 0 256 store.shards 0 in
        let less : sub_usize store.entries sweep.removed + sweep.removed ≡ store.entries =
          omega (arith, keeps.counted, h.counted, h.bounded) in
        record {
          exact = keeps.exact;
          has_shards = omega (arith, keeps.same_length, h.has_shards);
          counted = omega (arith, keeps.counted, h.counted);
          bounded = omega (arith, h.bounded);
        }

    admit_session-IsConsistent :
        (now : ℕ) (id : Bytes) (idle_timeout : ℕ)
        → store.entries < max_sessions
        → IsConsistent max_sessions (admit_session p now id idle_timeout store)
    unfolding admit_session
    admit_session-IsConsistent now id idle_timeout room =
        let entry : SessionEntry = record {
          data_of = [];
          expires_at = expiry p.latest now idle_timeout;
        } in
        let shard = shard_of p id store in
        let exact =
          insert_entry-IsExact shard (shard_of-IsExact p max_sessions small store h id) id entry in
        let grown = size-insert_entry id shard entry in
        let more : add_usize store.entries 1 ≡ store.entries + 1 = omega arith in
        elim (Bool-cases (insert_entry id entry shard).1) [
          | inl new ↦ rw (new) (
              put-IsConsistent p max_sessions small store h id (insert_entry id entry shard).0
                (add_usize store.entries 1) exact (omega (arith, ap to_ℕ new)) (omega arith))
          | inr old ↦ rw (old) (
              put-IsConsistent p max_sessions small store h id (insert_entry id entry shard).0
                store.entries exact (omega (arith, ap to_ℕ old)) h.bounded)
        ]

  pub cleanup_if_needed-IsConsistent :
      (latest now : ℕ) (store : SessionStore)
      → IsConsistent max_sessions store
      → IsConsistent max_sessions (cleanup_if_needed latest now store).0
  unfolding cleanup_if_needed
  cleanup_if_needed-IsConsistent latest now store h =
      elim (Bool-cases (ltb now store.next_cleanup)) [
        | inl early ↦ rw (early) h
        | inr due ↦ rw (due) (cleanup_expired_batch-IsConsistent store h latest now)
      ]

  pub make_room-IsConsistent :
      (now : ℕ) (store : SessionStore)
      → IsConsistent max_sessions store
      → IsConsistent max_sessions (make_room p now max_sessions store)
  unfolding make_room
  make_room-IsConsistent now store h =
      let cleaned = cleanup_if_needed p.latest now store in
      let h' = cleanup_if_needed-IsConsistent p.latest now store h in
      elim (Bool-cases (leb max_sessions cleaned.0.entries && not cleaned.1)) [
        | inl full ↦ rw (full) (cleanup_expired_batch-IsConsistent cleaned.0 h' p.latest now)
        | inr room ↦ rw (room) h'
      ]

  pub create-IsConsistent :
      (now : ℕ) (id : Bytes) (idle_timeout : ℕ) (store : SessionStore)
      → IsConsistent max_sessions store
      → IsConsistent max_sessions (create p now id idle_timeout max_sessions store).0
  unfolding create
  create-IsConsistent now id idle_timeout store h =
      let dropped = drop_if_expired p now id store in
      let h1 = drop_if_expired-IsConsistent p max_sessions small store h now id in
      let renewed = renew_session p now id idle_timeout dropped in
      let h2 = renew_session-IsConsistent p max_sessions small dropped h1 now id idle_timeout in
      let cleaned = make_room p now max_sessions renewed.0 in
      let h3 = make_room-IsConsistent now renewed.0 h2 in
      elim (Bool-cases renewed.1) [
        | inl there ↦ rw (there) h2
        | inr new ↦ elim (Bool-cases (leb max_sessions cleaned.entries)) [
          | inl full ↦ rw (new, full) h3
          | inr room ↦
              rw (new, room)
                (admit_session-IsConsistent cleaned h3 now id idle_timeout (ground arith))
        ]
      ]
