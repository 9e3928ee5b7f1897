-- ===== src/Sessions/Full.antt =====
-- When `create` in src/app/session.rs refuses a session.
use rustrest.Prelude.{
  ℕ, zero, suc, ◌+◌, ◌-◌, ◌%◌, ◌^◌, ◌≤◌, ◌<◌, ◌≡◌, refl, sym, ap, ◌∙◌, inl, inr, false, List, [],
  ◌∷◌, arith, ltb, leb, nat_eq, length, All, Bool-cases, total, get_or, set, All-get_or,
}
use native.Mathlib.Nat.{add-mod-mod, mod-add-mod}
use rustrest.Text.{Bytes}
use rustrest.Sessions.{SessionEntry, SessionShard, ExpiryKey, remove_expired_entries}
use rustrest.Sessions.Shards.{IsExact}
use rustrest.Sessions.Expiry.{Stops, Stops-live, remove_expired_entries_ind, count-is_live}
use rustrest.Sessions.Store.{
  SessionStore, Platform, sweep_loop, sweep_index, cleanup_expired_batch, cleanup_if_needed,
  empty_shard, make_room, create, drop_if_expired, renew_session,
}
use rustrest.Sessions.Consistent.{
  IsConsistent, size, empty-IsExact, drop_if_expired-IsConsistent, renew_session-IsConsistent,
}
use rustrest.Sessions.Sweeps.{sweep_loop-SweepKeeps}
use rustrest.Sessions.Live.{live_in}

-- Every session of the shard is live.
abbrev AllLive : ℕ → SessionShard → Type 0
AllLive now shard = All (λ c. now < c.1.expires_at) shard.entries

-- A sweep that had room and removed nothing changed nothing, and found live sessions only.
swept_none :
    (now maximum : ℕ) (shard : SessionShard)
    → IsExact shard
    → 0 < maximum
    → (remove_expired_entries now maximum shard).1 ≡ 0
    → ((remove_expired_entries now maximum shard).0 ≡ shard) × AllLive now shard
swept_none now maximum shard h =
    remove_expired_entries_ind now
      (λ maximum shard r. 0 < maximum → r.1 ≡ 0 → (r.0 ≡ shard) × AllLive now shard)
      (λ maximum keys entries exact stops room none_left. (
        refl,
        Stops-live now (suc (length entries)) keys entries exact
            (later maximum keys entries room stops) (omega arith),
      ))
      (λ maximum key keys entries r exact some_left due ih room none_left. absurd (omega arith))
      maximum shard h
  where
    later :
        (maximum : ℕ) (keys : List ExpiryKey) (entries : List (Bytes × SessionEntry))
        → 0 < maximum
        → Stops now maximum keys
        → Stops now (suc (length entries)) keys
    later maximum [] entries room stops = tt
    later maximum (key ∷ keys) entries room stops = ground arith

-- Steps round a circle reach every place.
reaches : (first n j : ℕ) → j < n → (v : ℕ) × (v < n) × ((first + v) % n ≡ j)
reaches first n j inside =
    let s = n - first % n in
    let below : first % n < n = grind arith in
    let around : (first % n + (j + s)) % n ≡ (j + n) % n = ap (λ (k : ℕ). k % n) (omega arith) in
    (
      (j + s) % n,
      grind arith,
      add-mod-mod first (j + s) n ∙ sym (mod-add-mod first n (j + s)) ∙ around ∙ grind arith,
    )

set-get_or :
    (shards : List SessionShard) (i : ℕ) → set shards i (get_or shards i empty_shard) ≡ shards
set-get_or [] i = refl
set-get_or (shard ∷ shards) zero = refl
set-get_or (shard ∷ shards) (suc i) =
    ap (λ (rest : List SessionShard). shard ∷ rest) (set-get_or shards i)

module _ (now first : ℕ) where
  sweep_loop-grows :
      (left visited remaining : ℕ) (shards : List SessionShard) (removed : ℕ)
      → removed ≤ (sweep_loop left now first visited remaining shards removed).removed
  unfolding sweep_loop
  sweep_loop-grows zero visited remaining shards removed = omega arith
  sweep_loop-grows (suc left) visited remaining shards removed =
      let i = sweep_index first visited shards in
      let r = remove_expired_entries now remaining (get_or shards i empty_shard) in
      let shards' = set shards i r.0 in
      let rest = sweep_loop-grows left (visited + 1) (remaining - r.1) shards' (removed + r.1) in
      elim (Bool-cases (nat_eq remaining 0)) [
        | inl none_left ↦ rw (none_left) (omega arith)
        | inr some_left ↦ elim (Bool-cases (nat_eq (remaining - r.1) 0)) [
          | inl done ↦ rw (some_left, done) (omega arith)
          | inr more ↦ rw (some_left, more) (omega arith)
        ]
      ]

  -- The first round of a loop that removes nothing.
  nothing_here :
      (left visited remaining : ℕ) (shards : List SessionShard) (removed : ℕ)
      → All IsExact shards
      → 0 < remaining
      → (sweep_loop (suc left) now first visited remaining shards removed).removed ≡ removed
      → let i = sweep_index first visited shards in
        let shard = get_or shards i empty_shard in
        let r = remove_expired_entries now remaining shard in
        (set shards i r.0 ≡ shards)
        × (r.1 ≡ 0)
        × (nat_eq remaining 0 ≡ false)
        × (nat_eq (remaining - r.1) 0 ≡ false)
        × AllLive now shard
  unfolding sweep_loop
  nothing_here left visited remaining shards removed exact room same =
      let i = sweep_index first visited shards in
      let shard = get_or shards i empty_shard in
      let r = remove_expired_entries now remaining shard in
      let shards' = set shards i r.0 in
      let grows = sweep_loop-grows left (visited + 1) (remaining - r.1) shards' (removed + r.1) in
      let some_left : nat_eq remaining 0 ≡ false = ground arith in
      let none_here : r.1 ≡ 0 = elim (Bool-cases (nat_eq (remaining - r.1) 0)) [
        | inl done ↦ let same' = rw (some_left, done) at same in omega arith
        | inr more ↦ let same' = rw (some_left, more) at same in omega arith
      ] in
      let shard-IsExact = All-get_or IsExact shards i empty_shard empty-IsExact exact in
      let (unchanged, live) = swept_none now remaining shard shard-IsExact room none_here in
      (rw (unchanged) (set-get_or shards i), none_here, some_left, ground arith, live)

  -- A loop that removes nothing finds live sessions in every shard that it visits.
  sweep_loop-none :
      (left visited remaining : ℕ) (shards : List SessionShard) (removed : ℕ)
      → All IsExact shards
      → 0 < remaining
      → (sweep_loop left now first visited remaining shards removed).removed ≡ removed
      → (v : ℕ) → visited ≤ v
      → v < visited + left
      → AllLive now (get_or shards (sweep_index first v shards) empty_shard)
  unfolding sweep_loop
  sweep_loop-none zero visited remaining shards removed exact room same v from to =
      absurd (omega arith)
  sweep_loop-none (suc left) visited remaining shards removed exact room same v from to =
      let (e, none_here, some_left, more, live) =
        nothing_here left visited remaining shards removed exact room same in
      let same' = rw (some_left, more, e) at same in
      elim (Bool-cases (nat_eq v visited)) [
        | inl here ↦ let here' : v ≡ visited = ground arith in rw (here') live
        | inr further ↦
            sweep_loop-none left (visited + 1) _ shards _ exact (omega arith) (same' ∙ omega arith)
              v (ground arith) (omega arith)
      ]

  -- It leaves the shards as they were.
  sweep_loop-none_same :
      (left visited remaining : ℕ) (shards : List SessionShard) (removed : ℕ)
      → All IsExact shards
      → 0 < remaining
      → (sweep_loop left now first visited remaining shards removed).removed ≡ removed
      → (sweep_loop left now first visited remaining shards removed).shards ≡ shards
  unfolding sweep_loop
  sweep_loop-none_same zero visited remaining shards removed exact room same = refl
  sweep_loop-none_same (suc left) visited remaining shards removed exact room same =
      let i = sweep_index first visited shards in
      let (e, none_here, some_left, more, live) =
        nothing_here left visited remaining shards removed exact room same in
      let same' = rw (some_left, more, e) at same in
      rw (some_left, more, e)
        (sweep_loop-none_same left (visited + 1) _ shards _ exact (omega arith)
          (same' ∙ omega arith))

All-each {ℓ} :
    {A : Type 0} (P : A → Type ℓ) (d : A) (xs : List A)
    → ((j : ℕ) → j < length xs → P (get_or xs j d))
    → All P xs
All-each P d [] h = tt
All-each P d (x ∷ xs) h = (h 0 (omega arith), All-each P d xs (λ j inside. h (suc j) (omega arith)))

total-live :
    (now : ℕ) (shards : List SessionShard)
    → All (AllLive now) shards
    → total (live_in now) shards ≡ total size shards
total-live now [] h = refl
total-live now (shard ∷ shards) h =
    omega (arith, count-is_live now shard.entries h.0, total-live now shards h.1)

module _ (max_sessions : ℕ) (small : max_sessions < 2 ^ 64) (now : ℕ) where
  -- A sweep that leaves the store full found live sessions only.
  cleanup_expired_batch-full :
      (latest : ℕ) (store : SessionStore)
      → IsConsistent max_sessions store
      → max_sessions ≤ (cleanup_expired_batch latest now store).entries
      → total (live_in now) (cleanup_expired_batch latest now store).shards ≡ max_sessions
  unfolding cleanup_expired_batch
  cleanup_expired_batch-full latest store h full =
      let n = length store.shards in
      let first = store.cleanup_shard in
      let sweep = sweep_loop n now first 0 256 store.shards 0 in
      let keeps = sweep_loop-SweepKeeps n now first 0 256 store.shards 0 h.exact h.has_shards in
      let nothing : sweep.removed ≡ 0 = omega (arith, keeps.counted, h.counted, h.bounded) in
      let same =
        sweep_loop-none_same now first n 0 256 store.shards 0 h.exact (omega arith) nothing in
      let live : All (AllLive now) store.shards =
        All-each (AllLive now) empty_shard store.shards (λ j inside.
          let (v, below, there) = reaches first n j inside in
          let found =
            sweep_loop-none now first n 0 256 store.shards 0 h.exact (omega arith) nothing v
              (omega arith) (omega arith) in
          rw (there) at found) in
      rw (same) (total-live now store.shards live ∙ omega (arith, h.counted, h.bounded))

  make_room-full :
      (p : Platform) (store : SessionStore)
      → IsConsistent max_sessions store
      → max_sessions ≤ (make_room p now max_sessions store).entries
      → total (live_in now) (make_room p now max_sessions store).shards ≡ max_sessions
  unfolding make_room cleanup_if_needed
  make_room-full p store h = elim (Bool-cases (ltb now store.next_cleanup)) [
    | inl early ↦ elim (Bool-cases (leb max_sessions store.entries)) [
      | inl full ↦ rw (early, full) (cleanup_expired_batch-full p.latest store h)
      | inr room ↦ rw (early, room) (λ full. absurd (ground arith))
    ]
    | inr due ↦
        elim (Bool-cases (leb max_sessions (cleanup_expired_batch p.latest now store).entries)) [
          | inl full ↦ rw (due, full) (cleanup_expired_batch-full p.latest store h)
          | inr room ↦ rw (due, room) (cleanup_expired_batch-full p.latest store h)
        ]
  ]

-- If `create` refuses a session in a consistent store with a capacity below 2^64, then `max_sessions` sessions that have not
-- expired are stored.
pub create-refuses :
    (p : Platform) (max_sessions : ℕ) (store : SessionStore) (now : ℕ) (id : Bytes)
    (idle_timeout : ℕ)
    → max_sessions < 2 ^ 64
    → IsConsistent max_sessions store
    → (create p now id idle_timeout max_sessions store).1 ≡ false
    → total (live_in now) (create p now id idle_timeout max_sessions store).0.shards ≡ max_sessions
unfolding create
create-refuses p max_sessions store now id idle_timeout small h =
    let dropped = drop_if_expired p now id store in
    let h1 = drop_if_expired-IsConsistent p max_sessions small store h now id in
    let renewed = renew_session p now id idle_timeout dropped in
    let h2 = renew_session-IsConsistent p max_sessions small dropped h1 now id idle_timeout in
    let cleaned = make_room p now max_sessions renewed.0 in
    elim (Bool-cases renewed.1) [
      | inl there ↦ rw (there) (λ refused. cc)
      | inr new ↦ elim (Bool-cases (leb max_sessions cleaned.entries)) [
        | inl full ↦
            rw (new, full)
              (λ refused. make_room-full max_sessions small now p renewed.0 h2 (ground arith))
        | inr room ↦ rw (new, room) (λ refused. cc)
      ]
    ]
