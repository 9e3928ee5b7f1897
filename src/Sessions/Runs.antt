-- ===== src/Sessions/Runs.antt =====
-- Runs of `SessionStore` in src/app/session.rs: sequences of its operations from a new store. The
-- clock may be read as any time at each step.
use rustrest.Prelude.{
  ℕ, ◌^◌, ◌<◌, refl, inl, inr, arith, Bool-cases, Option-cases, Result-cases, All-replicate, remove,
  list_eq, ℕ_eq,
}
use rustrest.Text.{Bytes}
use rustrest.Sessions.{is_expired}
use rustrest.Sessions.Shards.{IsExact}
use rustrest.Sessions.Data.{SessionDataLimits, validate_session_value}
use rustrest.Sessions.Store.{
  SessionStore, Platform, empty_shard, new_store, session_of, renew_session, resume, create,
}
use rustrest.Sessions.Values.{
  get, admit_for_set, set_value, remove_value, clear, rotate, record_rotation, take_rotation,
  regenerate, live_len,
}
use rustrest.Sessions.Consistent.{
  IsConsistent, empty-IsExact, drop_session-IsConsistent, renew_session-IsConsistent,
  resume-IsConsistent, is_expired-some,
}
use rustrest.Sessions.Sweeps.{create-IsConsistent}
use rustrest.Sessions.Live.{live_len-counts}
use rustrest.Sessions.Requests.{
  get-IsConsistent, write_data-IsConsistent, write_value-IsConsistent, clear-IsConsistent,
  rotate-IsConsistent,
}

module _ (p : Platform) (max_sessions : ℕ) where
  -- The calls that the program makes on the store.
  pub data Step : SessionStore → SessionStore → Type 0 where
    resumes :
        (now : ℕ) (id : Bytes) (idle_timeout : ℕ) (s : SessionStore)
        → Step s (resume p now id idle_timeout s).0
    gets :
        (now : ℕ) (id key : Bytes) (idle_timeout : ℕ) (s : SessionStore)
        → Step s (get p now id key idle_timeout s).0
    sets :
        (now now' now'' : ℕ) (id key value : Bytes) (idle_timeout : ℕ) (limits : SessionDataLimits)
        (s : SessionStore)
        → Step s (set_value p now now' now'' id key value idle_timeout max_sessions limits s).0
    removes :
        (now : ℕ) (id key : Bytes) (idle_timeout : ℕ) (s : SessionStore)
        → Step s (remove_value p now id key idle_timeout s)
    clears : (id : Bytes) (s : SessionStore) → Step s (clear p id s)
    regenerates :
        (now now' now'' : ℕ) (id new : Bytes) (idle_timeout : ℕ) (s : SessionStore)
        → Step s (regenerate p now now' now'' id new idle_timeout max_sessions s).0
    takes_rotation : (old : Bytes) (s : SessionStore) → Step s (take_rotation p old s).0
    counts : (now : ℕ) (s : SessionStore) → Step s (live_len now s).0

  -- The stores that calls lead to from a new one.
  pub data Reach : SessionStore → Type 0 where
    start : (now : ℕ) → Reach (new_store now)
    next : (s t : SessionStore) → Reach s → Step s t → Reach t

  module _ (small : max_sessions < 2 ^ 64) where
    new_store-IsConsistent : (now : ℕ) → IsConsistent max_sessions (new_store now)
    unfolding new_store
    new_store-IsConsistent now = record {
      exact = All-replicate IsExact 16 empty_shard empty-IsExact;
      has_shards = omega arith;
      counted = refl;
      bounded = omega arith;
    }

    module _ (s : SessionStore) (h : IsConsistent max_sessions s) where
      pub admit_for_set-IsConsistent :
          (now now' : ℕ) (id : Bytes) (idle_timeout : ℕ)
          → IsConsistent max_sessions (admit_for_set p now now' id idle_timeout max_sessions s).0
      unfolding admit_for_set
      admit_for_set-IsConsistent now now' id idle_timeout =
          let resumed = resume p now id idle_timeout s in
          let h' = resume-IsConsistent p max_sessions small s h now id idle_timeout in
          elim (Bool-cases resumed.1) [
            | inl there ↦ rw (there) h'
            | inr gone ↦
                rw (gone)
                  (create-IsConsistent p max_sessions small now' id idle_timeout resumed.0 h')
          ]

      set_value-IsConsistent :
          (now now' now'' : ℕ) (id key value : Bytes) (idle_timeout : ℕ)
          (limits : SessionDataLimits)
          → IsConsistent max_sessions
              (set_value p now now' now'' id key value idle_timeout max_sessions limits s).0
      unfolding set_value
      set_value-IsConsistent now now' now'' id key value idle_timeout limits =
          let admitted = admit_for_set p now now' id idle_timeout max_sessions s in
          let h' = admit_for_set-IsConsistent now now' id idle_timeout in
          elim (Result-cases (validate_session_value key value limits)) [
            | inr (error, refused) ↦ rw (set_value, refused) h
            | inl (u, valid) ↦ elim (Bool-cases admitted.1) [
              | inl there ↦
                  rw (set_value, valid, there)
                    (write_value-IsConsistent p max_sessions small admitted.0 h' now'' id key value
                      limits)
              | inr full ↦ rw (set_value, valid, full) h'
            ]
          ]

      remove_value-IsConsistent :
          (now : ℕ) (id key : Bytes) (idle_timeout : ℕ)
          → IsConsistent max_sessions (remove_value p now id key idle_timeout s)
      unfolding remove_value
      remove_value-IsConsistent now id key idle_timeout =
          let renewed = renew_session p now id idle_timeout s in
          let h' = renew_session-IsConsistent p max_sessions small s h now id idle_timeout in
          elim (Bool-cases (is_expired now (session_of p id s))) [
            | inl old ↦
                let (entry, found) =
                  is_expired-some p max_sessions small now (session_of p id s) old in
                rw (old) (drop_session-IsConsistent p max_sessions small s h id entry found)
            | inr fresh ↦ elim (Bool-cases renewed.1) [
              | inr gone ↦ rw (fresh, gone) h'
              | inl there ↦ elim (Option-cases (session_of p id renewed.0)) [
                | inl missing ↦ rw (fresh, there, missing) h'
                | inr (entry, found) ↦
                    rw (fresh, there, found)
                      (write_data-IsConsistent p max_sessions small renewed.0 h' id entry
                        (remove key entry.data_of) found)
              ]
            ]
          ]

      record_rotation-IsConsistent :
          (now : ℕ) (old new : Bytes)
          → IsConsistent max_sessions (record_rotation p now old new max_sessions s)
      unfolding record_rotation
      record_rotation-IsConsistent now old new = record {
        exact = h.exact;
        has_shards = h.has_shards;
        counted = h.counted;
        bounded = h.bounded;
      }

      take_rotation-IsConsistent :
          (old : Bytes) → IsConsistent max_sessions (take_rotation p old s).0
      unfolding take_rotation
      take_rotation-IsConsistent old = record {
        exact = h.exact;
        has_shards = h.has_shards;
        counted = h.counted;
        bounded = h.bounded;
      }

    regenerate-IsConsistent :
        (now now' now'' : ℕ) (id new : Bytes) (idle_timeout : ℕ) (s : SessionStore)
        → IsConsistent max_sessions s
        → IsConsistent max_sessions
            (regenerate p now now' now'' id new idle_timeout max_sessions s).0
    unfolding regenerate
    regenerate-IsConsistent now now' now'' id new idle_timeout s h =
        let rotated = rotate p now id new idle_timeout s in
        let h1 = rotate-IsConsistent p max_sessions small s h now id new idle_timeout in
        let created = create p now' new idle_timeout max_sessions rotated.0 in
        let h2 = create-IsConsistent p max_sessions small now' new idle_timeout rotated.0 h1 in
        elim (Bool-cases rotated.1) [
          | inl moved ↦ rw (moved) (record_rotation-IsConsistent rotated.0 h1 now'' id new)
          | inr gone ↦ elim (Bool-cases created.1) [
            | inl made ↦ rw (gone, made) (record_rotation-IsConsistent created.0 h2 now'' id new)
            | inr full ↦ rw (gone, full) h2
          ]
        ]

    pub Step-IsConsistent :
        (s t : SessionStore) → Step s t → IsConsistent max_sessions s → IsConsistent max_sessions t
    Step-IsConsistent _ _ (resumes now id idle_timeout s) h =
        resume-IsConsistent p max_sessions small s h now id idle_timeout
    Step-IsConsistent _ _ (gets now id key idle_timeout s) h =
        get-IsConsistent p max_sessions small s h now id key idle_timeout
    Step-IsConsistent _ _ (sets now now' now'' id key value idle_timeout limits s) h =
        set_value-IsConsistent s h now now' now'' id key value idle_timeout limits
    Step-IsConsistent _ _ (removes now id key idle_timeout s) h =
        remove_value-IsConsistent s h now id key idle_timeout
    Step-IsConsistent _ _ (clears id s) h = clear-IsConsistent p max_sessions small s h id
    Step-IsConsistent _ _ (regenerates now now' now'' id new idle_timeout s) h =
        regenerate-IsConsistent now now' now'' id new idle_timeout s h
    Step-IsConsistent _ _ (takes_rotation old s) h = take_rotation-IsConsistent s h old
    Step-IsConsistent _ _ (counts now s) h = (live_len-counts max_sessions s now small h).1

    -- Where `max_sessions` is below 2^64: in every store that calls lead to from a new one, each shard's expiry index names exactly the
    -- sessions of the shard at their times, the counter is the number of sessions, and there are at
    -- most `max_sessions` of them.
    pub Reach-IsConsistent : (s : SessionStore) → Reach s → IsConsistent max_sessions s
    Reach-IsConsistent _ (start now) = new_store-IsConsistent now
    Reach-IsConsistent t (next s _ reached step) =
        Step-IsConsistent s t step (Reach-IsConsistent s reached)
