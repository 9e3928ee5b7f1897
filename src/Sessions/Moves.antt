-- ===== src/Sessions/Moves.antt =====
-- What a session's data goes through in src/app/session.rs: `rotate` moves it, and a `set` that is
-- refused leaves it.
use rustrest.Prelude.{
  ℕ, ◌<◌, ◌≡◌, ◌≢◌, refl, ◌∙◌, inl, inr, true, false, none, some, arith, leb, length, Bool-cases,
  err, Result-cases, ℕ_eq, list_eq, list_beq_iff, lookup-insert, length-set,
}
use rustrest.Text.{Bytes}
use rustrest.Sessions.{SessionEntry, insert_entry, remove_entry, expiry, is_expired}
use rustrest.Sessions.Data.{SessionDataError, SessionDataLimits, validate_session_value, check_data}
use rustrest.Sessions.Store.{
  SessionStore, Platform, shard_of, shard_index, session_of, without, insert_session, resume,
}
use rustrest.Sessions.Values.{write_value, admit_for_set, set_value, move_entry, rotate}
use rustrest.Sessions.Kept.{session_of-put_same, session_of-put_ne, lookup-insert_entry}
use rustrest.Sessions.Reads.{session_of-without, session_of-renew_session}

module _ (p : Platform) where
  module _ (id : Bytes) (entry : SessionEntry) (store : SessionStore)
      (pos : 0 < length store.shards) where
    session_of-insert_session : session_of p id (insert_session p id entry store).0 ≡ some entry
    unfolding insert_entry
    session_of-insert_session =
        let shard = shard_of p id store in
        session_of-put_same p id (insert_entry id entry shard).0 store pos
        ∙ ground (arith, lookup-insert id id entry shard.entries, list_beq_iff id id)

    session_of-insert_session_ne :
        (other : Bytes)
        → other ≢ id
        → session_of p other (insert_session p id entry store).0 ≡ session_of p other store
    session_of-insert_session_ne other n =
        let shard = shard_of p id store in
        session_of-put_ne p id (insert_entry id entry shard).0 store pos other
          (lookup-insert_entry p id other n entry shard)

  move_entry-moves :
      (now : ℕ) (old new : Bytes) (idle_timeout : ℕ) (entry : SessionEntry) (store : SessionStore)
      → 0 < length store.shards
      → old ≢ new
      → now < entry.expires_at
      → session_of p old store ≡ none
      → let moved = move_entry p now new idle_timeout entry store in
        (moved.1 ≡ true)
        × (session_of p new moved.0
            ≡ some (record entry { expires_at = expiry p.latest now idle_timeout }))
        × (session_of p old moved.0 ≡ none)
  unfolding shard_of shard_index
  move_entry-moves now old new idle_timeout entry store pos n live gone =
      let entry' : SessionEntry = record entry { expires_at = expiry p.latest now idle_timeout } in
      let fresh : leb entry.expires_at now ≡ false = ground arith in
      let here = session_of-insert_session new entry' store pos in
      let there = session_of-insert_session_ne new entry' store pos old n ∙ gone in
      elim (Bool-cases (insert_session p new entry' store).1) [
        | inl added ↦ rw (fresh, added) (refl, here, there)
        | inr present ↦ rw (fresh, present) (refl, here, there)
      ]

  -- Where a session of a store with shards has not expired, `rotate` to another identifier succeeds: the new identifier has the data of
  -- the session, with a new time, and the old one has no session.
  pub rotate-moves :
      (now : ℕ) (old new : Bytes) (idle_timeout : ℕ) (entry : SessionEntry) (store : SessionStore)
      → 0 < length store.shards
      → old ≢ new
      → session_of p old store ≡ some entry
      → now < entry.expires_at
      → let rotated = rotate p now old new idle_timeout store in
        (rotated.1 ≡ true)
        × (session_of p new rotated.0
            ≡ some (record entry { expires_at = expiry p.latest now idle_timeout }))
        × (session_of p old rotated.0 ≡ none)
  unfolding rotate
  rotate-moves now old new idle_timeout entry store pos n found live =
      let pos' : 0 < length (without p old store).shards = omega (
        arith,
        length-set store.shards (shard_index p old store)
            (remove_entry old (shard_of p old store)).0,
      ) in
      rw (rotate, found)
        (move_entry-moves now old new idle_timeout entry (without p old store) pos' n live
          (session_of-without p old store pos))

  resume-live :
      (now : ℕ) (id : Bytes) (idle_timeout : ℕ) (store : SessionStore) (entry : SessionEntry)
      → 0 < length store.shards
      → session_of p id store ≡ some entry
      → now < entry.expires_at
      → ((resume p now id idle_timeout store).1 ≡ true)
        × (session_of p id (resume p now id idle_timeout store).0
            ≡ some (record entry { expires_at = expiry p.latest now idle_timeout }))
  unfolding resume
  resume-live now id idle_timeout store entry pos found live =
      let fresh : is_expired now (session_of p id store) ≡ false = rw (found) (ground arith) in
      rw (fresh) (session_of-renew_session p id store pos now idle_timeout entry found)

  pub admit_for_set-live :
      (now now' : ℕ) (id : Bytes) (idle_timeout max_sessions : ℕ) (store : SessionStore)
      (entry : SessionEntry)
      → 0 < length store.shards
      → session_of p id store ≡ some entry
      → now < entry.expires_at
      → let admitted = admit_for_set p now now' id idle_timeout max_sessions store in
        (admitted.1 ≡ true)
        × (session_of p id admitted.0
            ≡ some (record entry { expires_at = expiry p.latest now idle_timeout }))
  unfolding admit_for_set
  admit_for_set-live now now' id idle_timeout max_sessions store entry pos found live =
      let (there, again) = resume-live now id idle_timeout store entry pos found live in
      rw (there) (refl, again)

  write_value-refused :
      (now : ℕ) (id key value : Bytes) (limits : SessionDataLimits) (store : SessionStore)
      (entry : SessionEntry) (error : SessionDataError)
      → session_of p id store ≡ some entry
      → now < entry.expires_at
      → (write_value p now id key value limits store).1 ≡ err error
      → session_of p id (write_value p now id key value limits store).0 ≡ some entry
  unfolding write_value
  write_value-refused now id key value limits store entry error found live =
      let fresh : is_expired now (session_of p id store) ≡ false = rw (found) (ground arith) in
      elim (Result-cases (check_data key value limits entry.data_of)) [
        | inr (e, refused) ↦ rw (fresh, found, refused) (λ why. found)
        | inl (u, checked) ↦ rw (fresh, found, checked) (λ why. cc)
      ]

  -- Where a session of a store with shards has not expired, and its renewal has not when the value is written, a `set` that is refused leaves the
  -- data of the session as it was.
  pub set_value-refused :
      (now now' now'' : ℕ) (id key value : Bytes) (idle_timeout max_sessions : ℕ)
      (limits : SessionDataLimits) (store : SessionStore) (entry : SessionEntry)
      (error : SessionDataError)
      → 0 < length store.shards
      → session_of p id store ≡ some entry
      → now < entry.expires_at
      → now'' < expiry p.latest now idle_timeout
      → let after =
          set_value p now now' now'' id key value idle_timeout max_sessions limits store in
        after.1 ≡ err error
        → (kept : SessionEntry) × (session_of p id after.0 ≡ some kept)
          × (kept.data_of ≡ entry.data_of)
  unfolding set_value
  set_value-refused now now' now'' id key value idle_timeout max_sessions limits store entry error
        pos found live still =
      let entry' : SessionEntry = record entry { expires_at = expiry p.latest now idle_timeout } in
      let admitted = admit_for_set p now now' id idle_timeout max_sessions store in
      let (there, again) =
        admit_for_set-live now now' id idle_timeout max_sessions store entry pos found live in
      elim (Result-cases (validate_session_value key value limits)) [
        | inr (e, refused) ↦ rw (set_value, refused) (λ why. (entry, found, refl))
        | inl (u, valid) ↦
            rw (set_value, valid, there)
              (λ why. (
                entry',
                write_value-refused now'' id key value limits admitted.0 entry' error again still
                    why,
                refl,
              ))
      ]
