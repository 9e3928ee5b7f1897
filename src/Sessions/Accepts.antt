-- ===== src/Sessions/Accepts.antt =====
-- When `SessionStore::set` of src/app/session.rs writes a value.
use rustrest.Prelude.{
  ℕ, ◌+◌, ◌^◌, ◌≤◌, ◌<◌, ◌≡◌, refl, sym, ap, ◌∙◌, inl, inr, Bool, true, false, not, ◌&&◌, List,
  some, arith, ltb, leb, is_some, is_empty, length, total, Bool-cases, Result-cases, is_ok,
  checked_add, ℕ_eq, list_eq,
}
use rustrest.Text.{Bytes}
use rustrest.Sessions.{SessionEntry, expiry, is_expired}
use rustrest.Sessions.Data.{SessionDataLimits, at_most, validate_session_value, check_data}
use rustrest.Sessions.Store.{SessionStore, Platform, session_of}
use rustrest.Sessions.Values.{write_value, admit_for_set, set_value}
use rustrest.Sessions.Limits.{value_size, fits, total-insert, replaced_bytes-le, check_data-fits}
use rustrest.Sessions.Moves.{admit_for_set-live}

none_of :
    (a room whole : Bool)
    → (whole ≡ true → room ≡ true)
    → (a && room) ≡ false
    → (a && whole) ≡ false
none_of false room whole f h = refl
none_of true room false f h = refl
none_of true room true f h = sym (f refl) ∙ h

all_of : (a room whole : Bool) → (a && room) ≡ true → (a && whole) ≡ whole
all_of true room whole h = refl
all_of false room whole h = cc

module _ (key value : Bytes) (limits : SessionDataLimits) where
  -- What a key and a value may be, whatever the session holds.
  abbrev pub allowed : Bool
  allowed =
      not (is_empty key)
      && leb (length key) limits.key_bytes
      && leb (length value) limits.value_bytes

  at_most-sum :
      (a b limit : ℕ)
      → limit < 2 ^ 64
      → is_some (at_most limit (checked_add a b)) ≡ leb (a + b) limit
  at_most-sum a b limit small = elim (Bool-cases (ltb (a + b) (2 ^ 64))) [
    | inl fits_word ↦ rw (fits_word) (elim (Bool-cases (leb (a + b) limit)) [
      | inl under ↦ rw (under)
      | inr beyond ↦ rw (beyond)
    ])
    | inr over ↦ rw (over) (ground arith)
  ]

  validate_session_value-allowed :
      limits.total_bytes < 2 ^ 64
      → is_ok (validate_session_value key value limits)
        ≡ (allowed && leb (length key + length value) limits.total_bytes)
  unfolding validate_session_value
  validate_session_value-allowed small =
      let sum = length key + length value in
      elim (Bool-cases (is_empty key)) [
        | inl no_key ↦ rw (validate_session_value, no_key)
        | inr some_key ↦ elim (Bool-cases (ltb limits.key_bytes (length key))) [
          | inl long ↦
              let not_within : leb (length key) limits.key_bytes ≡ false = ground arith in
              rw (validate_session_value, some_key, long, not_within)
          | inr short ↦
              let within : leb (length key) limits.key_bytes ≡ true = ground arith in
              elim (Bool-cases (ltb limits.value_bytes (length value))) [
                | inl long ↦
                    let not_within : leb (length value) limits.value_bytes ≡ false = ground arith in
                    rw (validate_session_value, some_key, short, within, long, not_within)
                | inr brief ↦
                    let inside : leb (length value) limits.value_bytes ≡ true = ground arith in
                    rw
                      (
                        validate_session_value,
                        some_key,
                        short,
                        within,
                        brief,
                        inside,
                        at_most-sum (length key) (length value) limits.total_bytes small,
                      )
                      (elim (Bool-cases (leb (length key + length value) limits.total_bytes)) [
                        | inl under ↦ rw (under)
                        | inr beyond ↦ rw (beyond)
                      ])
              ]
        ]
      ]

  -- Data with the value in is no smaller than the value.
  fits-room :
      (stored : List (Bytes × Bytes))
      → fits key value limits stored ≡ true
      → leb (length key + length value) limits.total_bytes ≡ true
  fits-room stored h =
      let sum = total-insert key value stored in
      let less = replaced_bytes-le key stored in ground arith

module _ (p : Platform) (id key value : Bytes) (limits : SessionDataLimits) where
  write_value-accepts :
      (now : ℕ) (store : SessionStore) (entry : SessionEntry)
      → session_of p id store ≡ some entry
      → now < entry.expires_at
      → is_ok (write_value p now id key value limits store).1
        ≡ is_ok (check_data key value limits entry.data_of)
  unfolding write_value
  write_value-accepts now store entry found live =
      let fresh : is_expired now (session_of p id store) ≡ false = rw (found) (ground arith) in
      elim (Result-cases (check_data key value limits entry.data_of)) [
        | inl (u, checked) ↦ rw (fresh, found, checked)
        | inr (e, refused) ↦ rw (fresh, found, refused)
      ]

  -- For a session of a store with shards that has not expired, whose renewal has not expired when the
  -- value is written, whose data is within the limits of entries and bytes, and with a limit of bytes
  -- that is a machine word: `set` succeeds exactly when the key is not empty, the key and the value
  -- are within their limits, and the data with the value in is within the limits of entries and bytes.
  pub set_value-accepts :
      (now now' now'' : ℕ) (idle_timeout max_sessions : ℕ) (store : SessionStore)
      (entry : SessionEntry)
      → 0 < length store.shards
      → session_of p id store ≡ some entry
      → now < entry.expires_at
      → now'' < expiry p.latest now idle_timeout
      → length entry.data_of ≤ limits.entries
      → total value_size entry.data_of ≤ limits.total_bytes
      → limits.total_bytes < 2 ^ 64
      → is_ok (set_value p now now' now'' id key value idle_timeout max_sessions limits store).1
        ≡ (allowed key value limits && fits key value limits entry.data_of)
  unfolding set_value
  set_value-accepts now now' now'' idle_timeout max_sessions store entry pos found live still room
        within small =
      let entry' : SessionEntry = record entry { expires_at = expiry p.latest now idle_timeout } in
      let admitted = admit_for_set p now now' id idle_timeout max_sessions store in
      let (there, again) =
        admit_for_set-live p now now' id idle_timeout max_sessions store entry pos found live in
      let valid = validate_session_value-allowed key value limits small in
      let written = write_value-accepts now'' admitted.0 entry' again still in
      let room_left = leb (length key + length value) limits.total_bytes in
      let whole = fits key value limits entry.data_of in
      let data_fits = check_data-fits key value limits entry.data_of room within small in
      elim (Result-cases (validate_session_value key value limits)) [
        | inr (e, refused) ↦
            rw (set_value, refused)
              (sym (
                none_of (allowed key value limits) room_left whole
                  (fits-room key value limits entry.data_of) (sym valid ∙ ap is_ok refused)))
        | inl (u, accepted) ↦
            rw (set_value, accepted, there)
              (written
                ∙ data_fits
                ∙ sym (
                    all_of (allowed key value limits) room_left whole
                      (sym valid ∙ ap is_ok accepted)))
      ]
