-- ===== src/Tests/Sessions.antt =====
-- A short run of the session store.
use rustrest.Prelude.{
  ℕ, ◌+◌, ◌^◌, ◌<◌, ◌≡◌, ◌≢◌, refl, Bool, true, false, List, [], ◌∷◌, Option, none, some, Result,
  ok, arith, ℕ_eq, list_eq, total, ap, get_or, length,
}
use rustrest.Text.{Bytes, codes}
use rustrest.Sessions.{SessionEntry}
use rustrest.Sessions.Data.{SessionDataError, SessionDataLimits}
use rustrest.Sessions.Store.{SessionStore, Platform, new_store, create, session_of}
use rustrest.Sessions.Values.{get, set_value, live_len, regenerate}
use rustrest.Sessions.Consistent.{IsConsistent}
use rustrest.Sessions.Runs.{Reach, start, next, sets, Reach-IsConsistent}
use rustrest.Sessions.Live.{live_in, live_len-counts}
use rustrest.Sessions.Kept.{create-keeps_live}
use rustrest.Sessions.Full.{create-refuses}
use rustrest.Prelude.{is_ok, err}
use rustrest.Sessions.{is_expired, expiry}
use rustrest.Sessions.Data.{too_many_entries, check_data}
use rustrest.Sessions.Values.{rotate}
use rustrest.Sessions.Reads.{get-set_value}
use rustrest.Sessions.Moves.{rotate-moves, set_value-refused}
use rustrest.Sessions.Limits.{fits}
use rustrest.Sessions.Accepts.{allowed, set_value-accepts}
use rustrest.Prelude.{◌&&◌}

-- A hash by the length.
abbrev by_length : Bytes → ℕ
by_length id = length id

abbrev platform : Platform
platform = record { hash = by_length; latest = 2 ^ 100 }

abbrev defaults : SessionDataLimits
defaults = record { entries = 64; key_bytes = 256; value_bytes = 16_384; total_bytes = 65_536 }

abbrev anna : Bytes
anna = codes "anna"

abbrev bert : Bytes
bert = codes "bert"

abbrev empty : SessionStore
empty = new_store 0

-- `anna` at time 0 for 100 units, in a store of one session.
abbrev with_user : SessionStore × Result SessionDataError (Unit {0})
with_user = set_value platform 0 0 0 anna (codes "user") (codes "7") 100 1 defaults empty

abbrev one : SessionStore
one = with_user.0

one-Reach : Reach platform 1 one
one-Reach = next empty one (start 0) (sets 0 0 0 anna (codes "user") (codes "7") 100 defaults empty)

Reach-IsConsistent_example : IsConsistent 1 one
Reach-IsConsistent_example = Reach-IsConsistent platform 1 (omega arith) one one-Reach

one-IsConsistent : IsConsistent 1 one
one-IsConsistent = Reach-IsConsistent platform 1 (omega arith) one one-Reach

live_len-counts_example :
    ((live_len 50 one).1 ≡ total (live_in 50) one.shards) × IsConsistent 1 (live_len 50 one).0
live_len-counts_example = live_len-counts 1 one 50 (omega arith) one-IsConsistent

read_back : (get platform 50 anna (codes "user") 100 one).1 ≡ some (codes "7")
unfolding get rustrest.Prelude.lookup set_value rustrest.Sessions.Data.validate_session_value
    rustrest.Sessions.Values.admit_for_set new_store rustrest.Sessions.renew
    rustrest.Sessions.Store.cleanup_if_needed rustrest.Sessions.insert_entry rustrest.Prelude.insert
    rustrest.Prelude.list_beq rustrest.Sessions.Data.check_data
read_back = refl

-- The session of `anna` after that.
abbrev annas : SessionEntry
annas = record { data_of = (codes "user", codes "7") ∷ []; expires_at = 100 }

found : session_of platform anna one ≡ some annas
unfolding rustrest.Prelude.lookup rustrest.Sessions.Store.shard_of set_value
    rustrest.Sessions.Data.validate_session_value rustrest.Sessions.Values.admit_for_set new_store
    rustrest.Sessions.renew rustrest.Sessions.Store.cleanup_if_needed rustrest.Sessions.insert_entry
    rustrest.Prelude.insert rustrest.Prelude.list_beq rustrest.Sessions.Data.check_data
found = refl

-- The store is full for `bert` until the session of `anna` expires.
refused : (create platform 99 bert 100 1 one).1 ≡ false
unfolding create rustrest.Sessions.renew rustrest.Prelude.lookup set_value
    rustrest.Sessions.Data.validate_session_value rustrest.Sessions.Values.admit_for_set new_store
    rustrest.Sessions.Store.cleanup_if_needed rustrest.Sessions.insert_entry rustrest.Prelude.insert
    rustrest.Prelude.list_beq rustrest.Sessions.Data.check_data
    rustrest.Sessions.remove_expired_entries
refused = refl

admitted : (create platform 100 bert 100 1 one).1 ≡ true
unfolding create rustrest.Sessions.renew rustrest.Prelude.lookup set_value
    rustrest.Sessions.Data.validate_session_value rustrest.Sessions.Values.admit_for_set new_store
    rustrest.Sessions.Store.cleanup_if_needed rustrest.Sessions.insert_entry rustrest.Prelude.insert
    rustrest.Prelude.list_beq rustrest.Sessions.Data.check_data
    rustrest.Sessions.remove_expired_entries
admitted = refl

other_user : anna ≢ bert
other_user e = let first = ap (λ (id : Bytes). get_or id 0 0) e in omega arith

create-keeps_live_example :
    session_of platform anna (create platform 99 bert 100 1 one).0 ≡ some annas
create-keeps_live_example =
    create-keeps_live platform 1 one 99 bert anna 100 annas (omega arith) one-IsConsistent
      other_user found (omega arith)

create-refuses_example : total (live_in 99) (create platform 99 bert 100 1 one).0.shards ≡ 1
create-refuses_example =
    create-refuses platform 1 one 99 bert 100 (omega arith) one-IsConsistent refused

-- A second value does not fit where one entry is allowed.
abbrev single : SessionDataLimits
single = record { entries = 1; key_bytes = 256; value_bytes = 16_384; total_bytes = 65_536 }

abbrev too_many : SessionDataError
too_many = record { kind = too_many_entries; limit = some 1 }

written : with_user.1 ≡ ok tt
unfolding set_value rustrest.Sessions.Data.validate_session_value
    rustrest.Sessions.Values.admit_for_set rustrest.Prelude.lookup new_store rustrest.Sessions.renew
    rustrest.Sessions.Store.cleanup_if_needed rustrest.Sessions.insert_entry rustrest.Prelude.insert
    rustrest.Prelude.list_beq check_data
written = refl

fresh : is_expired 50 (session_of platform anna one) ≡ false
unfolding rustrest.Prelude.lookup rustrest.Sessions.Store.shard_of set_value
    rustrest.Sessions.Data.validate_session_value rustrest.Sessions.Values.admit_for_set new_store
    rustrest.Sessions.renew rustrest.Sessions.Store.cleanup_if_needed rustrest.Sessions.insert_entry
    rustrest.Prelude.insert rustrest.Prelude.list_beq check_data
fresh = refl

get-set_value_example : (get platform 50 anna (codes "user") 100 one).1 ≡ some (codes "7")
get-set_value_example =
    get-set_value platform 1 anna (codes "user") (codes "7") defaults 0 0 0 100 empty 50 100
      (omega arith) (Reach-IsConsistent platform 1 (omega arith) empty (start 0)) written fresh

rotate-moves_example :
    ((rotate platform 50 anna bert 100 one).1 ≡ true)
    × (session_of platform bert (rotate platform 50 anna bert 100 one).0
        ≡ some (record annas { expires_at = expiry platform.latest 50 100 }))
    × (session_of platform anna (rotate platform 50 anna bert 100 one).0 ≡ none)
rotate-moves_example =
    rotate-moves platform 50 anna bert 100 annas one one-IsConsistent.has_shards other_user found
      (omega arith)

refused_value :
    (set_value platform 50 50 51 anna (codes "b") (codes "1") 100 1 single one).1 ≡ err too_many
unfolding set_value rustrest.Sessions.Data.validate_session_value
    rustrest.Sessions.Values.admit_for_set rustrest.Prelude.lookup new_store rustrest.Sessions.renew
    rustrest.Sessions.Store.cleanup_if_needed rustrest.Sessions.insert_entry rustrest.Prelude.insert
    rustrest.Prelude.list_beq check_data
refused_value = refl

still_there : 51 < expiry platform.latest 50 100
unfolding expiry
still_there = omega arith

set_value-refused_example :
    (kept : SessionEntry) × (session_of platform anna
        (set_value platform 50 50 51 anna (codes "b") (codes "1") 100 1 single one).0
      ≡ some kept)
    × (kept.data_of ≡ annas.data_of)
set_value-refused_example =
    set_value-refused platform 50 50 51 anna (codes "b") (codes "1") 100 1 single one annas too_many
      one-IsConsistent.has_shards found (omega arith) still_there refused_value

set_value-accepts_example :
    is_ok (set_value platform 50 50 51 anna (codes "b") (codes "1") 100 1 single one).1
    ≡ (allowed (codes "b") (codes "1") single && fits (codes "b") (codes "1") single annas.data_of)
set_value-accepts_example =
    set_value-accepts platform anna (codes "b") (codes "1") single 50 50 51 100 1 one annas
      one-IsConsistent.has_shards found (omega arith) still_there (omega arith) (omega arith)
      (omega arith)
