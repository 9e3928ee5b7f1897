-- ===== src/Sessions/Data.antt =====
-- The bounds on what one session holds, in src/app/session.rs: `validate_session_value` and the
-- checks of `SessionStore::set`. A `HashMap` of values is an association list.
use rustrest.Prelude.{
  ℕ, ◌+◌, not, ◌&&◌, List, [], ◌∷◌, Option, none, some, ltb, leb, if◌then◌else◌, is_some, is_empty,
  length, Result, ok, ◌>>=◌, ◌>>◌, refuse, ok_or, ℕ_eq, list_eq, lookup, checked_add, checked_sub,
}
use rustrest.Text.{Bytes}

pub data SessionDataErrorKind : Type 0 where
  empty_key key_too_large value_too_large : SessionDataErrorKind
  too_many_entries session_too_large session_unavailable : SessionDataErrorKind

pub record SessionDataError : Type 0 where
  pub kind : SessionDataErrorKind
  pub limit : Option ℕ

pub record SessionDataLimits : Type 0 where
  pub entries : ℕ
  pub key_bytes : ℕ
  pub value_bytes : ℕ
  pub total_bytes : ℕ

abbrev pub unavailable : SessionDataError
unavailable = record { kind = session_unavailable; limit = none }

-- The test of `try_fold` on the bytes that are stored.
unfoldable pub data_bytes : List (Bytes × Bytes) → ℕ → Option ℕ
data_bytes [] total = some total
data_bytes ((key, value) ∷ stored) total = elim (checked_add total (length key)) [
  | none ↦ none
  | some t ↦ elim (checked_add t (length value)) [ none ↦ none | some u ↦ data_bytes stored u ]
]

abbrev pub replaced_bytes : Bytes → Option Bytes → ℕ
replaced_bytes key none = 0
replaced_bytes key (some old_value) = length key + length old_value

abbrev pub then_checked : Option ℕ → (ℕ → Option ℕ) → Option ℕ
then_checked none f = none
then_checked (some n) f = f n

abbrev pub at_most : ℕ → Option ℕ → Option ℕ
at_most limit none = none
at_most limit (some n) = if leb n limit then some n else none

unfoldable pub next_bytes : Bytes → Bytes → List (Bytes × Bytes) → ℕ → ℕ → Option ℕ
next_bytes key value stored limit current = at_most limit (
    then_checked (checked_sub current (replaced_bytes key (lookup key stored)))
      (λ n. then_checked (checked_add n (length key)) (λ k. checked_add k (length value))))

module _ (key value : Bytes) (limits : SessionDataLimits) where
  abbrev pub too_large : SessionDataError
  too_large = record { kind = session_too_large; limit = some limits.total_bytes }

  unfoldable pub validate_session_value : Result SessionDataError (Unit {0})
  validate_session_value = do
    refuse (is_empty key) (record { kind = empty_key; limit = none })
    refuse (ltb limits.key_bytes (length key))
        (record { kind = key_too_large; limit = some limits.key_bytes })
    refuse (ltb limits.value_bytes (length value))
        (record { kind = value_too_large; limit = some limits.value_bytes })
    refuse (not (is_some (at_most limits.total_bytes (checked_add (length key) (length value)))))
        too_large

  -- The checks of `set` against the data that a session holds.
  unfoldable pub check_data : List (Bytes × Bytes) → Result SessionDataError (Unit {0})
  unfolding data_bytes next_bytes
  check_data stored = do
    refuse (not (is_some (lookup key stored)) && leb limits.entries (length stored))
        (record { kind = too_many_entries; limit = some limits.entries })
    current ← ok_or (data_bytes stored 0) too_large
    next ← ok_or (next_bytes key value stored limits.total_bytes current) too_large
    ok tt
