-- ===== src/Sessions/Limits.antt =====
-- The limits on the data of one session in src/app/session.rs: what the checks of `set` decide.
use rustrest.Prelude.{
  ℕ, ◌+◌, ◌-◌, ◌^◌, ◌≤◌, ◌<◌, ◌≡◌, sym, ap, ◌∙◌, inl, inr, Bool, true, false, not, ◌&&◌, List, [],
  ◌∷◌, some, arith, ltb, leb, is_some, to_ℕ, length, total, Bool-cases, Option-cases, is_ok, ◌==◌,
  ℕ_eq, list_eq, lookup, insert, length-insert_lem, list_beq_iff,
}
use rustrest.Text.{Bytes}
use rustrest.Sessions.Data.{SessionDataLimits, data_bytes, next_bytes, replaced_bytes, check_data}

-- The size of one value with its key.
abbrev pub value_size : Bytes × Bytes → ℕ
value_size stored = length stored.0 + length stored.1

-- The fold of the source adds the sizes, where the sum is a machine word.
data_bytes-total :
    (stored : List (Bytes × Bytes)) (t : ℕ)
    → t + total value_size stored < 2 ^ 64
    → data_bytes stored t ≡ some (t + total value_size stored)
unfolding data_bytes
data_bytes-total [] t small = ground arith
data_bytes-total ((key, value) ∷ stored) t small =
    let first : ltb (t + length key) (2 ^ 64) ≡ true = ground arith in
    let second : ltb (t + length key + length value) (2 ^ 64) ≡ true = ground arith in
    rw (data_bytes, first, second)
      (data_bytes-total stored (t + length key + length value) (omega arith)
        ∙ ap some (omega arith))

-- An insertion replaces the value of the key.
pub total-insert :
    (key value : Bytes) (stored : List (Bytes × Bytes))
    → total value_size (insert key value stored) + replaced_bytes key (lookup key stored)
      ≡ total value_size stored + (length key + length value)
unfolding insert lookup
total-insert key value [] = omega arith
total-insert key value ((k, old) ∷ stored) = elim (Bool-cases (k == key)) [
  | inl same ↦
      let e : k ≡ key = (list_beq_iff k key).0 same in
      let e' : length k ≡ length key = ap length e in rw (same) (omega arith)
  | inr other ↦ rw (other) (omega (arith, total-insert key value stored))
]

pub replaced_bytes-le :
    (key : Bytes) (stored : List (Bytes × Bytes))
    → replaced_bytes key (lookup key stored) ≤ total value_size stored
unfolding lookup
replaced_bytes-le key [] = omega arith
replaced_bytes-le key ((k, old) ∷ stored) = elim (Bool-cases (k == key)) [
  | inl same ↦
      let e' : length k ≡ length key = ap length ((list_beq_iff k key).0 same) in
      rw (same) (omega arith)
  | inr other ↦ rw (other) (omega (arith, replaced_bytes-le key stored))
]

module _ (key value : Bytes) (limits : SessionDataLimits) (stored : List (Bytes × Bytes)) where
  -- What the data may be when the value is in.
  abbrev pub fits : Bool
  fits =
      leb (length (insert key value stored)) limits.entries
      && leb (total value_size (insert key value stored)) limits.total_bytes

  next_bytes-fits :
      limits.total_bytes < 2 ^ 64
      → is_some (next_bytes key value stored limits.total_bytes (total value_size stored))
        ≡ leb (total value_size (insert key value stored)) limits.total_bytes
  unfolding next_bytes
  next_bytes-fits small =
      let sum = total-insert key value stored in
      let less = replaced_bytes-le key stored in
      let current = total value_size stored in
      let replaced = replaced_bytes key (lookup key stored) in
      let sub : leb replaced current ≡ true = ground arith in
      elim (Bool-cases (ltb (current - replaced + length key) (2 ^ 64))) [
        | inr over ↦ rw (sub, over) (ground arith)
        | inl under ↦
            elim (Bool-cases (ltb (current - replaced + length key + length value) (2 ^ 64))) [
              | inr over ↦ rw (sub, under, over) (ground arith)
              | inl room ↦
                  let e : current - replaced + length key + length value
                      ≡ total value_size (insert key value stored) =
                    omega arith in
                  rw (sub, under, room, e) (ground arith)
            ]
      ]

  entries-fit :
      length stored ≤ limits.entries
      → (not (is_some (lookup key stored)) && leb limits.entries (length stored))
        ≡ not (leb (length (insert key value stored)) limits.entries)
  entries-fit room =
      let grown = length-insert_lem key value stored in
      elim (Bool-cases (is_some (lookup key stored))) [
        | inl there ↦ let one = ap to_ℕ there in rw (there) (ground arith)
        | inr new ↦ let none_there = ap to_ℕ new in rw (new) (ground arith)
      ]

  -- For data within the limits, and a limit of bytes that is a machine word, `check_data` accepts a value
  -- exactly when the data with the value in is within the limits.
  pub check_data-fits :
      length stored ≤ limits.entries
      → total value_size stored ≤ limits.total_bytes
      → limits.total_bytes < 2 ^ 64
      → is_ok (check_data key value limits stored) ≡ fits
  unfolding check_data
  check_data-fits room within small =
      let current : data_bytes stored 0 ≡ some (total value_size stored) =
        data_bytes-total stored 0 (omega arith) ∙ ap some (omega arith) in
      let next = next_bytes-fits small in
      let n = next_bytes key value stored limits.total_bytes (total value_size stored) in
      elim (Bool-cases (leb (length (insert key value stored)) limits.entries)) [
        | inr full ↦ let refused = entries-fit room ∙ ap not full in rw (check_data, refused, full)
        | inl space ↦
            let passed = entries-fit room ∙ ap not space in
            elim (Option-cases n) [
              | inl over ↦
                  let no : leb (total value_size (insert key value stored)) limits.total_bytes
                      ≡ false =
                    sym next ∙ ap is_some over in
                  rw (check_data, passed, current, over, space, no)
              | inr (bytes, under) ↦
                  let yes : leb (total value_size (insert key value stored)) limits.total_bytes
                      ≡ true =
                    sym next ∙ ap is_some under in
                  rw (check_data, passed, current, under, space, yes)
            ]
      ]
