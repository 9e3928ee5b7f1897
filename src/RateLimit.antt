-- ===== src/RateLimit.antt =====
-- The fixed-window rate limiter of src/app/middleware/mod.rs: `RateState`, `check_rate_limit_state`
-- and what it calls. Times and durations are in nanoseconds, an address is a number, `latest` is the
-- last representable time. A counter is a `u32`.
pub mod Windows
use rustrest.Prelude.{
  ℕ, ◌+◌, ◌-◌, ◌*◌, ◌/◌, ◌%◌, ◌^◌, Bool, true, false, not, List, [], ◌∷◌, Option, none, some, leb,
  ltb, nat_eq, if◌then◌else◌, length, keep, is_some, min, ℕ_eq, option_eq, lookup, insert, to_ℕ,
}

pub record RateBucket : Type 0 where
  pub start : ℕ
  pub count : ℕ

pub record RateState : Type 0 where
  pub buckets : List (Option ℕ × RateBucket)
  pub overflow : Option RateBucket
  pub next_cleanup : ℕ

pub record RateLimit : Type 0 where
  pub max_requests : ℕ
  pub window : ℕ
  pub max_clients : ℕ

abbrev pub max_rate_limit_cleanup_interval : ℕ
max_rate_limit_cleanup_interval = 60_000_000_000

abbrev pub saturating_add_u32 : ℕ → ℕ → ℕ
saturating_add_u32 a b = min (a + b) (2 ^ 32 - 1)

abbrev pub has_passed : ℕ → ℕ → RateBucket → Bool
has_passed window now bucket = leb window (now - bucket.start)

abbrev pub new_bucket : ℕ → RateBucket
new_bucket now = record { start = now; count = 0 }

unfoldable pub check_rate_bucket : ℕ → ℕ → ℕ → RateBucket → RateBucket × Option ℕ
check_rate_bucket window max_requests now bucket =
    let current = if has_passed window now bucket then new_bucket now else bucket in
    let counted = saturating_add_u32 current.count 1 in
    (
      record current { count = counted },
      if ltb max_requests counted then some (window - (now - current.start)) else none,
    )

abbrev pub keep_overflow : ℕ → ℕ → Option RateBucket → Option RateBucket
keep_overflow window now none = none
keep_overflow window now (some bucket) = if has_passed window now bucket then none else some bucket

unfoldable pub remove_expired_rate_buckets : ℕ → ℕ → RateState → RateState
remove_expired_rate_buckets window now state = record state {
  buckets =
      keep (λ (entry : Option ℕ × RateBucket). not (has_passed window now entry.1)) state.buckets;
  overflow = keep_overflow window now state.overflow;
}

abbrev pub get_or_insert : Option RateBucket → ℕ → RateBucket
get_or_insert none now = new_bucket now
get_or_insert (some bucket) now = bucket

module _ (latest : ℕ) (limit : RateLimit) where
  abbrev pub cleanup_interval : ℕ
  cleanup_interval = min limit.window max_rate_limit_cleanup_interval

  abbrev pub cleanup_time : ℕ → ℕ
  cleanup_time now = if leb (now + cleanup_interval) latest then now + cleanup_interval else now

  -- The state that `into_middleware` starts with.
  abbrev pub new_state : ℕ → RateState
  new_state now = record { buckets = []; overflow = none; next_cleanup = cleanup_time now }

  unfoldable pub cleaned : ℕ → RateState → RateState
  unfolding remove_expired_rate_buckets
  cleaned now state =
      if leb state.next_cleanup now
      then record (remove_expired_rate_buckets limit.window now state) {
        next_cleanup = cleanup_time now;
      }
      else state

  -- The request counts in the bucket of its client.
  abbrev pub in_bucket : Option ℕ → ℕ → RateBucket → RateState → RateState × Option ℕ
  in_bucket key now bucket state =
      let checked = check_rate_bucket limit.window limit.max_requests now bucket in
      (record state { buckets = insert key checked.0 state.buckets }, checked.1)

  abbrev pub in_overflow : ℕ → RateState → RateState × Option ℕ
  in_overflow now state =
      let checked =
        check_rate_bucket limit.window limit.max_requests now (get_or_insert state.overflow now) in
      (record state { overflow = some checked.0 }, checked.1)

  -- The entry of the key in the map, vacant or occupied.
  unfoldable pub count_request : Option ℕ → ℕ → RateState → RateState × Option ℕ
  unfolding check_rate_bucket
  count_request key now state = elim (lookup key state.buckets) [
    | some bucket ↦ in_bucket key now bucket state
    | none ↦
        if ltb (length state.buckets) limit.max_clients
        then in_bucket key now (new_bucket now) state
        else in_overflow now state
  ]

  unfoldable pub check_rate_limit_state : Option ℕ → ℕ → RateState → RateState × Option ℕ
  unfolding cleaned count_request
  check_rate_limit_state key now state = count_request key now (cleaned now state)

-- Whole seconds, with a part of one counted as a whole one, and one at least.
unfoldable pub retry_after_seconds : ℕ → ℕ
retry_after_seconds remaining =
    let seconds =
      min (remaining / 1_000_000_000 + to_ℕ (not (nat_eq (remaining % 1_000_000_000) 0)))
        (2 ^ 64 - 1) in
    if ltb seconds 1 then 1 else seconds
