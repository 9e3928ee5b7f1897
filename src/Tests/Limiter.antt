-- ===== src/Tests/Limiter.antt =====
-- A short run of the rate limiter.
use rustrest.Prelude.{
  ℕ, ◌+◌, ◌-◌, ◌*◌, ◌≤◌, ◌<◌, ◌≡◌, ◌⊎◌, refl, List, [], ◌∷◌, Option, none, some, arith, min, lookup,
  ℕ_eq, option_eq, All,
}
use rustrest.RateLimit.{RateBucket, RateState, RateLimit, new_state, check_rate_limit_state}
use rustrest.RateLimit.Windows.{
  Call, calls_of, admitted_of, IsTracking, check_rate_limit_state-IsTracking, admitted_of-window,
}

-- Two requests in a window of 100, for one client that is tracked.
abbrev two_each : RateLimit
two_each = record { max_requests = 2; window = 100; max_clients = 1 }

abbrev state0 : RateState
state0 = new_state 1000 two_each 0

state0-IsTracking : IsTracking 1000 two_each state0
state0-IsTracking = record { distinct = tt; bounded = omega arith }

abbrev after_one : RateState
after_one = (check_rate_limit_state 1000 two_each (some 7) 0 state0).0

check_rate_limit_state-IsTracking_example : IsTracking 1000 two_each after_one
check_rate_limit_state-IsTracking_example =
    check_rate_limit_state-IsTracking 1000 two_each (some 7) 0 state0 state0-IsTracking

after_one-IsTracking : IsTracking 1000 two_each after_one
after_one-IsTracking =
    check_rate_limit_state-IsTracking 1000 two_each (some 7) 0 state0 state0-IsTracking

abbrev bucket : RateBucket
bucket = record { start = 0; count = 1 }

tracked : lookup (some 7) after_one.buckets ≡ some bucket
unfolding lookup check_rate_limit_state rustrest.Prelude.insert
tracked = refl

abbrev calls : List Call
calls = (some 8, 10) ∷ (some 7, 20) ∷ (none, 30) ∷ (some 7, 40) ∷ []

admitted_of-window_example :
    admitted_of 1000 two_each (some 7) calls after_one ≡ min (calls_of (some 7) calls) (2 - 1)
admitted_of-window_example =
    admitted_of-window 1000 two_each (some 7) calls after_one bucket (omega arith) (omega arith)
      after_one-IsTracking tracked (omega arith, (omega arith, (omega arith, (omega arith, tt))))
