-- ===== src/RateLimit/Windows.antt =====
-- What the rate limiter of src/app/middleware/mod.rs promises one client: as many requests in a
-- window as are allowed, whatever other clients do.
use rustrest.Prelude.{
  ℕ, ◌+◌, ◌-◌, ◌*◌, ◌^◌, ◌≤◌, ◌<◌, ◌≡◌, ◌≢◌, sym, ◌∙◌, inl, inr, Bool, true, false, not, List, [],
  ◌∷◌, Option, some, arith, leb, ltb, if◌then◌else◌, ◌⊎◌, length, keep, is_some, min, to_ℕ, All,
  Bool-cases, Option-cases, ◌==◌, Eq, ℕ_eq, option_eq, option_beq_iff, lookup, lookup-insert,
  Distinct, Distinct-insert, All-keep, length-insert, length-insert_lem,
}
use rustrest.RateLimit.{
  RateBucket, RateState, RateLimit, has_passed, check_rate_bucket, remove_expired_rate_buckets,
  cleaned, count_request, check_rate_limit_state, new_bucket, saturating_add_u32,
  retry_after_seconds,
}

module _ {K V : Type 0} ⦃e : Eq K⦄ (p : K × V → Bool) where
  Distinct-keep : (m : List (K × V)) → Distinct m → Distinct (keep p m)
  Distinct-keep [] h = tt
  Distinct-keep (c ∷ m) h = elim (Bool-cases (p c)) [
    | inl kept ↦ rw (kept) (All-keep (λ (q : K × V). q.0 ≢ c.0) p m h.0, Distinct-keep m h.1)
    | inr dropped ↦ rw (dropped) (Distinct-keep m h.1)
  ]

  lookup-keep :
      (k : K) (v : V) (m : List (K × V))
      → lookup k m ≡ some v
      → p (k, v) ≡ true
      → lookup k (keep p m) ≡ some v
  unfolding lookup
  lookup-keep k v [] found kept = cc
  lookup-keep k v ((j, w) ∷ m) found kept = ground (arith, e.beq_iff j k, lookup-keep k v m)

  length-keep : (m : List (K × V)) → length (keep p m) ≤ length m
  length-keep [] = omega arith
  length-keep (c ∷ m) = ground (arith, length-keep m)

-- A request of a client at a time.
abbrev pub Call : Type 0
Call = Option ℕ × ℕ

abbrev pub calls_of : Option ℕ → List Call → ℕ
calls_of client [] = 0
calls_of client (call ∷ calls) = to_ℕ (call.0 == client) + calls_of client calls

module _ (latest : ℕ) (limit : RateLimit) where
  -- The requests of a client that are admitted, of those that arrive.
  abbrev pub admitted_of : Option ℕ → List Call → RateState → ℕ
  admitted_of client [] state = 0
  admitted_of client (call ∷ calls) state =
      let checked = check_rate_limit_state latest limit call.0 call.1 state in
      (if call.0 == client then to_ℕ (not (is_some checked.1)) else 0)
      + admitted_of client calls checked.0

  -- Each client has one bucket at most, and there are no more buckets than clients may be tracked.
  pub record IsTracking (state : RateState) : Type 0 where
    pub distinct : Distinct state.buckets
    pub bounded : length state.buckets ≤ limit.max_clients

  module _ (now : ℕ) (state : RateState) (h : IsTracking state) where
    cleaned-IsTracking : IsTracking (cleaned latest limit now state)
    unfolding cleaned remove_expired_rate_buckets
    cleaned-IsTracking = elim (Bool-cases (leb state.next_cleanup now)) [
      | inl due ↦ rw (due) (record {
        distinct = Distinct-keep _ state.buckets h.distinct;
        bounded = omega (
          arith,
          length-keep (λ (entry : Option ℕ × RateBucket). not (has_passed limit.window now entry.1))
              state.buckets,
          h.bounded,
        );
      })
      | inr early ↦ rw (early) h
    ]

    -- Cleaning leaves the buckets whose window is not over.
    cleaned-lookup :
        (client : Option ℕ) (bucket : RateBucket)
        → lookup client state.buckets ≡ some bucket
        → has_passed limit.window now bucket ≡ false
        → lookup client (cleaned latest limit now state).buckets ≡ some bucket
    unfolding cleaned remove_expired_rate_buckets
    cleaned-lookup client bucket found live = elim (Bool-cases (leb state.next_cleanup now)) [
      | inl due ↦ rw (due) (lookup-keep _ client bucket state.buckets found (rw (live)))
      | inr early ↦ rw (early) found
    ]

    count_request-IsTracking :
        (key : Option ℕ) → IsTracking (count_request latest limit key now state).0
    unfolding count_request
    count_request-IsTracking key = elim (Option-cases (lookup key state.buckets)) [
      | inr (bucket, found) ↦
          let checked = check_rate_bucket limit.window limit.max_requests now bucket in
          let same = length-insert_lem key checked.0 state.buckets in
          let there : to_ℕ (is_some (lookup key state.buckets)) ≡ 1 = rw (found) in
          rw (count_request, found)
            (record {
              distinct = Distinct-insert key checked.0 state.buckets h.distinct;
              bounded = omega (arith, h.bounded);
            })
      | inl missing ↦ elim (Bool-cases (ltb (length state.buckets) limit.max_clients)) [
        | inl room ↦
            let checked = check_rate_bucket limit.window limit.max_requests now (new_bucket now) in
            rw (count_request, missing, room)
              (record {
                distinct = Distinct-insert key checked.0 state.buckets h.distinct;
                bounded = ground (arith, length-insert key checked.0 state.buckets);
              })
        | inr full ↦
            rw (count_request, missing, full)
              (record { distinct = h.distinct; bounded = h.bounded })
      ]
    ]

    count_request-other :
        (key client : Option ℕ)
        → key ≢ client
        → lookup client (count_request latest limit key now state).0.buckets
          ≡ lookup client state.buckets
    unfolding count_request
    count_request-other key client n = elim (Option-cases (lookup key state.buckets)) [
      | inr (bucket, found) ↦
          let checked = check_rate_bucket limit.window limit.max_requests now bucket in
          rw (count_request, found)
            (ground
              (arith, lookup-insert key client checked.0 state.buckets, option_beq_iff key client))
      | inl missing ↦ elim (Bool-cases (ltb (length state.buckets) limit.max_clients)) [
        | inl room ↦
            let checked = check_rate_bucket limit.window limit.max_requests now (new_bucket now) in
            rw (count_request, missing, room)
              (ground (
                arith,
                lookup-insert key client checked.0 state.buckets,
                option_beq_iff key client,
              ))
        | inr full ↦ rw (count_request, missing, full)
      ]
    ]

  -- A request keeps the state such that each client has one bucket at most, and there are no more
  -- buckets than clients may be tracked.
  pub check_rate_limit_state-IsTracking :
      (key : Option ℕ) (now : ℕ) (state : RateState)
      → IsTracking state
      → IsTracking (check_rate_limit_state latest limit key now state).0
  unfolding check_rate_limit_state
  check_rate_limit_state-IsTracking key now state h =
      count_request-IsTracking now (cleaned latest limit now state) (cleaned-IsTracking now state h)
        key

  -- A request of another client leaves the bucket of a client whose window is not over.
  check-other :
      (key client : Option ℕ) (now : ℕ) (state : RateState) (bucket : RateBucket)
      → IsTracking state
      → key ≢ client
      → lookup client state.buckets ≡ some bucket
      → has_passed limit.window now bucket ≡ false
      → lookup client (check_rate_limit_state latest limit key now state).0.buckets ≡ some bucket
  unfolding check_rate_limit_state
  check-other key client now state bucket h n found live =
      count_request-other now (cleaned latest limit now state) (cleaned-IsTracking now state h) key
        client n
      ∙ cleaned-lookup now state h client bucket found live

  -- A request of the client itself is counted in its bucket.
  check-own :
      (client : Option ℕ) (now : ℕ) (state : RateState) (bucket : RateBucket)
      → IsTracking state
      → lookup client state.buckets ≡ some bucket
      → has_passed limit.window now bucket ≡ false
      → let checked = check_rate_limit_state latest limit client now state in
        let counted = saturating_add_u32 bucket.count 1 in
        (lookup client checked.0.buckets ≡ some (record bucket { count = counted }))
        × (is_some checked.1 ≡ ltb limit.max_requests counted)
  unfolding check_rate_limit_state count_request check_rate_bucket
  check-own client now state bucket h found live =
      let found' = cleaned-lookup now state h client bucket found live in
      let counted : RateBucket = record bucket { count = saturating_add_u32 bucket.count 1 } in
      let written = lookup-insert client client counted (cleaned latest limit now state).buckets in
      rw (count_request, found', live) (ground (arith, option_beq_iff client client), ground arith)

-- Of the calls that arrive while the window of a tracked client is not over, in whatever order with the calls of others and
-- however many clients there are, the client has exactly as many admitted as its limit leaves, where the limit is
-- below the largest counter and the window is not empty.
pub admitted_of-window :
    (latest : ℕ) (limit : RateLimit) (client : Option ℕ) (calls : List Call) (state : RateState)
    (bucket : RateBucket)
    → 0 < limit.window
    → limit.max_requests < 2 ^ 32 - 1
    → IsTracking latest limit state
    → lookup client state.buckets ≡ some bucket
    → All (λ call. call.1 < bucket.start + limit.window) calls
    → admitted_of latest limit client calls state
      ≡ min (calls_of client calls) (limit.max_requests - bucket.count)
admitted_of-window latest limit client [] state bucket positive small h found during = omega arith
admitted_of-window latest limit client ((key, now) ∷ calls) state bucket positive small h found
      during =
    let checked = check_rate_limit_state latest limit key now state in
    let h' = check_rate_limit_state-IsTracking latest limit key now state h in
    let live : has_passed limit.window now bucket ≡ false = ground (arith, during.0) in
    elim (Bool-cases (key == client)) [
      | inl same ↦
          let e : key ≡ client = (option_beq_iff key client).0 same in
          let counted : RateBucket = record bucket { count = saturating_add_u32 bucket.count 1 } in
          let (found', answer) = check-own latest limit client now state bucket h found live in
          let found'' : lookup client checked.0.buckets ≡ some counted = rw (e) found' in
          let answer' : is_some checked.1 ≡ ltb limit.max_requests counted.count = rw (e) answer in
          let rest =
            admitted_of-window latest limit client calls checked.0 counted positive small h' found''
              during.1 in
          rw (same, answer')
            (elim (Bool-cases (ltb limit.max_requests counted.count)) [
              | inl over ↦ rw (over) (ground arith)
              | inr within ↦ rw (within) (ground arith)
            ])
      | inr other ↦
          let n : key ≢ client = λ e. cc (sym other ∙ (option_beq_iff key client).1 e) in
          let found' = check-other latest limit key client now state bucket h n found live in
          let rest =
            admitted_of-window latest limit client calls checked.0 bucket positive small h' found'
              during.1 in
          rw (other) (omega (arith, rest))
    ]

-- The seconds of the `Retry-After` header are one at least, cover what remains of the window, and are less than a
-- second more, where they are a machine word.
pub retry_after_seconds-covers :
    (remaining : ℕ)
    → remaining ≤ (2 ^ 64 - 1) * 1_000_000_000
    → let seconds = retry_after_seconds remaining in
      (1 ≤ seconds)
      × (remaining ≤ seconds * 1_000_000_000)
      × ((seconds ≡ 1) ⊎ (seconds * 1_000_000_000 < remaining + 1_000_000_000))
unfolding retry_after_seconds
retry_after_seconds-covers remaining small = ground arith
