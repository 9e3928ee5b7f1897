-- ===== src/Http1/Stream/Rounds.antt =====
-- The loop of `observe` in src/app/http1.rs ends, and its fuel is enough.
use rustrest.Prelude.{
  ℕ, zero, suc, ◌+◌, ◌-◌, ◌≤◌, ◌<◌, ◌≡◌, refl, inl, inr, Bool, true, false, [], ◌∷◌, ◌++◌, arith,
  leb, is_empty, length, drop, min, Bool-cases, length-append,
}
use rustrest.Text.{Bytes}
use rustrest.Http1.{
  HeadVerdict, persistent, terminal, ambiguous, unclassified, HeadParse, complete_head,
  partial_head, invalid_head, ParseStatus, complete, partial, invalid, Request, push, inspect_head,
  classify,
}
use rustrest.Http1.Stream.{
  InspectState, head_state, body_state, passthrough, Inspector, Round, ends, goes_on, next_state,
  in_state, finish_head, extend_head, leading_empty_lines, contains_head_terminator, buffered_head,
  fresh_head, extended_head, round_in, observe, poll_read, body_left, reset_head_buffer,
  cut_oversized,
}

-- A body that is being skipped has bytes left.
abbrev pub BodyLeft : InspectState → Type 0
BodyLeft head_state = Unit
BodyLeft (body_state n) = 0 < n
BodyLeft passthrough = Unit

-- The parser consumes a byte at least of a complete head.
abbrev pub Consumes : (ℕ → Bytes → ParseStatus) → Type 0
Consumes parse =
    (max_headers : ℕ) (bytes : Bytes) (length : ℕ) (request : Request)
    → parse max_headers bytes ≡ complete length request
    → 0 < length

length-drop : (n : ℕ) (s : Bytes) → length (drop n s) ≤ length s - n
length-drop zero s = omega arith
length-drop (suc n) [] = omega arith
length-drop (suc n) (c ∷ s) = omega (arith, length-drop n s)

module _ (verdict : HeadVerdict) (accepted : Bool) (n : ℕ) where
  next_state-BodyLeft : BodyLeft (next_state verdict accepted n)
  next_state-BodyLeft = go verdict accepted n
    where
      go : (v : HeadVerdict) (b : Bool) (n : ℕ) → BodyLeft (next_state v b n)
      go persistent true zero = tt
      go persistent true (suc n) = omega arith
      go persistent false n = tt
      go terminal b n = tt
      go ambiguous b n = tt
      go unclassified b n = tt

in_state-state : (state : InspectState) (io : Inspector) → (in_state state io).state ≡ state
in_state-state head_state io = refl
in_state-state (body_state n) io = refl
in_state-state passthrough io = refl

in_state-head :
    (state : InspectState) (io : Inspector) → length (in_state state io).head ≤ length io.head
in_state-head head_state io = omega arith
in_state-head (body_state n) io = omega arith
in_state-head passthrough io = omega arith

module _ (verdict : HeadVerdict) (n : ℕ) (io : Inspector) where
  pub finish_head-BodyLeft : BodyLeft (finish_head verdict n io).state
  unfolding finish_head
  finish_head-BodyLeft =
      rw
        (in_state-state (next_state verdict (push verdict io.verdicts).1 n)
          (record io { verdicts = (push verdict io.verdicts).0 }))
        (next_state-BodyLeft verdict (push verdict io.verdicts).1 n)

  finish_head-head : length (finish_head verdict n io).head ≤ length io.head
  unfolding finish_head
  finish_head-head =
      in_state-head (next_state verdict (push verdict io.verdicts).1 n)
        (record io { verdicts = (push verdict io.verdicts).0 })

-- The bytes that the loop has before it.
abbrev before : Bytes → Inspector → ℕ
before input io = length io.head + length input

-- A round that goes on leaves fewer bytes, and a state in which a body has bytes left.
abbrev Progresses : ℕ → Round → Type 0
Progresses n (ends after) = BodyLeft after.state
Progresses n (goes_on rest after) = (before rest after < n) × BodyLeft after.state

body_left-BodyLeft : (n : ℕ) → BodyLeft (body_left n)
body_left-BodyLeft zero = tt
body_left-BodyLeft (suc n) = omega arith

-- A complete head has a byte at least.
abbrev Long : HeadParse → Type 0
Long (complete_head length verdict n) = 0 < length
Long partial_head = Unit
Long invalid_head = Unit

classify-Long :
    (status : ParseStatus)
    → ((length : ℕ) (request : Request) → status ≡ complete length request → 0 < length)
    → Long (classify status)
unfolding classify
classify-Long (complete length request) h = h length request refl
classify-Long partial h = tt
classify-Long invalid h = tt

leading-zero :
    (input : Bytes) (io : Inspector) → length (extend_head input io).head ≤ before input io
unfolding extend_head
leading-zero input io = omega (
  arith,
  length-drop (leading_empty_lines (io.head ++ input)) (io.head ++ input),
  length-append io.head input,
)

module _ (parse : ℕ → Bytes → ParseStatus) (consumes : Consumes parse) where
  inspect_head-Long :
      (bytes : Bytes) (max_headers : ℕ) → Long (inspect_head parse bytes max_headers)
  unfolding inspect_head
  inspect_head-Long bytes max_headers =
      classify-Long (parse max_headers bytes) (consumes max_headers bytes)

  fresh_head-Progresses :
      (input : Bytes) (io : Inspector) (parsed : HeadParse)
      → 0 < length input
      → Long parsed
      → BodyLeft io.state
      → Progresses (before input io) (fresh_head parse input io parsed)
  unfolding rustrest.Http1.Stream.buffer_partial_head
  fresh_head-Progresses input io (complete_head n verdict m) some_input long left = (
    omega (arith, finish_head-head verdict m io, length-drop n input),
    finish_head-BodyLeft verdict m io,
  )
  fresh_head-Progresses input io partial_head some_input long left =
      elim (Bool-cases (leb io.max_head_bytes (length input))) [
        | inl over ↦ rw (over) (finish_head-BodyLeft terminal 0 io)
        | inr room ↦ rw (room) left
      ]
  fresh_head-Progresses input io invalid_head some_input long left =
      finish_head-BodyLeft terminal 0 io

  cut_oversized-BodyLeft : (io : Inspector) → BodyLeft io.state → BodyLeft (cut_oversized io).state
  cut_oversized-BodyLeft io left = elim (Bool-cases (leb io.max_head_bytes (length io.head))) [
    | inl over ↦ rw (over) (finish_head-BodyLeft terminal 0 io)
    | inr room ↦ rw (room) left
  ]

  buffered_head-Progresses :
      (io : Inspector) (parsed : HeadParse) (n : ℕ)
      → 0 < length io.head
      → length io.head ≤ n
      → Long parsed
      → BodyLeft io.state
      → Progresses n (buffered_head parse io parsed)
  buffered_head-Progresses io (complete_head k verdict m) n some_head short long left = (
    omega (arith, finish_head-head verdict m (reset_head_buffer io), length-drop k io.head),
    finish_head-BodyLeft verdict m (reset_head_buffer io),
  )
  buffered_head-Progresses io partial_head n some_head short long left =
      cut_oversized-BodyLeft io left
  buffered_head-Progresses io invalid_head n some_head short long left =
      finish_head-BodyLeft terminal 0 io

  is_empty-length : (s : Bytes) → is_empty s ≡ false → 0 < length s
  is_empty-length [] h = absurd (cc)
  is_empty-length (c ∷ s) h = omega arith

  extended_head-Progresses :
      (io : Inspector) (n : ℕ)
      → length io.head ≤ n
      → BodyLeft io.state
      → Progresses n (extended_head parse io)
  extended_head-Progresses io n short left = elim (Bool-cases (is_empty io.head)) [
    | inl nothing ↦ rw (nothing) left
    | inr some_head ↦ elim (Bool-cases (contains_head_terminator io.head io.head_scanned)) [
      | inl whole ↦
          rw (some_head, whole)
            (buffered_head-Progresses io (inspect_head parse io.head io.max_headers) n
              (is_empty-length io.head some_head) short (inspect_head-Long io.head io.max_headers)
              left)
      | inr part ↦
          rw (some_head, part)
            (cut_oversized-BodyLeft (record io { head_scanned = length io.head }) left)
    ]
  ]

  pub round_in-Progresses :
      (input : Bytes) (io : Inspector) (state : InspectState)
      → 0 < length input
      → BodyLeft state
      → io.state ≡ state
      → Progresses (before input io) (round_in parse state input io)
  unfolding extend_head
  round_in-Progresses input io passthrough some_input left e = rw (e) tt
  round_in-Progresses input io (body_state n) some_input left e =
      let skipped = min n (length input) in
      let some_skipped : 0 < skipped = omega arith in
      (omega (arith, length-drop skipped input), body_left-BodyLeft (n - skipped))
  round_in-Progresses input io head_state some_input left e = elim (Bool-cases (is_empty io.head)) [
    | inl nothing ↦ rw (nothing) (
        fresh_head-Progresses input io (inspect_head parse input io.max_headers) some_input
          (inspect_head-Long input io.max_headers) (rw (e) tt))
    | inr some_head ↦ rw (some_head) (
        extended_head-Progresses (extend_head input io) (before input io) (leading-zero input io)
          (rw (e) tt))
  ]

module _ (parse : ℕ → Bytes → ParseStatus) where
  -- The runs of the loop that come to an end: the bytes, the state before and the state behind.
  pub data Loops : Bytes → Inspector → Inspector → Type 0 where
    done : (io : Inspector) → Loops [] io io
    last :
        (byte : ℕ) (input : Bytes) (io after : Inspector)
        → round_in parse io.state (byte ∷ input) io ≡ ends after
        → Loops (byte ∷ input) io after
    again :
        (byte : ℕ) (input : Bytes) (io : Inspector) (rest : Bytes) (next after : Inspector)
        → round_in parse io.state (byte ∷ input) io ≡ goes_on rest next
        → Loops rest next after
        → Loops (byte ∷ input) io after

  -- What the loop makes of a round.
  abbrev behind : ℕ → Round → Inspector
  behind fuel (ends after) = after
  behind fuel (goes_on rest next) = observe parse fuel rest next

  behind-observe :
      (fuel byte : ℕ) (input : Bytes) (io : Inspector)
      → observe parse (suc fuel) (byte ∷ input) io
        ≡ behind fuel (round_in parse io.state (byte ∷ input) io)
  unfolding observe
  behind-observe fuel byte input io = go (round_in parse io.state (byte ∷ input) io)
    where
      go :
          (round : Round)
          → elim round [ ends after ↦ after | goes_on rest after ↦ observe parse fuel rest after ]
            ≡ behind fuel round
      go (ends after) = refl
      go (goes_on rest next) = refl

  round-Loops :
      (fuel byte : ℕ) (input : Bytes) (io : Inspector) (round : Round)
      → ((rest : Bytes) (next : Inspector)
          → before rest next < fuel
          → BodyLeft next.state
          → Loops rest next (observe parse fuel rest next)
            × BodyLeft (observe parse fuel rest next).state)
      → round_in parse io.state (byte ∷ input) io ≡ round
      → before (byte ∷ input) io ≤ fuel
      → Progresses (before (byte ∷ input) io) round
      → Loops (byte ∷ input) io (behind fuel round) × BodyLeft (behind fuel round).state
  round-Loops fuel byte input io (ends after) ih e enough progress =
      (last byte input io after e, progress)
  round-Loops fuel byte input io (goes_on rest next) ih e enough progress =
      let (loops, left) = ih rest next (omega (arith, progress.0)) progress.1 in
      (again byte input io rest next _ e loops, left)

  module _ (consumes : Consumes parse) where
    observe-Loops :
        (fuel : ℕ) (input : Bytes) (io : Inspector)
        → before input io < fuel
        → BodyLeft io.state
        → Loops input io (observe parse fuel input io)
          × BodyLeft (observe parse fuel input io).state
    unfolding observe
    observe-Loops zero input io enough left = absurd (omega arith)
    observe-Loops (suc fuel) [] io enough left = (done io, left)
    observe-Loops (suc fuel) (byte ∷ input) io enough left =
        let round = round_in parse io.state (byte ∷ input) io in
        rw (behind-observe fuel byte input io) (
          round-Loops fuel byte input io round (λ rest next. observe-Loops fuel rest next) refl
            (omega arith)
            (round_in-Progresses parse consumes (byte ∷ input) io io.state (omega arith) left refl))

    -- Where the parser consumes a byte at least of each complete head, and a body that is being skipped has bytes left, the
    -- loop of `observe` comes to an end on the bytes of every read, with the state that `poll_read` answers, and again no
    -- body is left empty.
    pub poll_read-Loops :
        (input : Bytes) (io : Inspector)
        → BodyLeft io.state
        → Loops input io (poll_read parse input io) × BodyLeft (poll_read parse input io).state
    unfolding poll_read
    poll_read-Loops input io left =
        observe-Loops (length io.head + length input + 1) input io (omega arith) left
