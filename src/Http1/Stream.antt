-- ===== src/Http1/Stream.antt =====
-- `Http1InspectedIo` in src/app/http1.rs: `observe` and what it calls, on the bytes of each read.
-- The queue that the inspector shares with the service is a field of the state. A buffer's
-- capacity is left out. The loop runs on fuel.
pub mod Orderly
pub mod Rounds
pub mod Service
use rustrest.Prelude.{
  ℕ, zero, suc, ◌+◌, ◌-◌, Bool, true, false, ◌&&◌, ◌||◌, List, [], ◌∷◌, ◌++◌, leb, nat_eq,
  if◌then◌else◌, is_empty, length, drop, min,
}
use rustrest.Text.{Bytes}
use rustrest.Http1.{
  HeadVerdict, persistent, terminal, ambiguous, unclassified, HeadParse, complete_head,
  partial_head, invalid_head, ParseStatus, push, inspect_head, next_verdict,
}

pub data InspectState : Type 0 where
  head_state : InspectState
  body_state : ℕ → InspectState
  passthrough : InspectState

pub record Inspector : Type 0 where
  pub verdicts : List HeadVerdict
  pub state : InspectState
  pub head : Bytes
  pub head_scanned : ℕ
  pub max_head_bytes : ℕ
  pub max_headers : ℕ

unfoldable pub new_inspector : ℕ → ℕ → Inspector
new_inspector max_head_bytes max_headers = record {
  verdicts = [];
  state = head_state;
  head = [];
  head_scanned = 0;
  max_head_bytes = max_head_bytes;
  max_headers = max_headers;
}

-- The empty lines at the start of a buffer.
unfoldable pub leading_empty_lines : Bytes → ℕ
leading_empty_lines [] = 0
leading_empty_lines (a ∷ []) = if nat_eq a b'\n' then 1 else 0
leading_empty_lines (a ∷ b ∷ s) =
    let behind_two = leading_empty_lines s in
    let behind_one = leading_empty_lines (b ∷ s) in
    if nat_eq a b'\r' && nat_eq b b'\n'
    then behind_two + 2
    else if nat_eq a b'\n'
    then behind_one + 1
    else 0

-- The buffer that is left, and the number of bytes removed.
abbrev pub trim_leading_empty_lines : Bytes → Bytes × ℕ
trim_leading_empty_lines buffer =
    (drop (leading_empty_lines buffer) buffer, leading_empty_lines buffer)

-- An empty line, `\n\n` or `\n\r\n`, somewhere in the bytes.
unfoldable pub has_empty_line : Bytes → Bool
has_empty_line [] = false
has_empty_line (a ∷ []) = false
has_empty_line (a ∷ b ∷ []) = nat_eq a b'\n' && nat_eq b b'\n'
has_empty_line (a ∷ b ∷ c ∷ s) =
    nat_eq a b'\n' && nat_eq b b'\n'
    || nat_eq a b'\n' && nat_eq b b'\r' && nat_eq c b'\n'
    || has_empty_line (b ∷ c ∷ s)

unfoldable pub contains_head_terminator : Bytes → ℕ → Bool
unfolding has_empty_line
contains_head_terminator bytes scanned = has_empty_line (drop (scanned - 2) bytes)

abbrev pub next_state : HeadVerdict → Bool → ℕ → InspectState
next_state persistent true zero = head_state
next_state persistent true (suc n) = body_state (suc n)
next_state persistent false n = passthrough
next_state terminal accepted n = passthrough
next_state ambiguous accepted n = passthrough
next_state unclassified accepted n = passthrough

-- The buffer of a head is dropped when no further head will be served.
abbrev pub in_state : InspectState → Inspector → Inspector
in_state passthrough io = record io { state = passthrough; head = []; head_scanned = 0 }
in_state head_state io = record io { state = head_state }
in_state (body_state n) io = record io { state = body_state n }

unfoldable pub finish_head : HeadVerdict → ℕ → Inspector → Inspector
unfolding push
finish_head verdict body_length io =
    let (verdicts, accepted) = push verdict io.verdicts in
    in_state (next_state verdict accepted body_length) (record io { verdicts = verdicts })

unfoldable pub buffer_partial_head : Bytes → Inspector → Inspector
unfolding finish_head leading_empty_lines
buffer_partial_head bytes io =
    let trimmed = trim_leading_empty_lines (io.head ++ bytes) in
    if leb io.max_head_bytes (length bytes)
    then finish_head terminal 0 io
    else record io { head = trimmed.0; head_scanned = length trimmed.0 }

abbrev pub reset_head_buffer : Inspector → Inspector
reset_head_buffer io = record io { head = []; head_scanned = 0 }

-- The state behind `skipped` bytes of a body.
abbrev pub body_left : ℕ → InspectState
body_left zero = head_state
body_left (suc n) = body_state (suc n)

-- A head that has become too large is terminal.
abbrev pub cut_oversized : Inspector → Inspector
cut_oversized io = if leb io.max_head_bytes (length io.head) then finish_head terminal 0 io else io

-- Bytes behind a head of which a part is buffered.
unfoldable pub extend_head : Bytes → Inspector → Inspector
unfolding leading_empty_lines
extend_head input io =
    let trimmed = trim_leading_empty_lines (io.head ++ input) in
    record io { head = trimmed.0; head_scanned = io.head_scanned - trimmed.1 }

-- What a round of the loop does: it ends, or goes on with the bytes that are left.
pub data Round : Type 0 where
  ends : Inspector → Round
  goes_on : Bytes → Inspector → Round

module _ (parse : ℕ → Bytes → ParseStatus) where
  -- A head at the start of a read.
  abbrev pub fresh_head : Bytes → Inspector → HeadParse → Round
  fresh_head input io (complete_head length verdict body_length) =
      goes_on (drop length input) (finish_head verdict body_length io)
  fresh_head input io partial_head = ends (buffer_partial_head input io)
  fresh_head input io invalid_head = ends (finish_head terminal 0 io)

  -- A head of which a part was buffered, and that may be complete now.
  abbrev pub buffered_head : Inspector → HeadParse → Round
  buffered_head io (complete_head length verdict body_length) =
      goes_on (drop length io.head) (finish_head verdict body_length (reset_head_buffer io))
  buffered_head io partial_head = ends (cut_oversized io)
  buffered_head io invalid_head = ends (finish_head terminal 0 io)

  abbrev pub extended_head : Inspector → Round
  extended_head io =
      if is_empty io.head
      then ends io
      else if contains_head_terminator io.head io.head_scanned
      then buffered_head io (inspect_head parse io.head io.max_headers)
      else ends (cut_oversized (record io { head_scanned = length io.head }))

  abbrev pub round_in : InspectState → Bytes → Inspector → Round
  round_in passthrough input io = ends io
  round_in (body_state remaining) input io =
      let skipped = min remaining (length input) in
      goes_on (drop skipped input) (record io { state = body_left (remaining - skipped) })
  round_in head_state input io =
      if is_empty io.head
      then fresh_head input io (inspect_head parse input io.max_headers)
      else extended_head (extend_head input io)

  unfoldable pub observe : ℕ → Bytes → Inspector → Inspector
  unfolding finish_head buffer_partial_head extend_head contains_head_terminator inspect_head
  observe zero input io = io
  observe (suc fuel) [] io = io
  observe (suc fuel) (byte ∷ input) io = elim (round_in io.state (byte ∷ input) io) [
    | ends after ↦ after
    | goes_on rest after ↦ observe fuel rest after
  ]

  -- The bytes of one read. Every round but the last takes a byte at least out of the buffer and the
  -- input.
  unfoldable pub poll_read : Bytes → Inspector → Inspector
  unfolding observe
  poll_read input io = observe (length io.head + length input + 1) input io

-- The service takes the verdict on the request that it is to answer.
abbrev pub take_verdict : Inspector → Inspector × HeadVerdict
take_verdict io =
    let (pending, verdict) = next_verdict io.verdicts in (record io { verdicts = pending }, verdict)
