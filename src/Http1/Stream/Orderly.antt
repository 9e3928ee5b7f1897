-- ===== src/Http1/Stream/Orderly.antt =====
-- The queue of verdicts in src/app/http1.rs: the order that `observe` keeps in it.
use rustrest.Prelude.{
  ℕ, zero, suc, ◌-◌, ◌≤◌, ◌≡◌, refl, inl, inr, Bool, true, false, List, [], ◌∷◌, ◌++◌, arith, leb,
  is_empty, length, min, Bool-cases, length-append, ◌&&◌, ◌||◌,
}
use rustrest.Text.{Bytes}
use rustrest.Http1.{
  HeadVerdict, persistent, terminal, ambiguous, unclassified, HeadParse, complete_head,
  partial_head, invalid_head, ParseStatus, complete, partial, invalid, push, inspect_head, classify,
  max_pending_verdicts, verdict_of, Found, found_nothing, scan_headers, is_connect,
}
use rustrest.Http1.Stream.{
  InspectState, head_state, body_state, passthrough, Inspector, Round, ends, goes_on, next_state,
  in_state, finish_head, extend_head, buffer_partial_head, contains_head_terminator, buffered_head,
  fresh_head, extended_head, round_in, body_left, reset_head_buffer, cut_oversized,
}
use rustrest.Http1.Stream.Rounds.{Loops, done, last, again}

abbrev pub is_open : InspectState → Bool
is_open head_state = true
is_open (body_state n) = true
is_open passthrough = false

-- A verdict other than `persistent` is the last one, and stands there only when no head is inspected any more.
abbrev pub Orderly : Bool → List HeadVerdict → Type 0
Orderly inspecting [] = Unit
Orderly inspecting (persistent ∷ verdicts) = Orderly inspecting verdicts
Orderly inspecting (terminal ∷ verdicts) = (inspecting ≡ false) × (verdicts ≡ [])
Orderly inspecting (ambiguous ∷ verdicts) = (inspecting ≡ false) × (verdicts ≡ [])
Orderly inspecting (unclassified ∷ verdicts) = ⊥

pub record IsOrderly (io : Inspector) : Type 0 where
  pub orderly : Orderly (is_open io.state) io.verdicts
  pub bounded : length io.verdicts ≤ max_pending_verdicts

-- The verdicts that an inspected head can have.
abbrev Inspected : HeadVerdict → Type 0
Inspected persistent = Unit
Inspected terminal = Unit
Inspected ambiguous = Unit
Inspected unclassified = ⊥

abbrev stays_open : HeadVerdict → Bool
stays_open persistent = true
stays_open terminal = false
stays_open ambiguous = false
stays_open unclassified = false

Orderly-closed : (verdicts : List HeadVerdict) → Orderly true verdicts → Orderly false verdicts
Orderly-closed [] h = tt
Orderly-closed (persistent ∷ verdicts) h = Orderly-closed verdicts h
Orderly-closed (terminal ∷ verdicts) h = (refl, h.1)
Orderly-closed (ambiguous ∷ verdicts) h = (refl, h.1)
Orderly-closed (unclassified ∷ verdicts) h = h

Orderly-append :
    (verdicts : List HeadVerdict) (v : HeadVerdict)
    → Orderly true verdicts
    → Inspected v
    → Orderly (stays_open v) (verdicts ++ v ∷ [])
Orderly-append [] persistent h i = tt
Orderly-append [] terminal h i = (refl, refl)
Orderly-append [] ambiguous h i = (refl, refl)
Orderly-append [] unclassified h i = i
Orderly-append (persistent ∷ verdicts) v h i = Orderly-append verdicts v h i
Orderly-append (terminal ∷ verdicts) v h i = absurd (let no = h.0 in cc)
Orderly-append (ambiguous ∷ verdicts) v h i = absurd (let no = h.0 in cc)
Orderly-append (unclassified ∷ verdicts) v h i = absurd h

is_open-accepted : (v : HeadVerdict) (n : ℕ) → is_open (next_state v true n) ≡ stays_open v
is_open-accepted persistent zero = refl
is_open-accepted persistent (suc n) = refl
is_open-accepted terminal n = refl
is_open-accepted ambiguous n = refl
is_open-accepted unclassified n = refl

is_open-refused : (v : HeadVerdict) (n : ℕ) → is_open (next_state v false n) ≡ false
is_open-refused persistent n = refl
is_open-refused terminal n = refl
is_open-refused ambiguous n = refl
is_open-refused unclassified n = refl

in_state-IsOrderly :
    (state : InspectState) (io : Inspector)
    → Orderly (is_open state) io.verdicts
    → length io.verdicts ≤ max_pending_verdicts
    → IsOrderly (in_state state io)
in_state-IsOrderly head_state io h b = record { orderly = h; bounded = b }
in_state-IsOrderly (body_state n) io h b = record { orderly = h; bounded = b }
in_state-IsOrderly passthrough io h b = record { orderly = h; bounded = b }

finish_head-IsOrderly :
    (v : HeadVerdict) (n : ℕ) (io : Inspector)
    → Inspected v
    → Orderly true io.verdicts
    → length io.verdicts ≤ max_pending_verdicts
    → IsOrderly (finish_head v n io)
unfolding finish_head push
finish_head-IsOrderly v n io i h b =
    elim (Bool-cases (leb max_pending_verdicts (length io.verdicts))) [
      | inl full ↦
          let closed = Orderly-closed io.verdicts h in
          rw (full)
            (in_state-IsOrderly (next_state v false n) io (rw (is_open-refused v n) closed) b)
      | inr room ↦
          let verdicts = io.verdicts ++ v ∷ [] in
          rw (room) (
            in_state-IsOrderly (next_state v true n) (record io { verdicts = verdicts })
              (rw (is_open-accepted v n) (Orderly-append io.verdicts v h i))
              (ground (arith, length-append io.verdicts (v ∷ []))))
    ]

-- The verdict of a head is none that only the empty queue answers.
abbrev HeadInspected : HeadParse → Type 0
HeadInspected (complete_head length verdict n) = Inspected verdict
HeadInspected partial_head = Unit
HeadInspected invalid_head = Unit

verdict_of-Inspected : (found : Found) (connect : Bool) → Inspected (verdict_of found connect)
verdict_of-Inspected found connect =
    elim (Bool-cases (found.transfer_encoding && found.content_length_present)) [
      | inl both ↦ rw (both) tt
      | inr not_both ↦
          elim (Bool-cases
            (found.transfer_encoding || found.upgrade || connect || found.invalid_content_length)) [
              | inl stops ↦ rw (not_both, stops) tt
              | inr tracks ↦ rw (not_both, tracks) tt
            ]
    ]

classify-HeadInspected : (status : ParseStatus) → HeadInspected (classify status)
unfolding classify
classify-HeadInspected (complete length request) =
    verdict_of-Inspected (scan_headers found_nothing request.headers) (is_connect request.method)
classify-HeadInspected partial = tt
classify-HeadInspected invalid = tt

abbrev RoundOrderly : Round → Type 0
RoundOrderly (ends after) = IsOrderly after
RoundOrderly (goes_on rest next) = IsOrderly next

-- An inspector that still inspects heads, with its queue.
record Inspecting (io : Inspector) : Type 0 where
  inspects : is_open io.state ≡ true
  all_persistent : Orderly true io.verdicts
  bounded : length io.verdicts ≤ max_pending_verdicts

Inspecting-IsOrderly : (io : Inspector) → Inspecting io → IsOrderly io
Inspecting-IsOrderly io h = record {
  orderly = rw (h.inspects) h.all_persistent;
  bounded = h.bounded;
}

module _ (parse : ℕ → Bytes → ParseStatus) where
  inspect_head-HeadInspected :
      (bytes : Bytes) (max_headers : ℕ) → HeadInspected (inspect_head parse bytes max_headers)
  unfolding inspect_head
  inspect_head-HeadInspected bytes max_headers = classify-HeadInspected (parse max_headers bytes)

  fresh_head-IsOrderly :
      (input : Bytes) (io : Inspector) (parsed : HeadParse)
      → HeadInspected parsed
      → Inspecting io
      → RoundOrderly (fresh_head parse input io parsed)
  unfolding buffer_partial_head
  fresh_head-IsOrderly input io (complete_head n v m) i h =
      finish_head-IsOrderly v m io i h.all_persistent h.bounded
  fresh_head-IsOrderly input io partial_head i h =
      elim (Bool-cases (leb io.max_head_bytes (length input))) [
        | inl over ↦ rw (over) (finish_head-IsOrderly terminal 0 io tt h.all_persistent h.bounded)
        | inr room ↦
            rw (room) (record { orderly = rw (h.inspects) h.all_persistent; bounded = h.bounded })
      ]
  fresh_head-IsOrderly input io invalid_head i h =
      finish_head-IsOrderly terminal 0 io tt h.all_persistent h.bounded

  cut_oversized-IsOrderly : (io : Inspector) → Inspecting io → IsOrderly (cut_oversized io)
  cut_oversized-IsOrderly io h = elim (Bool-cases (leb io.max_head_bytes (length io.head))) [
    | inl over ↦ rw (over) (finish_head-IsOrderly terminal 0 io tt h.all_persistent h.bounded)
    | inr room ↦ rw (room) (Inspecting-IsOrderly io h)
  ]

  buffered_head-IsOrderly :
      (io : Inspector) (parsed : HeadParse)
      → HeadInspected parsed
      → Inspecting io
      → RoundOrderly (buffered_head parse io parsed)
  buffered_head-IsOrderly io (complete_head n v m) i h =
      finish_head-IsOrderly v m (reset_head_buffer io) i h.all_persistent h.bounded
  buffered_head-IsOrderly io partial_head i h = cut_oversized-IsOrderly io h
  buffered_head-IsOrderly io invalid_head i h =
      finish_head-IsOrderly terminal 0 io tt h.all_persistent h.bounded

  extended_head-IsOrderly : (io : Inspector) → Inspecting io → RoundOrderly (extended_head parse io)
  extended_head-IsOrderly io h = elim (Bool-cases (is_empty io.head)) [
    | inl nothing ↦ rw (nothing) (Inspecting-IsOrderly io h)
    | inr some_head ↦ elim (Bool-cases (contains_head_terminator io.head io.head_scanned)) [
      | inl whole ↦
          rw (some_head, whole)
            (buffered_head-IsOrderly io (inspect_head parse io.head io.max_headers)
              (inspect_head-HeadInspected io.head io.max_headers) h)
      | inr part ↦
          rw (some_head, part)
            (cut_oversized-IsOrderly (record io { head_scanned = length io.head })
              (record {
                inspects = h.inspects;
                all_persistent = h.all_persistent;
                bounded = h.bounded;
              }))
    ]
  ]

  body_left-is_open : (n : ℕ) → is_open (body_left n) ≡ true
  body_left-is_open zero = refl
  body_left-is_open (suc n) = refl

  round_in-IsOrderly :
      (input : Bytes) (io : Inspector) (state : InspectState)
      → io.state ≡ state
      → IsOrderly io
      → RoundOrderly (round_in parse state input io)
  unfolding extend_head
  round_in-IsOrderly input io passthrough e h = h
  round_in-IsOrderly input io (body_state n) e h =
      let persistent_only : Orderly true io.verdicts = rw (e) at h.orderly in
      record {
        orderly = rw (body_left-is_open (n - min n (length input))) persistent_only;
        bounded = h.bounded;
      }
  round_in-IsOrderly input io head_state e h =
      let persistent_only : Orderly true io.verdicts = rw (e) at h.orderly in
      elim (Bool-cases (is_empty io.head)) [
        | inl nothing ↦ rw (nothing) (
            fresh_head-IsOrderly input io (inspect_head parse input io.max_headers)
              (inspect_head-HeadInspected input io.max_headers)
              (record { inspects = rw (e); all_persistent = persistent_only; bounded = h.bounded }))
        | inr some_head ↦ rw (some_head) (
            extended_head-IsOrderly (extend_head input io)
              (record { inspects = rw (e); all_persistent = persistent_only; bounded = h.bounded }))
      ]

  pub Loops-IsOrderly :
      (input : Bytes) (io after : Inspector)
      → Loops parse input io after
      → IsOrderly io
      → IsOrderly after
  Loops-IsOrderly _ _ _ (done io) h = h
  Loops-IsOrderly _ io after (last byte input _ _ e) h =
      rw (e) at (round_in-IsOrderly (byte ∷ input) io io.state refl h)
  Loops-IsOrderly _ io after (again byte input _ rest next _ e loops) h =
      Loops-IsOrderly rest next after loops
        (rw (e) at (round_in-IsOrderly (byte ∷ input) io io.state refl h))
