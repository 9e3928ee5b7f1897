-- ===== src/Http1/Stream/Service.antt =====
-- What the service finds in the queue of verdicts of src/app/http1.rs, whatever a client sends and
-- however the bytes are split into reads.
use rustrest.Prelude.{
  ℕ, zero, suc, ◌+◌, ◌≤◌, ◌≡◌, refl, ap, inl, inr, Bool, false, List, [], ◌∷◌, arith, length, ◌⊎◌,
}
use rustrest.Text.{Bytes}
use rustrest.Http1.{
  HeadVerdict, persistent, terminal, ambiguous, unclassified, ParseStatus, max_pending_verdicts,
  next_verdict,
}
use rustrest.Http1.Stream.{
  InspectState, head_state, body_state, passthrough, Inspector, observe, poll_read, take_verdict,
  new_inspector,
}
use rustrest.Http1.Stream.Rounds.{Consumes, BodyLeft, poll_read-Loops}
use rustrest.Http1.Stream.Orderly.{is_open, Orderly, IsOrderly, Loops-IsOrderly}

module _ (parse : ℕ → Bytes → ParseStatus) where
  -- What happens to an inspector: the bytes of a read arrive, or the service takes a verdict.
  pub data Step : Inspector → Inspector → Type 0 where
    reads : (input : Bytes) (io : Inspector) → Step io (poll_read parse input io)
    takes : (io : Inspector) → Step io (take_verdict io).0

  -- The inspectors that follow from one.
  pub data Leads (io : Inspector) : Inspector → Type 0 where
    here : Leads io io
    then_step : (mid after : Inspector) → Leads io mid → Step mid after → Leads io after

  take_verdict-IsOrderly : (io : Inspector) → IsOrderly io → IsOrderly (take_verdict io).0
  take_verdict-IsOrderly io h = record {
    orderly = popped (is_open io.state) io.verdicts h.orderly;
    bounded = shorter io.verdicts h.bounded;
  }
    where
      popped :
          (inspecting : Bool) (verdicts : List HeadVerdict)
          → Orderly inspecting verdicts
          → Orderly inspecting (next_verdict verdicts).0
      popped inspecting [] h = tt
      popped inspecting (persistent ∷ verdicts) h = h
      popped inspecting (terminal ∷ verdicts) h = rw (h.1) tt
      popped inspecting (ambiguous ∷ verdicts) h = rw (h.1) tt
      popped inspecting (unclassified ∷ verdicts) h = absurd h

      shorter :
          (verdicts : List HeadVerdict)
          → length verdicts ≤ max_pending_verdicts
          → length (next_verdict verdicts).0 ≤ max_pending_verdicts
      shorter [] h = h
      shorter (v ∷ verdicts) h = omega arith

  module _ (consumes : Consumes parse) where
    poll_read-IsOrderly :
        (input : Bytes) (io : Inspector)
        → BodyLeft io.state
        → IsOrderly io
        → IsOrderly (poll_read parse input io)
    poll_read-IsOrderly input io left h =
        Loops-IsOrderly parse input io (poll_read parse input io)
          (poll_read-Loops parse consumes input io left).0 h

    Step-IsOrderly :
        (io after : Inspector)
        → Step io after
        → IsOrderly io × BodyLeft io.state
        → IsOrderly after × BodyLeft after.state
    Step-IsOrderly _ _ (reads input io) (h, left) =
        (poll_read-IsOrderly input io left h, (poll_read-Loops parse consumes input io left).1)
    Step-IsOrderly _ _ (takes io) (h, left) = (take_verdict-IsOrderly io h, left)

    Leads-IsOrderly :
        (io after : Inspector)
        → Leads io after
        → IsOrderly io × BodyLeft io.state
        → IsOrderly after × BodyLeft after.state
    Leads-IsOrderly io _ here h = h
    Leads-IsOrderly io after (then_step mid _ leads step) h =
        Step-IsOrderly mid after step (Leads-IsOrderly io mid leads h)

    new_inspector-IsOrderly :
        (max_head_bytes max_headers : ℕ)
        → IsOrderly (new_inspector max_head_bytes max_headers)
          × BodyLeft (new_inspector max_head_bytes max_headers).state
    unfolding new_inspector
    new_inspector-IsOrderly max_head_bytes max_headers =
        (record { orderly = tt; bounded = omega arith }, tt)

    -- Where the parser consumes a byte at least of each complete head, whatever reads and requests follow a new inspector,
    -- every waiting verdict but the last is `persistent`, the last one too while heads are inspected, and at most 256 wait.
    pub verdicts-IsOrderly :
        (max_head_bytes max_headers : ℕ) (io : Inspector)
        → Leads (new_inspector max_head_bytes max_headers) io
        → IsOrderly io
    verdicts-IsOrderly max_head_bytes max_headers io leads =
        (Leads-IsOrderly (new_inspector max_head_bytes max_headers) io leads
          (new_inspector-IsOrderly max_head_bytes max_headers)).0

  -- No head is inspected any more, and no verdict waits.
  record IsClosed (io : Inspector) : Type 0 where
    stopped : io.state ≡ passthrough
    empty : io.verdicts ≡ []

  popped_last :
      (inspecting : Bool) (verdicts : List HeadVerdict)
      → Orderly inspecting verdicts
      → ((next_verdict verdicts).1 ≡ terminal) ⊎ ((next_verdict verdicts).1 ≡ ambiguous)
      → (inspecting ≡ false) × ((next_verdict verdicts).0 ≡ [])
  popped_last inspecting [] h v = elim v [ inl e ↦ absurd (cc) | inr e ↦ absurd (cc) ]
  popped_last inspecting (persistent ∷ verdicts) h v = elim v [
    | inl e ↦ absurd (cc)
    | inr e ↦ absurd (cc)
  ]
  popped_last inspecting (terminal ∷ verdicts) h v = h
  popped_last inspecting (ambiguous ∷ verdicts) h v = h
  popped_last inspecting (unclassified ∷ verdicts) h v = absurd h

  not_open : (state : InspectState) → is_open state ≡ false → state ≡ passthrough
  not_open head_state h = cc
  not_open (body_state n) h = cc
  not_open passthrough h = refl

  observe-passthrough :
      (fuel : ℕ) (input : Bytes) (io : Inspector)
      → io.state ≡ passthrough
      → observe parse fuel input io ≡ io
  unfolding observe
  observe-passthrough zero input io e = refl
  observe-passthrough (suc fuel) [] io e = refl
  observe-passthrough (suc fuel) (byte ∷ input) io e = rw (observe, e)

  Step-IsClosed : (io after : Inspector) → Step io after → IsClosed io → IsClosed after
  unfolding poll_read
  Step-IsClosed _ _ (reads input io) h =
      rw (observe-passthrough (length io.head + length input + 1) input io h.stopped) h
  Step-IsClosed _ _ (takes io) h = record {
    stopped = h.stopped;
    empty = ap (λ (v : List HeadVerdict). (next_verdict v).0) h.empty;
  }

  Leads-IsClosed : (io after : Inspector) → Leads io after → IsClosed io → IsClosed after
  Leads-IsClosed io _ here h = h
  Leads-IsClosed io after (then_step mid _ leads step) h =
      Step-IsClosed mid after step (Leads-IsClosed io mid leads h)

  -- Where the parser consumes a byte at least of each complete head: once the service took a verdict `terminal` or
  -- `ambiguous`, whatever arrives later, every later verdict is `unclassified`.
  pub verdicts-close :
      (consumes : Consumes parse) (max_head_bytes max_headers : ℕ) (io after : Inspector)
      → Leads (new_inspector max_head_bytes max_headers) io
      → ((take_verdict io).1 ≡ terminal) ⊎ ((take_verdict io).1 ≡ ambiguous)
      → Leads (take_verdict io).0 after
      → (take_verdict after).1 ≡ unclassified
  verdicts-close consumes max_head_bytes max_headers io after leads last_verdict later =
      let h = verdicts-IsOrderly consumes max_head_bytes max_headers io leads in
      let (stopped, empty) = popped_last (is_open io.state) io.verdicts h.orderly last_verdict in
      let closed : IsClosed (take_verdict io).0 = record {
        stopped = not_open io.state stopped;
        empty = empty;
      } in
      let closed' = Leads-IsClosed (take_verdict io).0 after later closed in
      ap (λ (v : List HeadVerdict). (next_verdict v).1) closed'.empty
