-- ===== src/Static/Delivery.antt =====
-- The body of a static file in src/app/router.rs has the bytes that `content-length` announces, or it
-- breaks off with an error.
use rustrest.Prelude.{
  ℕ, zero, suc, ◌+◌, ◌-◌, ◌≤◌, ◌<◌, ◌≡◌, ◌⊎◌, refl, ◌∙◌, inl, inr, Bool, true, false, List, [], ◌∷◌,
  min, nat_eq, ltb, if◌then◌else◌, is_empty, length, take, drop, ok, err, arith, Bool-cases,
}
use rustrest.Text.{Bytes}
use rustrest.Static.Stream.{
  Surroundings, ReadOutcome, read_bytes, read_failed, abandoned, StreamError, Item, unexpected_eof,
  read_error, start_timed_out, last_item, chunk_limit, produce, StaticStreamState, pending, active,
  finished, receive, next_item, Yields, ends, gives, FromFile, Delivers,
}

-- What the producer sends: the file's next bytes, `n` at most, and at most one error, at the end.
abbrev Sends : Bytes → ℕ → ℕ → List Item → Type 0
Sends content position n [] = Unit
Sends content position n (ok bytes ∷ items) =
    (0 < length bytes)
    × (length bytes ≤ n)
    × (bytes ≡ take (length bytes) (drop position content))
    × Sends content (position + length bytes) (n - length bytes) items
Sends content position n (err error ∷ items) = (0 < n) × (items ≡ [])

last_item-Sends :
    (content : Bytes) (position n : ℕ) (sent : Bool) (error : StreamError)
    → 0 < n
    → Sends content position n (last_item sent error)
last_item-Sends content position n true error h = (h, refl)
last_item-Sends content position n false error h = tt

module _ (env : Surroundings) (content : Bytes)
    (from_file : (turn position room : ℕ)
      → FromFile content position room (env.read turn position room)) where
  produce-Sends :
      (fuel turn position n : ℕ) → Sends content position n (produce env fuel turn position n)
  unfolding produce
  produce-Sends zero turn position n = tt
  produce-Sends (suc fuel) turn position n = elim (Bool-cases (nat_eq n 0)) [
    | inl done ↦ rw (done) tt
    | inr bytes_left ↦ elim (Bool-cases (env.is_late turn)) [
      | inl late ↦ rw (bytes_left, late) tt
      | inr early ↦
          rw (bytes_left, early)
            (go (ground arith) (env.read turn position (min n chunk_limit))
              (from_file turn position (min n chunk_limit)) (Bool-cases (env.is_sent turn))
              (λ p k. produce-Sends fuel (turn + 1) p k))
    ]
  ]
    where
      go :
          0 < n
          → (outcome : ReadOutcome) → FromFile content position (min n chunk_limit) outcome
          → (env.is_sent turn ≡ true) ⊎ (env.is_sent turn ≡ false)
          → ((p k : ℕ) → Sends content p k (produce env fuel (turn + 1) p k))
          → Sends content position n (elim outcome [
            | read_bytes bytes ↦
                if is_empty bytes
                then last_item (env.is_sent turn) unexpected_eof
                else if env.is_sent turn
                then ok bytes
                  ∷ produce env fuel (turn + 1) (position + length bytes) (n - length bytes)
                else []
            | read_failed ↦ last_item (env.is_sent turn) read_error
            | abandoned ↦ []
          ])
      go some_left (read_bytes []) fits sent rest =
          last_item-Sends content position n (env.is_sent turn) unexpected_eof some_left
      go some_left (read_bytes (c ∷ s)) fits (inl sent) rest = rw (sent) (
        omega arith,
        (let room = fits.0 in omega arith),
        fits.1,
        rest (position + length (c ∷ s)) (n - length (c ∷ s)),
      )
      go some_left (read_bytes (c ∷ s)) fits (inr lost) rest = rw (lost) tt
      go some_left read_failed fits sent rest =
          last_item-Sends content position n (env.is_sent turn) read_error some_left
      go some_left abandoned fits sent rest = tt

  abbrev pub Delivered : StaticStreamState → ℕ → ℕ → Type 0
  Delivered state position n =
      (items : List Item) × Yields env state items × Delivers content position n items

  finished-Yields : Yields env finished []
  unfolding next_item
  finished-Yields = ends finished refl

  active-Delivered :
      (items : List Item) (position n : ℕ)
      → Sends content position n items
      → Delivered (active items n) position n
  unfolding next_item receive
  active-Delivered [] position n h = elim (Bool-cases (ltb 0 n)) [
    | inl short ↦ (
      err unexpected_eof ∷ [],
      gives (active [] n) finished (err unexpected_eof) [] (rw (short)) finished-Yields,
      (ground arith, refl),
    )
    | inr whole ↦ ([], ends (active [] n) (rw (whole)), ground arith)
  ]
  active-Delivered (ok bytes ∷ items) position n h =
      let (out, yields, delivers) =
        active-Delivered items (position + length bytes) (n - length bytes) h.3 in
      (
        ok bytes ∷ out,
        gives (active (ok bytes ∷ items) n) (active items (n - length bytes)) (ok bytes) out refl
            yields,
        (h.0, h.1, h.2, delivers),
      )
  active-Delivered (err error ∷ items) position n h = (
    err error ∷ [],
    gives (active (err error ∷ items) n) finished (err error) [] refl finished-Yields,
    (h.0, refl),
  )

  -- Where each read gives the file's bytes at its position and no more than there is room for, the
  -- stream of `len` bytes, one at least, ends after finitely many polls, whatever the clock, the system
  -- and the client do; what it gave is the file's bytes from the position on, `len` of them, or fewer
  -- with one error at the end.
  pub file_stream-Delivered :
      (is_there : Bool) (position len : ℕ)
      → 0 < len
      → Delivered (pending is_there position len) position len
  unfolding next_item
  file_stream-Delivered true position len some_bytes =
      let items = produce env len 0 position len in
      let (out, yields, delivers) =
        active-Delivered items position len (produce-Sends len 0 position len) in
      (out, same_poll items len out (pending true position len) refl yields, delivers)
    where
      same_poll :
          (items : List Item) (n : ℕ) (out : List Item) (state : StaticStreamState)
          → next_item env state ≡ next_item env (active items n)
          → Yields env (active items n) out
          → Yields env state out
      same_poll items n _ state same (ends _ e) = ends state (same ∙ e)
      same_poll items n _ state same (gives _ later item rest e y) =
          gives state later item rest (same ∙ e) y
  file_stream-Delivered false position len some_bytes = (
    err start_timed_out ∷ [],
    gives (pending false position len) finished (err start_timed_out) [] refl finished-Yields,
    (some_bytes, refl),
  )
