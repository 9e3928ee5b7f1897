-- ===== src/Static/Stream.antt =====
-- The body of a static file in src/app/router.rs: `file_stream`, which the client's polls pull, and
-- `spawn_static_file_producer`, which reads the file and sends the chunks through the channel. The
-- channel is the list of what the producer sends before it ends. What the operating system and the
-- clock do is a parameter: whether the deadline is over, what a read gives, and whether a chunk is
-- taken before the stall timeout.
use rustrest.Prelude.{
  ℕ, zero, suc, ◌+◌, ◌-◌, ◌*◌, ◌≤◌, ◌<◌, ◌≡◌, Bool, true, false, List, [], ◌∷◌, Option, none, some,
  min, nat_eq, ltb, if◌then◌else◌, is_empty, length, take, drop, Result, ok, err,
}
use rustrest.Text.{Bytes}

pub data ReadOutcome : Type 0 where
  read_bytes : Bytes → ReadOutcome
  read_failed abandoned : ReadOutcome

pub data StreamError : Type 0 where
  unexpected_eof read_error start_timed_out : StreamError

-- What each turn of the producer meets, by its number; a read gets the position and the room.
pub record Surroundings : Type 0 where
  pub is_late : ℕ → Bool
  pub read : ℕ → ℕ → ℕ → ReadOutcome
  pub is_sent : ℕ → Bool

abbrev pub chunk_limit : ℕ
chunk_limit = 64 * 1024

abbrev pub Item : Type 0
Item = Result StreamError Bytes

-- What the receiver gets of a last item.
abbrev pub last_item : Bool → StreamError → List Item
last_item sent error = if sent then err error ∷ [] else []

-- The loop of the producer; a turn that goes on takes one byte at least.
unfoldable pub produce : Surroundings → ℕ → ℕ → ℕ → ℕ → List Item
produce env zero turn position remaining = []
produce env (suc fuel) turn position remaining =
    let outcome : List Item = elim (env.read turn position (min remaining chunk_limit)) [
      | read_bytes bytes ↦
          let more =
            produce env fuel (turn + 1) (position + length bytes) (remaining - length bytes) in
          let kept : List Item = if env.is_sent turn then ok bytes ∷ more else [] in
          if is_empty bytes then last_item (env.is_sent turn) unexpected_eof else kept
      | read_failed ↦ last_item (env.is_sent turn) read_error
      | abandoned ↦ []
    ] in
    if nat_eq remaining 0 then [] else if env.is_late turn then [] else outcome

-- The argument of `pending` is whether the file is still there: the start deadline takes it.
pub data StaticStreamState : Type 0 where
  pending : Bool → ℕ → ℕ → StaticStreamState
  active : List Item → ℕ → StaticStreamState
  finished : StaticStreamState

-- `receiver.recv()` in the state `Active`.
unfoldable pub receive : List Item → ℕ → Option (Item × StaticStreamState)
receive (ok bytes ∷ items) remaining = some (ok bytes, active items (remaining - length bytes))
receive (err error ∷ items) remaining = some (err error, finished)
receive [] remaining = if ltb 0 remaining then some (err unexpected_eof, finished) else none

-- One poll of the stream.
unfoldable pub next_item : Surroundings → StaticStreamState → Option (Item × StaticStreamState)
unfolding produce receive
next_item env (pending true position len) = receive (produce env len 0 position len) len
next_item env (pending false position len) = some (err start_timed_out, finished)
next_item env (active items remaining) = receive items remaining
next_item env finished = none

-- What a stream gives until it ends.
pub data Yields (env : Surroundings) : StaticStreamState → List Item → Type 0 where
  ends : (state : StaticStreamState) → next_item env state ≡ none → Yields env state []
  gives :
      (state later : StaticStreamState) (item : Item) (items : List Item)
      → next_item env state ≡ some (item, later)
      → Yields env later items
      → Yields env state (item ∷ items)

-- `File::read`: bytes of the file at the position, no more than there is room for.
abbrev pub FromFile : Bytes → ℕ → ℕ → ReadOutcome → Type 0
FromFile content position room (read_bytes bytes) =
    (length bytes ≤ room) × (bytes ≡ take (length bytes) (drop position content))
FromFile content position room read_failed = Unit
FromFile content position room abandoned = Unit

-- Items that are the file's next bytes, `n` in all, or break off before with one error at the end.
abbrev pub Delivers : Bytes → ℕ → ℕ → List Item → Type 0
Delivers content position n [] = n ≡ 0
Delivers content position n (ok bytes ∷ items) =
    (0 < length bytes)
    × (length bytes ≤ n)
    × (bytes ≡ take (length bytes) (drop position content))
    × Delivers content (position + length bytes) (n - length bytes) items
Delivers content position n (err error ∷ items) = (0 < n) × (items ≡ [])
