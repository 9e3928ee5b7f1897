-- ===== src/Prelude/Words.antt =====
-- Machine words of 64 bits, `usize` and `u64`: the operations that wrap and those that are checked.
use Prim.Native.Nat.{ℕ, ◌+◌, ◌-◌, ◌*◌, ◌%◌, ◌^◌}
use mathlib.Core.Option.{Option, none, some}
use rustrest.Prelude.Tests.{ltb, leb, if◌then◌else◌}

abbrev pub add_usize : ℕ → ℕ → ℕ
add_usize a b = (a + b) % 2 ^ 64

abbrev pub sub_usize : ℕ → ℕ → ℕ
sub_usize a b = (a + 2 ^ 64 - b) % 2 ^ 64

abbrev pub checked_add : ℕ → ℕ → Option ℕ
checked_add a b = if ltb (a + b) (2 ^ 64) then some (a + b) else none

abbrev pub checked_sub : ℕ → ℕ → Option ℕ
checked_sub a b = if leb b a then some (a - b) else none

abbrev pub checked_mul : ℕ → ℕ → Option ℕ
checked_mul a b = if ltb (a * b) (2 ^ 64) then some (a * b) else none
