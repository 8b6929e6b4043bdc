-- ===== src/Prelude/Words.antt =====
-- u64 and u128 arithmetic: wrap-around, checked and saturating operations.
use Prim.Native.Nat.{ℕ, ◌+◌, ◌-◌, ◌*◌, ◌%◌, ◌^◌}
use mathlib.Core.Option.{Option, none, some}
use velodag_core.Prelude.Tests.{ltb, leb, if◌then◌else◌}

abbrev pub u64_mod : ℕ
u64_mod = 2 ^ 64

abbrev pub u128_mod : ℕ
u128_mod = 2 ^ 128

-- What an unchecked u64 operation leaves in a release build.
abbrev pub wrap64 : ℕ → ℕ
wrap64 x = x % u64_mod

abbrev pub sub64 : ℕ → ℕ → ℕ
sub64 a b = (a + u64_mod - b) % u64_mod

abbrev pub checked_add : ℕ → ℕ → Option ℕ
checked_add a b = if ltb (a + b) u64_mod then some (a + b) else none

abbrev pub checked_sub : ℕ → ℕ → Option ℕ
checked_sub a b = if leb b a then some (a - b) else none

abbrev pub saturating_add64 : ℕ → ℕ → ℕ
saturating_add64 a b = if ltb (a + b) u64_mod then a + b else u64_mod - 1

abbrev pub saturating_mul64 : ℕ → ℕ → ℕ
saturating_mul64 a b = if ltb (a * b) u64_mod then a * b else u64_mod - 1

abbrev pub checked_mul128 : ℕ → ℕ → Option ℕ
checked_mul128 a b = if ltb (a * b) u128_mod then some (a * b) else none
