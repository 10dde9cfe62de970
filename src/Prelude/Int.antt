-- ===== src/Prelude/Int.antt =====
-- Signed integers over the native numbers, for i64 and chrono's counts: `negsuc n` is -(n + 1).
use Prim.Native.Nat.{ℕ, ◌-◌}
use mathlib.Core.Bool.{Bool, true, false}
use mathlib.Core.Option.{Option, none, some}
use owid_rust.Prelude.Tests
use owid_rust.Prelude.Tests.{leb, ◌==◌, if◌then◌else◌}

pub data ℤ : Type 0 where
  pos : ℕ → ℤ
  negsuc : ℕ → ℤ

-- a - b, as an integer.
abbrev pub sub_ℕ : ℕ → ℕ → ℤ
sub_ℕ a b = if leb b a then pos (a - b) else negsuc (b - a - 1)

-- The tests `a == b` and `a < b`.
abbrev pub eqb : ℤ → ℤ → Bool
eqb (pos a) (pos b) = a == b
eqb (negsuc a) (negsuc b) = a == b
eqb (pos a) (negsuc b) = false
eqb (negsuc a) (pos b) = false

abbrev pub ltb : ℤ → ℤ → Bool
ltb (pos a) (pos b) = Tests.ltb a b
ltb (negsuc a) (negsuc b) = Tests.ltb b a
ltb (pos a) (negsuc b) = false
ltb (negsuc a) (pos b) = true

-- `u16::try_from` and `u32::try_from` of an i64: none past the type's range.
abbrev pub try_below : ℕ → ℤ → Option ℕ
try_below bound (pos n) = if Tests.ltb n bound then some n else none
try_below bound (negsuc n) = none
