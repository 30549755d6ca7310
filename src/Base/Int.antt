-- ===== src/Base/Int.antt =====
-- Go's int and time.Duration, as integers; `negsuc n` is -(n + 1).
use Prim.Native.Nat.{ℕ}
use mathlib.Core.Bool.{Bool, true, false}
use package.servion.Base.Tests.{leb, ltb}

pub data ℤ : Type 0 where
  pos : ℕ → ℤ
  negsuc : ℕ → ℤ

abbrev pub pos_part : ℤ → ℕ
pos_part (pos n) = n
pos_part (negsuc n) = 0

-- a >= b, for a number a that is not negative
abbrev pub at_least : ℕ → ℤ → Bool
at_least a (pos b) = leb b a
at_least a (negsuc b) = true

-- a > b, for a number b that is not negative
abbrev pub exceeds : ℤ → ℕ → Bool
exceeds (pos a) b = ltb b a
exceeds (negsuc a) b = false

-- a < b
abbrev pub below : ℤ → ℤ → Bool
below (pos a) (pos b) = ltb a b
below (pos a) (negsuc b) = false
below (negsuc a) (pos b) = true
below (negsuc a) (negsuc b) = ltb b a
