-- ===== src/Prelude/Integers.antt =====
-- Go's `int`, of which the program only reads whether a number is less than 1.
use Prim.Native.Nat.{ℕ, zero, suc}
use mathlib.Core.Bool.{Bool, true, false}

pub data ℤ : Type 0 where
  pos negsuc : ℕ → ℤ

unfoldable pub less_than_one : ℤ → Bool
less_than_one (pos zero) = true
less_than_one (pos (suc n)) = false
less_than_one (negsuc n) = true
