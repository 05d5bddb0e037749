-- ===== src/Prelude/Int.antt =====
-- Integers, where the source reads one from outside: `negsuc n` is -(n + 1).
use Prim.Native.Nat.{ℕ, zero}
use mathlib.Core.Bool.{Bool, true, false}
use night_ledger.Prelude.Tests.{ltb}

pub data ℤ : Type 0 where
  pos negsuc : ℕ → ℤ

-- `n < z`
abbrev pub is_less : ℕ → ℤ → Bool
is_less n (pos m) = ltb n m
is_less n (negsuc m) = false

-- `z <= 0`
abbrev pub is_nonpositive : ℤ → Bool
is_nonpositive (pos zero) = true
is_nonpositive (pos m) = false
is_nonpositive (negsuc m) = true
