-- ===== src/Base/Integers.antt =====
-- Go's int, which the program only compares: an integer.
use Prim.Native.Nat.{ℕ}
use mathlib.Core.Bool.{Bool, true, false}
use llm_metrics_exporter.Base.Tests.{leb, ◌==◌}

pub data ℤ : Type 0 where
  pos negsuc : ℕ → ℤ

-- n ≤ z, n = z and z ≤ n for a natural n.
abbrev pub at_least : ℕ → ℤ → Bool
at_least n (pos m) = leb n m
at_least n (negsuc m) = false

abbrev pub is_nat : ℕ → ℤ → Bool
is_nat n (pos m) = n == m
is_nat n (negsuc m) = false

abbrev pub at_most : ℕ → ℤ → Bool
at_most n (pos m) = leb m n
at_most n (negsuc m) = true
