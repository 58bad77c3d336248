-- ===== src/Base/Floats.antt =====
-- float64, which the checker does not have: the type and what the program does with it are a
-- parameter of the definitions that use it.
use Prim.Native.Nat.{ℕ, ◌+◌}
use mathlib.Core.Bool.{Bool, false}
use llm_metrics_exporter.Base.Tests.{ltb, ◌==◌}

pub record Floats : Type 1 where
  pub F : Type 0
  pub zero : F
  pub one : F
  pub add : F → F → F
  pub lt : F → F → Bool
  pub eq : F → F → Bool
  pub is_nan : F → Bool
  -- math.IsInf(x, 1) and math.IsInf(x, 0)
  pub is_pos_inf : F → Bool
  pub is_inf : F → Bool
  -- float64(n) of an unsigned integer
  pub of_uint : ℕ → F

-- Whole numbers stand in for float64.
abbrev pub whole_floats : Floats
whole_floats = record {
  F = ℕ;
  zero = 0;
  one = 1;
  add = ◌+◌;
  lt = ltb;
  eq = ◌==◌;
  is_nan = λ x. false;
  is_pos_inf = λ x. false;
  is_inf = λ x. false;
  of_uint = λ n. n;
}
