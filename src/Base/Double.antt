-- ===== src/Base/Double.antt =====
-- JavaScript numbers: the constants, operations and tests that the services use, over a type of
-- numbers. The definitions take any; what a theorem needs of them is among its hypotheses.
use Prim.Native.Nat.{ℕ}
use mathlib.Core.Bool.{Bool}

pub record Double (N : Type 0) : Type 0 where
  pub of_ℕ : ℕ → N
  pub add : N → N → N
  pub sub : N → N → N
  pub mul : N → N → N
  pub div : N → N → N
  pub neg : N → N
  pub le : N → N → Bool
  pub lt : N → N → Bool
  -- `x === y`
  pub eq : N → N → Bool
  -- `Boolean(x)`: neither zero nor NaN.
  pub truthy : N → Bool
  -- `Math.round`
  pub round : N → N
