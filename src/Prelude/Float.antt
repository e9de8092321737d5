-- ===== src/Prelude/Float.antt =====
-- Python's floats, which the program only computes with: a type with its operations. `decimal n d`
-- is the literal n / d, and `round k` is Python's `round(x, k)`.
use Prim.Native.Nat.{ℕ, ◌+◌, ◌-◌, ◌*◌, ◌/◌, max, min}
use mathlib.Core.Bool.{Bool}
use lifeos_platform.Prelude.Tests.{ltb, leb}

pub record Float : Type 1 where
  pub F : Type 0
  pub add : F → F → F
  pub sub : F → F → F
  pub mul : F → F → F
  pub div : F → F → F
  pub maximum : F → F → F
  pub minimum : F → F → F
  pub abs : F → F
  pub lt : F → F → Bool
  pub le : F → F → Bool
  pub decimal : ℕ → ℕ → F
  pub of_ℕ : ℕ → F
  pub round : ℕ → F → F

-- The natural numbers meet the interface, and serve in tests.
abbrev pub whole : Float
whole = record {
  F = ℕ;
  add = ◌+◌;
  sub = ◌-◌;
  mul = ◌*◌;
  div = ◌/◌;
  maximum = max;
  minimum = min;
  abs = λ x. x;
  lt = ltb;
  le = leb;
  decimal = ◌/◌;
  of_ℕ = λ n. n;
  round = λ k x. x;
}
