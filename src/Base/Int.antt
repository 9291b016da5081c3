-- ===== src/Base/Int.antt =====
-- Whole numbers as an instance of `Double`, for evaluating the services on amounts without fractions.
use ai_trader_api.Base.Tests.{leb, ltb, ◌==◌, if◌then◌else◌}
use ai_trader_api.Base.Double.{Double}
use Prim.Native.Nat.{ℕ, suc, ◌+◌, ◌-◌, ◌*◌, ◌/◌}
use mathlib.Core.Bool.{Bool, true, not, ◌&&◌}
use mathlib.Core.Path.{◌≡◌}
use native.Mathlib.Omega.{arith}

-- `negsuc n` is -(n + 1).
pub data ℤ : Type 0 where
  pos : ℕ → ℤ
  negsuc : ℕ → ℤ

abbrev pub pos_part : ℤ → ℕ
pos_part (pos n) = n
pos_part (negsuc n) = 0

abbrev pub neg_part : ℤ → ℕ
neg_part (pos n) = 0
neg_part (negsuc n) = suc n

abbrev pub sub_ℕ : ℕ → ℕ → ℤ
sub_ℕ a b = if leb b a then pos (a - b) else negsuc (b - a - 1)

abbrev pub neg_ℤ : ℤ → ℤ
neg_ℤ a = sub_ℕ (neg_part a) (pos_part a)

abbrev pub add_ℤ : ℤ → ℤ → ℤ
add_ℤ a b = sub_ℕ (pos_part a + pos_part b) (neg_part a + neg_part b)

abbrev pub mul_ℤ : ℤ → ℤ → ℤ
mul_ℤ a b =
    sub_ℕ (pos_part a * pos_part b + neg_part a * neg_part b)
      (pos_part a * neg_part b + neg_part a * pos_part b)

-- Rounded towards zero.
abbrev pub div_ℤ : ℤ → ℤ → ℤ
div_ℤ a b =
    sub_ℕ (pos_part a / pos_part b + neg_part a / neg_part b)
      (pos_part a / neg_part b + neg_part a / pos_part b)

abbrev pub le_ℤ : ℤ → ℤ → Bool
le_ℤ a b = leb (pos_part a + neg_part b) (pos_part b + neg_part a)

abbrev pub lt_ℤ : ℤ → ℤ → Bool
lt_ℤ a b = ltb (pos_part a + neg_part b) (pos_part b + neg_part a)

abbrev pub eq_ℤ : ℤ → ℤ → Bool
eq_ℤ a b = pos_part a == pos_part b && neg_part a == neg_part b

abbrev pub whole : Double ℤ
whole = record {
  of_ℕ = pos;
  add = add_ℤ;
  sub = λ a b. add_ℤ a (neg_ℤ b);
  mul = mul_ℤ;
  div = div_ℤ;
  neg = neg_ℤ;
  le = le_ℤ;
  lt = lt_ℤ;
  eq = eq_ℤ;
  truthy = λ a. not (eq_ℤ a (pos 0));
  round = λ a. a;
}

-- A cost that the cash covers leaves no debt.
pub covered_ℤ :
    (cost cash : ℤ) → le_ℤ cost cash ≡ true → le_ℤ (pos 0) (add_ℤ cash (neg_ℤ cost)) ≡ true
covered_ℤ cost cash h = ground arith

pub restored_ℤ : (cash cost : ℤ) → add_ℤ (add_ℤ cash (neg_ℤ cost)) cost ≡ cash
restored_ℤ cash cost = ground arith

pub gained_ℤ :
    (cash cost : ℤ)
    → le_ℤ (pos 0) cash ≡ true
    → le_ℤ (pos 0) cost ≡ true
    → le_ℤ (pos 0) (add_ℤ cash cost) ≡ true
gained_ℤ cash cost h k = ground arith
