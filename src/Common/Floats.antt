-- ===== src/Common/Floats.antt =====
-- float64 as an interface: the operations that the program uses, with facts of IEEE 754 about them.
-- They hold of every value, NaN and the infinities included, unless an equation `eq a a` excludes NaN.
use mathlib.Core.Path.{◌≡◌, refl}
use mathlib.Core.Bool.{Bool, true, false, not, ◌&&◌, ◌||◌}
use Prim.Native.Nat.{ℕ, ◌+◌}
use native.Mathlib.Omega.{arith}
use gpuswarm.Common.Int.{ℤ, pos, negsuc, ◌+ℤ◌, ◌-ℤ◌, ◌*ℤ◌, quot_ℤ, ltb_ℤ, eqb_ℤ}

pub record Float64 : Type 1 where
  pub F : Type 0
  pub add : F → F → F
  pub sub : F → F → F
  pub mul : F → F → F
  pub div : F → F → F
  pub neg : F → F
  pub lt : F → F → Bool
  pub eq : F → F → Bool
  -- float64(n), int(x), math.Inf(1), and the literal m / 1000.
  pub of_int : ℤ → F
  pub to_int : F → ℤ
  pub inf : F
  pub milli : ℕ → F
  pub lt_asym : (a b : F) → lt a b ≡ true → lt b a ≡ false
  pub lt_neg_trans : (a b c : F) → eq b b ≡ true → lt a b ≡ false → lt b c ≡ false → lt a c ≡ false
  -- Of two values that are not NaN, neither is less exactly if they are equal.
  pub eq_not_lt :
      (a b : F) → eq a a ≡ true → eq b b ≡ true → eq a b ≡ (not (lt a b) && not (lt b a))
  pub of_int_nonneg : (n : ℕ) → lt (of_int (pos n)) (milli 0) ≡ false
  pub zero_lt_one : lt (milli 0) (milli 1000) ≡ true
  -- To subtract a value that is not negative gives nothing greater.
  pub lt_of_lt-sub : (a b c : F) → lt c (milli 0) ≡ false → lt a (sub b c) ≡ true → lt a b ≡ true
  pub sub_nonneg : (a b : F) → lt a b ≡ false → lt (sub a b) (milli 0) ≡ false
  pub add_nonneg :
      (a b : F) → lt a (milli 0) ≡ false → lt b (milli 0) ≡ false → lt (add a b) (milli 0) ≡ false
  pub mul_nonneg :
      (a b : F) → lt a (milli 0) ≡ false → lt b (milli 0) ≡ false → lt (mul a b) (milli 0) ≡ false

-- `a <= b`
abbrev pub le : (fl : Float64) → fl.F → fl.F → Bool
le fl a b = fl.lt a b || fl.eq a b

pub lt_irrefl : (fl : Float64) (a : fl.F) → fl.lt a a ≡ false
lt_irrefl fl a = ground (arith, fl.lt_asym a a)

-- Numbers in thousandths meet the interface.
unfoldable pub thousandths_mul : ℤ → ℤ → ℤ
unfolding ◌*ℤ◌ quot_ℤ
thousandths_mul a b = quot_ℤ (a *ℤ b) 1000

unfoldable pub thousandths_div : ℤ → ℤ → ℤ
unfolding ◌*ℤ◌ quot_ℤ ◌-ℤ◌
thousandths_div a (pos n) = quot_ℤ (a *ℤ pos 1000) n
thousandths_div a (negsuc n) = pos 0 -ℤ quot_ℤ (a *ℤ pos 1000) (n + 1)

pub thousandths_eq_not_lt :
    (a b : ℤ)
    → eqb_ℤ a a ≡ true
    → eqb_ℤ b b ≡ true
    → eqb_ℤ a b ≡ (not (ltb_ℤ a b) && not (ltb_ℤ b a))
thousandths_eq_not_lt a b h k = ground arith

pub thousandths_mul_nonneg :
    (a b : ℤ)
    → ltb_ℤ a (pos 0) ≡ false
    → ltb_ℤ b (pos 0) ≡ false
    → ltb_ℤ (thousandths_mul a b) (pos 0) ≡ false
unfolding thousandths_mul
thousandths_mul_nonneg (pos a) (pos b) h k = ground arith
thousandths_mul_nonneg (pos a) (negsuc b) h k = ground arith
thousandths_mul_nonneg (negsuc a) b h k = ground arith

pub thousandths_of_int_nonneg : (n : ℕ) → ltb_ℤ (pos n *ℤ pos 1000) (pos 0) ≡ false
unfolding ◌*ℤ◌
thousandths_of_int_nonneg n = ground arith

module _ (a b c : ℤ) where
  pub thousandths_asym : ltb_ℤ a b ≡ true → ltb_ℤ b a ≡ false
  thousandths_asym h = ground arith

  pub thousandths_neg_trans :
      eqb_ℤ b b ≡ true → ltb_ℤ a b ≡ false → ltb_ℤ b c ≡ false → ltb_ℤ a c ≡ false
  thousandths_neg_trans n h k = ground arith

  pub thousandths_sub_le : ltb_ℤ c (pos 0) ≡ false → ltb_ℤ a (b -ℤ c) ≡ true → ltb_ℤ a b ≡ true
  unfolding ◌-ℤ◌
  thousandths_sub_le h k = ground arith

  pub thousandths_sub_nonneg : ltb_ℤ a b ≡ false → ltb_ℤ (a -ℤ b) (pos 0) ≡ false
  unfolding ◌-ℤ◌
  thousandths_sub_nonneg h = ground arith

  pub thousandths_add_nonneg :
      ltb_ℤ a (pos 0) ≡ false → ltb_ℤ b (pos 0) ≡ false → ltb_ℤ (a +ℤ b) (pos 0) ≡ false
  unfolding ◌+ℤ◌
  thousandths_add_nonneg h k = ground arith

unfoldable pub thousandths : Float64
unfolding thousandths_mul thousandths_div ◌*ℤ◌ quot_ℤ ◌-ℤ◌ ◌+ℤ◌
thousandths = record {
  F = ℤ;
  add = ◌+ℤ◌;
  sub = ◌-ℤ◌;
  mul = thousandths_mul;
  div = thousandths_div;
  neg = λ a. pos 0 -ℤ a;
  lt = ltb_ℤ;
  eq = eqb_ℤ;
  of_int = λ n. n *ℤ pos 1000;
  to_int = λ a. quot_ℤ a 1000;
  inf = pos 1_000_000_000_000;
  milli = pos;
  lt_asym = λ a b. thousandths_asym a b (pos 0);
  lt_neg_trans = thousandths_neg_trans;
  eq_not_lt = thousandths_eq_not_lt;
  of_int_nonneg = thousandths_of_int_nonneg;
  zero_lt_one = refl;
  lt_of_lt-sub = thousandths_sub_le;
  sub_nonneg = λ a b. thousandths_sub_nonneg a b (pos 0);
  add_nonneg = λ a b. thousandths_add_nonneg a b (pos 0);
  mul_nonneg = thousandths_mul_nonneg;
}
