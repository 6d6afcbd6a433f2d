-- ===== src/Base/Fixed.antt =====
-- Numbers of the samples: thousandths as integers, in place of `float`, and a linear congruential
-- generator in place of Python's. The samples lay out no circle, so `cos` and `sin` are stand-ins.
use Prim.Native.Nat.{ℕ, suc, ◌+◌, ◌-◌, ◌*◌, ◌/◌, ◌%◌, ◌^◌}
use mathlib.Core.Bool.{false, not}
use cps344finalproject.Base.Integers.{pos_part, neg_part, sub_ℕ, ◌+ℤ◌, ◌-ℤ◌, neg_ℤ, le_ℤ}
pub use cps344finalproject.Base.Integers.{ℤ, pos, negsuc}
use cps344finalproject.Base.Tests.{if◌then◌else◌}
use cps344finalproject.Base.Float.{Float, Random}

abbrev mul_fixed : ℤ → ℤ → ℤ
mul_fixed a b =
    sub_ℕ ((pos_part a * pos_part b + neg_part a * neg_part b) / 1000)
      ((pos_part a * neg_part b + neg_part a * pos_part b) / 1000)

-- Division by a positive number.
abbrev div_fixed : ℤ → ℤ → ℤ
div_fixed a b = sub_ℕ (pos_part a * 1000 / pos_part b) (neg_part a * 1000 / pos_part b)

instance abbrev pub fixed : Float ℤ
fixed = record {
  add = ◌+ℤ◌;
  sub = λ a b. a -ℤ b;
  mul = mul_fixed;
  div = div_fixed;
  neg = neg_ℤ;
  lt = λ a b. not (le_ℤ b a);
  le = le_ℤ;
  eq = λ a b. if le_ℤ a b then le_ℤ b a else false;
  cos = λ a. a;
  sin = λ a. a;
  lit = λ n k. pos (n * 1000 / 10 ^ k);
}

abbrev next_state : ℕ → ℕ
next_state r = (r * 1103515245 + 12345) % 2147483648

-- A draw in [0, 1).
abbrev unit_draw : ℕ → ℤ
unit_draw r = pos (next_state r / 65536 % 1000)

instance abbrev pub congruential : Random ℤ ℕ
congruential = record {
  seed = λ n. n;
  random = λ r. (unit_draw r, next_state r);
  uniform = λ a b r. (a +ℤ mul_fixed (unit_draw r) (b -ℤ a), next_state r);
  randint = λ a b r. (a + next_state r / 65536 % suc (b - a), next_state r);
}
