-- ===== src/Base/Float.antt =====
-- The operations of Python's `float` and `random` modules that the simulator calls. A development
-- over floats takes them as parameters; laws are separate records, assumed only where they are used.
use Prim.Native.Nat.{ℕ}
use mathlib.Core.Bool.{Bool}
use cps344finalproject.Base.Tests.{if◌then◌else◌}

pub record Float (F : Type 0) : Type 0 where
  pub add : F → F → F
  pub sub : F → F → F
  pub mul : F → F → F
  pub div : F → F → F
  pub neg : F → F
  -- `a < b`, `a <= b`, `a == b`
  pub lt : F → F → Bool
  pub le : F → F → Bool
  pub eq : F → F → Bool
  pub cos : F → F
  pub sin : F → F
  -- The literal n / 10^k: `lit 8 2` is 0.08.
  pub lit : ℕ → ℕ → F

-- `random.Random`, as a state that each call replaces.
pub record Random (F R : Type 0) : Type 0 where
  pub seed : ℕ → R
  pub random : R → F × R
  pub uniform : F → F → R → F × R
  pub randint : ℕ → ℕ → R → ℕ × R

module _ {F : Type 0} ⦃fl : Float F⦄ where
  abbrev pub num : ℕ → F
  num n = fl.lit n 0

  -- `max(a, b)` and `min(a, b)`: the first argument, unless the second is strictly better.
  abbrev pub maxf : F → F → F
  maxf a b = if fl.lt a b then b else a

  abbrev pub minf : F → F → F
  minf a b = if fl.lt b a then b else a
