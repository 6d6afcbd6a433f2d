-- ===== src/Base/Lists.antt =====
-- Lists measured by native numbers, predicates on all their elements, and membership tests.
use Prim.Native.Nat.{ℕ, zero, suc, ◌+◌, ◌≤◌, ◌<◌}
use mathlib.Core.Path.{◌≡◌, refl, subst}
use mathlib.Core.Logic.{inl, inr}
use mathlib.Core.Bool.{Bool, true, false, ◌||◌, ◌&&◌}
use mathlib.Core.List.{List, [], ◌∷◌, ◌++◌}
use native.Mathlib.Omega.{arith}
use cps344finalproject.Base.Tests.{◌==◌, Bool-cases, if◌then◌else◌}

module _ {ℓ} {A : Type ℓ} where
  abbrev pub length : List A → ℕ
  length [] = 0
  length (x ∷ xs) = suc (length xs)

  pub length-append : (xs ys : List A) → length (xs ++ ys) ≡ length xs + length ys
  length-append [] ys = omega arith
  length-append (x ∷ xs) ys = omega (arith, length-append xs ys)

  abbrev pub All {κ} : (A → Type κ) → List A → Type κ
  All P [] = Unit
  All P (x ∷ xs) = P x × All P xs

  pub All-append {κ} : (P : A → Type κ) (xs ys : List A) → All P xs → All P ys → All P (xs ++ ys)
  All-append P [] ys hx hy = hy
  All-append P (x ∷ xs) ys hx hy = (hx.0, All-append P xs ys hx.1 hy)

  pub All-concat {κ} :
      (P : A → Type κ) (xs : List A) (y : A) → All P xs → P y → All P (xs ++ y ∷ [])
  All-concat P xs y hx hy = All-append P xs (y ∷ []) hx (hy, tt)

  pub All-mono {κ μ} :
      (P : A → Type κ) (Q : A → Type μ) (xs : List A) → ((x : A) → P x → Q x) → All P xs → All Q xs
  All-mono P Q [] f h = tt
  All-mono P Q (x ∷ xs) f h = (f x h.0, All-mono P Q xs f h.1)

-- `x in xs`
abbrev pub member : ℕ → List ℕ → Bool
member x [] = false
member x (y ∷ ys) = x == y || member x ys

-- 0, 1, …, n - 1
abbrev pub upto : ℕ → List ℕ
upto zero = []
upto (suc n) = upto n ++ n ∷ []

pub member-concat : (x y : ℕ) (xs : List ℕ) → member x (xs ++ y ∷ []) ≡ (member x xs || x == y)
member-concat x y [] = ground arith
member-concat x y (z ∷ xs) = ground (arith, member-concat x y xs)

pub member-upto_lt : (n x : ℕ) → x < n → member x (upto n) ≡ true
member-upto_lt zero x h = elim h [ ]
member-upto_lt (suc n) x h = ground (arith, member-concat x n (upto n), member-upto_lt n x)

pub member-upto_ge : (n x : ℕ) → n ≤ x → member x (upto n) ≡ false
member-upto_ge zero x h = refl
member-upto_ge (suc n) x h = ground (arith, member-concat x n (upto n), member-upto_ge n x)

pub length-upto : (n : ℕ) → length (upto n) ≡ n
length-upto zero = refl
length-upto (suc n) = omega (arith, length-upto n, length-append (upto n) (n ∷ []))

pub All-member {ℓ} :
    (P : ℕ → Type ℓ) (xs : List ℕ) → ((x : ℕ) → member x xs ≡ true → P x) → All P xs
All-member P [] f = tt
All-member P (x ∷ xs) f = (f x (ground arith), All-member P xs (λ y h. f y (ground (arith, h))))

abbrev pub every : (ℕ → Bool) → List ℕ → Bool
every p [] = true
every p (x ∷ xs) = p x && every p xs

pub every-member :
    (p : ℕ → Bool) (x : ℕ) (xs : List ℕ) → every p xs ≡ true → member x xs ≡ true → p x ≡ true
every-member p x [] a h = absurd (ground arith)
every-member p x (y ∷ ys) a h = elim (Bool-cases (y == x)) [
  | inl same ↦ subst (λ x. p x ≡ true) {x = y} (ground arith) (ground arith)
  | inr other ↦ every-member p x ys (ground arith) (ground arith)
]

-- How often a number is in a list.
abbrev pub count : ℕ → List ℕ → ℕ
count n [] = 0
count n (x ∷ xs) = (if x == n then 1 else 0) + count n xs

pub count-append : (n : ℕ) (xs ys : List ℕ) → count n (xs ++ ys) ≡ count n xs + count n ys
count-append n [] ys = omega arith
count-append n (x ∷ xs) ys = omega (arith, count-append n xs ys)
