-- ===== src/Engine/Datagram/Distinct.antt =====
-- Lists without repetition, and how long one below a bound can be.
use cps344finalproject.Base.{
  ℕ, zero, suc, ◌≤◌, ◌<◌, ◌≡◌, refl, sym, false, List, [], ◌∷◌, ◌++◌, arith, length, All, member,
  member-concat, ◌==◌, Bool-cases, inl, inr, if◌then◌else◌, if-true, if-false, subst, ==_iff, ◌∙◌,
}

abbrev pub IsDistinct : List ℕ → Type 0
IsDistinct [] = Unit
IsDistinct (x ∷ xs) = (member x xs ≡ false) × IsDistinct xs

pub IsDistinct-concat :
    (xs : List ℕ) (y : ℕ) → IsDistinct xs → member y xs ≡ false → IsDistinct (xs ++ y ∷ [])
IsDistinct-concat [] y d h = (refl, tt)
IsDistinct-concat (x ∷ xs) y d h =
    (ground (arith, member-concat x y xs), IsDistinct-concat xs y d.1 (ground arith))

-- The list without `x`.
abbrev without : ℕ → List ℕ → List ℕ
without x [] = []
without x (y ∷ ys) = let rest = without x ys in if x == y then rest else y ∷ rest

member-without : (x y : ℕ) (ys : List ℕ) → member y ys ≡ false → member y (without x ys) ≡ false
member-without x y [] h = refl
member-without x y (z ∷ ys) h = ground (arith, member-without x y ys)

without-absent : (x : ℕ) (ys : List ℕ) → member x ys ≡ false → without x ys ≡ ys
without-absent x [] h = refl
without-absent x (y ∷ ys) h = ground (arith, without-absent x ys)

without-IsDistinct : (x : ℕ) (ys : List ℕ) → IsDistinct ys → IsDistinct (without x ys)
without-IsDistinct x [] d = tt
without-IsDistinct x (y ∷ ys) d = elim (Bool-cases (x == y)) [
  | inl e ↦ subst IsDistinct (sym (if-true _ _ _ e)) (without-IsDistinct x ys d.1)
  | inr e ↦
      subst IsDistinct (sym (if-false _ _ _ e))
        (member-without x y ys d.0, without-IsDistinct x ys d.1)
]

length-without : (x : ℕ) (ys : List ℕ) → IsDistinct ys → length ys ≤ suc (length (without x ys))
length-without x [] d = omega arith
length-without x (y ∷ ys) d = elim (Bool-cases (x == y)) [
  | inl e ↦
      let absent = without-absent x ys (rw ((==_iff x y).0 e) d.0) in
      subst (λ (l : List ℕ). suc (length ys) ≤ suc (length l)) (sym (if-true _ _ _ e ∙ absent))
        (omega arith)
  | inr e ↦
      subst (λ (l : List ℕ). suc (length ys) ≤ suc (length l)) (sym (if-false _ _ _ e))
        (omega (arith, length-without x ys d.1))
]

without-lt : (n : ℕ) (ys : List ℕ) → All (λ y. y < suc n) ys → All (λ y. y < n) (without n ys)
without-lt n [] a = tt
without-lt n (y ∷ ys) a = elim (Bool-cases (n == y)) [
  | inl e ↦ subst (All (λ y. y < n)) (sym (if-true _ _ _ e)) (without-lt n ys a.1)
  | inr e ↦
      subst (All (λ y. y < n)) (sym (if-false _ _ _ e))
        (let h = a.0 in ground arith, without-lt n ys a.1)
]

-- At most `n` distinct numbers lie below `n`.
pub length-le_of_distinct :
    (n : ℕ) (xs : List ℕ) → IsDistinct xs → All (λ x. x < n) xs → length xs ≤ n
length-le_of_distinct zero [] d a = omega arith
length-le_of_distinct zero (x ∷ xs) d a = absurd (omega arith)
length-le_of_distinct (suc n) xs d a = omega (
  arith,
  length-without n xs d,
  length-le_of_distinct n (without n xs) (without-IsDistinct n xs d) (without-lt n xs a),
)
