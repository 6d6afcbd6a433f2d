-- ===== src/Graph/Shortest/Heap.antt =====
-- The heap of `get_route`: a strictly ascending list of entries.
use cps344finalproject.Base.{
  ℕ, suc, ◌≡◌, refl, sym, subst, ap, Bool-cases, true, false, List, [], ◌∷◌, All, All-mono, arith,
  length, inl, inr, ◌⊎◌, if-true, if-false, if-both,
}
use cps344finalproject.Graph.Route.{entry_lt, push_entry}

abbrev pub Entry : Type 0
Entry = ℕ × ℕ

abbrev pub Holds : Entry → List Entry → Type 0
Holds e [] = ⊥
Holds e (x ∷ h) = (e ≡ x) ⊎ Holds e h

abbrev pub Sorted : List Entry → Type 0
Sorted [] = Unit
Sorted (x ∷ h) = All (λ y. entry_lt x y ≡ true) h × Sorted h

pub All-Holds : (P : Entry → Type 0) (e : Entry) (h : List Entry) → All P h → Holds e h → P e
All-Holds P e [] a m = absurd m
All-Holds P e (x ∷ h) a (inl same) = subst P (sym same) a.0
All-Holds P e (x ∷ h) a (inr m) = All-Holds P e h a.1 m

entry_lt_trans : (x y z : Entry) → entry_lt x y ≡ true → entry_lt y z ≡ true → entry_lt x z ≡ true
entry_lt_trans (a, b) (c, d) (e, f) p q = ground arith

pub All-push :
    (P : Entry → Type 0) (e : Entry) (h : List Entry) → P e → All P h → All P (push_entry e h)
unfolding push_entry
All-push P e [] p a = (p, tt)
All-push P e (x ∷ h) p a = if-both (All P) (entry_lt e x) (p, a) (a.0, All-push P e h p a.1)

pub length-push : (e : Entry) (h : List Entry) → length (push_entry e h) ≡ suc (length h)
unfolding push_entry
length-push e [] = refl
length-push e (x ∷ h) =
    if-both (λ (l : List Entry). length l ≡ suc (suc (length h))) (entry_lt e x) refl
      (ap suc (length-push e h))

pub push-new : (e : Entry) (h : List Entry) → Holds e (push_entry e h)
unfolding push_entry
push-new e [] = inl refl
push-new e (x ∷ h) = if-both (Holds e) (entry_lt e x) (inl refl) (inr (push-new e h))

pub push-old : (e y : Entry) (h : List Entry) → Holds y h → Holds y (push_entry e h)
unfolding push_entry
push-old e y [] m = absurd m
push-old e y (x ∷ h) (inl same) = if-both (Holds y) (entry_lt e x) (inr (inl same)) (inl same)
push-old e y (x ∷ h) (inr m) =
    if-both (Holds y) (entry_lt e x) (inr (inr m)) (inr (push-old e y h m))

pub push_cases : (e y : Entry) (h : List Entry) → Holds y (push_entry e h) → (y ≡ e) ⊎ Holds y h
unfolding push_entry
push_cases e y [] m = m
push_cases e y (x ∷ h) m = elim (Bool-cases (entry_lt e x)) [
  | inl before ↦ subst (Holds y) (if-true _ _ _ before) m
  | inr after ↦ elim (subst (Holds y) (if-false _ _ _ after) m) [
    | inl same ↦ inr (inl same)
    | inr below ↦ elim (push_cases e y h below) [ inl new ↦ inl new | inr old ↦ inr (inr old) ]
  ]
]

-- An entry that comes before or after each of the others keeps the heap ascending.
abbrev pub Apart : Entry → Entry → Type 0
Apart e y = (entry_lt e y ≡ true) ⊎ (entry_lt y e ≡ true)

pub push-Sorted :
    (e : Entry) (h : List Entry) → All (Apart e) h → Sorted h → Sorted (push_entry e h)
unfolding push_entry
push-Sorted e [] a s = (tt, tt)
push-Sorted e (x ∷ h) a s = elim (Bool-cases (entry_lt e x)) [
  | inl before ↦
      subst Sorted (sym (if-true _ _ _ before))
        ((before, All-mono _ _ h (λ y p. entry_lt_trans e x y before p) s.0), s)
  | inr after ↦
      subst Sorted (sym (if-false _ _ _ after))
        (All-push (λ y. entry_lt x y ≡ true) e h (go a.0 after) s.0, push-Sorted e h a.1 s.1)
]
  where
    go : Apart e x → entry_lt e x ≡ false → entry_lt x e ≡ true
    go (inl p) q = ground arith
    go (inr p) q = p

pub All-of : (P : Entry → Type 0) (h : List Entry) → ((e : Entry) → Holds e h → P e) → All P h
All-of P [] f = tt
All-of P (x ∷ h) f = (f x (inl refl), All-of P h (λ e m. f e (inr m)))
