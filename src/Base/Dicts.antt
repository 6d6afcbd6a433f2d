-- ===== src/Base/Dicts.antt =====
-- A Python `dict` with integer keys: the pairs in insertion order.
use Prim.Native.Nat.{ℕ}
use mathlib.Core.Path.{◌≡◌, refl, sym, ◌∙◌}
use mathlib.Core.Logic.{inl, inr}
use mathlib.Core.Bool.{true}
use mathlib.Core.Option.{Option, none, some, some-injective}
use mathlib.Core.List.{List, [], ◌∷◌, map}
use native.Mathlib.Omega.{arith}
use cps344finalproject.Base.Tests.{◌==◌, if◌then◌else◌, ==_iff, Bool-cases, if-true, if-false}
use cps344finalproject.Base.Lists.{All, member}

abbrev pub Dict {ℓ} : Type ℓ → Type ℓ
Dict V = List (ℕ × V)

module _ {ℓ} {V : Type ℓ} where
  abbrev pub lookup : ℕ → Dict V → Option V
  lookup k [] = none
  lookup k ((j, v) ∷ m) = if j == k then some v else lookup k m

  -- `d[k] = v`: a present key keeps its place, a new one comes last.
  abbrev pub insert : ℕ → V → Dict V → Dict V
  insert k v [] = (k, v) ∷ []
  insert k v ((j, w) ∷ m) = if j == k then (j, v) ∷ m else (j, w) ∷ insert k v m

  abbrev pub keys : Dict V → List ℕ
  keys = map (λ e. e.0)

  abbrev pub values : Dict V → List V
  values = map (λ e. e.1)

  pub lookup-insert :
      (k j : ℕ) (v : V) (m : Dict V)
      → lookup j (insert k v m) ≡ (if k == j then some v else lookup j m)
  lookup-insert k j v [] = refl
  lookup-insert k j v ((i, w) ∷ m) = ground (arith, lookup-insert k j v m)

  pub All-lookup {κ} :
      (P : ℕ × V → Type κ) (k : ℕ) (m : Dict V) {v : V} → All P m → lookup k m ≡ some v → P (k, v)
  All-lookup P k [] a h = cc
  All-lookup P k ((j, w) ∷ m) {v} a h = elim (Bool-cases (j == k)) [
    | inl same ↦
        let e : j ≡ k = (==_iff j k).0 same in
        let f : w ≡ v = some-injective _ _ (rw same at h) in rw (← e, ← f) a.0
    | inr other ↦ All-lookup P k m a.1 (rw other at h)
  ]

  pub All-insert {κ} :
      (P : ℕ × V → Type κ) (k : ℕ) (v : V) (m : Dict V) → All P m → P (k, v) → All P (insert k v m)
  All-insert P k v [] a h = (h, tt)
  All-insert P k v ((j, w) ∷ m) a h = elim (Bool-cases (j == k)) [
    | inl same ↦ rw same (rw ((==_iff j k).0 same) h, a.1)
    | inr other ↦ rw other (a.0, All-insert P k v m a.1 h)
  ]

  pub keys-lookup :
      (k : ℕ) (m : Dict V) → member k (keys m) ≡ true → (v : V) × (lookup k m ≡ some v)
  keys-lookup k [] h = absurd (ground arith)
  keys-lookup k ((j, v) ∷ m) h = elim (Bool-cases (j == k)) [
    | inl same ↦ (v, if-true _ _ _ same)
    | inr other ↦ let (w, e) = keys-lookup k m (ground arith) in (w, if-false _ _ _ other ∙ e)
  ]

  pub lookup-keys : (k : ℕ) (m : Dict V) {v : V} → lookup k m ≡ some v → member k (keys m) ≡ true
  lookup-keys k [] h = cc
  lookup-keys k ((j, v) ∷ m) h = elim (Bool-cases (j == k)) [
    | inl same ↦ ground arith
    | inr other ↦ ground (arith, lookup-keys k m (sym (if-false _ _ _ other) ∙ h))
  ]
