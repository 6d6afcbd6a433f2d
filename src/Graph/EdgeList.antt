-- ===== src/Graph/EdgeList.antt =====
-- graph.py: how often `edges` lists an edge.
use cps344finalproject.Base.{
  ℕ, ◌+◌, ◌≤◌, ◌≡◌, refl, sym, ap, ◌∙◌, subst, Bool-cases, true, false, ◌&&◌, List, [], ◌∷◌, ◌++◌,
  Dict, lookup, keys, lookup-keys, ok, or_raise, key_error, >>=-eq-ok, or_raise-eq-ok,
  if◌then◌else◌, if-true, if-false, leb, ◌==◌, member, arith, inl, inr,
}
use mathlib.Core.Option.{some, some-injective}
use cps344finalproject.Graph.{
  SimpleGraph, EdgeData, Edge, sorted_edge, emitted, emit_row, emit_rows, edges, edge_data,
}

-- How often a list of edges has the edge from `low` to `high`.
abbrev pub times : ℕ → ℕ → List Edge → ℕ
times low high [] = 0
times low high (e ∷ es) = (if e.low == low && e.high == high then 1 else 0) + times low high es

times-concat :
    (low high : ℕ) (es : List Edge) (e : Edge)
    → times low high (es ++ e ∷ [])
      ≡ times low high es + (if e.low == low && e.high == high then 1 else 0)
times-concat low high [] e = omega arith
times-concat low high (x ∷ es) e = omega (arith, times-concat low high es e)

emitted-times : (e : Edge) (es : List Edge) → emitted e es ≡ true → 1 ≤ times e.low e.high es
unfolding emitted
emitted-times e [] h = absurd (ground arith)
emitted-times e (x ∷ es) h = ground (arith, emitted-times e es)

new-times : (e : Edge) (es : List Edge) → emitted e es ≡ false → times e.low e.high es ≡ 0
unfolding emitted
new-times e [] h = refl
new-times e (x ∷ es) h = ground (arith, new-times e es)

-- The list after one round of the inner loop.
abbrev added : Edge → List Edge → List Edge
added e es = if emitted e es then es else es ++ e ∷ []

-- No edge is there twice.
abbrev IsOnce : List Edge → Type 0
IsOnce es = (low high : ℕ) → times low high es ≤ 1

added-IsOnce : (e : Edge) (es : List Edge) → IsOnce es → IsOnce (added e es)
added-IsOnce e es once low high = elim (Bool-cases (emitted e es)) [
  | inl old ↦ subst (λ es. times low high es ≤ 1) (sym (if-true _ _ _ old)) (once low high)
  | inr new ↦
      subst (λ es. times low high es ≤ 1) (sym (if-false _ _ _ new))
        (ground (arith, times-concat low high es e, new-times e es new, once low high))
]

added-grows :
    (e : Edge) (es : List Edge) (low high : ℕ) → times low high es ≤ times low high (added e es)
added-grows e es low high = elim (Bool-cases (emitted e es)) [
  | inl old ↦
      subst (λ es'. times low high es ≤ times low high es') (sym (if-true _ _ _ old)) (omega arith)
  | inr new ↦
      subst (λ es'. times low high es ≤ times low high es') (sym (if-false _ _ _ new))
        (omega (arith, times-concat low high es e))
]

added-has : (e : Edge) (es : List Edge) → 1 ≤ times e.low e.high (added e es)
added-has e es = elim (Bool-cases (emitted e es)) [
  | inl old ↦
      subst (λ es'. 1 ≤ times e.low e.high es') (sym (if-true _ _ _ old)) (emitted-times e es old)
  | inr new ↦
      subst (λ es'. 1 ≤ times e.low e.high es') (sym (if-false _ _ _ new))
        (ground (arith, times-concat e.low e.high es e))
]

emit_row-IsOnce :
    (a : ℕ) (row : Dict EdgeData) (es : List Edge) → IsOnce es → IsOnce (emit_row a row es)
unfolding emit_row
emit_row-IsOnce a [] es once = once
emit_row-IsOnce a ((b, payload) ∷ row) es once =
    emit_row-IsOnce a row _ (added-IsOnce (sorted_edge a b payload) es once)

emit_row-grows :
    (a : ℕ) (row : Dict EdgeData) (es : List Edge) (low high : ℕ)
    → times low high es ≤ times low high (emit_row a row es)
unfolding emit_row
emit_row-grows a [] es low high = omega arith
emit_row-grows a ((b, payload) ∷ row) es low high =
    let e = sorted_edge a b payload in
    omega (arith, added-grows e es low high, emit_row-grows a row (added e es) low high)

abbrev pub low_of : ℕ → ℕ → ℕ
low_of a b = if leb a b then a else b

abbrev pub high_of : ℕ → ℕ → ℕ
high_of a b = if leb a b then b else a

sorted_edge-ends :
    (a b : ℕ) (payload : EdgeData)
    → ((sorted_edge a b payload).low ≡ low_of a b) × ((sorted_edge a b payload).high ≡ high_of a b)
sorted_edge-ends a b payload = elim (Bool-cases (leb a b)) [
  | inl le ↦ (
    ap (λ (e : Edge). e.low) (if-true (leb a b) _ _ le) ∙ sym (if-true (leb a b) _ _ le),
    ap (λ (e : Edge). e.high) (if-true (leb a b) _ _ le) ∙ sym (if-true (leb a b) _ _ le),
  )
  | inr gt ↦ (
    ap (λ (e : Edge). e.low) (if-false (leb a b) _ _ gt) ∙ sym (if-false (leb a b) _ _ gt),
    ap (λ (e : Edge). e.high) (if-false (leb a b) _ _ gt) ∙ sym (if-false (leb a b) _ _ gt),
  )
]

emit_row-has :
    (a b : ℕ) (row : Dict EdgeData) (es : List Edge)
    → member b (keys row) ≡ true
    → 1 ≤ times (low_of a b) (high_of a b) (emit_row a row es)
unfolding emit_row
emit_row-has a b [] es h = absurd (ground arith)
emit_row-has a b ((c, payload) ∷ row) es h =
    let e = sorted_edge a c payload in
    elim (Bool-cases (b == c)) [
      | inl same ↦
          let (l, u) = sorted_edge-ends a c payload in
          let there : 1 ≤ times (low_of a c) (high_of a c) (added e es) =
            subst (λ x. 1 ≤ times x (high_of a c) (added e es)) l
              (subst (λ x. 1 ≤ times e.low x (added e es)) u (added-has e es)) in
          let q : c ≡ b = ground arith in
          subst (λ c. 1 ≤ times (low_of a c) (high_of a c) (emit_row a row (added e es))) q
            (omega (arith, there, emit_row-grows a row (added e es) (low_of a c) (high_of a c)))
      | inr other ↦ emit_row-has a b row (added e es) (ground arith)
    ]

emit_rows-IsOnce : (m : Dict (Dict EdgeData)) (es : List Edge) → IsOnce es → IsOnce (emit_rows m es)
unfolding emit_rows
emit_rows-IsOnce [] es once = once
emit_rows-IsOnce ((a, row) ∷ m) es once = emit_rows-IsOnce m _ (emit_row-IsOnce a row es once)

emit_rows-grows :
    (m : Dict (Dict EdgeData)) (es : List Edge) (low high : ℕ)
    → times low high es ≤ times low high (emit_rows m es)
unfolding emit_rows
emit_rows-grows [] es low high = omega arith
emit_rows-grows ((a, row) ∷ m) es low high =
    omega (arith, emit_row-grows a row es low high, emit_rows-grows m (emit_row a row es) low high)

emit_rows-has :
    (a b : ℕ) (m : Dict (Dict EdgeData)) (row : Dict EdgeData) (es : List Edge)
    → lookup a m ≡ some row
    → member b (keys row) ≡ true
    → 1 ≤ times (low_of a b) (high_of a b) (emit_rows m es)
unfolding emit_rows
emit_rows-has a b [] row es h k = absurd (cc)
emit_rows-has a b ((c, first) ∷ m) row es h k = elim (Bool-cases (c == a)) [
  | inl same ↦
      let q : c ≡ a = ground arith in
      let r : first ≡ row = some-injective _ _ (sym (if-true _ _ _ same) ∙ h) in
      let there = emit_row-has c b first es (subst (λ r. member b (keys r) ≡ true) (sym r) k) in
      subst (λ a. 1 ≤ times (low_of a b) (high_of a b) (emit_rows m (emit_row c first es))) q
        (omega (arith, there, emit_rows-grows m (emit_row c first es) (low_of c b) (high_of c b)))
  | inr other ↦ emit_rows-has a b m row _ (sym (if-false _ _ _ other) ∙ h) k
]

-- When `edge_data` finds an edge between two nodes, in either direction, `edges` lists it exactly
-- once, with the smaller node first.
pub edges_once :
    (g : SimpleGraph) (a b : ℕ) (e : EdgeData)
    → edge_data a b g ≡ ok e
    → times (low_of a b) (high_of a b) (edges g) ≡ 1
unfolding edge_data edges
edges_once g a b e h =
    let (row, found, h') = >>=-eq-ok (or_raise (lookup a g.adjacency) key_error) _ h in
    let there =
      emit_rows-has a b g.adjacency row [] (or_raise-eq-ok (lookup a g.adjacency) key_error found)
        (lookup-keys b row (or_raise-eq-ok (lookup b row) key_error h')) in
    let once =
      emit_rows-IsOnce g.adjacency [] (λ low high. omega arith) (low_of a b) (high_of a b) in
    omega (arith, there, once)
