-- ===== src/Graph/Edges.antt =====
-- graph.py: what `edges` lists.
use cps344finalproject.Base.{
  ℕ, ◌≡◌, true, List, [], ◌∷◌, Dict, if-both, leb, member, All, All-concat, keys, arith,
}
use cps344finalproject.Graph.{
  SimpleGraph, EdgeData, Edge, sorted_edge, emitted, emit_row, emit_rows, edges,
}

module _ (P : ℕ → Type 0) where
  abbrev pub Ends : Edge → Type 0
  Ends e = P e.low × P e.high

  emit_row-Ends :
      (a : ℕ) (row : Dict EdgeData) (result : List Edge)
      → P a
      → All (λ (r : ℕ × EdgeData). P r.0) row
      → All Ends result
      → All Ends (emit_row a row result)
  unfolding emit_row
  emit_row-Ends a [] result p h i = i
  emit_row-Ends a ((b, payload) ∷ row) result p h i =
      let edge = sorted_edge a b payload in
      let ends : Ends edge = if-both Ends (leb a b) (p, h.0) (h.0, p) in
      emit_row-Ends a row _ p h.1
        (if-both (All Ends) (emitted edge result) i (All-concat Ends result edge i ends))

  emit_rows-Ends :
      (m : Dict (Dict EdgeData)) (result : List Edge)
      → All (λ (e : ℕ × Dict EdgeData). P e.0 × All (λ (r : ℕ × EdgeData). P r.0) e.1) m
      → All Ends result
      → All Ends (emit_rows m result)
  unfolding emit_rows
  emit_rows-Ends [] result h i = i
  emit_rows-Ends ((a, row) ∷ m) result h i =
      emit_rows-Ends m _ h.1 (emit_row-Ends a row result h.0.0 h.0.1 i)

  -- The ends of all edges that `edges` lists.
  pub edges-Ends :
      (g : SimpleGraph)
      → All (λ (e : ℕ × Dict EdgeData). P e.0 × All (λ (r : ℕ × EdgeData). P r.0) e.1) g.adjacency
      → All Ends (edges g)
  unfolding edges
  edges-Ends g h = emit_rows-Ends g.adjacency [] h tt

  -- Rows of known nodes, when the keys are known and what the rows lead to.
  pub All-rows :
      (m : Dict (Dict EdgeData))
      → ((n : ℕ) → member n (keys m) ≡ true → P n)
      → All (λ (e : ℕ × Dict EdgeData). All (λ (r : ℕ × EdgeData). P r.0) e.1) m
      → All (λ (e : ℕ × Dict EdgeData). P e.0 × All (λ (r : ℕ × EdgeData). P r.0) e.1) m
  All-rows [] f h = tt
  All-rows ((a, row) ∷ m) f h =
      ((f a (ground arith), h.0), All-rows m (λ n k. f n (ground (arith, k))) h.1)
