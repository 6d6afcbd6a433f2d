-- ===== src/Graph/Shortest.antt =====
-- graph.py: what a well-formed graph is, with a row of edges for each node, and what a route.
pub mod Heap
pub mod Tree
pub mod Improve
pub mod Relax
pub mod Search
pub mod Loop
pub mod Retrace
pub mod Correct
pub mod Edges
pub mod Built
pub mod Tables
use cps344finalproject.Base.{ℕ, ◌+◌, ◌≡◌, true, some, List, [], ◌∷◌, lookup, Dict, ok, member, All}
use cps344finalproject.Graph.{SimpleGraph, EdgeData, edge_data}

module _ (g : SimpleGraph) where
  abbrev pub IsNode : ℕ → Type 0
  IsNode n = member n g.nodes ≡ true

  pub record IsGraph : Type 0 where
    pub row_of : (n : ℕ) → IsNode n → (row : Dict EdgeData) × (lookup n g.adjacency ≡ some row)
    pub node_of : (n : ℕ) (row : Dict EdgeData) → lookup n g.adjacency ≡ some row → IsNode n
    pub inside :
        All (λ (e : ℕ × Dict EdgeData). All (λ (r : ℕ × EdgeData). IsNode r.0) e.1) g.adjacency

  -- The nodes of a route along edges of the graph, and the sum of their delays.
  pub data IsRoute : ℕ → ℕ → ℕ → List ℕ → Type 0 where
    arrive : {a : ℕ} → IsRoute a a 0 (a ∷ [])
    via :
        {a b z d : ℕ} {e : EdgeData} {p : List ℕ}
        → edge_data a b g ≡ ok e
        → IsRoute b z d p
        → IsRoute a z (e.delay_ms + d) (a ∷ p)
