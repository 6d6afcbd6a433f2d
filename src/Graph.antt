-- ===== src/Graph.antt =====
-- graph.py: `SimpleGraph`, an undirected graph as nested dictionaries, both in insertion order.
pub mod Route
pub mod Manager
pub mod Shortest
pub mod Edges
pub mod EdgeList
pub mod Tests
use cps344finalproject.Base.{
  ℕ, Bool, true, false, ◌&&◌, ◌||◌, Option, none, some, List, [], ◌∷◌, ◌++◌, map, Dict, lookup,
  insert, keys, Result, ok, err, or_raise, key_error, ◌>>=◌, if◌then◌else◌, ◌==◌, leb,
}

-- The payload `{"delay_ms": …}` of an edge.
pub record EdgeData : Type 0 where
  pub delay_ms : ℕ

pub record SimpleGraph : Type 0 where
  pub nodes : List ℕ
  pub adjacency : Dict (Dict EdgeData)

abbrev pub clear : SimpleGraph
clear = record { nodes = []; adjacency = [] }

-- The body of the loop of `add_nodes_from`.
unfoldable pub add_node : ℕ → SimpleGraph → SimpleGraph
add_node node g = elim (lookup node g.adjacency) [
  | none ↦ record { nodes = g.nodes ++ node ∷ []; adjacency = insert node [] g.adjacency }
  | some _ ↦ g
]

unfoldable pub add_nodes_from : List ℕ → SimpleGraph → SimpleGraph
add_nodes_from [] g = g
add_nodes_from (node ∷ nodes) g = add_nodes_from nodes (add_node node g)

-- `adjacency[a][b] = payload`
unfoldable pub set_edge : ℕ → ℕ → EdgeData → Dict (Dict EdgeData) → Result (Dict (Dict EdgeData))
set_edge a b payload adjacency = do
  row ← or_raise (lookup a adjacency) key_error
  ok (insert a (insert b payload row) adjacency)

unfoldable pub add_edge : ℕ → ℕ → ℕ → SimpleGraph → Result SimpleGraph
add_edge node_a node_b delay_ms g = do
  let g' = add_nodes_from (node_a ∷ node_b ∷ []) g
  let payload : EdgeData = record { delay_ms = delay_ms }
  one ← set_edge node_a node_b payload g'.adjacency
  both ← set_edge node_b node_a payload one
  ok (record { nodes = g'.nodes; adjacency = both })

unfoldable pub neighbors : ℕ → SimpleGraph → Result (List ℕ)
neighbors node g = do row ← or_raise (lookup node g.adjacency) key_error; ok (keys row)

unfoldable pub edge_data : ℕ → ℕ → SimpleGraph → Result EdgeData
edge_data node_a node_b g = do
  row ← or_raise (lookup node_a g.adjacency) key_error
  or_raise (lookup node_b row) key_error

pub record Edge : Type 0 where
  pub low : ℕ
  pub high : ℕ
  pub payload : EdgeData

-- `tuple(sorted((a, b)))`, with the payload
abbrev pub sorted_edge : ℕ → ℕ → EdgeData → Edge
sorted_edge a b payload =
    if leb a b
    then record { low = a; high = b; payload = payload }
    else record { low = b; high = a; payload = payload }

-- `edge in emitted`: the keys of `result` are the set `emitted`.
unfoldable pub emitted : Edge → List Edge → Bool
emitted edge [] = false
emitted edge (e ∷ result) = e.low == edge.low && e.high == edge.high || emitted edge result

-- The inner loop of `edges`.
unfoldable pub emit_row : ℕ → Dict EdgeData → List Edge → List Edge
emit_row a [] result = result
emit_row a ((b, payload) ∷ row) result =
    let edge = sorted_edge a b payload in
    emit_row a row (if emitted edge result then result else result ++ edge ∷ [])

unfoldable pub emit_rows : Dict (Dict EdgeData) → List Edge → List Edge
emit_rows [] result = result
emit_rows ((a, row) ∷ adjacency) result = emit_rows adjacency (emit_row a row result)

-- `edges(data=True)`
unfoldable pub edges : SimpleGraph → List Edge
edges g = emit_rows g.adjacency []
