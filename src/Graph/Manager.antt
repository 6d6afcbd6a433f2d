-- ===== src/Graph/Manager.antt =====
-- graph.py: the preset topologies, and `GraphManager`, which holds the one that is shown.
mod Presets
pub use Presets.{TopologySpec, topology_presets}
use Prim.Native.String.{String}
use text.Mathlib.Text.{◌==◌ as str_eq}
use cps344finalproject.Base.{
  ℕ, zero, suc, ◌+◌, ◌%◌, Bool, true, false, Option, none, some, List, [], ◌∷◌, map, Dict, length,
  keys, Result, ok, err, or_raise, key_error, value_error, index_error, ◌>>=◌, if◌then◌else◌, ltb,
}
use cps344finalproject.Base.Float.{Float, num}
use cps344finalproject.Graph.{SimpleGraph, clear, add_nodes_from, add_edge, edge_data, neighbors}
use cps344finalproject.Graph.Route.{build_forwarding_tables}

pub record GraphManager (F : Type 0) : Type 0 where
  pub graph : SimpleGraph
  pub pos : Dict (F × F)
  pub current_topology_name : String
  pub default_source : ℕ
  pub default_destination : ℕ
  pub description : String

-- An edge of `create_graph`: a pair, or a triple with its delay.
pub data EdgeSpec : Type 0 where
  pair : ℕ → ℕ → EdgeSpec
  triple : ℕ → ℕ → ℕ → EdgeSpec

abbrev pub edge_of : EdgeSpec → ℕ × ℕ × ℕ
edge_of (pair a b) = (a, b, 200)
edge_of (triple a b d) = (a, b, d)

unfoldable pub add_edges : List (ℕ × ℕ × ℕ) → SimpleGraph → Result SimpleGraph
add_edges [] g = ok g
add_edges ((a, b, delay) ∷ edges) g = do g' ← add_edge a b delay g; add_edges edges g'

-- `range(start, start + n)`
abbrev pub range_from : ℕ → ℕ → List ℕ
range_from start zero = []
range_from start (suc n) = start ∷ range_from (suc start) n

-- `max(nodes, default=0)`
abbrev pub max_node : List ℕ → ℕ
max_node [] = 0
max_node (node ∷ nodes) = let rest = max_node nodes in if ltb node rest then rest else node

-- The index of a key, for `names.index(name)`, and `names[i]`.
abbrev pub index_of : String → List String → Result ℕ
index_of name [] = err value_error
index_of name (n ∷ names) =
    if str_eq n name then ok 0 else (index_of name names >>= λ i. ok (suc i))

abbrev pub name_at : List String → ℕ → Result String
name_at [] i = err index_error
name_at (n ∷ names) zero = ok n
name_at (n ∷ names) (suc i) = name_at names i

abbrev pub lookup_preset :
    {F : Type 0} → String → List (String × TopologySpec F) → Result (TopologySpec F)
lookup_preset name [] = err key_error
lookup_preset name ((n, spec) ∷ presets) =
    if str_eq n name then ok spec else lookup_preset name presets

abbrev pub get_topology_names : (F : Type 0) ⦃fl : Float F⦄ → List String
get_topology_names F = map (λ (e : String × TopologySpec F). e.0) topology_presets

module _ {F : Type 0} ⦃fl : Float F⦄ where
  -- The loop of `_circle_layout`.
  unfoldable pub circle_from : ℕ → ℕ → List ℕ → Dict (F × F)
  circle_from total index [] = []
  circle_from total index (node ∷ nodes) =
      let angle = fl.mul (fl.div (num index) (num total)) (fl.lit 628318 5) in
      (node, (fl.mul (fl.lit 78 2) (fl.cos angle), fl.mul (fl.lit 78 2) (fl.sin angle)))
      ∷ circle_from total (suc index) nodes

  unfoldable pub circle_layout : List ℕ → Dict (F × F)
  circle_layout nodes = let n = length nodes in circle_from (if ltb n 1 then 1 else n) 0 nodes

  abbrev pub new_manager : GraphManager F
  new_manager = record {
    graph = clear;
    pos = [];
    current_topology_name = "";
    default_source = 0;
    default_destination = 0;
    description = "";
  }

  unfoldable pub create_graph : ℕ → List EdgeSpec → GraphManager F → Result (GraphManager F)
  create_graph num_nodes edges gm = do
    g ← add_edges (map edge_of edges) (add_nodes_from (range_from 0 num_nodes) clear)
    ok (record gm {
      graph = g;
      pos = circle_layout g.nodes;
      current_topology_name = "Custom";
      default_source = 0;
      default_destination = max_node g.nodes;
      description = "Custom topology";
    })

  unfoldable pub load_topology : String → GraphManager F → Result (GraphManager F)
  load_topology topology_name gm = do
    spec ← lookup_preset {F = F} topology_name topology_presets
    g ← add_edges spec.edges (add_nodes_from (keys spec.positions) clear)
    ok (record gm {
      graph = g;
      pos = spec.positions;
      current_topology_name = spec.name;
      default_source = spec.default_source;
      default_destination = spec.default_destination;
      description = spec.description;
    })

  -- The name that `cycle_topology` moves to.
  unfoldable pub next_name : ℕ → GraphManager F → Result String
  next_name step gm =
      let names = get_topology_names F in
      if str_eq gm.current_topology_name ""
      then name_at names 0
      else index_of gm.current_topology_name names >>= λ current_index.
          name_at names ((current_index + step) % length names)

  unfoldable pub cycle_topology : ℕ → GraphManager F → Result (GraphManager F)
  cycle_topology step gm = do name ← next_name step gm; load_topology name gm

  unfoldable pub get_neighbors : ℕ → GraphManager F → Result (List ℕ)
  get_neighbors node gm = neighbors node gm.graph

  unfoldable pub get_edge_delay : ℕ → ℕ → GraphManager F → Result ℕ
  get_edge_delay node_a node_b gm = do edge ← edge_data node_a node_b gm.graph; ok edge.delay_ms
