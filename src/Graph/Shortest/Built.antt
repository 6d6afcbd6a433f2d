-- ===== src/Graph/Shortest/Built.antt =====
-- graph.py: the graphs that `create_graph` and `load_topology` build.
use Prim.Native.String.{String}
use cps344finalproject.Base.{
  ℕ, ◌≡◌, ap, subst, List, [], ◌∷◌, map, keys, ok, arith, Returns, returned, Returns-bind,
  Returns-result, Returns-value, >>=-eq-ok, ok-injective,
}
use cps344finalproject.Graph.{SimpleGraph, clear, add_node, add_nodes_from}
use cps344finalproject.Graph.Manager.{
  GraphManager, EdgeSpec, edge_of, add_edges, range_from, create_graph, load_topology,
  lookup_preset, topology_presets,
}
use cps344finalproject.Base.Float.{Float}
use cps344finalproject.Graph.Shortest.{IsGraph}
use cps344finalproject.Graph.Shortest.Edges.{add_node-Grown, add_edge-Linked}

pub clear-IsGraph : IsGraph clear
clear-IsGraph = record {
  row_of = λ n h. absurd (ground (arith, h));
  node_of = λ n row h. absurd (ground (arith, h));
  inside = tt;
}

pub add_nodes_from-IsGraph :
    (nodes : List ℕ) (g : SimpleGraph) → IsGraph g → IsGraph (add_nodes_from nodes g)
unfolding add_nodes_from
add_nodes_from-IsGraph [] g wf = wf
add_nodes_from-IsGraph (n ∷ nodes) g wf =
    add_nodes_from-IsGraph nodes (add_node n g) ((add_node-Grown n g wf).grown)

pub add_edges-IsGraph :
    (edges : List (ℕ × ℕ × ℕ)) (g : SimpleGraph) → IsGraph g → Returns IsGraph (add_edges edges g)
unfolding add_edges
add_edges-IsGraph [] g wf = returned wf
add_edges-IsGraph ((a, b, delay) ∷ edges) g wf =
    Returns-bind (add_edge-Linked a b delay g wf)
      (λ g' linked. add_edges-IsGraph edges g' linked.grown)

module _ {F : Type 0} ⦃fl : Float F⦄ where
  -- `create_graph` returns for any number of nodes and any edges, also such that lead to nodes
  -- beyond that number, and its graph is well-formed.
  pub create_graph-IsGraph :
      (num_nodes : ℕ) (edges : List EdgeSpec) (gm : GraphManager F)
      → (gm' : GraphManager F) × (create_graph num_nodes edges gm ≡ ok gm') × IsGraph gm'.graph
  unfolding create_graph
  create_graph-IsGraph num_nodes edges gm = Returns-result (
      Returns-bind
        (add_edges-IsGraph (map edge_of edges) _
          (add_nodes_from-IsGraph (range_from 0 num_nodes) clear clear-IsGraph))
        (λ g wf. returned wf))

  pub load_topology-IsGraph :
      (name : String) (gm gm' : GraphManager F) → load_topology name gm ≡ ok gm' → IsGraph gm'.graph
  unfolding load_topology
  load_topology-IsGraph name gm gm' h =
      let (spec, found, h') = >>=-eq-ok (lookup_preset name topology_presets) _ h in
      let (g, added, h'') =
        >>=-eq-ok (add_edges spec.edges (add_nodes_from (keys spec.positions) clear)) _ h' in
      let wf = Returns-value (
        subst (Returns IsGraph) added (
          add_edges-IsGraph spec.edges _
            (add_nodes_from-IsGraph (keys spec.positions) clear clear-IsGraph))) in
      subst IsGraph (ap (λ m. m.graph) (ok-injective h'')) wf
