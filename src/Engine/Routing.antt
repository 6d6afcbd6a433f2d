-- ===== src/Engine/Routing.antt =====
-- simulation.py and graph.py: the forwarding tables of the topology that a session shows.
use Prim.Native.String.{String}
use cps344finalproject.Base.{
  ℕ, ◌+◌, ◌≤◌, ◌≡◌, refl, subst, true, false, ◌==◌, some, List, Dict, lookup, every, Bool,
  ok-injective, ok, ◌>>=◌, is_ok,
}
use cps344finalproject.Base.Float.{Float, Random}
use cps344finalproject.Graph.{
  EdgeData, add_node, add_nodes_from, set_edge, add_edge, neighbors, edge_data,
}
use cps344finalproject.Graph.Route.{
  push_entry, relax, relax_all, visit, search_loop, retrace, get_route, build_forwarding_tables,
}
use cps344finalproject.Graph.Manager.{GraphManager, add_edges, load_topology}
use cps344finalproject.Graph.Shortest.{IsNode, IsGraph, IsRoute}
use cps344finalproject.Graph.Shortest.Built.{load_topology-IsGraph}
use cps344finalproject.Graph.Shortest.Tables.{IsConnected, IsConnected-search, tables_shortest}
use cps344finalproject.Engine.{Sim}
use cps344finalproject.Engine.Session.{Session}
use cps344finalproject.Engine.Topologies.{IsPreset, presets, IsLoaded}
use cps344finalproject.Engine.Keys.{Session-IsLoaded}

-- The search succeeds between any two nodes of the graph.
abbrev searches : {F : Type 0} → GraphManager F → Bool
searches gm = every (λ a. every (λ b. is_ok (get_route a b gm.graph)) gm.graph.nodes) gm.graph.nodes

module _ {F : Type 0} ⦃fl : Float F⦄ where
  load_topology-searches :
      (name : String) (gm : GraphManager F)
      → IsPreset name
      → (load_topology name gm >>= λ l. ok (searches l)) ≡ ok true
  unfolding load_topology add_edges add_node add_nodes_from set_edge add_edge neighbors edge_data
      push_entry relax relax_all visit search_loop retrace get_route
  load_topology-searches name gm p =
      presets (λ n. (load_topology n gm >>= λ l. ok (searches l)) ≡ ok true) p refl refl refl

  pub IsLoaded-IsGraph : (gm : GraphManager F) → IsLoaded gm → IsGraph gm.graph
  IsLoaded-IsGraph gm l = load_topology-IsGraph l.name l.prior gm l.loads

  pub IsLoaded-IsConnected : (gm : GraphManager F) → IsLoaded gm → IsConnected gm.graph
  IsLoaded-IsConnected gm l = IsConnected-search gm.graph (IsLoaded-IsGraph gm l) (
      ok-injective (
        subst (λ m. (m >>= λ l. ok (searches l)) ≡ ok true) l.loads
          (load_topology-searches l.name l.prior l.preset)))

module _ {F R : Type 0} ⦃fl : Float F⦄ ⦃rand : Random F R⦄ where
  -- At any moment of a session, for any two different nodes of the topology shown, its forwarding
  -- tables can be built, and their entry is the first hop of a route that is no longer than any
  -- given one.
  pub tables_always_shortest :
      {s : Sim F R}
      → Session s
      → (source destination l : ℕ) (q : List ℕ) → IsNode s.graph_manager.graph source
      → IsNode s.graph_manager.graph destination
      → (source == destination) ≡ false
      → IsRoute s.graph_manager.graph source destination l q
      → (tables : Dict (Dict ℕ)) × (row : Dict ℕ) × (hop : ℕ) × (edge : EdgeData) × (left : ℕ)
        × (route : List ℕ) × (build_forwarding_tables s.graph_manager.graph ≡ ok tables)
        × (lookup source tables ≡ some row)
        × (lookup destination row ≡ some hop)
        × (edge_data source hop s.graph_manager.graph ≡ ok edge)
        × IsRoute s.graph_manager.graph hop destination left route
        × (edge.delay_ms + left ≤ l)
  tables_always_shortest {s} h source destination l q is_source is_node apart route =
      let gm = s.graph_manager in
      let loaded = Session-IsLoaded h in
      tables_shortest gm.graph source destination l q (IsLoaded-IsGraph gm loaded)
        (IsLoaded-IsConnected gm loaded) is_source is_node apart route
