-- ===== src/Graph/Tests.antt =====
-- The theorems on graphs and routes, at the graph of Campus Backbone.
use cps344finalproject.Base.{
  ℕ, ◌+◌, ◌≤◌, ◌≡◌, refl, true, some, List, [], ◌∷◌, lookup, Dict, Result, ok, err, key_error, ◌⊎◌,
  is_ok, every, arith, if◌then◌else◌, ◌==◌, ◌&&◌, ◌||◌,
}
use cps344finalproject.Base.Fixed.{ℤ, fixed}
use cps344finalproject.Graph.{
  SimpleGraph, EdgeData, add_node, add_nodes_from, set_edge, add_edge, neighbors, edge_data, edges,
}
use cps344finalproject.Graph.Route.{
  push_entry, relax, relax_all, visit, search_loop, retrace, get_route, build_forwarding_tables,
}
use cps344finalproject.Graph.Manager.{
  GraphManager, triple, add_edges, new_manager, create_graph, load_topology,
}
use cps344finalproject.Graph.EdgeList.{times, low_of, high_of, edges_once}
use cps344finalproject.Graph.Shortest.{IsNode, IsGraph, IsRoute, arrive, via}
use cps344finalproject.Graph.Shortest.Correct.{get_route_cases, get_route_shortest}
use cps344finalproject.Graph.Shortest.Edges.{add_edge-finds}
use cps344finalproject.Graph.Shortest.Built.{create_graph-IsGraph, load_topology-IsGraph}
use cps344finalproject.Graph.Shortest.Tables.{IsConnected, IsConnected-search, tables_shortest}

abbrev manager_of : Result (GraphManager ℤ) → GraphManager ℤ
manager_of (ok gm) = gm
manager_of (err e) = new_manager

manager_of_lem : (m : Result (GraphManager ℤ)) → is_ok m ≡ true → m ≡ ok (manager_of m)
manager_of_lem (ok gm) h = refl
manager_of_lem (err e) h = absurd (ground arith)

unfoldable campus_manager : GraphManager ℤ
campus_manager = manager_of (load_topology "Campus Backbone" new_manager)

abbrev campus : SimpleGraph
campus = campus_manager.graph

unfoldable operations : Unit {0}
unfolding campus_manager load_topology add_edges add_node add_nodes_from set_edge add_edge neighbors
    edge_data push_entry relax relax_all visit search_loop retrace get_route
operations = tt

campus-is_ok : is_ok (load_topology "Campus Backbone" (new_manager {F = ℤ})) ≡ true
unfolding operations
campus-is_ok = refl

campus-loads : load_topology "Campus Backbone" new_manager ≡ ok campus_manager
unfolding campus_manager
campus-loads = manager_of_lem _ campus-is_ok

campus-IsGraph : IsGraph campus
campus-IsGraph = load_topology-IsGraph "Campus Backbone" new_manager campus_manager campus-loads

campus-searches :
    every (λ a. every (λ b. is_ok (get_route a b campus)) campus.nodes) campus.nodes ≡ true
unfolding operations
campus-searches = refl

campus-IsConnected : IsConnected campus
campus-IsConnected = IsConnected-search campus campus-IsGraph campus-searches

IsNode-zero : IsNode campus 0
unfolding operations
IsNode-zero = refl

IsNode-five : IsNode campus 5
unfolding operations
IsNode-five = refl

abbrev delay : ℕ → EdgeData
delay d = record { delay_ms = d }

first_link : edge_data 0 1 campus ≡ ok (delay 260)
unfolding operations
first_link = refl

middle_link : edge_data 1 3 campus ≡ ok (delay 220)
unfolding operations
middle_link = refl

last_link : edge_data 3 5 campus ≡ ok (delay 260)
unfolding operations
last_link = refl

back_link : edge_data 5 3 campus ≡ ok (delay 260)
unfolding operations
back_link = refl

-- A detour.
detour : IsRoute campus 0 5 740 (0 ∷ 1 ∷ 3 ∷ 5 ∷ [])
detour = via first_link (via middle_link (via last_link arrive))

get_route_cases_example :
    ((d : ℕ) × (p : List ℕ) × (get_route 0 5 campus ≡ ok p) × IsRoute campus 0 5 d p)
    ⊎ (get_route 0 5 campus ≡ err key_error)
get_route_cases_example = get_route_cases campus 0 5 campus-IsGraph IsNode-zero IsNode-five

get_route_shortest_example :
    (d : ℕ) × (p : List ℕ) × (get_route 0 5 campus ≡ ok p) × IsRoute campus 0 5 d p × (d ≤ 740)
get_route_shortest_example =
    get_route_shortest campus 0 5 740 (0 ∷ 1 ∷ 3 ∷ 5 ∷ []) campus-IsGraph IsNode-zero IsNode-five
      detour

tables_shortest_example :
    (tables : Dict (Dict ℕ)) × (row : Dict ℕ) × (hop : ℕ) × (edge : EdgeData) × (left : ℕ)
    × (route : List ℕ) × (build_forwarding_tables campus ≡ ok tables)
    × (lookup 0 tables ≡ some row)
    × (lookup 5 row ≡ some hop)
    × (edge_data 0 hop campus ≡ ok edge)
    × IsRoute campus hop 5 left route
    × (edge.delay_ms + left ≤ 740)
tables_shortest_example =
    tables_shortest campus 0 5 740 (0 ∷ 1 ∷ 3 ∷ 5 ∷ []) campus-IsGraph campus-IsConnected
      IsNode-zero IsNode-five refl detour

-- A new edge between nodes that had none.
add_edge-finds_example :
    (g : SimpleGraph) × (add_edge 0 5 90 campus ≡ ok g)
    × IsGraph g
    × (edge_data 5 0 g ≡ (
        if 5 == 0 && 0 == 5 || 5 == 5 && 0 == 0
        then ok (record { delay_ms = 90 })
        else edge_data 5 0 campus))
add_edge-finds_example = add_edge-finds 0 5 90 campus campus-IsGraph 5 0

-- An edge that leads to a node beyond the number of nodes.
create_graph-IsGraph_example :
    (gm : GraphManager ℤ) × (create_graph 3 (triple 0 7 50 ∷ []) campus_manager ≡ ok gm)
    × IsGraph gm.graph
create_graph-IsGraph_example = create_graph-IsGraph 3 (triple 0 7 50 ∷ []) campus_manager

edges_once_example : times (low_of 5 3) (high_of 5 3) (edges campus) ≡ 1
edges_once_example = edges_once campus 5 3 (delay 260) back_link
