-- ===== src/Graph/Route.antt =====
-- graph.py: `GraphManager.get_route`, Dijkstra's algorithm, and `build_forwarding_tables`.
-- Distances are floats with whole values below 2^53 in the source, and natural numbers here;
-- `none` is `float("inf")`. The heap is the sorted list of its entries, smallest first.
use cps344finalproject.Base.{
  ℕ, zero, suc, ◌+◌, Bool, true, false, ◌&&◌, ◌||◌, Option, none, some, List, [], ◌∷◌, map, Dict,
  lookup, insert, length, Result, ok, err, or_raise, key_error, index_error, out_of_fuel, ◌>>=◌,
  if◌then◌else◌, ◌==◌, leb, ltb,
}
use mathlib.Core.List.{foldr}
use cps344finalproject.Graph.{SimpleGraph, neighbors, edge_data}

pub record Search : Type 0 where
  pub distances : Dict (Option ℕ)
  pub previous : Dict (Option ℕ)
  pub heap : List (ℕ × ℕ)

-- `(d, n) < (d', n')` on tuples
abbrev pub entry_lt : ℕ × ℕ → ℕ × ℕ → Bool
entry_lt (d, n) (d', n') = ltb d d' || d == d' && ltb n n'

-- `heapq.heappush`
unfoldable pub push_entry : ℕ × ℕ → List (ℕ × ℕ) → List (ℕ × ℕ)
push_entry e [] = e ∷ []
push_entry e (x ∷ heap) = if entry_lt e x then e ∷ x ∷ heap else x ∷ push_entry e heap

-- `d >= distance` for a distance that may be infinite
abbrev pub at_least : ℕ → Option ℕ → Bool
at_least d none = false
at_least d (some e) = leb e d

-- `current > distance`
abbrev pub exceeds : ℕ → Option ℕ → Bool
exceeds d none = false
exceeds d (some e) = ltb e d

-- What `relax` does with the distance known so far.
abbrev pub improve : ℕ → ℕ → ℕ → Option ℕ → Search → Search
improve node neighbor new_distance known s = if at_least new_distance known then s else record {
  distances = insert neighbor (some new_distance) s.distances;
  previous = insert neighbor (some node) s.previous;
  heap = push_entry (new_distance, neighbor) s.heap;
}

module _ (g : SimpleGraph) where
  -- The body of the loop over the neighbours.
  unfoldable pub relax : ℕ → ℕ → ℕ → Search → Result Search
  relax current node neighbor s = do
    edge ← edge_data node neighbor g
    let new_distance = current + edge.delay_ms
    known ← or_raise (lookup neighbor s.distances) key_error
    ok (improve node neighbor new_distance known s)

  unfoldable pub relax_all : ℕ → ℕ → List ℕ → Search → Result Search
  relax_all current node [] s = ok s
  relax_all current node (neighbor ∷ rest) s = do
    s' ← relax current node neighbor s
    relax_all current node rest s'

  -- One round of the `while` loop, after `(current, node)` left the heap: the new state, and
  -- whether the loop goes on.
  unfoldable pub visit : ℕ → ℕ → ℕ → Search → Result (Bool × Search)
  visit destination current node s =
      if node == destination
      then ok (false, s)
      else or_raise (lookup node s.distances) key_error >>= λ known.
          if exceeds current known
          then ok (true, s)
          else neighbors node g >>= λ around.
              relax_all current node around s >>= λ s'. ok (true, s')

  -- `while heap: …`, with fuel.
  unfoldable pub search_loop : ℕ → ℕ → Search → Result Search
  search_loop zero destination s = elim s.heap [ [] ↦ ok s | _ ∷ _ ↦ err out_of_fuel ]
  search_loop (suc fuel) destination s = elim s.heap [
    | [] ↦ ok s
    | (current, node) ∷ heap ↦
        visit destination current node (record s { heap = heap }) >>= λ (more, t).
        let rest = search_loop fuel destination t in if more then rest else ok t
  ]

  abbrev pub start : ℕ → Search
  start source = record {
    distances = insert source (some 0) (map (λ node. (node, none)) g.nodes);
    previous = map (λ node. (node, none)) g.nodes;
    heap = (0, source) ∷ [];
  }

  -- One entry is pushed for the source, and at most one for each entry of the adjacency.
  abbrev pub search_fuel : ℕ
  search_fuel = suc (foldr (λ e n. length e.1 + n) 0 g.adjacency)

-- `while route[-1] != source: …`, with the route held back to front, so that it ends up reversed:
-- `node ∷ route` is `reversed(route)`. A route visits no node twice, so the nodes bound the rounds.
unfoldable pub retrace : ℕ → Dict (Option ℕ) → ℕ → ℕ → List ℕ → Result (List ℕ)
retrace zero previous source node route =
    if node == source then ok (node ∷ route) else err out_of_fuel
retrace (suc fuel) previous source node route = elim (node == source) [
  | true ↦ ok (node ∷ route)
  | false ↦ or_raise (lookup node previous) key_error >>= λ known.
      or_raise known key_error >>= λ prev_node.
      retrace fuel previous source prev_node (node ∷ route)
]

unfoldable pub get_route : ℕ → ℕ → SimpleGraph → Result (List ℕ)
get_route source destination g = do
  s ← search_loop g (search_fuel g) destination (start g source)
  reached ← or_raise (lookup destination s.distances) key_error
  _ ← or_raise reached key_error
  retrace (length g.nodes) s.previous source destination []

-- `route[1]`
abbrev pub second : List ℕ → Result ℕ
second (_ ∷ hop ∷ _) = ok hop
second _ = err index_error

-- The inner loop of `build_forwarding_tables`.
unfoldable pub build_table : SimpleGraph → ℕ → List ℕ → Dict ℕ → Result (Dict ℕ)
build_table g source [] table = ok table
build_table g source (destination ∷ rest) table =
    if source == destination
    then build_table g source rest table
    else get_route source destination g >>= λ route.
        second route >>= λ hop. build_table g source rest (insert destination hop table)

unfoldable pub build_tables : SimpleGraph → List ℕ → Dict (Dict ℕ) → Result (Dict (Dict ℕ))
build_tables g [] tables = ok tables
build_tables g (source ∷ rest) tables = do
  table ← build_table g source g.nodes []
  build_tables g rest (insert source table tables)

unfoldable pub build_forwarding_tables : SimpleGraph → Result (Dict (Dict ℕ))
build_forwarding_tables g = build_tables g g.nodes []
