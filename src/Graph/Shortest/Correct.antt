-- ===== src/Graph/Shortest/Correct.antt =====
-- graph.py: the result of `get_route`, and shortest routes.
use cps344finalproject.Base.{
  ℕ, ◌≤◌, arith, ◌≡◌, refl, sym, ap, ◌∙◌, subst, Option, none, some, List, [], length, lookup,
  Result, ok, err, or_raise, key_error, ◌>>=◌, ◌⊎◌, inl, inr, Returns, returned, Returns-result,
}
use cps344finalproject.Graph.{SimpleGraph}
use cps344finalproject.Graph.Route.{Search, get_route, search_loop, search_fuel, start, retrace}
use cps344finalproject.Graph.Shortest.{IsNode, IsGraph, IsRoute}
use cps344finalproject.Graph.Shortest.Tree.{Known, Known_unique}
use cps344finalproject.Graph.Shortest.Search.{Settled}
use cps344finalproject.Graph.Shortest.Loop.{search-Returns}
use cps344finalproject.Graph.Shortest.Retrace.{retrace-Returns}

module _ (g : SimpleGraph) (source destination : ℕ) where
  -- What the two tests after the search make of its result.
  abbrev finish : Search → Result (List ℕ)
  finish s = or_raise (lookup destination s.distances) key_error >>= λ reached.
      or_raise reached key_error >>= λ _. retrace (length g.nodes) s.previous source destination []

  -- The search result that `get_route` works with.
  searched :
      IsGraph g
      → IsNode g source
      → (s : Search) × Settled g source destination s × (get_route source destination g ≡ finish s)
  unfolding get_route
  searched wf is_source =
      go (search_loop g (search_fuel g) destination (start g source))
        (search-Returns g source destination wf is_source)
    where
      go :
          (r : Result Search)
          → Returns (Settled g source destination) r
          → (s : Search) × Settled g source destination s × ((r >>= finish) ≡ finish s)
      go _ (returned {a = s} settled) = (s, settled, refl)

  finish_known :
      (s : Search) (d : ℕ)
      → Settled g source destination s
      → IsNode g destination
      → Known s destination d
      → Returns (IsRoute g source destination d) (finish s)
  finish_known s d settled is_node k =
      subst
        (λ o. Returns (IsRoute g source destination d) (
          or_raise o key_error >>= λ reached. or_raise reached key_error >>= λ _.
          retrace (length g.nodes) s.previous source destination []))
        (sym k) (retrace-Returns g source destination s settled d k is_node)

  -- For two nodes of a well-formed graph, `get_route` ends with a route of the graph from the one to
  -- the other, or with a `KeyError`; the rounds allowed for the search and for the way back are
  -- always enough.
  pub get_route_cases :
      IsGraph g
      → IsNode g source
      → IsNode g destination
      → ((d : ℕ) × (p : List ℕ) × (get_route source destination g ≡ ok p)
          × IsRoute g source destination d p)
        ⊎ (get_route source destination g ≡ err key_error)
  get_route_cases wf is_source is_node =
      let (s, settled, e) = searched wf is_source in
      let (o, found) = settled.has_distance destination is_node in go s settled e o found
    where
      go :
          (s : Search)
          → Settled g source destination s
          → get_route source destination g ≡ finish s
          → (o : Option ℕ) → lookup destination s.distances ≡ some o
          → ((d : ℕ) × (p : List ℕ) × (get_route source destination g ≡ ok p)
              × IsRoute g source destination d p)
            ⊎ (get_route source destination g ≡ err key_error)
      go s settled e none found = inr (
          e
          ∙ ap
              (λ o. or_raise o key_error >>= λ reached. or_raise reached key_error >>= λ _.
                retrace (length g.nodes) s.previous source destination [])
              found)
      go s settled e (some d) found =
          let (p, r, route) = Returns-result (finish_known s d settled is_node found) in
          inl (d, p, e ∙ r, route)

  pub get_route_best :
      (l : ℕ) (q : List ℕ)
      → IsGraph g
      → IsNode g source
      → IsNode g destination
      → IsRoute g source destination l q
      → (d : ℕ) × (p : List ℕ) × (get_route source destination g ≡ ok p)
        × IsRoute g source destination d p
        × ((l : ℕ) (q : List ℕ) → IsRoute g source destination l q → d ≤ l)
  get_route_best l q wf is_source is_node route =
      let (s, settled, e) = searched wf is_source in
      let (d, known, le) = settled.shortest l q route in
      let (p, r, found) = Returns-result (finish_known s d settled is_node known) in
      (
        d,
        p,
        e ∙ r,
        found,
        λ l' q' route'.
            let (d', known', le') = settled.shortest l' q' route' in
            omega (arith, le', Known_unique s destination d d' known known'),
      )

  -- For two nodes of a well-formed graph that a route joins, `get_route` returns a route from the
  -- one to the other, and it is no longer than the route given.
  pub get_route_shortest :
      (l : ℕ) (q : List ℕ)
      → IsGraph g
      → IsNode g source
      → IsNode g destination
      → IsRoute g source destination l q
      → (d : ℕ) × (p : List ℕ) × (get_route source destination g ≡ ok p)
        × IsRoute g source destination d p
        × (d ≤ l)
  get_route_shortest l q wf is_source is_node route =
      let (d, p, e, found, best) = get_route_best l q wf is_source is_node route in
      (d, p, e, found, best l q route)
