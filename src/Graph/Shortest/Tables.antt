-- ===== src/Graph/Shortest/Tables.antt =====
-- graph.py: the entries that `build_forwarding_tables` makes, and shortest routes.
use cps344finalproject.Base.{
  ℕ, ◌+◌, ◌≤◌, ◌≡◌, sym, ap, ◌∙◌, subst, Bool-cases, true, false, ◌==◌, some, List, [], ◌∷◌, Dict,
  lookup, insert, lookup-insert, ok, member, every, every-member, is_ok, arith, inl, inr, ◌⊎◌,
  Returns, returned, Returns-if, Returns-bind, Returns-map, Returns-result, if-true, if-false,
}
use cps344finalproject.Graph.{SimpleGraph, EdgeData, edge_data}
use cps344finalproject.Graph.Route.{
  get_route, second, build_table, build_tables, build_forwarding_tables,
}
use cps344finalproject.Graph.Shortest.{IsNode, IsGraph, IsRoute, arrive, via}
use cps344finalproject.Graph.Shortest.Correct.{get_route_best, get_route_cases}

module _ (g : SimpleGraph) where
  -- Every node has a route to every other.
  pub record IsConnected : Type 0 where
    pub joins : (a b : ℕ) → IsNode g a → IsNode g b → (l : ℕ) × (p : List ℕ) × IsRoute g a b l p

  -- A graph is connected when the search succeeds between any two nodes.
  pub IsConnected-search :
      IsGraph g
      → every (λ a. every (λ b. is_ok (get_route a b g)) g.nodes) g.nodes ≡ true
      → IsConnected
  IsConnected-search wf search = record {
    joins = λ a b is_a is_b.
        let found =
          every-member (λ b. is_ok (get_route a b g)) b g.nodes
            (every-member (λ a. every (λ b. is_ok (get_route a b g)) g.nodes) a g.nodes search is_a)
            is_b in
        elim (get_route_cases g a b wf is_a is_b) [
          | inl (d, p, _, route) ↦ (d, p, route)
          | inr raised ↦ absurd (ground (arith, sym (ap is_ok raised) ∙ found))
        ];
  }

  -- A shortest route from the source begins with the edge to `hop`.
  record IsHop (source destination hop : ℕ) : Type 0 where
    edge : EdgeData
    left : ℕ
    route : List ℕ
    link : edge_data source hop g ≡ ok edge
    goes : IsRoute g hop destination left route
    best : (l : ℕ) (q : List ℕ) → IsRoute g source destination l q → edge.delay_ms + left ≤ l

  IsRoute-second :
      (source destination d : ℕ) (p : List ℕ)
      → (source == destination) ≡ false
      → IsRoute g source destination d p
      → ((l : ℕ) (q : List ℕ) → IsRoute g source destination l q → d ≤ l)
      → Returns (IsHop source destination) (second p)
  IsRoute-second source destination d p apart arrive best = absurd (ground arith)
  IsRoute-second source destination d p apart (via {e = e} link arrive) best =
      returned (record { edge = e; left = _; route = _; link = link; goes = arrive; best = best })
  IsRoute-second source destination d p apart (via {e = e} link (via link' rest)) best =
      returned
        (record { edge = e; left = _; route = _; link = link; goes = via link' rest; best = best })

  module _ (wf : IsGraph g) (connected : IsConnected) where
    -- The entry of a destination.
    abbrev Entry : ℕ → Dict ℕ → ℕ → Type 0
    Entry source table t = (hop : ℕ) × (lookup t table ≡ some hop) × IsHop source t hop

    first-IsHop :
        (source destination : ℕ)
        → IsNode g source
        → IsNode g destination
        → (source == destination) ≡ false
        → Returns
            (λ route. Returns (IsHop source destination) (second route))
            (get_route source destination g)
    first-IsHop source destination is_source is_node apart =
        let (l, q, route) = connected.joins source destination is_source is_node in
        let (d, p, e, found, best) =
          get_route_best g source destination l q wf is_source is_node route in
        subst (Returns (λ route. Returns (IsHop source destination) (second route))) (sym e)
          (returned (IsRoute-second source destination d p apart found best))

    Entry-insert :
        (source x hop t : ℕ) (table : Dict ℕ)
        → IsHop source x hop
        → (t == x) ≡ true ⊎ Entry source table t
        → Entry source (insert x hop table) t
    Entry-insert source x hop t table new h =
        let l = lookup-insert x t hop table in
        elim (Bool-cases (x == t)) [
          | inl same ↦
              let e : x ≡ t = ground arith in
              (hop, l ∙ if-true _ _ _ same, subst (λ x. IsHop source x hop) e new)
          | inr other ↦ elim h [
            | inl same ↦ absurd (ground arith)
            | inr (old, found, is_hop) ↦ (old, l ∙ if-false _ _ _ other ∙ found, is_hop)
          ]
        ]

    -- A table has the destinations it had, and those of the list.
    abbrev Filled : ℕ → List ℕ → Dict ℕ → Dict ℕ → Type 0
    Filled source destinations table made =
        (t : ℕ)
        → (source == t) ≡ false
        → (member t destinations ≡ true) ⊎ Entry source table t
        → Entry source made t

    build_table-Returns :
        (source : ℕ) (destinations : List ℕ) (table : Dict ℕ)
        → IsNode g source
        → ((t : ℕ) → member t destinations ≡ true → IsNode g t)
        → Returns (Filled source destinations table) (build_table g source destinations table)
    unfolding build_table
    build_table-Returns source [] table is_source nodes =
        returned (λ t apart h. elim h [ inl m ↦ absurd (ground (arith, m)) | inr e ↦ e ])
    build_table-Returns source (x ∷ rest) table is_source nodes =
        Returns-if (source == x)
          (λ same.
            Returns-map
              (λ made filled t apart h.
                filled t apart (elim h [ inl m ↦ inl (ground (arith, m)) | inr e ↦ inr e ]))
              (build_table-Returns source rest table is_source
                (λ t m. nodes t (ground (arith, m)))))
          (λ apart.
            Returns-bind (first-IsHop source x is_source (nodes x (ground arith)) apart)
              (λ route second_is. Returns-bind second_is (λ hop is_hop.
                Returns-map
                  (λ made filled t apart h. filled t apart (elim h [
                    | inl m ↦ elim (Bool-cases (t == x)) [
                      | inl here ↦ inr (Entry-insert source x hop t table is_hop (inl here))
                      | inr later ↦ inl (ground (arith, m))
                    ]
                    | inr e ↦ inr (Entry-insert source x hop t table is_hop (inr e))
                  ]))
                  (build_table-Returns source rest (insert x hop table) is_source
                    (λ t m. nodes t (ground (arith, m)))))))

    -- The entry of a source and a destination.
    abbrev Row : Dict (Dict ℕ) → ℕ → ℕ → Type 0
    Row tables source t = (row : Dict ℕ) × (lookup source tables ≡ some row) × Entry source row t

    abbrev AllFilled : List ℕ → Dict (Dict ℕ) → Dict (Dict ℕ) → Type 0
    AllFilled sources tables made =
        (s t : ℕ)
        → IsNode g t
        → (s == t) ≡ false
        → (member s sources ≡ true) ⊎ Row tables s t
        → Row made s t

    Row-insert :
        (source s t : ℕ) (row : Dict ℕ) (tables : Dict (Dict ℕ))
        → Filled source g.nodes [] row
        → IsNode g t
        → (s == t) ≡ false
        → (s == source) ≡ true ⊎ Row tables s t
        → Row (insert source row tables) s t
    Row-insert source s t row tables filled is_node apart h =
        let l = lookup-insert source s row tables in
        elim (Bool-cases (source == s)) [
          | inl same ↦
              let e : source ≡ s = ground arith in
              (
                row,
                l ∙ if-true _ _ _ same,
                subst (λ s. Entry s row t) e (filled t (ground arith) (inl is_node)),
              )
          | inr other ↦ elim h [
            | inl same ↦ absurd (ground arith)
            | inr (old, found, e) ↦ (old, l ∙ if-false _ _ _ other ∙ found, e)
          ]
        ]

    build_tables-Returns :
        (sources : List ℕ) (tables : Dict (Dict ℕ))
        → ((s : ℕ) → member s sources ≡ true → IsNode g s)
        → Returns (AllFilled sources tables) (build_tables g sources tables)
    unfolding build_tables
    build_tables-Returns [] tables nodes =
        returned (λ s t is_node apart h. elim h [ inl m ↦ absurd (ground (arith, m)) | inr e ↦ e ])
    build_tables-Returns (x ∷ rest) tables nodes =
        Returns-bind (build_table-Returns x g.nodes [] (nodes x (ground arith)) (λ t m. m))
          (λ row filled.
            Returns-map
              (λ made all s t is_node apart h. all s t is_node apart (elim h [
                | inl m ↦ elim (Bool-cases (s == x)) [
                  | inl here ↦ inr (Row-insert x s t row tables filled is_node apart (inl here))
                  | inr later ↦ inl (ground (arith, m))
                ]
                | inr e ↦ inr (Row-insert x s t row tables filled is_node apart (inr e))
              ]))
              (build_tables-Returns rest (insert x row tables)
                (λ s m. nodes s (ground (arith, m)))))

  -- For a well-formed graph in which every node has a route to every other,
  -- `build_forwarding_tables` returns tables whose entry for two different nodes is the first hop of
  -- a route that is no longer than any given one.
  pub tables_shortest :
      (source destination l : ℕ) (q : List ℕ)
      → IsGraph g
      → IsConnected
      → IsNode g source
      → IsNode g destination
      → (source == destination) ≡ false
      → IsRoute g source destination l q
      → (tables : Dict (Dict ℕ)) × (row : Dict ℕ) × (hop : ℕ) × (edge : EdgeData) × (left : ℕ)
        × (route : List ℕ) × (build_forwarding_tables g ≡ ok tables)
        × (lookup source tables ≡ some row)
        × (lookup destination row ≡ some hop)
        × (edge_data source hop g ≡ ok edge)
        × IsRoute g hop destination left route
        × (edge.delay_ms + left ≤ l)
  unfolding build_forwarding_tables
  tables_shortest source destination l q wf connected is_source is_node apart route =
      let (tables, built, all) =
        Returns-result (build_tables-Returns wf connected g.nodes [] (λ s m. m)) in
      let (row, has_row, (hop, has_hop, is_hop)) =
        all source destination is_node apart (inl is_source) in
      (
        tables,
        row,
        hop,
        is_hop.edge,
        is_hop.left,
        is_hop.route,
        built,
        has_row,
        has_hop,
        is_hop.link,
        is_hop.goes,
        is_hop.best l q route,
      )
