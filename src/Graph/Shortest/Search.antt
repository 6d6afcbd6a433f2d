-- ===== src/Graph/Shortest/Search.antt =====
-- graph.py: one entry that leaves the heap of `get_route`'s search, and its end.
use cps344finalproject.Base.{
  ℕ, suc, ◌+◌, ◌≤◌, ◌<◌, ◌≡◌, refl, sym, ap, ◌∙◌, subst, Bool-cases, true, false, Option, some,
  List, [], ◌∷◌, keys, Dict, lookup, lookup-keys, ok, or_raise, key_error, ◌==◌, member, All, arith,
  inl, inr, ◌⊎◌, if-false, if◌then◌else◌, length, >>=-eq-ok, or_raise-eq-ok,
}
use cps344finalproject.Graph.{SimpleGraph, EdgeData, edge_data}
use cps344finalproject.Graph.Route.{Search, entry_lt}
use cps344finalproject.Graph.Shortest.{IsNode, IsRoute, arrive, via}
use cps344finalproject.Graph.Shortest.Heap.{Entry, Holds, Sorted, All-Holds}
use cps344finalproject.Graph.Shortest.Tree.{Known, In, Distinct, Known_unique, Parent, Chain, Tree}

-- The entries of the adjacency of nodes that are not expanded.
abbrev pub weight : List ℕ → Dict (Dict EdgeData) → ℕ
weight vs [] = 0
weight vs ((v, row) ∷ m) = (if member v vs then 0 else length row) + weight vs m

weight-cons : (v : ℕ) (vs : List ℕ) (m : Dict (Dict EdgeData)) → weight (v ∷ vs) m ≤ weight vs m
weight-cons v vs [] = omega arith
weight-cons v vs ((w, row) ∷ m) = ground (arith, weight-cons v vs m)

pub weight-expand :
    (v : ℕ) (vs : List ℕ) (m : Dict (Dict EdgeData)) (row : Dict EdgeData)
    → member v vs ≡ false
    → lookup v m ≡ some row
    → weight (v ∷ vs) m + length row ≤ weight vs m
weight-expand v vs [] row out h = absurd (ground arith)
weight-expand v vs ((w, r) ∷ m) row out h = elim (Bool-cases (w == v)) [
  | inl same ↦
      let e : w ≡ v = ground arith in
      let out' : member w vs ≡ false = ap (λ v. member v vs) e ∙ out in
      let r_is : r ≡ row = cc (same, h) in
      ground (arith, weight-cons v vs m, ap (λ (r : Dict EdgeData). length r) r_is)
  | inr other ↦ ground (arith, weight-expand v vs m row out (sym (if-false _ _ _ other) ∙ h))
]

pub length-keys : {V : Type 0} (m : Dict V) → length (keys m) ≡ length m
length-keys [] = refl
length-keys (e ∷ m) = omega (arith, length-keys m)

module _ (g : SimpleGraph) (source : ℕ) where
  -- What the search leaves: a tree of routes, and a distance of the destination that no route is
  -- shorter than.
  pub record Settled (destination : ℕ) (t : Search) : Type 0 where
    pub expanded : List ℕ
    pub has_distance : (v : ℕ) → IsNode g v → (o : Option ℕ) × (lookup v t.distances ≡ some o)
    pub start_known : Known t source 0
    pub parents : (v d : ℕ) → Known t v d → (v ≡ source) ⊎ Parent g source expanded t v d
    pub chain : Chain g source t.previous expanded
    pub distinct : Distinct expanded
    pub nodes : All (IsNode g) expanded
    pub shortest :
        (l : ℕ) (p : List ℕ)
        → IsRoute g source destination l p
        → (d : ℕ) × Known t destination d × (d ≤ l)

  -- A route from a node with a distance passes the heap, or ends at a node with a distance that is
  -- small enough.
  near_route :
      (expanded : List ℕ) (current node bound : ℕ) (s : Search) (v z d l : ℕ) (p : List ℕ)
      → Tree g source expanded [] current node s
      → ((d v : ℕ) → Holds (d, v) s.heap → bound ≤ d)
      → Known s v d
      → IsRoute g v z l p
      → ((e : ℕ) × Known s z e × (e ≤ d + l)) ⊎ (bound ≤ d + l)
  near_route expanded current node bound s v z d l p t low k arrive = inl (d, k, omega arith)
  near_route expanded current node bound s v z d l p t low k
        (via {b = w} {d = m} {e = e} edge rest) =
      elim (t.pending v d k) [
        | inr held ↦ inr (omega (arith, low d v held))
        | inl inside ↦ elim (t.closed v d w e inside k edge) [
          | inl (_, left) ↦ absurd (ground arith)
          | inr (f, known, le) ↦
              elim (near_route expanded current node bound s w z f m _ t low known rest) [
                | inl (x, at, le') ↦ inl (x, at, omega arith)
                | inr far ↦ inr (omega arith)
              ]
        ]
      ]

  -- The heap and more expanded nodes do not matter to a parent.
  moved :
      {expanded more : List ℕ} {v d : ℕ} (s : Search) (rest : List Entry)
      → Parent g source expanded s v d
      → ((u : ℕ) → In u expanded → In u more)
      → Parent g source more (record s { heap = rest }) v d
  moved s rest p grows = record {
    parent = p.parent;
    before = p.before;
    edge = p.edge;
    points = p.points;
    inside = grows p.parent p.inside;
    known = p.known;
    link = p.link;
    sum = p.sum;
  }

  settle :
      (expanded : List ℕ) (current node destination : ℕ) (s : Search) (rest : List Entry)
      → Tree g source expanded [] current node s
      → ((l : ℕ) (p : List ℕ)
          → IsRoute g source destination l p
          → (d : ℕ) × Known s destination d × (d ≤ l))
      → Settled destination (record s { heap = rest })
  settle expanded current node destination s rest t shortest = record {
    expanded = expanded;
    has_distance = t.has_distance;
    start_known = t.start_known;
    parents = λ v d k. elim (t.parents v d k) [
      | inl first ↦ inl first
      | inr p ↦ inr (moved s rest p (λ u i. i))
    ];
    chain = t.chain;
    distinct = t.distinct;
    nodes = t.nodes;
    shortest = shortest;
  }

  pub settle_empty :
      (expanded : List ℕ) (current node destination : ℕ) (s : Search)
      → s.heap ≡ []
      → Tree g source expanded [] current node s
      → Settled destination s
  settle_empty expanded current node destination s e t =
      settle expanded current node destination s s.heap t (λ l p route.
        elim (near_route expanded current node (suc l) s source destination 0 l p t
          (λ d v held. absurd (subst (Holds (d, v)) e held)) t.start_known route) [
            | inl (d, k, le) ↦ (d, k, omega (arith, le))
            | inr far ↦ absurd (omega arith)
          ])

  -- The entry that leaves the heap, and what is left.
  module _ (expanded : List ℕ) (c n current node : ℕ) (s : Search) (rest : List Entry)
      (e : s.heap ≡ (current, node) ∷ rest) (t : Tree g source expanded [] c n s) where
    abbrev popped : Search
    popped = record s { heap = rest }

    held : (x : Entry) → Holds x rest → Holds x s.heap
    held x m = subst (Holds x) (sym e) (inr m)

    pub first : Holds (current, node) s.heap
    first = subst (Holds (current, node)) (sym e) (inl refl)

    least : (d v : ℕ) → Holds (d, v) rest → entry_lt (current, node) (d, v) ≡ true
    least d v m =
        let sorted = subst Sorted e t.ascending in
        All-Holds (λ y. entry_lt (current, node) y ≡ true) (d, v) rest sorted.0 m

    lowest : (d v : ℕ) → Holds (d, v) s.heap → current ≤ d
    lowest d v m = elim (subst (Holds (d, v)) e m) [
      | inl same ↦ omega (arith, ap (λ (x : Entry). x.0) same)
      | inr below ↦ ground (arith, least d v below)
    ]

    -- The destination leaves the heap.
    pub settle_here : Settled node popped
    settle_here = settle expanded c n node s rest t (λ l p route.
        let (_, (d, k, le)) = t.heap_known current node first in
        elim (near_route expanded c n current s source node 0 l p t lowest t.start_known route) [
          | inl (d, k, le) ↦ (d, k, omega (arith, le))
          | inr far ↦ (d, k, omega arith)
        ])

    kept_pending :
        (v d : ℕ)
        → ((v ≡ node) × (d ≡ current) → ⊥)
        → Known s v d
        → In v expanded ⊎ Holds (d, v) rest
    kept_pending v d other k = elim (t.pending v d k) [
      | inl i ↦ inl i
      | inr m ↦ elim (subst (Holds (d, v)) e m) [
        | inl same ↦ absurd (other (ap (λ (x : Entry). x.1) same, ap (λ (x : Entry). x.0) same))
        | inr below ↦ inr below
      ]
    ]

    -- An entry of a node that has a shorter distance by now.
    pub stale-Tree : (f : ℕ) → Known s node f → f < current → Tree g source expanded [] c n popped
    stale-Tree f at less = record {
      has_distance = t.has_distance;
      start_known = t.start_known;
      heap_known = λ d v m. t.heap_known d v (held (d, v) m);
      above = λ d v m. t.above d v (held (d, v) m);
      low = t.low;
      later = λ h v d m i k. t.later h v d (held (h, v) m) i k;
      ascending = (subst Sorted e t.ascending).1;
      parents = λ v d k. elim (t.parents v d k) [
        | inl first ↦ inl first
        | inr p ↦ inr (moved s rest p (λ u i. i))
      ];
      reached = t.reached;
      closed = t.closed;
      pending = λ v d k.
          kept_pending v d
            (λ same.
              omega (
                arith,
                same.1,
                less,
                Known_unique s node d f (subst (λ v. Known s v d) same.0 k) at,
              ))
            k;
      chain = t.chain;
      distinct = t.distinct;
      nodes = t.nodes;
    }

    -- A node whose distance the entry has is expanded now, and was not before.
    module _ (f : ℕ) (at : Known s node f) (fresh : current ≤ f) (row : Dict EdgeData)
        (row_of : lookup node g.adjacency ≡ some row) where
      is_current : f ≡ current
      is_current =
          let (_, (d, k, le)) = t.heap_known current node first in
          omega (arith, le, fresh, Known_unique s node d f k at)

      pub here : Known s node current
      here = subst (Known s node) is_current at

      pub node_out : member node expanded ≡ false
      node_out = elim (Bool-cases (member node expanded)) [
        | inr out ↦ out
        | inl i ↦ absurd (omega (arith, t.later current node current first i here))
      ]

      within : (v : ℕ) → In v (node ∷ expanded) → (v ≡ node) ⊎ In v expanded
      within v i = elim (Bool-cases (v == node)) [
        | inl same ↦ inl (ground arith)
        | inr other ↦ inr (ground arith)
      ]

      at_node : (v d : ℕ) → v ≡ node → Known s v d → d ≡ current
      at_node v d same k = Known_unique s node d current (subst (λ v. Known s v d) same k) here

      linked : (w : ℕ) (e : EdgeData) → edge_data node w g ≡ ok e → In w (keys row)
      unfolding edge_data
      linked w e h =
          let (r, found, h') = >>=-eq-ok (or_raise (lookup node g.adjacency) key_error) _ h in
          let same : r ≡ row =
            cc (or_raise-eq-ok (lookup node g.adjacency) key_error found, row_of) in
          lookup-keys w row
            (subst (λ r. lookup w r ≡ some e) same (or_raise-eq-ok (lookup w r) key_error h'))

      pub fresh-Tree : Tree g source (node ∷ expanded) (keys row) current node popped
      fresh-Tree = record {
        has_distance = t.has_distance;
        start_known = t.start_known;
        heap_known = λ d v m. t.heap_known d v (held (d, v) m);
        above = λ d v m. lowest d v (held (d, v) m);
        low = λ v d i k. elim (within v i) [
          | inl same ↦ omega (arith, at_node v d same k)
          | inr old ↦ omega (arith, t.low v d old k, t.above current node first)
        ];
        later = λ h v d m i k. elim (within v i) [
          | inl same ↦ ground (arith, same, at_node v d same k, least h v m)
          | inr old ↦ t.later h v d (held (h, v) m) old k
        ];
        ascending = (subst Sorted e t.ascending).1;
        parents = λ v d k. elim (t.parents v d k) [
          | inl first ↦ inl first
          | inr p ↦ inr (moved s rest p (λ u i. ground (arith, i)))
        ];
        reached = λ v i. elim (within v i) [
          | inl same ↦ (current, subst (λ v. Known s v current) (sym same) here)
          | inr old ↦ t.reached v old
        ];
        closed = λ v d w x i k edge. elim (within v i) [
          | inl same ↦ inl (same, linked w x (ap (λ v. edge_data v w g) (sym same) ∙ edge))
          | inr old ↦ elim (t.closed v d w x old k edge) [
            | inl (_, left) ↦ absurd (ground arith)
            | inr done ↦ inr done
          ]
        ];
        pending = λ v d k. elim (Bool-cases (v == node)) [
          | inl same ↦ inl (ground arith)
          | inr other ↦ elim (kept_pending v d (λ both. ground arith) k) [
            | inl i ↦ inl (ground (arith, i))
            | inr m ↦ inr m
          ]
        ];
        chain = (go (t.parents node current here), t.chain);
        distinct = (node_out, t.distinct);
        nodes = ((t.heap_known current node first).0, t.nodes);
      }
        where
          go :
              (node ≡ source) ⊎ Parent g source expanded s node current
              → (node ≡ source)
                ⊎ ((u : ℕ) × (lookup node s.previous ≡ some (some u)) × In u expanded)
          go (inl root) = inl root
          go (inr p) = inr (p.parent, p.points, p.inside)
