-- ===== src/Graph/Shortest/Improve.antt =====
-- graph.py: a neighbour that gets a shorter distance in `get_route`, or does not.
use cps344finalproject.Base.{
  ℕ, ◌+◌, ◌≤◌, ◌<◌, ◌≡◌, sym, ap, ◌∙◌, subst, Bool-cases, true, false, some, List, ◌∷◌,
  lookup-insert, ok, ◌==◌, member, arith, inl, inr, ◌⊎◌, ok-injective,
}
use cps344finalproject.Graph.{SimpleGraph, EdgeData, edge_data}
use cps344finalproject.Graph.Route.{Search, entry_lt}
use cps344finalproject.Graph.Shortest.{IsNode}
use cps344finalproject.Graph.Shortest.Heap.{
  Entry, Holds, All-of, push-new, push-old, push_cases, push-Sorted, Apart,
}
use cps344finalproject.Graph.Shortest.Tree.{
  Known, In, Known_unique, Parent, Tree, improved, Known-improved, improved-Known, Chain-insert,
}

Apart-of : (a b c d : ℕ) → (b == d) ≡ false → Apart (a, b) (c, d)
Apart-of a b c d h = elim (Bool-cases (entry_lt (a, b) (c, d))) [
  | inl before ↦ inl before
  | inr after ↦ inr (ground arith)
]

module _ (g : SimpleGraph) (source : ℕ) where
  -- The edge between two nodes is one.
  same_edge :
      (node w v x : ℕ) (e c : EdgeData)
      → v ≡ node
      → x ≡ w
      → edge_data node w g ≡ ok e
      → edge_data v x g ≡ ok c
      → c.delay_ms ≡ e.delay_ms
  same_edge node w v x e c p q link edge =
      ap (λ (c : EdgeData). c.delay_ms)
        (ok-injective
          (sym edge ∙ ap (λ v. edge_data v x g) p ∙ ap (λ x. edge_data node x g) q ∙ link))

  -- A neighbour that is near enough already.
  pub near-Tree :
      (expanded todo : List ℕ) (current node w f : ℕ) (e : EdgeData) (s : Search)
      → Known s node current
      → edge_data node w g ≡ ok e
      → Known s w f
      → f ≤ current + e.delay_ms
      → Tree g source expanded (w ∷ todo) current node s
      → Tree g source expanded todo current node s
  near-Tree expanded todo current node w f e s here link known near t = record {
    has_distance = t.has_distance;
    start_known = t.start_known;
    heap_known = t.heap_known;
    above = t.above;
    low = t.low;
    later = t.later;
    ascending = t.ascending;
    parents = t.parents;
    reached = t.reached;
    closed = λ v d x c inside at edge. elim (t.closed v d x c inside at edge) [
      | inr done ↦ inr done
      | inl (same, left) ↦ elim (Bool-cases (x == w)) [
        | inr other ↦ inl (same, ground arith)
        | inl this ↦
            let e₁ : x ≡ w = ground arith in
            let e₂ : d ≡ current =
              Known_unique s node d current (subst (λ v. Known s v d) same at) here in
            inr (
              f,
              subst (λ x. Known s x f) (sym e₁) known,
              omega (arith, e₂, near, same_edge node w v x e c same e₁ link edge),
            )
      ]
    ];
    pending = t.pending;
    chain = t.chain;
    distinct = t.distinct;
    nodes = t.nodes;
  }

  -- A neighbour that is nearer now: none of the expanded nodes is.
  module _ (expanded todo : List ℕ) (current node w : ℕ) (e : EdgeData) (s : Search)
      (here : Known s node current) (inside : In node expanded) (link : edge_data node w g ≡ ok e)
      (is_node : IsNode g w) (farther : (f : ℕ) → Known s w f → current + e.delay_ms < f)
      (t : Tree g source expanded (w ∷ todo) current node s) where
    abbrev new : ℕ
    new = current + e.delay_ms

    abbrev after : Search
    after = improved g source node w new s

    new_out : member w expanded ≡ false
    new_out = elim (Bool-cases (member w expanded)) [
      | inr out ↦ out
      | inl in_tree ↦
          let (d, k) = t.reached w in_tree in
          absurd (omega (arith, t.low w d in_tree k, farther d k))
    ]

    pub other : (v : ℕ) → In v expanded → (w == v) ≡ false
    other v i = elim (Bool-cases (w == v)) [
      | inr o ↦ o
      | inl same ↦
          let eq : w ≡ v = ground arith in
          absurd (ground (arith, new_out, ap (λ x. member x expanded) eq))
    ]

    old : (v d : ℕ) → In v expanded → Known after v d → Known s v d
    old v d i k = elim (Known-improved g source node w new v d s k) [
      | inr (_, was) ↦ was
      | inl (same, _) ↦ absurd (ground (arith, other v i))
    ]

    Holds-new : (d v : ℕ) → d ≡ new → v ≡ w → Holds (d, v) after.heap
    Holds-new d v p q =
        subst (λ d. Holds (d, v) after.heap) (sym p)
          (subst (λ v. Holds (new, v) after.heap) (sym q) (push-new (new, w) s.heap))

    known_new : (v : ℕ) → (w == v) ≡ true → Known after v new
    known_new v same = ground (arith, lookup-insert w v (some new) s.distances)

    -- Every entry is for a node with a distance that is at most the entry's.
    held_known :
        (d v : ℕ) → Holds (d, v) after.heap → IsNode g v × ((e : ℕ) × Known after v e × (e ≤ d))
    held_known d v held = elim (push_cases (new, w) (d, v) s.heap held) [
      | inl same ↦
          let p : d ≡ new = ap (λ (x : Entry). x.0) same in
          let q : v ≡ w = ap (λ (x : Entry). x.1) same in
          (subst (IsNode g) (sym q) is_node, (new, known_new v (ground arith), omega (arith, p)))
      | inr was ↦
          let (n, (f, k, le)) = t.heap_known d v was in
          elim (Bool-cases (w == v)) [
            | inr apart ↦ (n, (f, improved-Known g source node w new v f s apart k, le))
            | inl same ↦
                let q : v ≡ w = ground arith in
                (
                  n,
                  (
                    new,
                    known_new v same,
                    omega (arith, le, farther f (subst (λ v. Known s v f) q k)),
                  ),
                )
          ]
    ]

    entry-Apart : (x : Entry) → Holds x s.heap → Apart (new, w) x
    entry-Apart (d, v) held = elim (Bool-cases (w == v)) [
      | inr apart ↦ Apart-of new w d v apart
      | inl same ↦
          let (n, (f, k, le)) = t.heap_known d v held in
          let q : v ≡ w = ground arith in
          inl (ground (arith, farther f (subst (λ v. Known s v f) q k)))
    ]

    Parent-after : (v d : ℕ) → Known after v d → (v ≡ source) ⊎ Parent g source expanded after v d
    Parent-after v d k = elim (Known-improved g source node w new v d s k) [
      | inl (q, p) ↦ inr (record {
        parent = node;
        before = current;
        edge = e;
        points = ground (arith, lookup-insert w v (some node) s.previous);
        inside = inside;
        known = improved-Known g source node w new node current s (other node inside) here;
        link = ap (λ v. edge_data node v g) q ∙ link;
        sum = p;
      })
      | inr (apart, was) ↦ elim (t.parents v d was) [
        | inl first ↦ inl first
        | inr p ↦ inr (record {
          parent = p.parent;
          before = p.before;
          edge = p.edge;
          points = ground (arith, lookup-insert w v (some node) s.previous, p.points);
          inside = p.inside;
          known =
              improved-Known g source node w new p.parent p.before s (other p.parent p.inside)
                p.known;
          link = p.link;
          sum = p.sum;
        })
      ]
    ]

    closed_after :
        (v d x : ℕ) (c : EdgeData)
        → In v expanded
        → Known after v d
        → edge_data v x g ≡ ok c
        → ((v ≡ node) × In x todo) ⊎ ((f : ℕ) × Known after x f × (f ≤ d + c.delay_ms))
    closed_after v d x c i k edge = elim (t.closed v d x c i (old v d i k) edge) [
      | inl (same, left) ↦ elim (Bool-cases (x == w)) [
        | inr apart ↦ inl (same, ground arith)
        | inl this ↦
            let q : x ≡ w = ground arith in
            let p : d ≡ current =
              Known_unique s node d current (subst (λ v. Known s v d) same (old v d i k)) here in
            inr (
              new,
              known_new x (ground arith),
              omega (arith, p, same_edge node w v x e c same q link edge),
            )
      ]
      | inr (f, known, le) ↦ elim (Bool-cases (w == x)) [
        | inr apart ↦ inr (f, improved-Known g source node w new x f s apart known, le)
        | inl this ↦
            let q : x ≡ w = ground arith in
            inr (
              new,
              known_new x this,
              omega (arith, le, farther f (subst (λ x. Known s x f) q known)),
            )
      ]
    ]

    pub improved-Tree : Tree g source expanded todo current node after
    improved-Tree = record {
      has_distance = λ v n.
          let (o, found) = t.has_distance v n in
          elim (Bool-cases (w == v)) [
            | inl same ↦ (some new, ground (arith, lookup-insert w v (some new) s.distances))
            | inr apart ↦ (o, ground (arith, lookup-insert w v (some new) s.distances))
          ];
      start_known = elim (Bool-cases (w == source)) [
        | inr apart ↦ improved-Known g source node w new source 0 s apart t.start_known
        | inl same ↦
            let eq : source ≡ w = ground arith in
            absurd (omega (arith, farther 0 (subst (λ v. Known s v 0) eq t.start_known)))
      ];
      heap_known = held_known;
      above = λ d v held. elim (push_cases (new, w) (d, v) s.heap held) [
        | inl same ↦ omega (arith, ap (λ (x : Entry). x.0) same)
        | inr was ↦ t.above d v was
      ];
      low = λ v d i k. t.low v d i (old v d i k);
      later = λ h v d held i k. elim (push_cases (new, w) (h, v) s.heap held) [
        | inl same ↦ absurd (ground (arith, other v i, ap (λ (x : Entry). x.1) same))
        | inr was ↦ t.later h v d was i (old v d i k)
      ];
      ascending =
          push-Sorted (new, w) s.heap (All-of (Apart (new, w)) s.heap entry-Apart) t.ascending;
      parents = Parent-after;
      reached = λ v i.
          let (d, k) = t.reached v i in (d, improved-Known g source node w new v d s (other v i) k);
      closed = closed_after;
      pending = λ v d k. elim (Known-improved g source node w new v d s k) [
        | inl (same, at) ↦ inr (Holds-new d v at same)
        | inr (_, was) ↦ elim (t.pending v d was) [
          | inl i ↦ inl i
          | inr held ↦ inr (push-old (new, w) (d, v) s.heap held)
        ]
      ];
      chain = Chain-insert g source node w s.previous expanded new_out t.chain;
      distinct = t.distinct;
      nodes = t.nodes;
    }
