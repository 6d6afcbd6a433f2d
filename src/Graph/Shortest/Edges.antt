-- ===== src/Graph/Shortest/Edges.antt =====
-- graph.py: `add_node` and `add_edge` on well-formed graphs.
use cps344finalproject.Base.{
  ℕ, ◌≡◌, refl, sym, ap, ◌∙◌, subst, Bool, Bool-cases, true, false, ◌&&◌, ◌||◌, ◌==◌, Option, none,
  some, List, [], ◌∷◌, ◌++◌, Dict, lookup, insert, lookup-insert, Result, ok, or_raise, key_error,
  ◌>>=◌, >>=-eq-ok, or_raise-eq-ok, if◌then◌else◌, member, member-concat, All, All-mono, All-insert,
  All-lookup, arith, inl, inr, Returns, returned, Returns-bind, Returns-result, if-true, if-false,
}
use cps344finalproject.Graph.{
  SimpleGraph, EdgeData, add_node, add_nodes_from, set_edge, add_edge, edge_data,
}
use cps344finalproject.Graph.Shortest.{IsNode, IsGraph}

-- The rows and their keys lead to nodes.
abbrev Inside : List ℕ → Dict (Dict EdgeData) → Type 0
Inside nodes m =
    All (λ (e : ℕ × Dict EdgeData). All (λ (r : ℕ × EdgeData). member r.0 nodes ≡ true) e.1) m

-- `edge_data` of a dictionary of rows.
abbrev entry : ℕ → ℕ → Dict (Dict EdgeData) → Result EdgeData
entry x y m = or_raise (lookup x m) key_error >>= λ row. or_raise (lookup y row) key_error

-- A graph with the same edges, in which `node` is a node.
pub record Grown (g : SimpleGraph) (node : ℕ) (g' : SimpleGraph) : Type 0 where
  pub grown : IsGraph g'
  pub has : IsNode g' node
  pub keeps : (n : ℕ) → IsNode g n → IsNode g' n
  pub same : (x y : ℕ) → edge_data x y g' ≡ edge_data x y g

abbrev with_node : ℕ → SimpleGraph → SimpleGraph
with_node node g = record { nodes = g.nodes ++ node ∷ []; adjacency = insert node [] g.adjacency }

with_node-Grown :
    (node : ℕ) (g : SimpleGraph)
    → IsGraph g
    → lookup node g.adjacency ≡ none
    → Grown g node (with_node node g)
unfolding edge_data
with_node-Grown node g wf new = record {
  grown = record {
    row_of = λ n h.
        let l = lookup-insert node n [] g.adjacency in
        elim (Bool-cases (node == n)) [
          | inl same ↦ ([], l ∙ if-true _ _ _ same)
          | inr other ↦
              let (row, e) = wf.row_of n (ground (arith, member-concat n node g.nodes, h)) in
              (row, l ∙ if-false _ _ _ other ∙ e)
        ];
    node_of = λ n row h. elim (Bool-cases (node == n)) [
      | inl same ↦ ground (arith, member-concat n node g.nodes)
      | inr other ↦ ground (
        arith,
        member-concat n node g.nodes,
        wf.node_of n row
            (sym (if-false _ _ _ other) ∙ sym (lookup-insert node n [] g.adjacency) ∙ h),
      )
    ];
    inside =
        All-insert
          (λ (e : ℕ × Dict EdgeData). All (λ (r : ℕ × EdgeData). IsNode (with_node node g) r.0) e.1)
          node [] g.adjacency
          (All-mono (λ (e : ℕ × Dict EdgeData). All (λ (r : ℕ × EdgeData). IsNode g r.0) e.1) _
            g.adjacency
            (λ e a. All-mono _ _ e.1 (λ r h. ground (arith, member-concat r.0 node g.nodes, h)) a)
            wf.inside)
          tt;
  };
  has = ground (arith, member-concat node node g.nodes);
  keeps = λ n h. ground (arith, member-concat n node g.nodes, h);
  same = λ x y.
      let l = lookup-insert node x [] g.adjacency in
      elim (Bool-cases (node == x)) [
        | inl eq ↦
            let e : node ≡ x = ground arith in
            ap (λ o. or_raise o key_error >>= λ row. or_raise (lookup y row) key_error)
              (l ∙ if-true _ _ _ eq)
            ∙ sym (
                ap (λ o. or_raise o key_error >>= λ row. or_raise (lookup y row) key_error)
                  (subst (λ n. lookup n g.adjacency ≡ none) e new))
        | inr other ↦
            ap (λ o. or_raise o key_error >>= λ row. or_raise (lookup y row) key_error)
              (l ∙ if-false _ _ _ other)
      ];
}

pub add_node-Grown : (node : ℕ) (g : SimpleGraph) → IsGraph g → Grown g node (add_node node g)
unfolding add_node
add_node-Grown node g wf = go (lookup node g.adjacency) refl
  where
    go :
        (o : Option (Dict EdgeData))
        → lookup node g.adjacency ≡ o
        → Grown g node (elim o [ none ↦ with_node node g | some _ ↦ g ])
    go none e = with_node-Grown node g wf e
    go (some row) e = record {
      grown = wf;
      has = wf.node_of node row e;
      keeps = λ n h. h;
      same = λ x y. refl;
    }

-- `adjacency[a][b] = payload` between nodes: the entry is found, all others stay.
abbrev Set : SimpleGraph → ℕ → ℕ → EdgeData → Dict (Dict EdgeData) → Type 0
Set g a b payload m =
    IsGraph (record g { adjacency = m })
    × ((x y : ℕ) → entry x y m ≡ (if x == a && y == b then ok payload else entry x y g.adjacency))

set_edge-Set :
    (a b : ℕ) (payload : EdgeData) (g : SimpleGraph)
    → IsGraph g
    → IsNode g a
    → IsNode g b
    → Returns (Set g a b payload) (set_edge a b payload g.adjacency)
unfolding set_edge
set_edge-Set a b payload g wf is_a is_b =
    let (row, e) = wf.row_of a is_a in
    subst
      (λ o.
        Returns (Set g a b payload)
          (or_raise o key_error >>= λ row. ok (insert a (insert b payload row) g.adjacency)))
      (sym e) (returned (well row e, found row e))
  where
    well :
        (row : Dict EdgeData)
        → lookup a g.adjacency ≡ some row
        → IsGraph (record g { adjacency = insert a (insert b payload row) g.adjacency })
    well row e = record {
      row_of = λ n h.
          let l = lookup-insert a n (insert b payload row) g.adjacency in
          elim (Bool-cases (a == n)) [
            | inl same ↦ (insert b payload row, l ∙ if-true _ _ _ same)
            | inr other ↦ let (r, e) = wf.row_of n h in (r, l ∙ if-false _ _ _ other ∙ e)
          ];
      node_of = λ n r h. elim (Bool-cases (a == n)) [
        | inl same ↦ ground (arith, is_a)
        | inr other ↦ wf.node_of n r (
            sym (if-false _ _ _ other)
            ∙ sym (lookup-insert a n (insert b payload row) g.adjacency)
            ∙ h)
      ];
      inside =
          All-insert (λ (e : ℕ × Dict EdgeData). All (λ (r : ℕ × EdgeData). IsNode g r.0) e.1) a
            (insert b payload row) g.adjacency wf.inside
            (All-insert (λ (r : ℕ × EdgeData). IsNode g r.0) b payload row
              (All-lookup (λ (e : ℕ × Dict EdgeData). All (λ (r : ℕ × EdgeData). IsNode g r.0) e.1)
                a g.adjacency wf.inside e)
              is_b);
    }

    at_row :
        (x y : ℕ) (row : Dict EdgeData)
        → lookup a g.adjacency ≡ some row
        → (a == x) ≡ true
        → or_raise (lookup y (insert b payload row)) key_error
          ≡ (if x == a && y == b then ok payload else entry x y g.adjacency)
    at_row x y row e same =
        let n : a ≡ x = ground arith in
        let old : entry x y g.adjacency ≡ or_raise (lookup y row) key_error =
          ap (λ o. or_raise o key_error >>= λ row. or_raise (lookup y row) key_error)
            (subst (λ n. lookup n g.adjacency ≡ some row) n e) in
        let l = lookup-insert b y payload row in
        elim (Bool-cases (b == y)) [
          | inl hit ↦
              ap (λ o. or_raise o key_error) (l ∙ if-true _ _ _ hit)
              ∙ sym (if-true (x == a && y == b) _ _ (ground arith))
          | inr miss ↦
              ap (λ o. or_raise o key_error) (l ∙ if-false _ _ _ miss)
              ∙ sym old
              ∙ sym (if-false (x == a && y == b) _ _ (ground arith))
        ]

    found :
        (row : Dict EdgeData)
        → lookup a g.adjacency ≡ some row
        → (x y : ℕ)
        → entry x y (insert a (insert b payload row) g.adjacency)
          ≡ (if x == a && y == b then ok payload else entry x y g.adjacency)
    found row e x y =
        let l = lookup-insert a x (insert b payload row) g.adjacency in
        elim (Bool-cases (a == x)) [
          | inl same ↦
              ap (λ o. or_raise o key_error >>= λ row. or_raise (lookup y row) key_error)
                (l ∙ if-true _ _ _ same)
              ∙ at_row x y row e same
          | inr other ↦
              ap (λ o. or_raise o key_error >>= λ row. or_raise (lookup y row) key_error)
                (l ∙ if-false _ _ _ other)
              ∙ sym (if-false (x == a && y == b) _ _ (ground arith))
        ]

-- What `add_edge` promises.
pub record Linked (a b : ℕ) (payload : EdgeData) (g g' : SimpleGraph) : Type 0 where
  pub grown : IsGraph g'
  pub keeps : (n : ℕ) → IsNode g n → IsNode g' n
  pub finds :
      (x y : ℕ)
      → edge_data x y g'
        ≡ (if x == a && y == b || x == b && y == a then ok payload else edge_data x y g)

pub add_edge-Linked :
    (a b delay_ms : ℕ) (g : SimpleGraph)
    → IsGraph g
    → Returns (Linked a b (record { delay_ms = delay_ms }) g) (add_edge a b delay_ms g)
unfolding add_edge add_nodes_from edge_data
add_edge-Linked a b delay_ms g wf =
    let payload : EdgeData = record { delay_ms = delay_ms } in
    let one = add_node-Grown a g wf in
    let two = add_node-Grown b (add_node a g) one.grown in
    let g₂ = add_node b (add_node a g) in
    Returns-bind (set_edge-Set a b payload g₂ two.grown (two.keeps a one.has) two.has) (λ m first.
      Returns-bind
        (set_edge-Set b a payload (record g₂ { adjacency = m }) first.0 two.has
          (two.keeps a one.has))
        (λ m' second. returned (record {
          grown = second.0;
          keeps = λ n h. two.keeps n (one.keeps n h);
          finds = λ x y.
              second.1 x y
              ∙ ap (λ e. if x == b && y == a then ok payload else e)
                  (first.1 x y
                    ∙ ap (λ e. if x == a && y == b then ok payload else e)
                        (two.same x y ∙ one.same x y))
              ∙ if-either (x == b && y == a) (x == a && y == b) _ _;
        })))
  where
    if-either :
        {A : Type 0} (p q : Bool) (u v : A)
        → (if p then u else if q then u else v) ≡ (if q || p then u else v)
    if-either true true u v = refl
    if-either true false u v = refl
    if-either false true u v = refl
    if-either false false u v = refl

-- `add_edge` on a well-formed graph returns a well-formed graph, in which `edge_data` finds the new
-- delay in both directions and for all other pairs what it found before.
pub add_edge-finds :
    (a b delay_ms : ℕ) (g : SimpleGraph)
    → IsGraph g
    → (x y : ℕ)
    → (g' : SimpleGraph) × (add_edge a b delay_ms g ≡ ok g')
      × IsGraph g'
      × (edge_data x y g' ≡ (
          if x == a && y == b || x == b && y == a
          then ok (record { delay_ms = delay_ms })
          else edge_data x y g))
add_edge-finds a b delay_ms g wf x y =
    let (g', e, linked) = Returns-result (add_edge-Linked a b delay_ms g wf) in
    (g', e, linked.grown, linked.finds x y)

-- Both ends of an edge are nodes.
pub edge_data-nodes :
    (g : SimpleGraph) (a b : ℕ) (e : EdgeData)
    → IsGraph g
    → edge_data a b g ≡ ok e
    → IsNode g a × IsNode g b
unfolding edge_data
edge_data-nodes g a b e wf h =
    let (row, found, h') = >>=-eq-ok (or_raise (lookup a g.adjacency) key_error) _ h in
    let at = or_raise-eq-ok (lookup a g.adjacency) key_error found in
    let inside =
      All-lookup (λ (e : ℕ × Dict EdgeData). All (λ (r : ℕ × EdgeData). IsNode g r.0) e.1) a
        g.adjacency wf.inside at in
    (
      wf.node_of a row at,
      All-lookup (λ (r : ℕ × EdgeData). IsNode g r.0) b row inside
          (or_raise-eq-ok (lookup b row) key_error h'),
    )
