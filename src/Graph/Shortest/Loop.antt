-- ===== src/Graph/Shortest/Loop.antt =====
-- graph.py: the loop of `get_route`'s search, and its fuel.
use cps344finalproject.Base.{
  ℕ, zero, suc, ◌+◌, ◌≤◌, ◌<◌, ◌≡◌, refl, sym, ap, ◌∙◌, subst, Bool, Bool-cases, true, false,
  Option, none, some, List, [], ◌∷◌, keys, Dict, lookup, keys-lookup, map, lookup-insert, ok, err,
  out_of_fuel, or_raise, key_error, ◌>>=◌, ◌==◌, member, All, All-member, arith, inl, inr, if-true,
  if-false, if◌then◌else◌, length, Returns, returned, Returns-bind, Returns-map, Returns-if,
}
use mathlib.Core.List.{foldr}
use cps344finalproject.Graph.{SimpleGraph, EdgeData, edge_data, neighbors}
use cps344finalproject.Graph.Route.{
  Search, exceeds, relax_all, visit, search_loop, start, search_fuel,
}
use cps344finalproject.Graph.Shortest.{IsNode, IsGraph}
use cps344finalproject.Graph.Shortest.Heap.{Entry}
use cps344finalproject.Graph.Shortest.Tree.{Known, Tree}
use cps344finalproject.Graph.Shortest.Relax.{relax_all-Returns}
use cps344finalproject.Graph.Shortest.Search.{
  weight, weight-expand, length-keys, Settled, settle_empty, settle_here, stale-Tree, fresh-Tree,
  here, node_out, first, first,
}

module _ (g : SimpleGraph) (source destination : ℕ) (wf : IsGraph g) where
  -- A state between two rounds, with fuel for the rest.
  record Between (fuel : ℕ) (s : Search) : Type 0 where
    expanded : List ℕ
    current : ℕ
    node : ℕ
    tree : Tree g source expanded [] current node s
    apart : member destination expanded ≡ false
    enough : weight expanded g.adjacency + length s.heap ≤ fuel

  -- After a round: the loop goes on, or the destination is settled.
  abbrev After : ℕ → Bool × Search → Type 0
  After fuel (true, t) = Between fuel t
  After fuel (false, t) = Settled g source destination t

  module _ (fuel current node : ℕ) (rest : List Entry) (s : Search)
      (e : s.heap ≡ (current, node) ∷ rest) (b : Between (suc fuel) s) where
    abbrev popped : Search
    popped = record s { heap = rest }

    shorter : length s.heap ≡ suc (length rest)
    shorter = ap (λ (h : List Entry). length h) e

    -- The entry is dropped.
    stale-Between : (f : ℕ) → Known s node f → f < current → Between fuel popped
    stale-Between f at less = record {
      expanded = b.expanded;
      current = b.current;
      node = b.node;
      tree = stale-Tree g source b.expanded b.current b.node current node s rest e b.tree f at less;
      apart = b.apart;
      enough = omega (arith, b.enough, shorter);
    }

    -- The node is expanded.
    expand-Returns :
        (f : ℕ) (row : Dict EdgeData)
        → Known s node f
        → current ≤ f
        → (node == destination) ≡ false
        → lookup node g.adjacency ≡ some row
        → Returns (Between fuel) (relax_all g current node (keys row) popped)
    unfolding edge_data
    expand-Returns f row at fresh other row_of =
        let x = b.expanded in
        let tree =
          fresh-Tree g source x b.current b.node current node s rest e b.tree f at fresh row
            row_of in
        let now =
          here g source x b.current b.node current node s rest e b.tree f at fresh row row_of in
        let out =
          node_out g source x b.current b.node current node s rest e b.tree f at fresh row row_of in
        let links : All (λ w. (e : EdgeData) × (edge_data node w g ≡ ok e)) (keys row) =
          All-member _ (keys row) (λ w m.
            let (v, found) = keys-lookup w row m in
            (
              v,
              ap (λ o. or_raise o key_error >>= λ row. or_raise (lookup w row) key_error) row_of
                  ∙ ap (λ o. or_raise o key_error) found,
            )) in
        Returns-map
          (λ t relaxed. record {
            expanded = node ∷ x;
            current = current;
            node = node;
            tree = relaxed.tree;
            apart = ground (arith, b.apart, other);
            enough = omega (
              arith,
              relaxed.size,
              weight-expand node x g.adjacency row out row_of,
              length-keys row,
              b.enough,
              shorter,
            );
          })
          (relax_all-Returns g source (node ∷ x) (keys row) current node popped wf links now
            (ground arith) tree)

    visit-Returns : Returns (After fuel) (visit g destination current node popped)
    unfolding visit neighbors
    visit-Returns =
        Returns-if (node == destination)
          (λ same.
            let at : node ≡ destination = ground arith in
            returned (
              subst (λ d. Settled g source d popped) at
                (settle_here g source b.expanded b.current b.node current node s rest e b.tree)))
          (λ other.
            let (is_node, (f, known, le)) =
              b.tree.heap_known current node
                (first g source b.expanded b.current b.node current node s rest e b.tree) in
            let (row, row_of) = wf.row_of node is_node in
            subst
              (λ o. Returns (After fuel) (
                or_raise o key_error >>= λ known.
                if exceeds current known
                then ok (true, popped)
                else neighbors node g >>= λ around.
                    relax_all g current node around popped >>= λ s'. ok (true, s')))
              (sym known)
              (Returns-if (exceeds current (some f))
                (λ late. returned (stale-Between f known (ground arith)))
                (λ good.
                  subst
                    (λ o. Returns (After fuel) (
                      (or_raise o key_error >>= λ row. ok (keys row)) >>= λ around.
                      relax_all g current node around popped >>= λ s'. ok (true, s')))
                    (sym row_of)
                    (Returns-bind (expand-Returns f row known (ground arith) other row_of)
                      (λ t next. returned next)))))

  search_loop-Returns :
      (fuel : ℕ) (s : Search)
      → Between fuel s
      → Returns (Settled g source destination) (search_loop g fuel destination s)
  unfolding search_loop
  search_loop-Returns zero s b = go s.heap refl
    where
      go :
          (h : List Entry)
          → s.heap ≡ h
          → Returns (Settled g source destination) (elim h [ [] ↦ ok s | _ ∷ _ ↦ err out_of_fuel ])
      go [] e = returned (settle_empty g source b.expanded b.current b.node destination s e b.tree)
      go (x ∷ h) e = absurd (omega (arith, ap (λ (h : List Entry). length h) e, b.enough))
  search_loop-Returns (suc fuel) s b = go (search_loop-Returns fuel) s.heap refl
    where
      on :
          ((t : Search)
            → Between fuel t
            → Returns (Settled g source destination) (search_loop g fuel destination t))
          → (more : Bool) (t : Search) → After fuel (more, t)
          → Returns
              (Settled g source destination)
              (if more then search_loop g fuel destination t else ok t)
      on loop true t b = loop t b
      on loop false t done = returned done

      go :
          ((t : Search)
            → Between fuel t
            → Returns (Settled g source destination) (search_loop g fuel destination t))
          → (h : List Entry) → s.heap ≡ h
          → Returns (Settled g source destination) (elim h [
            | [] ↦ ok s
            | (current, node) ∷ heap ↦
                visit g destination current node (record s { heap = heap }) >>= λ (more, t).
                let rest = search_loop g fuel destination t in if more then rest else ok t
          ])
      go loop [] e =
          returned (settle_empty g source b.expanded b.current b.node destination s e b.tree)
      go loop ((current, node) ∷ heap) e =
          Returns-bind (visit-Returns fuel current node heap s e b)
            (λ (more, t) done. on loop more t done)

  -- The state that the search starts from.
  abbrev blank : ℕ → ℕ × Option ℕ
  blank n = (n, none)

  blank-lookup :
      (v : ℕ) (nodes : List ℕ) → member v nodes ≡ true → lookup v (map blank nodes) ≡ some none
  blank-lookup v [] h = absurd (ground arith)
  blank-lookup v (n ∷ nodes) h = elim (Bool-cases (n == v)) [
    | inl same ↦ if-true _ _ _ same
    | inr other ↦ if-false _ _ _ other ∙ blank-lookup v nodes (ground arith)
  ]

  blank-unknown : (v d : ℕ) (nodes : List ℕ) → lookup v (map blank nodes) ≡ some (some d) → ⊥
  blank-unknown v d [] h = ground arith
  blank-unknown v d (n ∷ nodes) h = elim (Bool-cases (n == v)) [
    | inl same ↦ ground (arith, sym (if-true _ _ _ same) ∙ h)
    | inr other ↦ blank-unknown v d nodes (sym (if-false _ _ _ other) ∙ h)
  ]

  start_is : (v d : ℕ) → Known (start g source) v d → (v ≡ source) × (d ≡ 0)
  start_is v d k =
      let l = lookup-insert source v (some 0) (map blank g.nodes) in
      elim (Bool-cases (source == v)) [
        | inl same ↦ (ground arith, ground (arith, sym k ∙ l ∙ if-true _ _ _ same))
        | inr other ↦ absurd (blank-unknown v d g.nodes (sym (if-false _ _ _ other) ∙ sym l ∙ k))
      ]

  start_known : Known (start g source) source 0
  start_known =
      lookup-insert source source (some 0) (map blank g.nodes)
      ∙ if-true (source == source) _ (lookup source (map blank g.nodes)) (ground arith)

  start-Tree : IsNode g source → Tree g source [] [] 0 source (start g source)
  start-Tree is_node = record {
    has_distance = λ v n.
        let l = lookup-insert source v (some 0) (map blank g.nodes) in
        elim (Bool-cases (source == v)) [
          | inl same ↦ (some 0, l ∙ if-true _ _ _ same)
          | inr other ↦ (none, l ∙ if-false _ _ _ other ∙ blank-lookup v g.nodes n)
        ];
    start_known = start_known;
    heap_known = λ d v held. elim held [
      | inl same ↦
          let q : v ≡ source = ap (λ (x : Entry). x.1) same in
          (
            subst (IsNode g) (sym q) is_node,
            (0, subst (λ v. Known (start g source) v 0) (sym q) start_known, omega arith),
          )
      | inr none_left ↦ absurd none_left
    ];
    above = λ d v held. omega arith;
    low = λ v d i k. absurd (ground arith);
    later = λ h v d held i k. absurd (ground arith);
    ascending = (tt, tt);
    parents = λ v d k. inl (start_is v d k).0;
    reached = λ v i. absurd (ground arith);
    closed = λ v d w e i k edge. absurd (ground arith);
    pending =
        λ v d k. let (p, q) = start_is v d k in inr (inl (ap (λ d. (d, v)) q ∙ ap (λ v. (0, v)) p));
    chain = tt;
    distinct = tt;
    nodes = tt;
  }

  weight-none : (m : Dict (Dict EdgeData)) → weight [] m ≡ foldr (λ e n. length e.1 + n) 0 m
  weight-none [] = refl
  weight-none ((v, row) ∷ m) = omega (arith, weight-none m)

  pub search-Returns :
      IsNode g source
      → Returns
          (Settled g source destination)
          (search_loop g (search_fuel g) destination (start g source))
  search-Returns is_node = search_loop-Returns (search_fuel g) (start g source) (record {
    expanded = [];
    current = 0;
    node = source;
    tree = start-Tree is_node;
    apart = refl;
    enough = omega (arith, weight-none g.adjacency);
  })
