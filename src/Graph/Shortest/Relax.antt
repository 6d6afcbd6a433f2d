-- ===== src/Graph/Shortest/Relax.antt =====
-- graph.py: the loop over the neighbours in `get_route`.
use cps344finalproject.Base.{
  ℕ, ◌+◌, ◌≤◌, ◌<◌, ◌≡◌, sym, subst, Bool-cases, true, Option, none, some, List, [], ◌∷◌, lookup,
  ok, or_raise, key_error, ◌>>=◌, All, arith, inl, inr, if-true, if-false, length, Returns,
  returned, Returns-bind, Returns-map,
}
use cps344finalproject.Graph.{SimpleGraph, EdgeData, edge_data}
use cps344finalproject.Graph.Route.{Search, at_least, improve, relax, relax_all}
use cps344finalproject.Graph.Shortest.{IsNode, IsGraph}
use cps344finalproject.Graph.Shortest.Heap.{length-push}
use cps344finalproject.Graph.Shortest.Tree.{Known, In, Tree, improved-Known}
use cps344finalproject.Graph.Shortest.Edges.{edge_data-nodes}
use cps344finalproject.Graph.Shortest.Improve.{near-Tree, improved-Tree, other}

module _ (g : SimpleGraph) (source : ℕ) where
  -- The tree is kept, and the heap grows by at most `n` entries.
  pub record Relaxed (expanded todo : List ℕ) (current node n : ℕ) (s t : Search) : Type 0 where
    pub tree : Tree g source expanded todo current node t
    pub here : Known t node current
    pub size : length t.heap ≤ n + length s.heap

  improve-Relaxed :
      (expanded todo : List ℕ) (current node w : ℕ) (e : EdgeData) (known : Option ℕ) (s : Search)
      → Known s node current
      → In node expanded
      → edge_data node w g ≡ ok e
      → IsNode g w
      → lookup w s.distances ≡ some known
      → Tree g source expanded (w ∷ todo) current node s
      → Relaxed expanded todo current node 1 s (improve node w (current + e.delay_ms) known s)
  improve-Relaxed expanded todo current node w e known s here inside link n found t =
      elim (Bool-cases (at_least (current + e.delay_ms) known)) [
        | inl near ↦
            subst (Relaxed expanded todo current node 1 s) (sym (if-true _ _ _ near))
              (go known found near)
        | inr far ↦
            let farther : (f : ℕ) → Known s w f → current + e.delay_ms < f =
              λ f k. ground (arith, k, found, far) in
            subst (Relaxed expanded todo current node 1 s) (sym (if-false _ _ _ far)) (record {
              tree =
                  improved-Tree g source expanded todo current node w e s here inside link n farther
                    t;
              here =
                  improved-Known g source node w (current + e.delay_ms) node current s
                    (other g source expanded todo current node w e s here inside link n farther t
                      node inside)
                    here;
              size = omega (arith, length-push (current + e.delay_ms, w) s.heap);
            })
      ]
    where
      go :
          (known : Option ℕ)
          → lookup w s.distances ≡ some known
          → at_least (current + e.delay_ms) known ≡ true
          → Relaxed expanded todo current node 1 s s
      go none found near = absurd (ground arith)
      go (some f) found near = record {
        tree =
            near-Tree g source expanded todo current node w f e s here link found (ground arith) t;
        here = here;
        size = omega arith;
      }

  relax-Returns :
      (expanded todo : List ℕ) (current node w : ℕ) (e : EdgeData) (s : Search)
      → IsGraph g
      → Known s node current
      → In node expanded
      → edge_data node w g ≡ ok e
      → Tree g source expanded (w ∷ todo) current node s
      → Returns (Relaxed expanded todo current node 1 s) (relax g current node w s)
  unfolding relax
  relax-Returns expanded todo current node w e s wf here inside link t =
      let n = (edge_data-nodes g node w e wf link).1 in
      let (known, found) = t.has_distance w n in
      subst
        (λ m. Returns (Relaxed expanded todo current node 1 s) (
          m >>= λ edge. or_raise (lookup w s.distances) key_error >>= λ known.
          ok (improve node w (current + edge.delay_ms) known s)))
        (sym link)
        (subst
          (λ o.
            Returns (Relaxed expanded todo current node 1 s) (
              or_raise o key_error >>= λ known. ok (improve node w (current + e.delay_ms) known s)))
          (sym found)
          (returned
            (improve-Relaxed expanded todo current node w e known s here inside link n found t)))

  -- All the neighbours.
  pub relax_all-Returns :
      (expanded todo : List ℕ) (current node : ℕ) (s : Search)
      → IsGraph g
      → All (λ w. (e : EdgeData) × (edge_data node w g ≡ ok e)) todo
      → Known s node current
      → In node expanded
      → Tree g source expanded todo current node s
      → Returns (Relaxed expanded [] current node (length todo) s) (relax_all g current node todo s)
  unfolding relax_all
  relax_all-Returns expanded [] current node s wf links here inside t =
      returned (record { tree = t; here = here; size = omega arith })
  relax_all-Returns expanded (w ∷ todo) current node s wf ((e, link), links) here inside t =
      Returns-bind (relax-Returns expanded todo current node w e s wf here inside link t) (λ u one.
        Returns-map
          (λ v rest. record {
            tree = rest.tree;
            here = rest.here;
            size = omega (arith, one.size, rest.size);
          })
          (relax_all-Returns expanded todo current node u wf links one.here inside one.tree))
