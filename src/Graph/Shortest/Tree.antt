-- ===== src/Graph/Shortest/Tree.antt =====
-- What holds between the rounds of `get_route`'s search, and inside one: the nodes that were
-- expanded, latest first, form a tree of shortest routes.
use cps344finalproject.Base.{
  ℕ, ◌+◌, ◌≤◌, ◌<◌, ◌≡◌, Bool-cases, true, false, Option, some, List, [], ◌∷◌, Dict, lookup, insert,
  lookup-insert, ok, ◌==◌, member, All, arith, inl, inr, ◌⊎◌,
}
use cps344finalproject.Graph.{SimpleGraph, EdgeData, edge_data}
use cps344finalproject.Graph.Route.{Search, push_entry}
use cps344finalproject.Graph.Shortest.{IsNode}
use cps344finalproject.Graph.Shortest.Heap.{Holds, Sorted}

abbrev pub Known : Search → ℕ → ℕ → Type 0
Known s v d = lookup v s.distances ≡ some (some d)

abbrev pub In : ℕ → List ℕ → Type 0
In v vs = member v vs ≡ true

abbrev pub Distinct : List ℕ → Type 0
Distinct [] = Unit
Distinct (v ∷ vs) = (member v vs ≡ false) × Distinct vs

pub Known_unique : (s : Search) (v d e : ℕ) → Known s v d → Known s v e → d ≡ e
Known_unique s v d e h k = cc

module _ (g : SimpleGraph) (source : ℕ) where
  -- `previous[v]` is an expanded node, and the distance of `v` is one edge longer than that of it.
  pub record Parent (expanded : List ℕ) (s : Search) (v d : ℕ) : Type 0 where
    pub parent : ℕ
    pub before : ℕ
    pub edge : EdgeData
    pub points : lookup v s.previous ≡ some (some parent)
    pub inside : In parent expanded
    pub known : Known s parent before
    pub link : edge_data parent v g ≡ ok edge
    pub sum : d ≡ before + edge.delay_ms

  -- The parent of an expanded node was expanded before it.
  abbrev pub Chain : Dict (Option ℕ) → List ℕ → Type 0
  Chain previous [] = Unit
  Chain previous (v ∷ vs) =
      ((v ≡ source) ⊎ ((u : ℕ) × (lookup v previous ≡ some (some u)) × In u vs)) × Chain previous vs

  -- `node` is being expanded at the distance `current`, and its neighbours `todo` are left.
  pub record Tree (expanded todo : List ℕ) (current node : ℕ) (s : Search) : Type 0 where
    pub has_distance : (v : ℕ) → IsNode g v → (o : Option ℕ) × (lookup v s.distances ≡ some o)
    pub start_known : Known s source 0
    pub heap_known :
        (d v : ℕ) → Holds (d, v) s.heap → IsNode g v × ((e : ℕ) × Known s v e × (e ≤ d))
    pub above : (d v : ℕ) → Holds (d, v) s.heap → current ≤ d
    pub low : (v d : ℕ) → In v expanded → Known s v d → d ≤ current
    pub later : (h v d : ℕ) → Holds (h, v) s.heap → In v expanded → Known s v d → d < h
    pub ascending : Sorted s.heap
    pub parents : (v d : ℕ) → Known s v d → (v ≡ source) ⊎ Parent expanded s v d
    pub reached : (v : ℕ) → In v expanded → (d : ℕ) × Known s v d
    pub closed :
        (v d w : ℕ) (e : EdgeData)
        → In v expanded
        → Known s v d
        → edge_data v w g ≡ ok e
        → ((v ≡ node) × In w todo) ⊎ ((f : ℕ) × Known s w f × (f ≤ d + e.delay_ms))
    pub pending : (v d : ℕ) → Known s v d → In v expanded ⊎ Holds (d, v) s.heap
    pub chain : Chain s.previous expanded
    pub distinct : Distinct expanded
    pub nodes : All (IsNode g) expanded

  -- The state when the neighbour has got a shorter distance.
  abbrev pub improved : ℕ → ℕ → ℕ → Search → Search
  improved node neighbor new s = record {
    distances = insert neighbor (some new) s.distances;
    previous = insert neighbor (some node) s.previous;
    heap = push_entry (new, neighbor) s.heap;
  }

  pub Known-improved :
      (node neighbor new v d : ℕ) (s : Search)
      → Known (improved node neighbor new s) v d
      → ((v ≡ neighbor) × (d ≡ new)) ⊎ (((neighbor == v) ≡ false) × Known s v d)
  Known-improved node neighbor new v d s k = elim (Bool-cases (neighbor == v)) [
    | inl same ↦ inl (ground (arith, lookup-insert neighbor v (some new) s.distances))
    | inr other ↦ inr (other, ground (arith, lookup-insert neighbor v (some new) s.distances))
  ]

  pub improved-Known :
      (node neighbor new v d : ℕ) (s : Search)
      → (neighbor == v) ≡ false
      → Known s v d
      → Known (improved node neighbor new s) v d
  improved-Known node neighbor new v d s other k =
      ground (arith, lookup-insert neighbor v (some new) s.distances)

  pub improved-Known_new :
      (node neighbor new : ℕ) (s : Search) → Known (improved node neighbor new s) neighbor new
  improved-Known_new node neighbor new s =
      ground (arith, lookup-insert neighbor neighbor (some new) s.distances)

  pub Chain-insert :
      (node neighbor : ℕ) (previous : Dict (Option ℕ)) (vs : List ℕ)
      → member neighbor vs ≡ false
      → Chain previous vs
      → Chain (insert neighbor (some node) previous) vs
  Chain-insert node neighbor previous [] out c = tt
  Chain-insert node neighbor previous (v ∷ vs) out (inl first, c) =
      (inl first, Chain-insert node neighbor previous vs (ground arith) c)
  Chain-insert node neighbor previous (v ∷ vs) out (inr (u, points, inside), c) = (
    inr (u, ground (arith, lookup-insert neighbor v (some node) previous), inside),
    Chain-insert node neighbor previous vs (ground arith) c,
  )
