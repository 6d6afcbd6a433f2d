-- ===== src/Display/Positions.antt =====
-- graph.py: the positions of the nodes of the presets.
use Prim.Native.String.{String}
use cps344finalproject.Base.{
  ℕ, ◌≡◌, refl, subst, Bool, true, ◌&&◌, &&-split, Option, none, some, lookup, ok, or_raise,
  key_error, ◌>>=◌, ok-injective, is_ok, ltb, ltb→lt, upto, member-upto_lt, every, every-member,
  arith,
}
use cps344finalproject.Base.Float.{Float}
use cps344finalproject.Graph.{add_node, add_nodes_from, set_edge, add_edge}
use cps344finalproject.Graph.Manager.{GraphManager, add_edges, load_topology}
use cps344finalproject.Graph.Shortest as Shortest
use cps344finalproject.Graph.Shortest.{IsGraph}
use cps344finalproject.Engine.Topologies.{IsPreset, presets, IsLoaded}
use cps344finalproject.Engine.Checked.{IsNode}

-- A position for each of the nodes 0 to 5, and no other node.
abbrev placed : {F : Type 0} → GraphManager F → Bool
placed gm =
    every (λ n. is_ok (or_raise (lookup n gm.pos) key_error)) (upto 6)
    && every (λ n. ltb n 6) gm.graph.nodes

module _ {F : Type 0} ⦃fl : Float F⦄ where
  load_topology-placed :
      (name : String) (gm : GraphManager F)
      → IsPreset name
      → (load_topology name gm >>= λ l. ok (placed l)) ≡ ok true
  unfolding load_topology add_edges add_node add_nodes_from set_edge add_edge
  load_topology-placed name gm p =
      presets (λ n. (load_topology n gm >>= λ l. ok (placed l)) ≡ ok true) p refl refl refl

  IsLoaded-placed : (gm : GraphManager F) → IsLoaded gm → placed gm ≡ true
  IsLoaded-placed gm l = ok-injective (
      subst (λ m. (m >>= λ l. ok (placed l)) ≡ ok true) l.loads
        (load_topology-placed l.name l.prior l.preset))

  pub IsLoaded-pos :
      (gm : GraphManager F) (n : ℕ)
      → IsLoaded gm
      → IsNode n
      → (at : F × F) × (lookup n gm.pos ≡ some at)
  IsLoaded-pos gm n l k =
      let (all, _) = &&-split _ _ (IsLoaded-placed gm l) in
      found (lookup n gm.pos) (
        every-member (λ n. is_ok (or_raise (lookup n gm.pos) key_error)) n (upto 6) all
          (member-upto_lt 6 n k))
    where
      found :
          (o : Option (F × F)) → is_ok (or_raise o key_error) ≡ true → (at : F × F) × (o ≡ some at)
      found none h = absurd (ground (arith, h))
      found (some at) h = (at, refl)

  pub IsLoaded-IsNode :
      (gm : GraphManager F) (n : ℕ) → IsLoaded gm → Shortest.IsNode gm.graph n → IsNode n
  IsLoaded-IsNode gm n l h =
      let (_, all) = &&-split _ _ (IsLoaded-placed gm l) in
      ltb→lt n 6 (every-member (λ n. ltb n 6) n gm.graph.nodes all h)
