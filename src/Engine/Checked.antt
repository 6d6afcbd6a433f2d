-- ===== src/Engine/Checked.antt =====
-- graph.py: a check of the forwarding tables of the presets.
use Prim.Native.String.{String}
use cps344finalproject.Base.{
  ℕ, ◌<◌, ◌≡◌, ◌≢◌, refl, subst, Bool, true, false, not, ◌&&◌, Option, some, none, [], ◌∷◌, lookup,
  Dict, Result, ok, ◌>>=◌, if◌then◌else◌, ◌==◌, ltb, arith, inl, inr, is_ok, every, upto,
  ok-injective, if-cases,
}
use cps344finalproject.Base.Float.{Float}
use cps344finalproject.Graph.{
  SimpleGraph, add_node, add_nodes_from, set_edge, add_edge, neighbors, edge_data,
}
use cps344finalproject.Graph.Route.{
  push_entry, relax, relax_all, visit, search_loop, retrace, get_route, build_table, build_tables,
  build_forwarding_tables,
}
use cps344finalproject.Graph.Manager.{GraphManager, add_edges, load_topology}
use cps344finalproject.Engine.Topologies.{IsPreset, presets, IsLoaded}

-- The nodes of every preset.
abbrev pub IsNode : ℕ → Type 0
IsNode n = n < 6

-- The table of node `a` has a neighbour of it for the destination.
unfoldable pub leads : SimpleGraph → ℕ → Dict ℕ → ℕ → Bool
leads g a table destination = if destination == a then true else elim (lookup destination table) [
  | none ↦ false
  | some hop ↦ ltb hop 6 && is_ok (edge_data a hop g)
]

unfoldable pub rows_lead : SimpleGraph → Dict (Dict ℕ) → Bool
rows_lead g [] = true
rows_lead g ((a, table) ∷ tables) =
    ltb a 6 && (every (leads g a table) (upto 6) && rows_lead g tables)

abbrev pub has_row : Dict (Dict ℕ) → ℕ → Bool
has_row tables n = elim (lookup n tables) [ none ↦ false | some _ ↦ true ]

unfoldable pub complete : SimpleGraph → Dict (Dict ℕ) → Bool
complete g tables = every (has_row tables) (upto 6) && rows_lead g tables

-- The check of the tables of a graph.
abbrev pub checked : SimpleGraph → Result Bool
checked g = build_forwarding_tables g >>= λ tables. ok (complete g tables)

abbrev ends_apart : ℕ → ℕ → Bool
ends_apart a b = ltb a 6 && (ltb b 6 && not (a == b))

pub leads-hop :
    (g : SimpleGraph) (a : ℕ) (table : Dict ℕ) (destination : ℕ)
    → leads g a table destination ≡ true
    → destination ≢ a
    → (hop : ℕ) × (lookup destination table ≡ some hop)
      × IsNode hop
      × (is_ok (edge_data a hop g) ≡ true)
unfolding leads
leads-hop g a table destination h away = elim (if-cases (destination == a) h) [
  | inl (same, _) ↦ absurd (away (ground arith))
  | inr (_, h') ↦ go (lookup destination table) refl h'
]
  where
    go :
        (o : Option ℕ)
        → lookup destination table ≡ o
        → elim o [ none ↦ false | some hop ↦ ltb hop 6 && is_ok (edge_data a hop g) ] ≡ true
        → (hop : ℕ) × (lookup destination table ≡ some hop)
          × IsNode hop
          × (is_ok (edge_data a hop g) ≡ true)
    go none e h = absurd (ground arith)
    go (some hop) e h = (hop, e, ground arith, ground arith)

module _ {F : Type 0} ⦃fl : Float F⦄ where
  loaded-checked :
      (name : String) (gm : GraphManager F)
      → IsPreset name
      → (load_topology name gm >>= λ l. checked l.graph) ≡ ok true
  unfolding load_topology add_edges add_node add_nodes_from set_edge add_edge neighbors edge_data
      push_entry relax relax_all visit search_loop retrace get_route build_table build_tables
      build_forwarding_tables leads rows_lead complete
  loaded-checked name gm p =
      presets (λ n. (load_topology n gm >>= λ l. checked l.graph) ≡ ok true) p refl refl refl

  loaded-apart :
      (name : String) (gm : GraphManager F)
      → IsPreset name
      → (load_topology name gm >>= λ l. ok (ends_apart l.default_source l.default_destination))
        ≡ ok true
  unfolding load_topology add_edges add_node add_nodes_from set_edge add_edge
  loaded-apart name gm p =
      presets
        (λ n.
          (load_topology n gm >>= λ l. ok (ends_apart l.default_source l.default_destination))
          ≡ ok true)
        p refl refl refl

  -- The endpoints of a loaded preset are two of its nodes.
  pub IsLoaded-apart :
      (gm : GraphManager F)
      → IsLoaded gm
      → IsNode gm.default_source
        × IsNode gm.default_destination
        × (gm.default_source ≢ gm.default_destination)
  IsLoaded-apart gm l =
      let e = ok-injective (
        subst (λ m. (m >>= λ l. ok (ends_apart l.default_source l.default_destination)) ≡ ok true)
          l.loads (loaded-apart l.name l.prior l.preset)) in
      (ground arith, ground arith, λ same. ground arith)

  pub IsLoaded-complete :
      (gm : GraphManager F) (tables : Dict (Dict ℕ))
      → IsLoaded gm
      → build_forwarding_tables gm.graph ≡ ok tables
      → complete gm.graph tables ≡ true
  IsLoaded-complete gm tables l built =
      let e : checked gm.graph ≡ ok true =
        subst (λ m. (m >>= λ l. checked l.graph) ≡ ok true) l.loads
          (loaded-checked l.name l.prior l.preset) in
      ok-injective (subst (λ m. (m >>= λ tables. ok (complete gm.graph tables)) ≡ ok true) built e)
  -- A router that only drops packets, and has a table that leads to every node.
