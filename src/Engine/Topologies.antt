-- ===== src/Engine/Topologies.antt =====
-- The graph of a session is always that of a preset, and no key press raises an exception.
use Prim.Native.String.{String}
use cps344finalproject.Base.{
  ◌≡◌, refl, sym, ap, ◌∙◌, subst, true, not, ok, ◌>>=◌, ok-injective, is_ok, is_ok-eq-ok, >>=-is_ok,
  inl, inr, ◌⊎◌,
}
use cps344finalproject.Base.Float.{Float, Random}
use cps344finalproject.Graph.{add_node, add_nodes_from, set_edge, add_edge, neighbors, edge_data}
use cps344finalproject.Graph.Route.{
  push_entry, relax, relax_all, visit, search_loop, retrace, get_route, build_table, build_tables,
  build_forwarding_tables,
}
use cps344finalproject.Graph.Manager
use cps344finalproject.Graph.Manager.{
  GraphManager, add_edges, new_manager, load_topology, next_name,
}
use cps344finalproject.Engine.{Sim}
use cps344finalproject.Engine.Commands.{
  Key, key_escape, key_space, key_m, key_t, key_c, key_d, key_s, key_p, key_left_bracket,
  key_right_bracket, key_minus, key_equals, key_plus, key_r, key_other, handle_keydown,
  rebuild_routers, cycle_topology, toggle_sdn,
}

abbrev pub IsPreset : String → Type 0
IsPreset name =
    (name ≡ "Campus Backbone") ⊎ ((name ≡ "Bottleneck Path") ⊎ (name ≡ "Redundant Ring"))

-- What holds of the presets holds of a preset's name.
pub presets :
    (P : String → Type 0) {name : String}
    → IsPreset name
    → P "Campus Backbone"
    → P "Bottleneck Path"
    → P "Redundant Ring"
    → P name
presets P (inl e) a b c = subst P (sym e) a
presets P (inr (inl e)) a b c = subst P (sym e) b
presets P (inr (inr e)) a b c = subst P (sym e) c

module _ {F : Type 0} ⦃fl : Float F⦄ where
  -- The manager after the load of a preset.
  pub record IsLoaded (gm : GraphManager F) : Type 0 where
    pub name : String
    pub preset : IsPreset name
    pub prior : GraphManager F
    pub loads : load_topology name prior ≡ ok gm

  pub load_topology-is_ok :
      (name : String) (gm : GraphManager F) → IsPreset name → is_ok (load_topology name gm) ≡ true
  unfolding load_topology add_edges add_node add_nodes_from set_edge add_edge
  load_topology-is_ok name gm p = presets (λ n. is_ok (load_topology n gm) ≡ true) p refl refl refl

  loaded-name :
      (name : String) (gm : GraphManager F)
      → IsPreset name
      → (load_topology name gm >>= λ l. ok l.current_topology_name) ≡ ok name
  unfolding load_topology add_edges add_node add_nodes_from set_edge add_edge
  loaded-name name gm p =
      presets (λ n. (load_topology n gm >>= λ l. ok l.current_topology_name) ≡ ok n) p refl refl
        refl

  -- A node of a preset reaches every other, so the tables can be built.
  loaded-tables :
      (name : String) (gm : GraphManager F)
      → IsPreset name
      → is_ok (load_topology name gm >>= λ l. build_forwarding_tables l.graph) ≡ true
  unfolding load_topology add_edges add_node add_nodes_from set_edge add_edge neighbors edge_data
      push_entry relax relax_all visit search_loop retrace get_route build_table build_tables
      build_forwarding_tables
  loaded-tables name gm p =
      presets (λ n. is_ok (load_topology n gm >>= λ l. build_forwarding_tables l.graph) ≡ true) p
        refl refl refl

  next_name-IsPreset :
      (gm : GraphManager F)
      → IsPreset gm.current_topology_name
      → (n : String) × IsPreset n × (next_name 1 gm ≡ ok n)
  unfolding next_name
  next_name-IsPreset gm p =
      presets
        (λ c.
          (n : String) × IsPreset n
          × (next_name 1 (record gm { current_topology_name = c }) ≡ ok n))
        p ("Bottleneck Path", inr (inl refl), refl) ("Redundant Ring", inr (inr refl), refl)
        ("Campus Backbone", inl refl, refl)

  IsLoaded-tables :
      (gm : GraphManager F) → IsLoaded gm → is_ok (build_forwarding_tables gm.graph) ≡ true
  IsLoaded-tables gm l =
      subst (λ m. is_ok (m >>= λ l. build_forwarding_tables l.graph) ≡ true) l.loads
        (loaded-tables l.name l.prior l.preset)

  IsLoaded-name : (gm : GraphManager F) → IsLoaded gm → IsPreset gm.current_topology_name
  IsLoaded-name gm l =
      let e =
        subst (λ m. (m >>= λ l. ok l.current_topology_name) ≡ ok l.name) l.loads
          (loaded-name l.name l.prior l.preset) in
      subst IsPreset (sym (ok-injective e)) l.preset

  -- The next preset can be loaded from a loaded one.
  pub cycle-IsLoaded :
      (gm : GraphManager F)
      → IsLoaded gm
      → (gm' : GraphManager F) × (Manager.cycle_topology 1 gm ≡ ok gm') × IsLoaded gm'
  unfolding Manager.cycle_topology
  cycle-IsLoaded gm l =
      let (n, p, e) = next_name-IsPreset gm (IsLoaded-name gm l) in
      let (gm', loads) = is_ok-eq-ok (load_topology n gm) (load_topology-is_ok n gm p) in
      (
        gm',
        ap (λ m. m >>= λ n. load_topology n gm) e ∙ loads,
        record { name = n; preset = p; prior = gm; loads = loads },
      )

module _ {F R : Type 0} ⦃fl : Float F⦄ ⦃rand : Random F R⦄ where
  pub rebuild_routers-is_ok :
      (s : Sim F R) → IsLoaded s.graph_manager → is_ok (rebuild_routers s) ≡ true
  unfolding rebuild_routers
  rebuild_routers-is_ok s l =
      >>=-is_ok (build_forwarding_tables s.graph_manager.graph) _
        (IsLoaded-tables s.graph_manager l) (λ tables e. refl)

  cycle_topology-is_ok : (s : Sim F R) → IsLoaded s.graph_manager → is_ok (cycle_topology s) ≡ true
  unfolding cycle_topology
  cycle_topology-is_ok s l =
      let (gm, cycled, l') = cycle-IsLoaded s.graph_manager l in
      >>=-is_ok (Manager.cycle_topology 1 s.graph_manager) _ (ap is_ok cycled) (λ gm₁ e.
        let l₁ = subst IsLoaded (ok-injective (sym cycled ∙ e)) l' in
        >>=-is_ok (rebuild_routers (record s { graph_manager = gm₁ })) _
          (rebuild_routers-is_ok _ l₁) (λ u e'. refl))

  toggle_sdn-is_ok : (s : Sim F R) → IsLoaded s.graph_manager → is_ok (toggle_sdn s) ≡ true
  unfolding toggle_sdn
  toggle_sdn-is_ok s l =
      >>=-is_ok (rebuild_routers (record s { use_sdn = not s.use_sdn })) _
        (rebuild_routers-is_ok _ l) (λ u e. refl)

  -- With a preset loaded, no key raises an exception.
  pub handle_keydown-is_ok :
      (key : Key) (s : Sim F R) → IsLoaded s.graph_manager → is_ok (handle_keydown key s) ≡ true
  unfolding handle_keydown
  handle_keydown-is_ok key_t s l =
      >>=-is_ok (cycle_topology s) _ (cycle_topology-is_ok s l) (λ u e. refl)
  handle_keydown-is_ok key_s s l = >>=-is_ok (toggle_sdn s) _ (toggle_sdn-is_ok s l) (λ u e. refl)
  handle_keydown-is_ok key_escape s l = refl
  handle_keydown-is_ok key_space s l = refl
  handle_keydown-is_ok key_m s l = refl
  handle_keydown-is_ok key_c s l = refl
  handle_keydown-is_ok key_d s l = refl
  handle_keydown-is_ok key_p s l = refl
  handle_keydown-is_ok key_left_bracket s l = refl
  handle_keydown-is_ok key_right_bracket s l = refl
  handle_keydown-is_ok key_minus s l = refl
  handle_keydown-is_ok key_equals s l = refl
  handle_keydown-is_ok key_plus s l = refl
  handle_keydown-is_ok key_r s l = refl
  handle_keydown-is_ok key_other s l = refl
