-- ===== src/Engine/Keys.antt =====
-- The keys of a session: a preset is always loaded, so none raises an exception.
use Prim.Native.String.{String}
use cps344finalproject.Base.{
  ◌≡◌, refl, sym, ap, ◌∙◌, subst, true, some, ok, ◌>>=◌, >>=-eq-ok, ok-injective, is_ok, >>=-is_ok,
  inl, inr, ◌⊎◌,
}
use cps344finalproject.Base.Float.{Float, Random}
use cps344finalproject.Graph.Manager
use cps344finalproject.Graph.Manager.{GraphManager, load_topology, new_manager}
use cps344finalproject.Engine.{Sim}
use cps344finalproject.Engine.Send.{schedule}
use cps344finalproject.Engine.Commands.{
  Key, key_escape, key_space, key_m, key_t, key_c, key_d, key_s, key_p, key_left_bracket,
  key_right_bracket, key_minus, key_equals, key_plus, key_r, key_other, state, handle_keydown,
  choose_topology, rebuild_routers, reset_run_state, start_run, setup_topology, toggle_mode,
  set_mode, cycle_topology, toggle_chaos, toggle_duplicates, toggle_sdn, toggle_traffic_profile,
  adjust_loss_rate, adjust_delay_multiplier,
}
use cps344finalproject.Engine.Effects.Starts.{start_run_cases}
use cps344finalproject.Engine.Session.{
  frame, press, Session, begin, next, state-injective, press-bind,
}
use cps344finalproject.Engine.Settings.{rebuild_routers-eq-ok, cycle_topology-keeps_endpoints}
use cps344finalproject.Engine.Clock.{update-parameters}
use cps344finalproject.Engine.Topologies.{
  IsPreset, IsLoaded, load_topology-is_ok, cycle-IsLoaded, rebuild_routers-is_ok,
  handle_keydown-is_ok,
}

module _ {F R : Type 0} ⦃fl : Float F⦄ ⦃rand : Random F R⦄ where
  abbrev manager_of : Sim F R → GraphManager F
  manager_of s = s.graph_manager

  rebuilt-manager :
      (s t : Sim F R)
      → (rebuild_routers s >>= λ u. ok (reset_run_state true u)) ≡ ok t
      → t.graph_manager ≡ s.graph_manager
  unfolding reset_run_state
  rebuilt-manager s t h =
      let (u, rebuilt, e) = >>=-eq-ok (rebuild_routers s) (λ u. ok (reset_run_state true u)) h in
      ap manager_of (sym (ok-injective e)) ∙ ap manager_of (rebuild_routers-eq-ok s u rebuilt)

  toggle_sdn-manager : (s t : Sim F R) → toggle_sdn s ≡ ok t → t.graph_manager ≡ s.graph_manager
  unfolding toggle_sdn
  toggle_sdn-manager s t h = rebuilt-manager _ t h

  start_run-manager : (s : Sim F R) → (start_run s).graph_manager ≡ s.graph_manager
  unfolding reset_run_state schedule
  start_run-manager s = elim (start_run_cases s (start_run s) refl) [
    | inl (_, e) ↦ ap manager_of e
    | inr (_, e) ↦ ap manager_of e
  ]

  -- A key leaves the graph manager, or cycles its topology.
  key-manager :
      (key : Key) (s t : Sim F R)
      → handle_keydown key s ≡ ok (state t)
      → (t.graph_manager ≡ s.graph_manager)
        ⊎ (Manager.cycle_topology 1 s.graph_manager ≡ ok t.graph_manager)
  unfolding handle_keydown toggle_mode set_mode toggle_chaos toggle_duplicates
      toggle_traffic_profile adjust_loss_rate adjust_delay_multiplier reset_run_state
  key-manager key_escape s t h = absurd (cc)
  key-manager key_space s t h = inl (ap manager_of (state-injective h) ∙ start_run-manager s)
  key-manager key_m s t h = inl (ap manager_of (state-injective h))
  key-manager key_t s t h =
      inr ((cycle_topology-keeps_endpoints s t (press-bind (cycle_topology s) t h)).2)
  key-manager key_c s t h = inl (ap manager_of (state-injective h))
  key-manager key_d s t h = inl (ap manager_of (state-injective h))
  key-manager key_s s t h = inl (toggle_sdn-manager s t (press-bind (toggle_sdn s) t h))
  key-manager key_p s t h = inl (ap manager_of (state-injective h))
  key-manager key_left_bracket s t h = inl (ap manager_of (state-injective h))
  key-manager key_right_bracket s t h = inl (ap manager_of (state-injective h))
  key-manager key_minus s t h = inl (ap manager_of (state-injective h))
  key-manager key_equals s t h = inl (ap manager_of (state-injective h))
  key-manager key_plus s t h = inl (ap manager_of (state-injective h))
  key-manager key_r s t h = inl (ap manager_of (state-injective h))
  key-manager key_other s t h = inl (ap manager_of (state-injective h))

  setup-IsLoaded :
      (name : String) (s t : Sim F R)
      → IsPreset name
      → setup_topology (some name) s ≡ ok t
      → IsLoaded t.graph_manager
  unfolding setup_topology choose_topology
  setup-IsLoaded name s t p h =
      let (gm, loaded, h') = >>=-eq-ok (load_topology name s.graph_manager) _ h in
      subst IsLoaded (sym (rebuilt-manager _ t h'))
        (record { name = name; preset = p; prior = s.graph_manager; loads = loaded })

  pub Session-IsLoaded : {s : Sim F R} → Session s → IsLoaded s.graph_manager
  Session-IsLoaded (begin {s} h) = setup-IsLoaded "Campus Backbone" _ s (inl refl) h
  Session-IsLoaded (next {s} {t} before (frame dt h)) =
      subst IsLoaded (sym (ap (λ p. p.graph_manager) (update-parameters dt s t h)))
        (Session-IsLoaded before)
  Session-IsLoaded (next {s} {t} before (press key h)) =
      let l = Session-IsLoaded before in
      elim (key-manager key s t h) [
        | inl same ↦ subst IsLoaded (sym same) l
        | inr cycled ↦
            let (gm, cycled', l') = cycle-IsLoaded s.graph_manager l in
            subst IsLoaded (ok-injective (sym cycled' ∙ cycled)) l'
      ]

  -- The setup of a preset never raises an exception, from any state.
  pub setup_always :
      (name : String) (s : Sim F R) → IsPreset name → is_ok (setup_topology (some name) s) ≡ true
  unfolding setup_topology choose_topology
  setup_always name s p =
      >>=-is_ok (load_topology name s.graph_manager) _ (load_topology-is_ok name s.graph_manager p)
        (λ gm e.
          >>=-is_ok
            (rebuild_routers (record s {
              graph_manager = gm;
              source = gm.default_source;
              destination = gm.default_destination;
            }))
            _
            (rebuild_routers-is_ok _
              (record { name = name; preset = p; prior = s.graph_manager; loads = e }))
            (λ u e'. refl))

  -- At any moment of a session, no key press raises an exception.
  pub keys_never_fail :
      {s : Sim F R} → Session s → (key : Key) → is_ok (handle_keydown key s) ≡ true
  keys_never_fail {s} h key = handle_keydown-is_ok key s (Session-IsLoaded h)
