-- ===== src/Engine/Ready.antt =====
-- simulation.py: soundness of the states of a session, and the exceptions of its frames.
use cps344finalproject.Base.{
  ◌≡◌, ◌≢◌, refl, sym, ◌∙◌, subst, true, false, some, [], ok, ◌>>=◌, >>=-eq-ok, ok-injective, is_ok,
  Returns-is_ok, inl, inr,
}
use cps344finalproject.Base.Float.{Float, Random}
use cps344finalproject.Graph.Manager
use cps344finalproject.Graph.Manager.{GraphManager, load_topology, new_manager}
use cps344finalproject.Graph.Route.{build_forwarding_tables}
use cps344finalproject.Engine.{Sim}
use cps344finalproject.Engine.Send.{schedule}
use cps344finalproject.Engine.Run.{update}
use cps344finalproject.Engine.Commands.{
  Key, key_escape, key_space, key_m, key_t, key_c, key_d, key_s, key_p, key_left_bracket,
  key_right_bracket, key_minus, key_equals, key_plus, key_r, key_other, state, handle_keydown,
  choose_topology, rebuild_routers, reset_run_state, start_run, setup_topology, toggle_mode,
  set_mode, cycle_topology, toggle_chaos, toggle_duplicates, toggle_sdn, toggle_traffic_profile,
  adjust_loss_rate, adjust_delay_multiplier, firewall_of,
}
use cps344finalproject.Engine.Effects.Starts.{start_run_cases}
use cps344finalproject.Engine.Session.{
  frame, press, Session, begin, next, state-injective, press-bind,
}
use cps344finalproject.Engine.Topologies.{IsLoaded, cycle-IsLoaded}
use cps344finalproject.Engine.Keys.{Session-IsLoaded}
use cps344finalproject.Engine.Sound.{IsSound}
use cps344finalproject.Engine.Frames.{update-Returns, update-IsSound}
use cps344finalproject.Engine.Checked.{IsNode, IsLoaded-apart}
use cps344finalproject.Engine.Serving.{clear-Sound, routers-Sound}

module _ {F R : Type 0} ⦃fl : Float F⦄ ⦃rand : Random F R⦄ where
  abbrev IsReady : Sim F R → Type 0
  IsReady = IsSound IsNode

  reset-IsReady : (s : Sim F R) → IsReady s → IsReady (reset_run_state true s)
  unfolding reset_run_state
  reset-IsReady s i =
      clear-Sound s.graph_manager s.source s.destination s.routers s.in_flight_packets i

  start_run-IsReady : (s : Sim F R) → IsReady s → IsReady (start_run s)
  unfolding reset_run_state schedule
  start_run-IsReady s i =
      let r = reset-IsReady s i in
      elim (start_run_cases s (start_run s) refl) [
        | inl (_, e) ↦ subst IsReady (sym e) r
        | inr (_, e) ↦ subst IsReady (sym e) r
      ]

  rebuilt-IsReady :
      (s t : Sim F R)
      → (rebuild_routers s >>= λ u. ok (reset_run_state true u)) ≡ ok t
      → IsLoaded s.graph_manager
      → IsNode s.source
      → IsNode s.destination
      → s.source ≢ s.destination
      → IsReady t
  unfolding rebuild_routers reset_run_state
  rebuilt-IsReady s t h l from to apart =
      let (u, rebuilt, e) = >>=-eq-ok (rebuild_routers s) (λ u. ok (reset_run_state true u)) h in
      let (tables, built, e') =
        >>=-eq-ok (build_forwarding_tables s.graph_manager.graph) _ rebuilt in
      let i =
        routers-Sound s.graph_manager s.use_sdn
          (firewall_of s.graph_manager.current_topology_name s.firewall_nodes) s.processing_delay_ms
          s.source s.destination tables l built from to apart in
      subst IsReady (ok-injective e) (
        subst (λ (v : Sim F R). IsReady (reset_run_state true v)) (ok-injective e')
          (clear-Sound s.graph_manager s.source s.destination _ [] i))

  setup-IsReady : (s t : Sim F R) → setup_topology (some "Campus Backbone") s ≡ ok t → IsReady t
  unfolding setup_topology choose_topology
  setup-IsReady s t h =
      let (gm, loads, h') = >>=-eq-ok (load_topology "Campus Backbone" s.graph_manager) _ h in
      let l : IsLoaded gm = record {
        name = "Campus Backbone";
        preset = inl refl;
        prior = s.graph_manager;
        loads = loads;
      } in
      let (from, to, apart) = IsLoaded-apart gm l in rebuilt-IsReady _ t h' l from to apart

  cycle_topology-IsReady :
      (s t : Sim F R) → cycle_topology s ≡ ok t → IsLoaded s.graph_manager → IsReady s → IsReady t
  unfolding cycle_topology
  cycle_topology-IsReady s t h l i =
      let (gm, cycled, h') = >>=-eq-ok (Manager.cycle_topology 1 s.graph_manager) _ h in
      let (gm', cycled', l') = cycle-IsLoaded s.graph_manager l in
      rebuilt-IsReady _ t h' (subst IsLoaded (ok-injective (sym cycled' ∙ cycled)) l') i.from_known
        i.to_known i.apart

  toggle_sdn-IsReady :
      (s t : Sim F R) → toggle_sdn s ≡ ok t → IsLoaded s.graph_manager → IsReady s → IsReady t
  unfolding toggle_sdn
  toggle_sdn-IsReady s t h l i = rebuilt-IsReady _ t h l i.from_known i.to_known i.apart

  handle_keydown-IsReady :
      (key : Key) (s t : Sim F R)
      → handle_keydown key s ≡ ok (state t)
      → IsLoaded s.graph_manager
      → IsReady s
      → IsReady t
  unfolding handle_keydown toggle_mode set_mode toggle_chaos toggle_duplicates
      toggle_traffic_profile adjust_loss_rate adjust_delay_multiplier
  handle_keydown-IsReady key s t h l i = go key h
    where
      kept : {u : Sim F R} → IsReady u → t ≡ u → IsReady t
      kept r e = subst IsReady (sym e) r

      go : (key : Key) → handle_keydown key s ≡ ok (state t) → IsReady t
      go key_escape h = absurd (cc)
      go key_space h = kept (start_run-IsReady s i) (state-injective h)
      go key_m h = kept (reset-IsReady (record s { mode = _ }) i) (state-injective h)
      go key_t h = cycle_topology-IsReady s t (press-bind (cycle_topology s) t h) l i
      go key_c h = kept (reset-IsReady (record s { conditions = _ }) i) (state-injective h)
      go key_d h = kept (reset-IsReady (record s { conditions = _ }) i) (state-injective h)
      go key_s h = toggle_sdn-IsReady s t (press-bind (toggle_sdn s) t h) l i
      go key_p h = kept (reset-IsReady (record s { traffic_port = _ }) i) (state-injective h)
      go key_left_bracket h =
          kept (reset-IsReady (record s { conditions = _ }) i) (state-injective h)
      go key_right_bracket h =
          kept (reset-IsReady (record s { conditions = _ }) i) (state-injective h)
      go key_minus h = kept (reset-IsReady (record s { conditions = _ }) i) (state-injective h)
      go key_equals h = kept (reset-IsReady (record s { conditions = _ }) i) (state-injective h)
      go key_plus h = kept (reset-IsReady (record s { conditions = _ }) i) (state-injective h)
      go key_r h = kept (reset-IsReady s i) (state-injective h)
      go key_other h = kept i (state-injective h)

  pub Session-IsReady : {s : Sim F R} → Session s → IsSound IsNode s
  Session-IsReady (begin {s} h) = setup-IsReady _ s h
  Session-IsReady (next {s} {t} before (frame dt h)) =
      update-IsSound IsNode dt s t h (Session-IsReady before)
  Session-IsReady (next {s} {t} before (press key h)) =
      handle_keydown-IsReady key s t h (Session-IsLoaded before) (Session-IsReady before)

  -- No frame of a session raises an exception, at any moment and of any length, when adding the
  -- retransmission timeout to the new time gives a later time.
  pub frames_never_fail :
      {s : Sim F R}
      → Session s
      → (dt_ms : F)
      → fl.le
          (fl.add (fl.add s.current_time_ms dt_ms) s.retransmission_timeout_ms)
          (fl.add s.current_time_ms dt_ms)
        ≡ false
      → is_ok (update dt_ms s) ≡ true
  frames_never_fail {s} h dt_ms later =
      Returns-is_ok (update-Returns IsNode dt_ms s later (Session-IsReady h))
