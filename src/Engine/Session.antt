-- ===== src/Engine/Session.antt =====
-- main.py: a session is what `main` runs, the first setup and then frames and key presses in any
-- order. An invariant of sessions is what a reset and a start establish, and what frames keep.
use Prim.Native.String.{String}
use cps344finalproject.Base.{
  ◌≡◌, sym, ap, ◌∙◌, subst, true, not, Option, some, Result, ok, ◌>>=◌, >>=-eq-ok, ok-injective,
  inl, inr, ◌⊎◌,
}
use cps344finalproject.Base.Float.{Float, Random}
use cps344finalproject.Graph.Manager
use cps344finalproject.Graph.Manager.{new_manager}
use cps344finalproject.Engine.{Sim, new_engine}
use cps344finalproject.Engine.Run.{update}
use cps344finalproject.Engine.Commands.{
  Key, key_escape, key_space, key_m, key_t, key_c, key_d, key_s, key_p, key_left_bracket,
  key_right_bracket, key_minus, key_equals, key_plus, key_r, key_other, Outcome, state,
  handle_keydown, choose_topology, rebuild_routers, reset_run_state, start_run, setup_topology,
  toggle_mode, set_mode, cycle_topology, toggle_chaos, toggle_duplicates, toggle_sdn,
  toggle_traffic_profile, adjust_loss_rate, adjust_delay_multiplier,
}

module _ {F R : Type 0} ⦃fl : Float F⦄ ⦃rand : Random F R⦄ where
  -- One turn of the loop of `main`: an event, or the frame at its end.
  pub data Step (s t : Sim F R) : Type 0 where
    frame : (dt_ms : F) → update dt_ms s ≡ ok t → Step s t
    press : (key : Key) → handle_keydown key s ≡ ok (state t) → Step s t

  pub data Session : Sim F R → Type 0 where
    begin :
        {s : Sim F R}
        → setup_topology (some "Campus Backbone") (new_engine new_manager) ≡ ok s
        → Session s
    next : {s t : Sim F R} → Session s → Step s t → Session t

  abbrev pub press_state : Sim F R → Result (Outcome F R)
  press_state s = ok (state s)

  -- `t` comes from a reset.
  abbrev pub Resets : Sim F R → Type 0
  Resets t = (u : Sim F R) × (t ≡ reset_run_state true u)

  bind-Resets :
      (m : Result (Sim F R)) (t : Sim F R)
      → (m >>= λ u. ok (reset_run_state true u)) ≡ ok t
      → Resets t
  bind-Resets m t h =
      let (u, _, e) = >>=-eq-ok m (λ u. ok (reset_run_state true u)) h in (u, sym (ok-injective e))

  pub state-injective :
      {s t : Sim F R} → ◌≡◌ {A = Result (Outcome F R)} (ok (state s)) (ok (state t)) → t ≡ s
  state-injective h = cc

  press-Resets : (u t : Sim F R) → press_state (reset_run_state true u) ≡ ok (state t) → Resets t
  press-Resets u t h = (u, state-injective h)

  pub press-bind :
      (m : Result (Sim F R)) (t : Sim F R) → (m >>= press_state) ≡ ok (state t) → m ≡ ok t
  press-bind m t h =
      let (u, e, e') = >>=-eq-ok m press_state h in e ∙ ap ok (sym (state-injective e'))

  pub setup_topology-Resets :
      (name : Option String) (s t : Sim F R) → setup_topology name s ≡ ok t → Resets t
  unfolding setup_topology
  setup_topology-Resets name s t h =
      let (gm, loaded, h') = >>=-eq-ok (choose_topology name s.graph_manager) _ h in
      bind-Resets
        (rebuild_routers (record s {
          graph_manager = gm;
          source = gm.default_source;
          destination = gm.default_destination;
        }))
        t h'

  cycle_topology-Resets : (s t : Sim F R) → cycle_topology s ≡ ok t → Resets t
  unfolding cycle_topology
  cycle_topology-Resets s t h =
      let (gm, loaded, h') = >>=-eq-ok (Manager.cycle_topology 1 s.graph_manager) _ h in
      bind-Resets (rebuild_routers (record s { graph_manager = gm })) t h'

  toggle_sdn-Resets : (s t : Sim F R) → toggle_sdn s ≡ ok t → Resets t
  unfolding toggle_sdn
  toggle_sdn-Resets s t h = bind-Resets (rebuild_routers (record s { use_sdn = not s.use_sdn })) t h

  -- Every key leaves the state, starts a run, or ends in a reset.
  pub handle_keydown_cases :
      (key : Key) (s t : Sim F R)
      → handle_keydown key s ≡ ok (state t)
      → ((t ≡ s) ⊎ (t ≡ start_run s)) ⊎ Resets t
  unfolding handle_keydown toggle_mode set_mode cycle_topology toggle_chaos toggle_duplicates
      toggle_sdn toggle_traffic_profile adjust_loss_rate adjust_delay_multiplier
  handle_keydown_cases key_escape s t h = cc
  handle_keydown_cases key_space s t h = inl (inr (state-injective h))
  handle_keydown_cases key_m s t h = inr (press-Resets _ t h)
  handle_keydown_cases key_t s t h =
      inr (cycle_topology-Resets s t (press-bind (cycle_topology s) t h))
  handle_keydown_cases key_c s t h = inr (press-Resets _ t h)
  handle_keydown_cases key_d s t h = inr (press-Resets _ t h)
  handle_keydown_cases key_s s t h = inr (toggle_sdn-Resets s t (press-bind (toggle_sdn s) t h))
  handle_keydown_cases key_p s t h = inr (press-Resets _ t h)
  handle_keydown_cases key_left_bracket s t h = inr (press-Resets _ t h)
  handle_keydown_cases key_right_bracket s t h = inr (press-Resets _ t h)
  handle_keydown_cases key_minus s t h = inr (press-Resets _ t h)
  handle_keydown_cases key_equals s t h = inr (press-Resets _ t h)
  handle_keydown_cases key_plus s t h = inr (press-Resets _ t h)
  handle_keydown_cases key_r s t h = inr (press-Resets _ t h)
  handle_keydown_cases key_other s t h = inl (inl (state-injective h))

  -- What frames keep, and resets and starts establish, holds throughout a session.
  pub Session-keeps :
      (I : Sim F R → Type 0)
      → ((dt_ms : F) (s t : Sim F R) → update dt_ms s ≡ ok t → I s → I t)
      → ((u : Sim F R) → I (reset_run_state true u))
      → ((s : Sim F R) → I (start_run s))
      → {s : Sim F R} → Session s
      → I s
  Session-keeps I frames resets starts (begin {s} h) =
      let (u, e) = setup_topology-Resets _ _ s h in subst I (sym e) (resets u)
  Session-keeps I frames resets starts (next {s} {t} before (frame dt h)) =
      frames dt s t h (Session-keeps I frames resets starts before)
  Session-keeps I frames resets starts (next {s} {t} before (press key h)) =
      elim (handle_keydown_cases key s t h) [
        | inl (inl same) ↦ subst I (sym same) (Session-keeps I frames resets starts before)
        | inl (inr started) ↦ subst I (sym started) (starts s)
        | inr (u, e) ↦ subst I (sym e) (resets u)
      ]
