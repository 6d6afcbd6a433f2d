-- ===== src/Engine/Conditions.antt =====
-- The network conditions stay within their bounds throughout a session.
use Prim.Native.String.{String}
use cps344finalproject.Base.{
  ◌≡◌, refl, sym, ap, ◌∙◌, subst, true, Option, ok, ◌>>=◌, >>=-eq-ok, ok-injective, inl, inr,
}
use cps344finalproject.Base.Float.{Float, Random, num}
use cps344finalproject.Graph.Manager
use cps344finalproject.Graph.Manager.{new_manager}
use cps344finalproject.Engine.{Sim, NetworkConditions, new_engine}
use cps344finalproject.Engine.Send.{schedule}
use cps344finalproject.Engine.Effects.Starts.{start_run_cases}
use cps344finalproject.Engine.Commands.{
  Key, key_escape, key_space, key_m, key_t, key_c, key_d, key_s, key_p, key_left_bracket,
  key_right_bracket, key_minus, key_equals, key_plus, key_r, key_other, state, handle_keydown,
  choose_topology, rebuild_routers, reset_run_state, start_run, setup_topology, toggle_mode,
  set_mode, cycle_topology, toggle_chaos, toggle_duplicates, toggle_sdn, toggle_traffic_profile,
  adjust_loss_rate, adjust_delay_multiplier,
}
use cps344finalproject.Engine.Session.{
  frame, press, Session, begin, next, state-injective, press-bind,
}
use cps344finalproject.Engine.Settings.{IsOrder, clamp_bounds, rebuild_routers-eq-ok}
use cps344finalproject.Engine.Clock.{update-parameters}

-- How the literals of the source compare.
pub record Literals {F : Type 0} (fl : Float F) : Type 0 where
  pub least_loss : fl.le (fl.lit 0 0) (fl.lit 8 2) ≡ true
  pub first_loss : fl.le (fl.lit 8 2) (fl.lit 6 1) ≡ true
  pub losses : fl.le (fl.lit 0 0) (fl.lit 6 1) ≡ true
  pub least_delay : fl.le (fl.lit 4 1) (fl.lit 10 1) ≡ true
  pub first_delay : fl.le (fl.lit 10 1) (fl.lit 25 1) ≡ true
  pub delays : fl.le (fl.lit 4 1) (fl.lit 25 1) ≡ true

-- The loss rate is between 0 and 0.6, the delay multiplier between 0.4 and 2.5.
pub record InBounds {F : Type 0} (fl : Float F) (c : NetworkConditions F) : Type 0 where
  pub loss_low : fl.le (fl.lit 0 0) c.loss_rate ≡ true
  pub loss_high : fl.le c.loss_rate (fl.lit 6 1) ≡ true
  pub delay_low : fl.le (fl.lit 4 1) c.delay_multiplier ≡ true
  pub delay_high : fl.le c.delay_multiplier (fl.lit 25 1) ≡ true

module _ {F R : Type 0} ⦃fl : Float F⦄ ⦃rand : Random F R⦄ where
  abbrev conditions_of : Sim F R → NetworkConditions F
  conditions_of s = s.conditions

  -- After routers are rebuilt and the run is reset the conditions are the ones before.
  rebuilt-conditions :
      (s t : Sim F R)
      → (rebuild_routers s >>= λ u. ok (reset_run_state true u)) ≡ ok t
      → t.conditions ≡ s.conditions
  unfolding reset_run_state
  rebuilt-conditions s t h =
      let (u, rebuilt, e) = >>=-eq-ok (rebuild_routers s) (λ u. ok (reset_run_state true u)) h in
      ap conditions_of (sym (ok-injective e)) ∙ ap conditions_of (rebuild_routers-eq-ok s u rebuilt)

  setup_topology-conditions :
      (name : Option String) (s t : Sim F R)
      → setup_topology name s ≡ ok t
      → t.conditions ≡ s.conditions
  unfolding setup_topology
  setup_topology-conditions name s t h =
      let (gm, loaded, h') = >>=-eq-ok (choose_topology name s.graph_manager) _ h in
      rebuilt-conditions _ t h'

  cycle_topology-conditions :
      (s t : Sim F R) → cycle_topology s ≡ ok t → t.conditions ≡ s.conditions
  unfolding cycle_topology
  cycle_topology-conditions s t h =
      let (gm, cycled, h') = >>=-eq-ok (Manager.cycle_topology 1 s.graph_manager) _ h in
      rebuilt-conditions _ t h'

  toggle_sdn-conditions : (s t : Sim F R) → toggle_sdn s ≡ ok t → t.conditions ≡ s.conditions
  unfolding toggle_sdn
  toggle_sdn-conditions s t h = rebuilt-conditions _ t h

  start_run-conditions : (s : Sim F R) → (start_run s).conditions ≡ s.conditions
  unfolding reset_run_state schedule
  start_run-conditions s = elim (start_run_cases s (start_run s) refl) [
    | inl (_, e) ↦ ap conditions_of e
    | inr (_, e) ↦ ap conditions_of e
  ]

module _ {F R : Type 0} ⦃fl : Float F⦄ ⦃rand : Random F R⦄ (order : IsOrder fl)
    (lits : Literals fl) where
  adjust_loss_rate-InBounds :
      (delta : F) (s : Sim F R)
      → InBounds fl s.conditions
      → InBounds fl (adjust_loss_rate delta s).conditions
  unfolding adjust_loss_rate reset_run_state
  adjust_loss_rate-InBounds delta s b =
      let (low, high) =
        clamp_bounds order (num 0) (fl.lit 6 1) (fl.add s.conditions.loss_rate delta) lits.losses in
      record {
        loss_low = low;
        loss_high = high;
        delay_low = b.delay_low;
        delay_high = b.delay_high;
      }

  adjust_delay_multiplier-InBounds :
      (delta : F) (s : Sim F R)
      → InBounds fl s.conditions
      → InBounds fl (adjust_delay_multiplier delta s).conditions
  unfolding adjust_delay_multiplier reset_run_state
  adjust_delay_multiplier-InBounds delta s b =
      let (low, high) =
        clamp_bounds order (fl.lit 4 1) (fl.lit 25 1) (fl.add s.conditions.delay_multiplier delta)
          lits.delays in
      record { loss_low = b.loss_low; loss_high = b.loss_high; delay_low = low; delay_high = high }

  handle_keydown-InBounds :
      (key : Key) (s t : Sim F R)
      → handle_keydown key s ≡ ok (state t)
      → InBounds fl s.conditions
      → InBounds fl t.conditions
  unfolding handle_keydown toggle_mode set_mode toggle_chaos toggle_duplicates
      toggle_traffic_profile reset_run_state
  handle_keydown-InBounds key s t h b = go key h
    where
      moved :
          {c : NetworkConditions F} → InBounds fl c → t.conditions ≡ c → InBounds fl t.conditions
      moved i e = subst (InBounds fl) (sym e) i

      go : (key : Key) → handle_keydown key s ≡ ok (state t) → InBounds fl t.conditions
      go key_escape h = absurd (cc)
      go key_space h = moved b (ap conditions_of (state-injective h) ∙ start_run-conditions s)
      go key_m h = moved b (ap conditions_of (state-injective h))
      go key_t h = moved b (cycle_topology-conditions s t (press-bind (cycle_topology s) t h))
      go key_c h =
          moved
            (record {
              loss_low = b.loss_low;
              loss_high = b.loss_high;
              delay_low = b.delay_low;
              delay_high = b.delay_high;
            })
            (ap conditions_of (state-injective h))
      go key_d h =
          moved
            (record {
              loss_low = b.loss_low;
              loss_high = b.loss_high;
              delay_low = b.delay_low;
              delay_high = b.delay_high;
            })
            (ap conditions_of (state-injective h))
      go key_s h = moved b (toggle_sdn-conditions s t (press-bind (toggle_sdn s) t h))
      go key_p h = moved b (ap conditions_of (state-injective h))
      go key_left_bracket h =
          moved (adjust_loss_rate-InBounds _ s b) (ap conditions_of (state-injective h))
      go key_right_bracket h =
          moved (adjust_loss_rate-InBounds _ s b) (ap conditions_of (state-injective h))
      go key_minus h =
          moved (adjust_delay_multiplier-InBounds _ s b) (ap conditions_of (state-injective h))
      go key_equals h =
          moved (adjust_delay_multiplier-InBounds _ s b) (ap conditions_of (state-injective h))
      go key_plus h =
          moved (adjust_delay_multiplier-InBounds _ s b) (ap conditions_of (state-injective h))
      go key_r h = moved b (ap conditions_of (state-injective h))
      go key_other h = moved b (ap conditions_of (state-injective h))

  -- At every moment of a session the loss rate is between 0 and 0.6 and the delay multiplier
  -- between 0.4 and 2.5, for numbers that obey the laws of an order and compare the literals as
  -- decimal numbers.
  pub Session-InBounds : {s : Sim F R} → Session s → InBounds fl s.conditions
  unfolding new_engine
  Session-InBounds (begin {s} h) =
      subst (InBounds fl) (sym (setup_topology-conditions _ _ s h)) (record {
        loss_low = lits.least_loss;
        loss_high = lits.first_loss;
        delay_low = lits.least_delay;
        delay_high = lits.first_delay;
      })
  Session-InBounds (next {s} {t} before (frame dt h)) =
      subst (InBounds fl) (sym (ap (λ p. p.conditions) (update-parameters dt s t h)))
        (Session-InBounds before)
  Session-InBounds (next {s} {t} before (press key h)) =
      handle_keydown-InBounds key s t h (Session-InBounds before)
