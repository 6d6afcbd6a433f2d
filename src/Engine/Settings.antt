-- ===== src/Engine/Settings.antt =====
-- What the commands of the user and the firewall guarantee, and where a packet is drawn on its link.
use cps344finalproject.Base.{
  ℕ, ◌≡◌, refl, sym, ap, ◌∙◌, subst, true, false, some, ok, Dict, arith, if◌then◌else◌, >>=-eq-ok,
  ◌>>=◌, ok-injective, ◌==◌, ◌&&◌,
}
use cps344finalproject.Base.Float.{Float, num, minf, maxf}
use cps344finalproject.Packet.{Packet, InFlightPacket, progress}
use cps344finalproject.Router.{next_hop, apply_rules, is_data, new_router, demo_rules}
use cps344finalproject.Graph.Manager.{GraphManager}
use cps344finalproject.Graph.Manager
use cps344finalproject.Graph.Route.{build_forwarding_tables}
use cps344finalproject.Engine.{Sim}
use cps344finalproject.Engine.Run.{decide_action, chosen_action, discard, pass}
use cps344finalproject.Engine.Commands.{
  reset_run_state, adjust_loss_rate, adjust_delay_multiplier, cycle_topology, rebuild_routers,
}

-- The laws of the order of `float`, which hold for all values but NaN.
pub record IsOrder {F : Type 0} (fl : Float F) : Type 0 where
  pub le_of_not_lt : (a b : F) → fl.lt a b ≡ false → fl.le b a ≡ true
  pub le_of_lt : (a b : F) → fl.lt a b ≡ true → fl.le a b ≡ true
  pub le_refl : (a : F) → fl.le a a ≡ true

module _ {F : Type 0} ⦃fl : Float F⦄ (order : IsOrder fl) where
  -- `min(hi, max(lo, x))` lies between the bounds.
  pub clamp_bounds :
      (lo hi x : F)
      → fl.le lo hi ≡ true
      → (fl.le lo (minf hi (maxf lo x)) ≡ true) × (fl.le (minf hi (maxf lo x)) hi ≡ true)
  clamp_bounds lo hi x h = ground (
    arith,
    order.le_of_lt lo x,
    order.le_refl lo,
    order.le_refl hi,
    order.le_of_lt x hi,
    order.le_of_lt lo hi,
    order.le_of_not_lt (maxf lo x) hi,
    order.le_of_not_lt x hi,
    order.le_of_not_lt lo hi,
    order.le_of_lt (maxf lo x) hi,
  )

  -- `[` and `]` keep the loss rate between 0 and 0.6, and end the run, whatever the step is, for
  -- numbers that obey the laws of an order in which 0 is at most 0.6.
  pub adjust_loss_rate_bounds :
      {R : Type 0} (delta : F) (s : Sim F R)
      → fl.le (num 0) (fl.lit 6 1) ≡ true
      → (fl.le (num 0) (adjust_loss_rate delta s).conditions.loss_rate ≡ true)
        × (fl.le (adjust_loss_rate delta s).conditions.loss_rate (fl.lit 6 1) ≡ true)
        × ((adjust_loss_rate delta s).running ≡ false)
  unfolding adjust_loss_rate reset_run_state
  adjust_loss_rate_bounds delta s h =
      let (low, high) = clamp_bounds (num 0) (fl.lit 6 1) (fl.add s.conditions.loss_rate delta) h in
      (low, high, refl)

  -- `-` and `=` keep the delay multiplier between 0.4 and 2.5, and end the run, whatever the step
  -- is, for numbers that obey the laws of an order in which 0.4 is at most 2.5.
  pub adjust_delay_multiplier_bounds :
      {R : Type 0} (delta : F) (s : Sim F R)
      → fl.le (fl.lit 4 1) (fl.lit 25 1) ≡ true
      → (fl.le (fl.lit 4 1) (adjust_delay_multiplier delta s).conditions.delay_multiplier ≡ true)
        × (fl.le (adjust_delay_multiplier delta s).conditions.delay_multiplier (fl.lit 25 1) ≡ true)
        × ((adjust_delay_multiplier delta s).running ≡ false)
  unfolding adjust_delay_multiplier reset_run_state
  adjust_delay_multiplier_bounds delta s h =
      let (low, high) =
        clamp_bounds (fl.lit 4 1) (fl.lit 25 1) (fl.add s.conditions.delay_multiplier delta) h in
      (low, high, refl)

  -- The share of its link that the display draws a packet at is between 0 and 1, for any times,
  -- for numbers that obey the laws of an order in which 0 is at most 1.
  pub progress_bounds :
      (f : InFlightPacket F)
      → fl.le (num 0) (num 1) ≡ true
      → (fl.le (num 0) (progress f) ≡ true) × (fl.le (progress f) (num 1) ≡ true)
  unfolding progress
  progress_bounds f h = ground (
    arith,
    order.le_refl (num 1),
    order.le_refl (num 0),
    clamp_unit (fl.sub (num 1) (fl.div f.remaining_time_ms f.total_time_ms)),
  )
    where
      clamp_unit :
          (x : F)
          → (fl.le (num 0) (maxf (num 0) (minf (num 1) x)) ≡ true)
            × (fl.le (maxf (num 0) (minf (num 1) x)) (num 1) ≡ true)
      clamp_unit x = ground (
        arith,
        order.le_refl (num 0),
        order.le_of_lt (num 0) (minf (num 1) x),
        order.le_of_lt (num 0) x,
        order.le_of_lt x (num 1),
        order.le_of_not_lt x (num 1),
        order.le_refl (num 1),
      )

module _ {F R : Type 0} ⦃fl : Float F⦄ where
  pub rebuild_routers-eq-ok :
      (s t : Sim F R) → rebuild_routers s ≡ ok t → t ≡ record s { routers = t.routers }
  unfolding rebuild_routers
  rebuild_routers-eq-ok s t h =
      let (tables, built, e) = >>=-eq-ok (build_forwarding_tables s.graph_manager.graph) _ h in
      subst (λ (t : Sim F R). t ≡ record s { routers = t.routers }) (ok-injective e) refl

  -- The key T changes the topology, but not the endpoints of the traffic, which stay those of the
  -- topology before; only the manager's own defaults are those of the new topology.
  pub cycle_topology-keeps_endpoints :
      (s t : Sim F R)
      → cycle_topology s ≡ ok t
      → (t.source ≡ s.source)
        × (t.destination ≡ s.destination)
        × (Manager.cycle_topology 1 s.graph_manager ≡ ok t.graph_manager)
  unfolding cycle_topology reset_run_state
  cycle_topology-keeps_endpoints s t h =
      let (gm, cycled, h') = >>=-eq-ok (Manager.cycle_topology 1 s.graph_manager) _ h in
      let s' = record s { graph_manager = gm } in
      let (u, rebuilt, e) = >>=-eq-ok (rebuild_routers s') (λ u. ok (reset_run_state true u)) h' in
      let e' : t ≡ reset_run_state true u = sym (ok-injective e) in
      let same = rebuild_routers-eq-ok s' u rebuilt in
      (
        ap (λ (v : Sim F R). v.source) e' ∙ ap (λ (v : Sim F R). v.source) same,
        ap (λ (v : Sim F R). v.destination) e' ∙ ap (λ (v : Sim F R). v.destination) same,
        cycled
            ∙ ap ok (
                sym (
                  ap (λ (v : Sim F R). v.graph_manager) e'
                  ∙ ap (λ (v : Sim F R). v.graph_manager) same)),
      )

-- A router of the SDN mode drops exactly the data packets for the blocked port at the firewall
-- node; any other packet goes to the next hop of the forwarding table, or raises the exception of
-- a missing entry.
pub firewall_decides :
    {F : Type 0} ⦃fl : Float F⦄ (firewall port id : ℕ) (table : Dict ℕ) (delay : F)
    (packet : Packet)
    → let r = new_router id table delay (demo_rules (some firewall) port id) in
      decide_action (chosen_action r packet) packet r ≡ (
        if id == firewall && (packet.dst_port == port && is_data packet.packet_type)
        then ok discard
        else (next_hop packet.destination r >>= λ hop. ok (pass hop)))
unfolding decide_action apply_rules
firewall_decides firewall port id table delay packet = ground arith
