-- ===== src/Engine/Trials.antt =====
-- The theorems on commands, conditions and packets, at concrete states and values.
use cps344finalproject.Engine.Queue.{IsTimeOrder}
use cps344finalproject.Engine.Overdue.{due_events_are_run}
use cps344finalproject.Base.{All, ℕ, arith, ◌≡◌, refl, some, none, true, false, [], ok}
use cps344finalproject.Base.Float.{num}
use cps344finalproject.Base.Fixed.{ℤ, fixed, congruential}
use cps344finalproject.Packet.{udp, Packet, post_init, data_packet, InFlightPacket, progress}
use cps344finalproject.Router.{new_router, demo_rules}
use cps344finalproject.Graph.Manager
use cps344finalproject.Engine.{Sim, Event}
use cps344finalproject.Graph.Manager.{new_manager}
use cps344finalproject.Engine.Run.{decide_action, chosen_action, discard, run_due_events}
use cps344finalproject.Engine.Commands.{adjust_loss_rate, adjust_delay_multiplier, cycle_topology}
use cps344finalproject.Engine.Conditions.{Literals, InBounds, Session-InBounds}
use cps344finalproject.Base.{is_ok}
use cps344finalproject.Engine.Settings.{
  IsOrder, adjust_loss_rate_bounds, adjust_delay_multiplier_bounds, progress_bounds,
  cycle_topology-keeps_endpoints, firewall_decides,
}
use cps344finalproject.Engine.Samples.{program, booted, tcp_done, udp_done, value_of_lem, state_of}
use cps344finalproject.Engine.Reached.{tcp_done-Session}

fixed-IsOrder : IsOrder fixed
fixed-IsOrder = record {
  le_of_not_lt = λ a b h. ground arith;
  le_of_lt = λ a b h. ground arith;
  le_refl = λ a. ground arith;
}

adjust_loss_rate_bounds_example :
    (fixed.le (num 0) (adjust_loss_rate (num 3) udp_done).conditions.loss_rate ≡ true)
    × (fixed.le (adjust_loss_rate (num 3) udp_done).conditions.loss_rate (fixed.lit 6 1) ≡ true)
    × ((adjust_loss_rate (num 3) udp_done).running ≡ false)
adjust_loss_rate_bounds_example = adjust_loss_rate_bounds fixed-IsOrder (num 3) udp_done refl

slower : Sim ℤ ℕ
slower = adjust_delay_multiplier (num 3) udp_done

adjust_delay_multiplier_bounds_example :
    (fixed.le (fixed.lit 4 1) slower.conditions.delay_multiplier ≡ true)
    × (fixed.le slower.conditions.delay_multiplier (fixed.lit 25 1) ≡ true)
    × (slower.running ≡ false)
unfolding slower
adjust_delay_multiplier_bounds_example =
    adjust_delay_multiplier_bounds fixed-IsOrder (num 3) udp_done refl

-- An HTTP packet at the source of Campus Backbone.
abbrev http_packet : Packet
http_packet = post_init (record {
  packet_id = 1;
  session_id = 1;
  source = 0;
  destination = 5;
  current_node = 0;
  protocol = udp;
  packet_type = data_packet;
  sequence = 0;
  dst_port = 80;
  ack_for = none;
  retransmission = false;
  duplicate = false;
  duplicated_from = none;
  route_history = [];
})

-- A flight with more time left than its link takes.
abbrev late_flight : InFlightPacket ℤ
late_flight = record {
  packet = http_packet;
  start_node = 0;
  end_node = 2;
  total_time_ms = num 40;
  remaining_time_ms = num 90;
  delayed = true;
  dropped = false;
}

progress_bounds_example :
    (fixed.le (num 0) (progress late_flight) ≡ true)
    × (fixed.le (progress late_flight) (num 1) ≡ true)
progress_bounds_example = progress_bounds fixed-IsOrder late_flight refl

-- Bottleneck Path, and Redundant Ring after it.
unfoldable bottleneck : Sim ℤ ℕ
bottleneck = state_of (cycle_topology booted)

unfoldable ring : Sim ℤ ℕ
ring = state_of (cycle_topology bottleneck)

cycle-is_ok : is_ok (cycle_topology bottleneck) ≡ true
unfolding program booted bottleneck
cycle-is_ok = refl

cycle-eq-ok : cycle_topology bottleneck ≡ ok ring
unfolding ring
cycle-eq-ok = value_of_lem _ _ cycle-is_ok

cycle_topology-keeps_endpoints_example :
    (ring.source ≡ bottleneck.source)
    × (ring.destination ≡ bottleneck.destination)
    × (Manager.cycle_topology 1 bottleneck.graph_manager ≡ ok ring.graph_manager)
cycle_topology-keeps_endpoints_example = cycle_topology-keeps_endpoints bottleneck ring cycle-eq-ok

-- The ring's own destination is another.
ring-destination : (ring.destination ≡ 5) × (ring.graph_manager.default_destination ≡ 2)
unfolding program booted bottleneck ring
ring-destination = (refl, refl)

firewall_decides_example :
    decide_action {F = ℤ}
      (chosen_action {F = ℤ} (new_router 3 [] (num 8) (demo_rules (some 3) 80 3)) http_packet)
      http_packet
      (new_router 3 [] (num 8) (demo_rules (some 3) 80 3))
    ≡ ok discard
firewall_decides_example = firewall_decides 3 80 3 [] (num 8) http_packet

fixed-Literals : Literals fixed
fixed-Literals = record {
  least_loss = refl;
  first_loss = refl;
  losses = refl;
  least_delay = refl;
  first_delay = refl;
  delays = refl;
}

Session-InBounds_example : InBounds fixed tcp_done.conditions
Session-InBounds_example = Session-InBounds fixed-IsOrder fixed-Literals tcp_done-Session

fixed-IsTimeOrder : IsTimeOrder fixed
fixed-IsTimeOrder = record {
  le_of_lt = λ a b h. ground (arith, h);
  le_of_not_lt = λ a b h. ground (arith, h);
  le_of_eq = λ a b h. ground (arith, h);
  le_trans = λ a b c h k. ground (arith, h, k);
}

timeout_moves :
    fixed.le (fixed.add (num 9000) tcp_done.retransmission_timeout_ms) (num 9000) ≡ false
unfolding program booted tcp_done
timeout_moves = refl

due_events_are_run_example :
    (t : Sim ℤ ℕ) × (run_due_events (record tcp_done { current_time_ms = num 9000 }) ≡ ok t)
    × All (λ (e : Event ℤ). fixed.le e.due_time t.current_time_ms ≡ false) t.events
due_events_are_run_example =
    due_events_are_run fixed-IsTimeOrder tcp_done-Session (num 9000) timeout_moves
