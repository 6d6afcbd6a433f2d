-- ===== src/Engine/Samples.antt =====
-- Small sessions, run with the sample numbers.
use cps344finalproject.Base.{
  is_ok, arith, ℕ, zero, suc, true, ◌≡◌, refl, some, List, [], ◌∷◌, Result, ok, err, ◌>>=◌,
}
use cps344finalproject.Base.Float.{num}
use cps344finalproject.Base.Fixed.{ℤ, fixed, congruential}
use cps344finalproject.Router.{build_routers, build_demo_sdn_routers, apply_rules, next_hop}
use cps344finalproject.Graph.{add_node, add_nodes_from, set_edge, add_edge, neighbors, edge_data}
use cps344finalproject.Graph.Route.{
  push_entry, relax, relax_all, visit, search_loop, retrace, get_route, build_table, build_tables,
  build_forwarding_tables,
}
use cps344finalproject.Graph.Manager.{
  add_edges, new_manager, load_topology, next_name, get_edge_delay, GraphManager,
}
use cps344finalproject.Graph.Manager
use cps344finalproject.Engine.{Sim, new_engine}
use cps344finalproject.Engine.Send.{
  push_event, make_packet, enqueue_at, inject_packet, send_ack, schedule, await_ack, send_data,
}
use cps344finalproject.Engine.Link.{
  chaos_delay, sample_link_delay, drop_by_loss, drop_by_chaos, should_drop_packet, fly,
  inject_duplicate_flight, duplicate_packet, duplicate_flight, maybe_duplicate, launch_link,
}
use cps344finalproject.Engine.Receive.{
  record_drop, record_delivery, note_sequence, on_data_received, accept_ack, on_ack_received,
  on_timeout, deliver, handle_arrival,
}
use cps344finalproject.Engine.Run.{
  decide_action, run_callback, run_events, run_due_events, forward_packet, dispatch_packet,
  dispatch_router, dispatch_all, dispatch_routers, land, advance_all, advance_in_flight_packets,
  fade, update_packet_events, finish_run, network_idle, check_finished, run_frame, update,
}
use cps344finalproject.Engine.Commands.{
  reset_run_state, rebuild_routers, choose_topology, setup_topology, schedule_all, start_run,
  set_mode, toggle_mode, cycle_topology, toggle_sdn, toggle_traffic_profile, handle_keydown,
}

-- The definitions that a run goes through.
unfoldable pub program : Unit {0}
unfolding build_routers build_demo_sdn_routers apply_rules next_hop add_node add_nodes_from set_edge
    add_edge neighbors edge_data push_entry relax relax_all visit search_loop retrace get_route
    build_table build_tables build_forwarding_tables add_edges load_topology next_name
    get_edge_delay Manager.cycle_topology new_engine push_event make_packet enqueue_at inject_packet
    send_ack schedule await_ack send_data chaos_delay sample_link_delay drop_by_loss drop_by_chaos
    should_drop_packet fly inject_duplicate_flight duplicate_packet duplicate_flight maybe_duplicate
    launch_link record_drop record_delivery note_sequence on_data_received accept_ack
    on_ack_received on_timeout deliver handle_arrival decide_action run_callback run_events
    run_due_events forward_packet dispatch_packet dispatch_router dispatch_all dispatch_routers land
    advance_all advance_in_flight_packets fade update_packet_events finish_run network_idle
    check_finished run_frame update reset_run_state rebuild_routers choose_topology setup_topology
    schedule_all start_run set_mode toggle_mode cycle_topology toggle_sdn toggle_traffic_profile
    handle_keydown
program = tt

-- The route of the default traffic.
routes : Result (List ℕ)
unfolding program
routes = load_topology "Campus Backbone" (new_manager {F = ℤ}) >>= λ gm. get_route 0 5 gm.graph

routes-campus : routes ≡ ok (0 ∷ 2 ∷ 4 ∷ 5 ∷ [])
unfolding program routes
routes-campus = refl

-- Frames of the given lengths.
abbrev pub frames : List ℕ → Sim ℤ ℕ → Result (Sim ℤ ℕ)
frames [] s = ok s
frames (dt ∷ dts) s = update (num dt) s >>= frames dts

abbrev pub replicate : ℕ → ℕ → List ℕ
replicate zero dt = []
replicate (suc n) dt = dt ∷ replicate n dt

abbrev pub value_of : {A : Type 0} → A → Result A → A
value_of a (ok b) = b
value_of a (err e) = a

pub value_of_lem : {A : Type 0} (a : A) (m : Result A) → is_ok m ≡ true → m ≡ ok (value_of a m)
value_of_lem a (ok b) h = refl
value_of_lem a (err e) h = absurd (ground arith)

abbrev pub state_of : Result (Sim ℤ ℕ) → Sim ℤ ℕ
state_of m = value_of (new_engine new_manager) m

-- After the first setup.
unfoldable pub booted : Sim ℤ ℕ
booted = state_of (setup_topology (some "Campus Backbone") (new_engine new_manager))

-- A run of the TCP-like mode, just before the frame that ends it.
unfoldable pub tcp_done : Sim ℤ ℕ
tcp_done = state_of (frames (replicate 80 250) (start_run (toggle_mode booted)))

-- A run of the UDP-like mode, in which links have lost and copied packets.
unfoldable pub udp_done : Sim ℤ ℕ
udp_done = state_of (frames (replicate 20 250) (start_run booted))

-- The same run after its first second, while sequences are still scheduled.
unfoldable pub udp_early : Sim ℤ ℕ
udp_early = state_of (frames (replicate 4 250) (start_run booted))
