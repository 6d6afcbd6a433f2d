-- ===== src/Engine/Tests.antt =====
-- The theorems on sessions and frames, at concrete sessions of the sample numbers.
use cps344finalproject.Base.{
  List, [], ◌∷◌, Dict, lookup, ℕ, suc, ◌+◌, ◌≤◌, ◌≡◌, refl, some, true, false, ok, length, upto,
  count, ltb,
}
use cps344finalproject.Base.Float.{num}
use cps344finalproject.Base.Fixed.{ℤ, fixed, congruential}
use cps344finalproject.Graph.{EdgeData, edge_data}
use cps344finalproject.Graph.Route.{build_forwarding_tables}
use cps344finalproject.Graph.Shortest.{IsNode, IsRoute, arrive, via}
use cps344finalproject.Engine.Routing.{tables_always_shortest}
use cps344finalproject.Engine.{Sim}
use cps344finalproject.Engine.Run.{run_due_events, update}
use cps344finalproject.Engine.Commands.{setup_topology, start_run, key_t, handle_keydown}
use cps344finalproject.Engine.Modes.{tcp_reliable, tcp_in_order, delivered-le-goal}
use cps344finalproject.Engine.Once.{udp_never_repeats, udp_sends_once}
use cps344finalproject.Engine.Datagram.Sends.{scheduled, underway}
use cps344finalproject.Engine.Send.{one_if}
use cps344finalproject.Engine.Reliable.{sends, is_waiting}
use cps344finalproject.Engine.Balance.{IsBalanced}
use cps344finalproject.Engine.Effects.Kept.{parameters}
use cps344finalproject.Engine.Clock.{update-stops, update-parameters}
use cps344finalproject.Engine.Due.{run_due_events-ends}
use cps344finalproject.Base.{err, out_of_fuel, is_ok, inr}
use cps344finalproject.Engine.Keys.{setup_always, keys_never_fail}
use cps344finalproject.Engine.Ready.{frames_never_fail}
use cps344finalproject.Engine.Balance.Sessions.{Session-IsBalanced}
use cps344finalproject.Engine.Samples.{
  program, booted, tcp_done, udp_done, udp_early, value_of_lem, state_of,
}
use cps344finalproject.Engine.Reached.{
  tcp_done-Session, tcp_done-completed, tcp_done-mode, tcp_done-running, udp_done-Session,
  udp_done-mode, udp_done-started, udp_early-Session, udp_early-mode, udp_early-started,
}

tcp_reliable_example :
    (tcp_done.delivered_sequences ≡ upto tcp_done.packet_goal)
    × (tcp_done.stats.packets_delivered ≡ tcp_done.packet_goal)
tcp_reliable_example =
    tcp_reliable tcp_done-Session tcp_done-mode tcp_done-running tcp_done-completed

tcp_in_order_example :
    (tcp_done.delivered_sequences ≡ upto tcp_done.stats.packets_delivered)
    × (tcp_done.next_sequence_to_send ≤ tcp_done.stats.packets_delivered)
    × (tcp_done.stats.packets_delivered ≤ suc tcp_done.next_sequence_to_send)
    × (sends tcp_done.events + is_waiting tcp_done.awaiting_ack ≤ 1)
tcp_in_order_example = tcp_in_order tcp_done-Session tcp_done-mode

udp_sends_once_example :
    (sent : List ℕ) × (udp_done.stats.packets_sent ≡ length sent + udp_done.stats.duplicate_packets)
    × ((n : ℕ)
        → count n sent + count n (scheduled udp_done.events) ≡ one_if (ltb n udp_done.packet_goal))
    × ((n : ℕ) → underway n udp_done ≤ count n sent)
udp_sends_once_example = udp_sends_once udp_done-Session udp_done-mode udp_done-started

-- A frame while sequences are scheduled and underway.
unfoldable next_frame : Sim ℤ ℕ
next_frame = state_of (update (num 250) udp_early)

next_frame-is_ok : is_ok (update (num 250) udp_early) ≡ true
unfolding program booted udp_early
next_frame-is_ok = refl

next_frame-eq-ok : update (num 250) udp_early ≡ ok next_frame
unfolding next_frame
next_frame-eq-ok = value_of_lem _ _ next_frame-is_ok

udp_never_repeats_example :
    (count 3 (scheduled udp_early.events) + underway 3 udp_early
      ≤ one_if (ltb 3 udp_early.packet_goal))
    × (count 3 (scheduled next_frame.events) + underway 3 next_frame
        ≤ count 3 (scheduled udp_early.events) + underway 3 udp_early)
    × (next_frame.stats.retransmissions ≡ 0)
    × (next_frame.stats.acknowledgements ≡ 0)
udp_never_repeats_example =
    udp_never_repeats udp_early-Session udp_early-mode udp_early-started (num 250) next_frame-eq-ok
      3

delivered-le-goal_example : udp_done.stats.packets_delivered ≤ udp_done.packet_goal
delivered-le-goal_example = delivered-le-goal udp_done-Session

Session-IsBalanced_example : IsBalanced (length udp_done.in_flight_packets) udp_done
Session-IsBalanced_example = Session-IsBalanced udp_done-Session

-- A frame of thirty seconds takes the run to its limit.
unfoldable expired : Sim ℤ ℕ
expired = state_of (update (num 30000) (start_run booted))

expired-is_ok : is_ok (update (num 30000) (start_run booted)) ≡ true
unfolding program booted
expired-is_ok = refl

expired-eq-ok : update (num 30000) (start_run booted) ≡ ok expired
unfolding expired
expired-eq-ok = value_of_lem _ _ expired-is_ok

started-running : (start_run booted).running ≡ true
unfolding program booted
started-running = refl

started-late :
    fixed.le
      (start_run booted).max_runtime_ms
      (fixed.add (start_run booted).current_time_ms (num 30000))
    ≡ true
unfolding program booted
started-late = refl

update-stops_example :
    (expired.running ≡ false)
    × (expired.completed ≡ true)
    × (expired.stats.end_time_ms ≡ some (fixed.add (start_run booted).current_time_ms (num 30000)))
update-stops_example =
    update-stops (num 30000) (start_run booted) expired expired-eq-ok started-running started-late

update-parameters_example : parameters expired ≡ parameters (start_run booted)
update-parameters_example = update-parameters (num 30000) (start_run booted) expired expired-eq-ok

timeout-later :
    fixed.le
      (fixed.add tcp_done.current_time_ms tcp_done.retransmission_timeout_ms)
      tcp_done.current_time_ms
    ≡ false
unfolding program booted tcp_done
timeout-later = refl

run_due_events-ends_example : ¬ (run_due_events tcp_done ≡ err out_of_fuel)
run_due_events-ends_example = run_due_events-ends tcp_done timeout-later

setup_always_example : is_ok (setup_topology (some "Redundant Ring") udp_done) ≡ true
setup_always_example = setup_always "Redundant Ring" udp_done (inr (inr refl))

keys_never_fail_example : is_ok (handle_keydown key_t tcp_done) ≡ true
keys_never_fail_example = keys_never_fail tcp_done-Session key_t

frame_later :
    fixed.le
      (fixed.add (fixed.add tcp_done.current_time_ms (num 250)) tcp_done.retransmission_timeout_ms)
      (fixed.add tcp_done.current_time_ms (num 250))
    ≡ false
unfolding program booted tcp_done
frame_later = refl

frames_never_fail_example : is_ok (update (num 250) tcp_done) ≡ true
frames_never_fail_example = frames_never_fail tcp_done-Session (num 250) frame_later

shown_zero : IsNode tcp_done.graph_manager.graph 0
unfolding program booted tcp_done
shown_zero = refl

shown_two : IsNode tcp_done.graph_manager.graph 2
unfolding program booted tcp_done
shown_two = refl

abbrev delay : ℕ → EdgeData
delay d = record { delay_ms = d }

first_link : edge_data 0 1 tcp_done.graph_manager.graph ≡ ok (delay 260)
unfolding program booted tcp_done
first_link = refl

last_link : edge_data 1 2 tcp_done.graph_manager.graph ≡ ok (delay 200)
unfolding program booted tcp_done
last_link = refl

tables_always_shortest_example :
    (tables : Dict (Dict ℕ)) × (row : Dict ℕ) × (hop : ℕ) × (edge : EdgeData) × (left : ℕ)
    × (route : List ℕ) × (build_forwarding_tables tcp_done.graph_manager.graph ≡ ok tables)
    × (lookup 0 tables ≡ some row)
    × (lookup 2 row ≡ some hop)
    × (edge_data 0 hop tcp_done.graph_manager.graph ≡ ok edge)
    × IsRoute tcp_done.graph_manager.graph hop 2 left route
    × (edge.delay_ms + left ≤ 460)
tables_always_shortest_example =
    tables_always_shortest tcp_done-Session 0 2 460 (0 ∷ 1 ∷ 2 ∷ []) shown_zero shown_two refl
      (via first_link (via last_link arrive))
