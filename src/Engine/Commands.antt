-- ===== src/Engine/Commands.antt =====
-- simulation.py: what the user can do, each command a method of `SimulationEngine`, and main.py's
-- table of keys.
use Prim.Native.String.{String}
use text.Mathlib.Text.{◌==◌ as str_eq}
use cps344finalproject.Base.{
  ℕ, Bool, true, false, not, Option, none, some, List, [], ◌∷◌, map, Result, ok, ◌>>=◌,
  if◌then◌else◌, ◌==◌,
}
use cps344finalproject.Base.Float.{Float, num, maxf, minf}
use cps344finalproject.Packet.{Mode, udp, tcp}
use cps344finalproject.Stats.{new_stats, mark_started}
use cps344finalproject.Router.{Router, build_routers, build_demo_sdn_routers}
use cps344finalproject.Graph.Route.{build_forwarding_tables}
use cps344finalproject.Graph.Manager.{
  GraphManager, load_topology, get_topology_names, range_from, name_at,
}
use cps344finalproject.Graph.Manager
use cps344finalproject.Engine.{Sim, NetworkConditions, call_send}
use cps344finalproject.Engine.Send.{schedule}

-- `firewall_nodes.get(name)`
abbrev pub firewall_of : String → List (String × ℕ) → Option ℕ
firewall_of name [] = none
firewall_of name ((n, node) ∷ nodes) = if str_eq n name then some node else firewall_of name nodes

module _ {F : Type 0} ⦃fl : Float F⦄ where
  abbrev pub clear_router : ℕ × Router F → ℕ × Router F
  clear_router (id, router) = (id, record router { queue = []; next_available_time_ms = num 0 })

  -- The load at the start of `setup_topology`.
  unfoldable pub choose_topology : Option String → GraphManager F → Result (GraphManager F)
  choose_topology (some name) gm = load_topology name gm
  choose_topology none gm =
      if str_eq gm.current_topology_name ""
      then (name_at (get_topology_names F) 0 >>= λ name. load_topology name gm)
      else ok gm

module _ {F R : Type 0} ⦃fl : Float F⦄ where
  unfoldable pub reset_run_state : Bool → Sim F R → Sim F R
  reset_run_state keep_mode s = record s {
    mode = if keep_mode then s.mode else udp;
    current_time_ms = num 0;
    running = false;
    completed = false;
    next_sequence_to_send = 0;
    awaiting_ack = none;
    timeout_token = 0;
    udp_sent_all = false;
    chaos_drop_remaining = 0;
    delivered_sequences = [];
    next_packet_id = 1;
    next_event_id = 1;
    events = [];
    in_flight_packets = [];
    packet_events = [];
    stats = new_stats;
    routers = map clear_router s.routers;
  }

  unfoldable pub rebuild_routers : Sim F R → Result (Sim F R)
  rebuild_routers s = do
    tables ← build_forwarding_tables s.graph_manager.graph
    let firewall_router = firewall_of s.graph_manager.current_topology_name s.firewall_nodes
    ok (record s {
      routers =
          if s.use_sdn
          then build_demo_sdn_routers firewall_router 80 s.processing_delay_ms tables
          else build_routers s.processing_delay_ms tables;
    })

  unfoldable pub setup_topology : Option String → Sim F R → Result (Sim F R)
  setup_topology topology_name s = do
    gm ← choose_topology topology_name s.graph_manager
    s' ← rebuild_routers (record s {
      graph_manager = gm;
      source = gm.default_source;
      destination = gm.default_destination;
    })
    ok (reset_run_state true s')

  -- The loop of `start_run` over `range(self.packet_goal)`.
  unfoldable pub schedule_all : List ℕ → Sim F R → Sim F R
  schedule_all [] s = s
  schedule_all (sequence ∷ rest) s =
      schedule_all rest (schedule (fl.mul (num sequence) s.send_interval_ms) (call_send sequence) s)

  unfoldable pub start_run : Sim F R → Sim F R
  start_run s₀ =
      let s = reset_run_state true s₀ in
      let s' = record s { running = true; stats = mark_started s.current_time_ms s.stats } in
      elim s.mode [
        | udp ↦ record (schedule_all (range_from 0 s.packet_goal) s') { udp_sent_all = true }
        | tcp ↦ schedule (num 0) (call_send 0) s'
      ]

  unfoldable pub set_mode : Mode → Sim F R → Sim F R
  set_mode mode s = reset_run_state true (record s { mode = mode })

  unfoldable pub toggle_mode : Sim F R → Sim F R
  toggle_mode s = set_mode (elim s.mode [ udp ↦ tcp | tcp ↦ udp ]) s

  unfoldable pub cycle_topology : Sim F R → Result (Sim F R)
  cycle_topology s = do
    gm ← Manager.cycle_topology 1 s.graph_manager
    s' ← rebuild_routers (record s { graph_manager = gm })
    ok (reset_run_state true s')

  abbrev pub change_conditions : (NetworkConditions F → NetworkConditions F) → Sim F R → Sim F R
  change_conditions f s = record s { conditions = f s.conditions }

  unfoldable pub toggle_duplicates : Sim F R → Sim F R
  toggle_duplicates s = reset_run_state true (
      change_conditions
        (λ c. record c {
          duplicate_rate = if fl.eq c.duplicate_rate (num 0) then fl.lit 5 2 else num 0;
        })
        s)

  unfoldable pub toggle_chaos : Sim F R → Sim F R
  toggle_chaos s =
      reset_run_state true (change_conditions (λ c. record c { chaos_mode = not c.chaos_mode }) s)

  unfoldable pub toggle_sdn : Sim F R → Result (Sim F R)
  toggle_sdn s = do
    s' ← rebuild_routers (record s { use_sdn = not s.use_sdn })
    ok (reset_run_state true s')

  unfoldable pub toggle_traffic_profile : Sim F R → Sim F R
  toggle_traffic_profile s =
      reset_run_state true (record s { traffic_port = if s.traffic_port == 443 then 80 else 443 })

  unfoldable pub adjust_loss_rate : F → Sim F R → Sim F R
  adjust_loss_rate delta s = reset_run_state true (
      change_conditions
        (λ c. record c { loss_rate = minf (fl.lit 6 1) (maxf (num 0) (fl.add c.loss_rate delta)) })
        s)

  unfoldable pub adjust_delay_multiplier : F → Sim F R → Sim F R
  adjust_delay_multiplier delta s = reset_run_state true (
      change_conditions
        (λ c. record c {
          delay_multiplier =
              minf (fl.lit 25 1) (maxf (fl.lit 4 1) (fl.add c.delay_multiplier delta));
        })
        s)

-- The keys that `handle_keydown` knows. `K_PLUS` does what `K_EQUALS` does.
pub data Key : Type 0 where
  key_escape key_space key_m key_t key_c key_d key_s key_p key_left_bracket key_right_bracket : Key
  key_minus key_equals key_plus key_r key_other : Key

-- What a key press does: `exit` is `raise SystemExit`.
pub data Outcome (F R : Type 0) : Type 0 where
  exit : Outcome F R
  state : Sim F R → Outcome F R

module _ {F R : Type 0} ⦃fl : Float F⦄ where
  unfoldable pub handle_keydown : Key → Sim F R → Result (Outcome F R)
  handle_keydown key_escape s = ok exit
  handle_keydown key_space s = ok (state (start_run s))
  handle_keydown key_m s = ok (state (toggle_mode s))
  handle_keydown key_t s = do s' ← cycle_topology s; ok (state s')
  handle_keydown key_c s = ok (state (toggle_chaos s))
  handle_keydown key_d s = ok (state (toggle_duplicates s))
  handle_keydown key_s s = do s' ← toggle_sdn s; ok (state s')
  handle_keydown key_p s = ok (state (toggle_traffic_profile s))
  handle_keydown key_left_bracket s = ok (state (adjust_loss_rate (fl.neg (fl.lit 2 2)) s))
  handle_keydown key_right_bracket s = ok (state (adjust_loss_rate (fl.lit 2 2) s))
  handle_keydown key_minus s = ok (state (adjust_delay_multiplier (fl.neg (fl.lit 1 1)) s))
  handle_keydown key_equals s = ok (state (adjust_delay_multiplier (fl.lit 1 1) s))
  handle_keydown key_plus s = ok (state (adjust_delay_multiplier (fl.lit 1 1) s))
  handle_keydown key_r s = ok (state (reset_run_state true s))
  handle_keydown key_other s = ok (state s)
