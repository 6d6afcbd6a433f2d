-- ===== src/Engine/Run.antt =====
-- simulation.py: `update`, one frame of the simulation, and the three loops that it runs.
use cps344finalproject.Base.{
  ℕ, zero, suc, Bool, true, false, ◌&&◌, ◌||◌, not, Option, none, some, List, [], ◌∷◌, ◌++◌, Dict,
  insert, lookup, keys, length, Result, ok, err, or_raise, key_error, out_of_fuel, ◌>>=◌,
  if◌then◌else◌, leb,
}
use cps344finalproject.Base.Float.{Float, Random, num}
use cps344finalproject.Packet.{Packet, InFlightPacket, PacketEvent, sdn_drop, link_loss, udp, tcp}
use cps344finalproject.Stats.{mark_finished}
use cps344finalproject.Router.{
  Router, Action, drop, forward, other, apply_rules, next_hop, has_work,
}
use cps344finalproject.Engine.{Sim, Callback, call_send, call_timeout}
use cps344finalproject.Engine.Send.{send_data}
use cps344finalproject.Engine.Link.{launch_link}
use cps344finalproject.Engine.Receive.{record_drop, handle_arrival, on_timeout}

-- `sorted(self.routers)`
abbrev pub insert_sorted : ℕ → List ℕ → List ℕ
insert_sorted k [] = k ∷ []
insert_sorted k (j ∷ ks) = if leb k j then k ∷ j ∷ ks else j ∷ insert_sorted k ks

abbrev pub sort : List ℕ → List ℕ
sort [] = []
sort (k ∷ ks) = insert_sorted k (sort ks)

-- `apply_rules`, for a router that has rules.
abbrev pub chosen_action : {F : Type 0} → Router F → Packet → Option Action
chosen_action router packet = elim router.rules [
  | none ↦ none
  | some rules ↦ apply_rules rules packet
]

-- Whether the packet is dropped, and else the node that it goes to.
pub data Decision : Type 0 where
  discard : Decision
  pass : ℕ → Decision

-- The case of `action` and of its type.
unfoldable pub decide_action : {F : Type 0} → Option Action → Packet → Router F → Result Decision
decide_action none packet router = do hop ← next_hop packet.destination router; ok (pass hop)
decide_action (some action) packet router = elim action.action_type [
  | drop ↦ ok discard
  | forward ↦ or_raise action.action_value key_error >>= λ hop. ok (pass hop)
  | other ↦ next_hop packet.destination router >>= λ hop. ok (pass hop)
]

abbrev pub is_empty {ℓ} : {A : Type ℓ} → List A → Bool
is_empty [] = true
is_empty (_ ∷ _) = false

abbrev pub any_busy : {F : Type 0} → Dict (Router F) → Bool
any_busy [] = false
any_busy ((_, router) ∷ routers) = has_work router || any_busy routers

module _ {F : Type 0} ⦃fl : Float F⦄ where
  abbrev pub age : F → InFlightPacket F → InFlightPacket F
  age dt_ms flight = record flight { remaining_time_ms = fl.sub flight.remaining_time_ms dt_ms }

  unfoldable pub fade : F → List (PacketEvent F) → List (PacketEvent F)
  fade dt_ms [] = []
  fade dt_ms (event ∷ events) =
      let event' = record event { ttl_ms = fl.sub event.ttl_ms dt_ms } in
      let rest = fade dt_ms events in if fl.lt (num 0) event'.ttl_ms then event' ∷ rest else rest

module _ {F R : Type 0} ⦃fl : Float F⦄ ⦃rand : Random F R⦄ where
  unfoldable pub run_callback : Callback → Sim F R → Result (Sim F R)
  run_callback (call_send sequence) s = send_data sequence false s
  run_callback (call_timeout sequence token) s = on_timeout sequence token s

  -- `_run_due_events`, with fuel.
  unfoldable pub run_events : ℕ → Sim F R → Result (Sim F R)
  run_events zero s = elim s.events [
    | [] ↦ ok s
    | e ∷ _ ↦ if fl.le e.due_time s.current_time_ms then err out_of_fuel else ok s
  ]
  run_events (suc fuel) s = elim s.events [
    | [] ↦ ok s
    | e ∷ events ↦
        let next =
          run_callback e.callback (record s { events = events }) >>= λ s'. run_events fuel s' in
        if fl.le e.due_time s.current_time_ms then next else ok s
  ]

  -- The fuel is one round for each event at the start.
  unfoldable pub run_due_events : Sim F R → Result (Sim F R)
  run_due_events s = run_events (length s.events) s

  -- What the router does with the packet that it took from its queue.
  unfoldable pub forward_packet : Decision → Packet → Router F → Sim F R → Result (Sim F R)
  forward_packet discard packet router s = ok (record_drop (some router.router_id) none sdn_drop s)
  forward_packet (pass hop) packet router s = launch_link packet router.router_id hop s

  -- The router without the packet, and busy with it.
  abbrev pub busy : List Packet → Router F → Sim F R → Router F
  busy rest router s = record router {
    queue = rest;
    next_available_time_ms = fl.add s.current_time_ms router.processing_delay_ms;
  }

  unfoldable pub dispatch_packet : ℕ → Router F → Packet → List Packet → Sim F R → Result (Sim F R)
  dispatch_packet router_id router packet rest s = do
    decision ← decide_action (chosen_action router packet) packet router
    forward_packet decision packet router
        (record s { routers = insert router_id (busy rest router s) s.routers })

  -- The body of the loop of `_dispatch_routers`.
  unfoldable pub dispatch_router : ℕ → Sim F R → Result (Sim F R)
  dispatch_router router_id s = do
    router ← or_raise (lookup router_id s.routers) key_error
    elim router.queue [
      | [] ↦ ok s
      | packet ∷ rest ↦
          if fl.lt s.current_time_ms router.next_available_time_ms
          then ok s
          else dispatch_packet router_id router packet rest s
    ]

  unfoldable pub dispatch_all : List ℕ → Sim F R → Result (Sim F R)
  dispatch_all [] s = ok s
  dispatch_all (router_id ∷ ids) s = do s' ← dispatch_router router_id s; dispatch_all ids s'

  unfoldable pub dispatch_routers : Sim F R → Result (Sim F R)
  dispatch_routers s = dispatch_all (sort (keys s.routers)) s

  -- The body of the loop of `_advance_in_flight_packets` for a flight that ends.
  unfoldable pub land : InFlightPacket F → Sim F R → Result (Sim F R)
  land flight s =
      if flight.dropped
      then ok (record_drop (some flight.start_node) (some flight.end_node) link_loss s)
      else handle_arrival flight s

  -- The loop, with `remaining_packets` so far.
  unfoldable pub advance_all :
      F → List (InFlightPacket F) → List (InFlightPacket F) → Sim F R → Result (Sim F R)
  advance_all dt_ms [] remaining s = ok (record s { in_flight_packets = remaining })
  advance_all dt_ms (flight ∷ flights) remaining s =
      let flight' = age dt_ms flight in
      let stays = advance_all dt_ms flights (remaining ++ flight' ∷ []) s in
      let ends = land flight' s >>= λ s'. advance_all dt_ms flights remaining s' in
      if fl.lt (num 0) flight'.remaining_time_ms then stays else ends

  unfoldable pub advance_in_flight_packets : F → Sim F R → Result (Sim F R)
  advance_in_flight_packets dt_ms s = advance_all dt_ms s.in_flight_packets [] s

  unfoldable pub update_packet_events : F → Sim F R → Sim F R
  update_packet_events dt_ms s = record s { packet_events = fade dt_ms s.packet_events }

  unfoldable pub finish_run : Sim F R → Sim F R
  finish_run s =
      if s.running
      then record s {
        running = false;
        completed = true;
        stats = mark_finished s.current_time_ms s.stats;
      }
      else s

  unfoldable pub network_idle : Sim F R → Bool
  network_idle s = not (any_busy s.routers) && is_empty s.in_flight_packets && is_empty s.events

  -- The last lines of `update`.
  unfoldable pub check_finished : Sim F R → Sim F R
  check_finished s =
      if elim s.mode [
        | udp ↦ s.udp_sent_all && network_idle s
        | tcp ↦ s.completed && network_idle s
      ]
      then finish_run s
      else (if fl.le s.max_runtime_ms s.current_time_ms then finish_run s else s)

  unfoldable pub run_frame : F → Sim F R → Result (Sim F R)
  run_frame dt_ms s = do
    s₁ ← run_due_events (record s { current_time_ms = fl.add s.current_time_ms dt_ms })
    s₂ ← dispatch_routers s₁
    s₃ ← advance_in_flight_packets dt_ms s₂
    ok (check_finished s₃)

  unfoldable pub update : F → Sim F R → Result (Sim F R)
  update dt_ms s =
      let s' = update_packet_events dt_ms s in if s'.running then run_frame dt_ms s' else ok s'
