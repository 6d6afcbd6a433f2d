-- ===== src/Engine/Effects/Kept.antt =====
-- What no call of a frame changes: the clock, that the run is on, its limits and its parameters.
use cps344finalproject.Base.{
  ℕ, ◌+◌, ◌≡◌, refl, ap, ◌∙◌, Bool, true, false, some, none, List, ok, inl, inr, Bool-cases,
  if-true, if-false, member, leb, opt_eq, Option,
}
use cps344finalproject.Base.Float.{Float, Random}
use cps344finalproject.Packet.{Packet, InFlightPacket, Mode, Mode-cases}
use cps344finalproject.Router.{Router}
use cps344finalproject.Graph.Manager.{GraphManager}
use cps344finalproject.Engine.{Sim, NetworkConditions, Callback, call_send, call_timeout}
use cps344finalproject.Engine.Send.{send_ack, send_data, await_ack, schedule, make_packet}
use cps344finalproject.Engine.Link.{launch_link}
use cps344finalproject.Engine.Receive.{
  record_drop, record_delivery, note_sequence, on_ack_received, accept_ack, deliver,
}
use cps344finalproject.Engine.Run.{run_callback, dispatch_packet, land}
use cps344finalproject.Engine.Effects.{enqueue_at-eq-ok}
use cps344finalproject.Engine.Effects.Links.{launch_link_cases}
use cps344finalproject.Engine.Effects.Calls.{
  inject_packet-eq-ok, send_data_cases, on_timeout_cases, on_data_received_cases, deliver_cases,
  land_cases, dispatch_packet_cases, await_ack-tcp, await_ack-udp,
}

-- What the user has set, and the limits of a run.
pub record Parameters (F : Type 0) : Type 0 where
  pub max_runtime_ms : F
  pub retransmission_timeout_ms : F
  pub mode : Mode
  pub packet_goal : ℕ
  pub source : ℕ
  pub destination : ℕ
  pub traffic_port : ℕ
  pub use_sdn : Bool
  pub conditions : NetworkConditions F
  pub graph_manager : GraphManager F

module _ {F R : Type 0} where
  abbrev pub parameters : Sim F R → Parameters F
  parameters s = record {
    max_runtime_ms = s.max_runtime_ms;
    retransmission_timeout_ms = s.retransmission_timeout_ms;
    mode = s.mode;
    packet_goal = s.packet_goal;
    source = s.source;
    destination = s.destination;
    traffic_port = s.traffic_port;
    use_sdn = s.use_sdn;
    conditions = s.conditions;
    graph_manager = s.graph_manager;
  }

  abbrev pub kept : Sim F R → F × Bool × Parameters F
  kept s = (s.current_time_ms, s.running, parameters s)

module _ {F R : Type 0} ⦃fl : Float F⦄ where
  await_ack-kept : (sequence : ℕ) (s : Sim F R) → kept (await_ack sequence s) ≡ kept s
  unfolding schedule
  await_ack-kept sequence s = elim (Mode-cases s.mode) [
    | inl e ↦ ap kept (await_ack-udp sequence s e)
    | inr e ↦ ap kept (await_ack-tcp sequence s e)
  ]

  send_data-kept :
      (sequence : ℕ) (again : Bool) (s t : Sim F R)
      → send_data sequence again s ≡ ok t
      → kept t ≡ kept s
  send_data-kept sequence again s t h = elim (send_data_cases sequence again s t h) [
    | inl (_, same) ↦ ap kept same
    | inr (u, _, injected, e) ↦
        let (router, _, e') = inject_packet-eq-ok _ _ u injected in
        ap kept e ∙ await_ack-kept sequence u ∙ ap kept e'
  ]

  send_ack-kept : (sequence : ℕ) (s t : Sim F R) → send_ack sequence s ≡ ok t → kept t ≡ kept s
  unfolding send_ack make_packet
  send_ack-kept sequence s t h = let (router, _, e) = inject_packet-eq-ok _ _ t h in ap kept e

  note_sequence-kept : (sequence : ℕ) (s : Sim F R) → kept (note_sequence sequence s) ≡ kept s
  unfolding note_sequence
  note_sequence-kept sequence s = elim (Bool-cases (member sequence s.delivered_sequences)) [
    | inl old ↦ ap kept (if-true _ _ _ old)
    | inr new ↦ ap kept (if-false _ _ _ new)
  ]

  accept_ack-kept : (acked : Option ℕ) (s : Sim F R) → kept (accept_ack acked s) ≡ kept s
  unfolding accept_ack schedule
  accept_ack-kept none s = refl
  accept_ack-kept (some acked) s = elim (Bool-cases (leb s.packet_goal (acked + 1))) [
    | inl last ↦ ap kept (if-true _ _ _ last)
    | inr more ↦ ap kept (if-false _ _ _ more)
  ]

  on_ack_received-kept : (packet : Packet) (s : Sim F R) → kept (on_ack_received packet s) ≡ kept s
  unfolding on_ack_received
  on_ack_received-kept packet s = elim (Bool-cases (opt_eq s.awaiting_ack packet.ack_for)) [
    | inl this ↦ ap kept (if-true _ _ _ this) ∙ accept_ack-kept packet.ack_for _
    | inr late ↦ ap kept (if-false _ _ _ late)
  ]

  deliver-kept : (packet : Packet) (s t : Sim F R) → deliver packet s ≡ ok t → kept t ≡ kept s
  unfolding record_delivery
  deliver-kept packet s t h = elim (deliver_cases packet s t h) [
    | inr (_, e) ↦ ap kept e ∙ on_ack_received-kept packet _
    | inl (_, received) ↦ elim (on_data_received_cases packet _ t received) [
      | inl (_, e) ↦ ap kept e ∙ note_sequence-kept packet.sequence _
      | inr (_, acked) ↦
          send_ack-kept packet.sequence _ t acked ∙ note_sequence-kept packet.sequence _
    ]
  ]

module _ {F R : Type 0} ⦃fl : Float F⦄ ⦃rand : Random F R⦄ where
  pub run_callback-kept : (c : Callback) (s t : Sim F R) → run_callback c s ≡ ok t → kept t ≡ kept s
  unfolding run_callback
  run_callback-kept (call_send sequence) s t h = send_data-kept sequence false s t h
  run_callback-kept (call_timeout sequence token) s t h =
      elim (on_timeout_cases sequence token s t h) [
        | inl same ↦ ap kept same
        | inr (_, _, _, sent) ↦ send_data-kept sequence true s t sent
      ]

  launch_link-kept :
      (packet : Packet) (a b : ℕ) (s t : Sim F R)
      → launch_link packet a b s ≡ ok t
      → kept t ≡ kept s
  launch_link-kept packet a b s t h =
      let (u, flown, copied) = launch_link_cases packet a b s t h in
      elim copied [
        | inl (g, same) ↦ ap kept same ∙ ap kept flown.result
        | inr (g, twice) ↦ ap kept twice.flown.result ∙ ap kept flown.result
      ]

  pub dispatch_packet-kept :
      (id : ℕ) (router : Router F) (packet : Packet) (rest : List Packet) (s t : Sim F R)
      → dispatch_packet id router packet rest s ≡ ok t
      → kept t ≡ kept s
  unfolding record_drop
  dispatch_packet-kept id router packet rest s t h =
      elim (dispatch_packet_cases id router packet rest s t h) [
        | inl (_, dropped) ↦ ap kept dropped
        | inr (hop, _, launched) ↦ launch_link-kept packet router.router_id hop _ t launched
      ]

  pub land-kept : (f : InFlightPacket F) (s t : Sim F R) → land f s ≡ ok t → kept t ≡ kept s
  unfolding record_drop
  land-kept f s t h = elim (land_cases f s t h) [
    | inl (inl lost) ↦ ap kept lost
    | inl (inr (_, delivered)) ↦ deliver-kept _ s t delivered
    | inr (_, onward) ↦ let (router, _, e) = enqueue_at-eq-ok _ _ s t onward in ap kept e
  ]
