-- ===== src/Engine/Datagram.antt =====
-- The UDP-like mode: the invariant of its runs. Every sequence number is sent once, and nothing is
-- acknowledged or sent again.
pub mod Frame
pub mod Distinct
pub mod Sends
pub mod Log
use cps344finalproject.Base.{
  ℕ, suc, ◌+◌, ◌≤◌, ◌<◌, ◌≡◌, refl, sym, ap, ◌∙◌, subst, Bool, true, false, Option, none, some,
  List, [], ◌∷◌, ◌++◌, Dict, lookup, insert, ok, if◌then◌else◌, arith, length, length-append, All,
  All-concat, All-lookup, All-insert, if-true, if-false, Bool-cases, inl, inr, leb, ◌==◌, member,
  ◌>>=◌,
}
use cps344finalproject.Base.Float.{Float, num}
use cps344finalproject.Packet.{
  Packet, InFlightPacket, Mode, udp, tcp, Label, PacketType, data_packet, ack_packet,
}
use cps344finalproject.Router.{Router, enqueue}
use cps344finalproject.Engine.{Sim, Event, Callback, call_send, call_timeout}
use cps344finalproject.Engine.Send.{make_packet, inject_packet, send_data, enqueue_at}
use cps344finalproject.Engine.Receive.{
  note_sequence, on_data_received, on_ack_received, on_timeout, deliver, record_delivery,
  record_drop,
}
use cps344finalproject.Engine.Effects.{enqueue_at-eq-ok}
use cps344finalproject.Engine.Effects.Calls.{
  data_spec, send_data_cases, on_data_received_cases, deliver_cases, count_sent,
  inject_packet-eq-ok, await_ack-udp,
}
use cps344finalproject.Engine.Datagram.Distinct.{IsDistinct, IsDistinct-concat}

-- A packet of the UDP-like mode: the first transmission of a sequence, or a link's copy of it.
pub record IsDatagram (goal : ℕ) (p : Packet) : Type 0 where
  pub is_data : p.packet_type ≡ data_packet
  pub in_goal : p.sequence < goal
  pub first : p.retransmission ≡ false

abbrev pub Planned : ℕ → Callback → Type 0
Planned goal (call_send sequence) = sequence < goal
Planned goal (call_timeout _ _) = ⊥

abbrev pub Queues : {F : Type 0} → (Packet → Type 0) → Dict (Router F) → Type 0
Queues P = All (λ e. All P e.1.queue)

pub record IsUdp {F R : Type 0} (flights : List (InFlightPacket F)) (s : Sim F R) : Type 0 where
  pub in_udp : s.mode ≡ udp
  pub once :
      s.udp_sent_all ≡ true
      → s.stats.packets_sent + length s.events ≡ s.packet_goal + s.stats.duplicate_packets
  pub planned : All (λ e. Planned s.packet_goal e.callback) s.events
  pub never_again : s.stats.retransmissions ≡ 0
  pub no_acks : s.stats.acknowledgements ≡ 0
  pub delivered : s.stats.packets_delivered ≡ length s.delivered_sequences
  pub in_goal : All (λ q. q < s.packet_goal) s.delivered_sequences
  pub distinct : IsDistinct s.delivered_sequences
  pub queues : Queues (IsDatagram s.packet_goal) s.routers
  pub links : All (λ f. IsDatagram s.packet_goal f.packet) flights

module _ {F R : Type 0} (flights : List (InFlightPacket F)) where
  pub IsUdp-routers :
      (s : Sim F R) (routers : Dict (Router F))
      → Queues (IsDatagram s.packet_goal) routers
      → IsUdp flights s
      → IsUdp flights (record s { routers = routers })
  IsUdp-routers s routers q h = record {
    in_udp = h.in_udp;
    once = h.once;
    planned = h.planned;
    never_again = h.never_again;
    no_acks = h.no_acks;
    delivered = h.delivered;
    in_goal = h.in_goal;
    distinct = h.distinct;
    queues = q;
    links = h.links;
  }

  pub enqueue_at-IsUdp :
      (node : ℕ) (packet : Packet) (s t : Sim F R)
      → enqueue_at node packet s ≡ ok t
      → IsDatagram s.packet_goal packet
      → IsUdp flights s
      → IsUdp flights t
  enqueue_at-IsUdp node packet s t h fits i =
      let (router, found, e) = enqueue_at-eq-ok node packet s t h in
      let P = IsDatagram s.packet_goal in
      let Q = λ (e : ℕ × Router F). All P e.1.queue in
      let old = All-lookup Q node s.routers i.queues found in
      subst (IsUdp flights) (sym e) (
        IsUdp-routers s _
          (All-insert Q node (enqueue packet router) s.routers i.queues
            (All-concat P router.queue packet old fits))
          i)

module _ {F R : Type 0} ⦃fl : Float F⦄ (flights : List (InFlightPacket F)) where
  -- A scheduled send: its event is gone, its packet is counted.
  pub send_data-IsUdp :
      (sequence : ℕ) (s t : Sim F R) (e : Event F) (es : List (Event F))
      → s.events ≡ e ∷ es
      → sequence < s.packet_goal
      → send_data sequence false (record s { events = es }) ≡ ok t
      → IsUdp flights s
      → IsUdp flights t
  unfolding make_packet inject_packet
  send_data-IsUdp sequence s t e es head lt h i =
      let gone : length s.events ≡ suc (length es) = ap length head in
      let planned =
        subst (All (λ (e : Event F). Planned s.packet_goal e.callback)) head i.planned in
      elim (send_data_cases sequence false _ t h) [
        | inl (past, same) ↦ absurd (ground arith)
        | inr (u, within, injected, e) ↦
            let j = enqueue_at-IsUdp flights _ _ _ u injected (ground arith) (ground arith) in
            subst (IsUdp flights) (sym (e ∙ await_ack-udp sequence u j.in_udp)) j
      ]

  pub record_drop-IsUdp :
      (a b : Option ℕ) (why : Label) (s : Sim F R)
      → IsUdp flights s
      → IsUdp flights (record_drop a b why s)
  unfolding record_drop
  record_drop-IsUdp a b why s i = ground arith

  note_sequence-IsUdp :
      (sequence : ℕ) (s : Sim F R)
      → sequence < s.packet_goal
      → IsUdp flights s
      → IsUdp flights (note_sequence sequence s)
  unfolding note_sequence
  note_sequence-IsUdp sequence s lt i = elim (Bool-cases (member sequence s.delivered_sequences)) [
    | inl old ↦ subst (IsUdp flights) (sym (if-true _ _ _ old)) i
    | inr new ↦
        let P = λ (q : ℕ). q < s.packet_goal in
        let in_goal = All-concat P s.delivered_sequences sequence i.in_goal lt in
        let distinct = IsDistinct-concat s.delivered_sequences sequence i.distinct new in
        subst (IsUdp flights) (sym (if-false _ _ _ new))
          (ground (arith, length-append s.delivered_sequences (sequence ∷ [])))
  ]

  pub deliver-IsUdp :
      (packet : Packet) (s t : Sim F R)
      → deliver packet s ≡ ok t
      → IsDatagram s.packet_goal packet
      → IsUdp flights s
      → IsUdp flights t
  unfolding record_delivery
  deliver-IsUdp packet s t h fits i =
      let s' = record_delivery packet s in
      let j : IsUdp flights s' = ground arith in
      elim (deliver_cases packet s t h) [
        | inr (kind, e) ↦ absurd (let f = fits.is_data in ground arith)
        | inl (kind, received) ↦ elim (on_data_received_cases packet s' t received) [
          | inr (in_tcp, _) ↦ absurd (let e = i.in_udp in ground arith)
          | inl (_, e) ↦
              subst (IsUdp flights) (sym e) (note_sequence-IsUdp packet.sequence s' fits.in_goal j)
        ]
      ]
