-- ===== src/Engine/Receive.antt =====
-- simulation.py: what happens when a packet leaves its link, arrives, or is lost, and the timeouts.
use cps344finalproject.Base.{
  ℕ, ◌+◌, true, ◌||◌, not, Option, none, some, [], ◌∷◌, ◌++◌, Result, ok, if◌then◌else◌, leb, ◌==◌,
  member, opt_eq,
}
use cps344finalproject.Base.Float.{Float, num}
use cps344finalproject.Packet.{
  Packet, data_packet, ack_packet, InFlightPacket, Label, drop_event, delivered_event, ack_label,
  seq_label, udp, tcp,
}
use cps344finalproject.Engine.{Sim, call_send}
use cps344finalproject.Engine.Send.{send_ack, send_data, schedule, enqueue_at}

-- The packet that arrives at the end of its link.
abbrev pub arrived : {F : Type 0} → InFlightPacket F → Packet
arrived flight =
    let packet = flight.packet in
    record packet {
      current_node = flight.end_node;
      route_history = packet.route_history ++ flight.end_node ∷ [];
    }

module _ {F R : Type 0} ⦃fl : Float F⦄ where
  unfoldable pub record_drop : Option ℕ → Option ℕ → Label → Sim F R → Sim F R
  record_drop start_node end_node reason s = record s {
    stats = record (s.stats) { packets_dropped = s.stats.packets_dropped + 1 };
    packet_events =
        s.packet_events
        ++ record {
          kind = drop_event;
          node = none;
          start_node = start_node;
          end_node = end_node;
          label = reason;
          ttl_ms = num 900;
        }
          ∷ [];
  }

  unfoldable pub record_delivery : Packet → Sim F R → Sim F R
  record_delivery packet s = record s {
    packet_events =
        s.packet_events
        ++ record {
          kind = delivered_event;
          node = some packet.current_node;
          start_node = none;
          end_node = none;
          label = elim packet.packet_type [
            | ack_packet ↦ ack_label
            | data_packet ↦ seq_label packet.sequence
          ];
          ttl_ms = num 900;
        }
          ∷ [];
  }

  -- A sequence number that arrives for the first time is noted.
  unfoldable pub note_sequence : ℕ → Sim F R → Sim F R
  note_sequence sequence s =
      if member sequence s.delivered_sequences
      then s
      else (let stats = s.stats in
          record s {
            delivered_sequences = s.delivered_sequences ++ sequence ∷ [];
            stats = record stats {
              completed_sequences =
                  if member sequence stats.completed_sequences
                  then stats.completed_sequences
                  else stats.completed_sequences ++ sequence ∷ [];
              packets_delivered = stats.packets_delivered + 1;
            };
          })

  unfoldable pub on_data_received : Packet → Sim F R → Result (Sim F R)
  on_data_received packet s =
      let s' = note_sequence packet.sequence s in
      elim s.mode [ udp ↦ ok s' | tcp ↦ send_ack packet.sequence s' ]

  -- `_on_ack_received` once the awaited acknowledgement is there: `acked` is `packet.ack_for`.
  unfoldable pub accept_ack : Option ℕ → Sim F R → Sim F R
  accept_ack none s = s
  accept_ack (some acked) s =
      let next_sequence = acked + 1 in
      if leb s.packet_goal next_sequence
      then record s { completed = true }
      else schedule (num 150) (call_send next_sequence)
          (record s { next_sequence_to_send = next_sequence })

  unfoldable pub on_ack_received : Packet → Sim F R → Sim F R
  on_ack_received packet s =
      if opt_eq s.awaiting_ack packet.ack_for
      then accept_ack packet.ack_for (record s { awaiting_ack = none })
      else s

  unfoldable pub on_timeout : ℕ → ℕ → Sim F R → Result (Sim F R)
  on_timeout sequence token s =
      if not s.running || s.completed
      then ok s
      else (if not (opt_eq s.awaiting_ack (some sequence)) || not (token == s.timeout_token)
          then ok s
          else send_data sequence true s)

  -- `_handle_arrival` at the destination.
  unfoldable pub deliver : Packet → Sim F R → Result (Sim F R)
  deliver packet s =
      let s' = record_delivery packet s in
      elim packet.packet_type [
        | data_packet ↦ on_data_received packet s'
        | ack_packet ↦ ok (on_ack_received packet s')
      ]

  unfoldable pub handle_arrival : InFlightPacket F → Sim F R → Result (Sim F R)
  handle_arrival flight s =
      let packet = arrived flight in
      if packet.current_node == packet.destination
      then deliver packet s
      else enqueue_at packet.current_node packet s
