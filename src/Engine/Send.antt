-- ===== src/Engine/Send.antt =====
-- simulation.py: the event queue, and how packets are made and put into the network.
use cps344finalproject.Base.{
  ℕ, ◌+◌, Bool, false, Option, none, some, List, [], ◌∷◌, insert, lookup, Result, ok, or_raise,
  key_error, ◌>>=◌, if◌then◌else◌, ltb, leb,
}
use cps344finalproject.Base.Float.{Float}
use cps344finalproject.Packet.{udp, tcp, Packet, PacketType, data_packet, ack_packet, post_init}
use cps344finalproject.Router.{enqueue}
use cps344finalproject.Engine.{Sim, Event, Callback, call_timeout}

-- The arguments of `_make_packet`.
pub record PacketSpec : Type 0 where
  pub source : ℕ
  pub destination : ℕ
  pub packet_type : PacketType
  pub sequence : ℕ
  pub ack_for : Option ℕ
  pub retransmission : Bool
  pub duplicate : Bool
  pub duplicated_from : Option ℕ

-- `1 if b else 0`, for counters behind an `if`.
abbrev pub one_if : Bool → ℕ
one_if b = if b then 1 else 0

module _ {F : Type 0} ⦃fl : Float F⦄ where
  -- `<` on the tuples of the heap. The identifiers differ, so the callbacks are never compared.
  abbrev pub event_lt : Event F → Event F → Bool
  event_lt a b =
      if fl.eq a.due_time b.due_time then ltb a.event_id b.event_id else fl.lt a.due_time b.due_time

  -- `heapq.heappush`. The list holds the entries of the heap in the order in which `heappop` returns
  -- them, smallest first. The array of `heapq` has them in another order; of it the code reads only
  -- whether it is empty, its index 0, which is the smallest entry, and what `heappop` returns.
  unfoldable pub push_event : Event F → List (Event F) → List (Event F)
  push_event e [] = e ∷ []
  push_event e (x ∷ events) = if event_lt e x then e ∷ x ∷ events else x ∷ push_event e events

module _ {F R : Type 0} where
  unfoldable pub make_packet : PacketSpec → Sim F R → Packet × Sim F R
  make_packet spec s = (
    post_init (record {
      packet_id = s.next_packet_id;
      session_id = s.session_id;
      source = spec.source;
      destination = spec.destination;
      current_node = spec.source;
      protocol = s.mode;
      packet_type = spec.packet_type;
      sequence = spec.sequence;
      dst_port = s.traffic_port;
      ack_for = spec.ack_for;
      retransmission = spec.retransmission;
      duplicate = spec.duplicate;
      duplicated_from = spec.duplicated_from;
      route_history = [];
    }),
    record s { next_packet_id = s.next_packet_id + 1 },
  )

  -- `self.routers[node].enqueue(packet)`
  unfoldable pub enqueue_at : ℕ → Packet → Sim F R → Result (Sim F R)
  enqueue_at node packet s = do
    router ← or_raise (lookup node s.routers) key_error
    ok (record s { routers = insert node (enqueue packet router) s.routers })

  unfoldable pub inject_packet : Packet → Sim F R → Result (Sim F R)
  inject_packet packet s =
      let stats = s.stats in
      enqueue_at packet.source packet (record s {
        stats = record stats {
          packets_sent = stats.packets_sent + 1;
          retransmissions = stats.retransmissions + one_if packet.retransmission;
          duplicate_packets = stats.duplicate_packets + one_if packet.duplicate;
        };
      })

  unfoldable pub send_ack : ℕ → Sim F R → Result (Sim F R)
  send_ack sequence s =
      let (ack_packet', s') =
        make_packet
          (record {
            source = s.destination;
            destination = s.source;
            packet_type = ack_packet;
            sequence = sequence;
            ack_for = some sequence;
            retransmission = false;
            duplicate = false;
            duplicated_from = none;
          })
          s in
      inject_packet ack_packet' (record s' {
        stats = record (s'.stats) { acknowledgements = s'.stats.acknowledgements + 1 };
      })

module _ {F R : Type 0} ⦃fl : Float F⦄ where
  unfoldable pub schedule : F → Callback → Sim F R → Sim F R
  schedule delay_ms callback s = record s {
    events =
        push_event
          (record {
            due_time = fl.add s.current_time_ms delay_ms;
            event_id = s.next_event_id;
            callback = callback;
          })
          s.events;
    next_event_id = s.next_event_id + 1;
  }

  -- What `_send_data` does after the packet is in the network.
  unfoldable pub await_ack : ℕ → Sim F R → Sim F R
  await_ack sequence s = elim s.mode [
    | udp ↦ s
    | tcp ↦
        schedule s.retransmission_timeout_ms (call_timeout sequence (s.timeout_token + 1))
          (record s { awaiting_ack = some sequence; timeout_token = s.timeout_token + 1 })
  ]

  unfoldable pub send_data : ℕ → Bool → Sim F R → Result (Sim F R)
  send_data sequence retransmission s =
      if leb s.packet_goal sequence
      then ok s
      else let (packet, s') =
          make_packet
            (record {
              source = s.source;
              destination = s.destination;
              packet_type = data_packet;
              sequence = sequence;
              ack_for = none;
              retransmission = retransmission;
              duplicate = false;
              duplicated_from = none;
            })
            s in
        inject_packet packet s' >>= λ t. ok (await_ack sequence t)
