-- ===== src/Engine/Effects/Calls.antt =====
-- Which branch a call has taken that raised no exception.
use cps344finalproject.Base.{
  ℕ, ◌+◌, ◌≡◌, ◌≢◌, refl, ap, Bool, true, false, not, ◌||◌, none, some, List, lookup, insert, ok,
  >>=-eq-ok, if-cases, arith, inl, inr, ◌⊎◌, leb, ◌==◌, opt_eq,
}
use cps344finalproject.Base.Float.{Float, Random}
use cps344finalproject.Packet.{
  Packet, InFlightPacket, Mode, udp, tcp, PacketType, data_packet, ack_packet, sdn_drop, link_loss,
}
use cps344finalproject.Router.{Router}
use cps344finalproject.Engine.{Sim, Callback, call_send, call_timeout}
use cps344finalproject.Engine.Send.{
  PacketSpec, make_packet, inject_packet, send_ack, send_data, await_ack, enqueue_at, one_if,
  schedule,
}
use cps344finalproject.Engine.Link.{launch_link}
use cps344finalproject.Engine.Receive.{
  record_delivery, record_drop, note_sequence, on_data_received, on_ack_received, on_timeout,
  deliver, arrived, handle_arrival,
}
use cps344finalproject.Engine.Effects.{queue_at, enqueue_at-eq-ok}
use cps344finalproject.Engine.Run.{
  run_callback, land, Decision, discard, pass, chosen_action, decide_action, forward_packet, busy,
  dispatch_packet,
}

module _ {F R : Type 0} where
  -- The state with the packet counted.
  abbrev pub count_sent : Packet → Sim F R → Sim F R
  count_sent packet s = record s {
    stats = record (s.stats) {
      packets_sent = s.stats.packets_sent + 1;
      retransmissions = s.stats.retransmissions + one_if packet.retransmission;
      duplicate_packets = s.stats.duplicate_packets + one_if packet.duplicate;
    };
  }

module _ {F R : Type 0} ⦃fl : Float F⦄ where
  pub await_ack-tcp :
      (sequence : ℕ) (s : Sim F R)
      → s.mode ≡ tcp
      → await_ack sequence s
        ≡ schedule s.retransmission_timeout_ms
            (call_timeout sequence (s.timeout_token + 1))
            (record s { awaiting_ack = some sequence; timeout_token = s.timeout_token + 1 })
  unfolding await_ack
  await_ack-tcp sequence s e = simp (e, await_ack)

  pub await_ack-udp : (sequence : ℕ) (s : Sim F R) → s.mode ≡ udp → await_ack sequence s ≡ s
  unfolding await_ack
  await_ack-udp sequence s e = simp (e, await_ack)

  -- What `_send_data` puts into `_make_packet`.
  abbrev pub data_spec : ℕ → Bool → Sim F R → PacketSpec
  data_spec sequence again s = record {
    source = s.source;
    destination = s.destination;
    packet_type = data_packet;
    sequence = sequence;
    ack_for = none;
    retransmission = again;
    duplicate = false;
    duplicated_from = none;
  }

  pub send_data_cases :
      (sequence : ℕ) (again : Bool) (s t : Sim F R)
      → send_data sequence again s ≡ ok t
      → ((leb s.packet_goal sequence ≡ true) × (t ≡ s))
        ⊎ ((u : Sim F R) × (leb s.packet_goal sequence ≡ false)
            × (inject_packet
                  (make_packet (data_spec sequence again s) s).0
                  (record s { next_packet_id = s.next_packet_id + 1 })
                ≡ ok u)
            × (t ≡ await_ack sequence u))
  unfolding send_data make_packet
  send_data_cases sequence again s t h = elim (if-cases (leb s.packet_goal sequence) h) [
    | inl (past, same) ↦ inl (past, cc)
    | inr (within, sent) ↦
        let (u, injected, e) = >>=-eq-ok _ (λ u. ok (await_ack sequence u)) sent in
        inr (u, within, injected, cc)
  ]

  pub inject_packet-eq-ok :
      (packet : Packet) (s t : Sim F R)
      → inject_packet packet s ≡ ok t
      → (router : Router F) × (lookup packet.source s.routers ≡ some router)
        × (t ≡ queue_at packet.source packet router (count_sent packet s))
  unfolding inject_packet
  inject_packet-eq-ok packet s t h = enqueue_at-eq-ok packet.source packet (count_sent packet s) t h

  send_data-flights :
      (sequence : ℕ) (again : Bool) (s t : Sim F R)
      → send_data sequence again s ≡ ok t
      → t.in_flight_packets ≡ s.in_flight_packets
  unfolding await_ack schedule
  send_data-flights sequence again s t h = elim (send_data_cases sequence again s t h) [
    | inl (_, same) ↦ ap (λ (u : Sim F R). u.in_flight_packets) same
    | inr (u, _, injected, e) ↦
        let (router, _, e') = inject_packet-eq-ok _ _ u injected in
        let same : u.in_flight_packets ≡ s.in_flight_packets =
          ap (λ (v : Sim F R). v.in_flight_packets) e' in
        ground (arith, ap (λ (v : Sim F R). v.in_flight_packets) e)
  ]

  pub on_timeout_cases :
      (sequence token : ℕ) (s t : Sim F R)
      → on_timeout sequence token s ≡ ok t
      → (t ≡ s)
        ⊎ ((s.completed ≡ false)
            × (s.awaiting_ack ≡ some sequence)
            × (token ≡ s.timeout_token)
            × (send_data sequence true s ≡ ok t))
  unfolding on_timeout
  on_timeout_cases sequence token s t h = elim (if-cases (not s.running || s.completed) h) [
    | inl (_, same) ↦ inl (cc)
    | inr (live, h') ↦
        elim (if-cases
          (not (opt_eq s.awaiting_ack (some sequence)) || not (token == s.timeout_token)) h') [
            | inl (_, same) ↦ inl (cc)
            | inr (fits, sent) ↦ inr (ground arith, ground arith, ground arith, sent)
          ]
  ]

  pub on_data_received_cases :
      (packet : Packet) (s t : Sim F R)
      → on_data_received packet s ≡ ok t
      → ((s.mode ≡ udp) × (t ≡ note_sequence packet.sequence s))
        ⊎ ((s.mode ≡ tcp) × (send_ack packet.sequence (note_sequence packet.sequence s) ≡ ok t))
  unfolding on_data_received
  on_data_received_cases packet s t h = go s.mode refl h
    where
      go :
          (m : Mode)
          → s.mode ≡ m
          → elim m [
            | udp ↦ ok (note_sequence packet.sequence s)
            | tcp ↦ send_ack packet.sequence (note_sequence packet.sequence s)
          ]
            ≡ ok t
          → ((s.mode ≡ udp) × (t ≡ note_sequence packet.sequence s))
            ⊎ ((s.mode ≡ tcp) × (send_ack packet.sequence (note_sequence packet.sequence s) ≡ ok t))
      go udp e h = inl (e, cc)
      go tcp e h = inr (e, h)

  pub deliver_cases :
      (packet : Packet) (s t : Sim F R)
      → deliver packet s ≡ ok t
      → ((packet.packet_type ≡ data_packet)
          × (on_data_received packet (record_delivery packet s) ≡ ok t))
        ⊎ ((packet.packet_type ≡ ack_packet)
            × (t ≡ on_ack_received packet (record_delivery packet s)))
  unfolding deliver
  deliver_cases packet s t h = go packet.packet_type refl h
    where
      go :
          (k : PacketType)
          → packet.packet_type ≡ k
          → elim k [
            | data_packet ↦ on_data_received packet (record_delivery packet s)
            | ack_packet ↦ ok (on_ack_received packet (record_delivery packet s))
          ]
            ≡ ok t
          → ((packet.packet_type ≡ data_packet)
              × (on_data_received packet (record_delivery packet s) ≡ ok t))
            ⊎ ((packet.packet_type ≡ ack_packet)
                × (t ≡ on_ack_received packet (record_delivery packet s)))
      go data_packet e h = inl (e, h)
      go ack_packet e h = inr (e, cc)

module _ {F R : Type 0} ⦃fl : Float F⦄ ⦃rand : Random F R⦄ where
  pub land_cases :
      (f : InFlightPacket F) (s t : Sim F R)
      → land f s ≡ ok t
      → ((t ≡ record_drop (some f.start_node) (some f.end_node) link_loss s)
          ⊎ ((f.packet.destination ≡ f.end_node) × (deliver (arrived f) s ≡ ok t)))
        ⊎ ((f.packet.destination ≢ f.end_node) × (enqueue_at f.end_node (arrived f) s ≡ ok t))
  unfolding land handle_arrival
  land_cases f s t h = elim (if-cases f.dropped h) [
    | inl (_, lost) ↦ inl (inl (cc))
    | inr (_, came) ↦ elim (if-cases (f.end_node == f.packet.destination) came) [
      | inl (there, done) ↦ inl (inr (ground arith, done))
      | inr (away, onward) ↦ inr (ground arith, onward)
    ]
  ]

  -- The state in which a router has taken the packet from its queue.
  abbrev pub taken : ℕ → Router F → List Packet → Sim F R → Sim F R
  taken id router rest s = record s { routers = insert id (busy rest router s) s.routers }

  pub dispatch_packet_cases :
      (id : ℕ) (router : Router F) (packet : Packet) (rest : List Packet) (s t : Sim F R)
      → dispatch_packet id router packet rest s ≡ ok t
      → ((decide_action (chosen_action router packet) packet router ≡ ok discard)
          × (t ≡ record_drop (some router.router_id) none sdn_drop (taken id router rest s)))
        ⊎ ((hop : ℕ) × (decide_action (chosen_action router packet) packet router ≡ ok (pass hop))
            × (launch_link packet router.router_id hop (taken id router rest s) ≡ ok t))
  unfolding dispatch_packet forward_packet
  dispatch_packet_cases id router packet rest s t h =
      let (d, decided, e) =
        >>=-eq-ok (decide_action (chosen_action router packet) packet router) _ h in
      go d decided e
    where
      go :
          (d : Decision)
          → decide_action (chosen_action router packet) packet router ≡ ok d
          → forward_packet d packet router (taken id router rest s) ≡ ok t
          → ((decide_action (chosen_action router packet) packet router ≡ ok discard)
              × (t ≡ record_drop (some router.router_id) none sdn_drop (taken id router rest s)))
            ⊎ ((hop : ℕ) × (decide_action (chosen_action router packet) packet router
                  ≡ ok (pass hop))
                × (launch_link packet router.router_id hop (taken id router rest s) ≡ ok t))
      go discard decided e = inl (decided, cc)
      go (pass hop) decided e = inr (hop, decided, e)

  -- A callback leaves the links alone.
  pub run_callback-flights :
      (c : Callback) (s t : Sim F R)
      → run_callback c s ≡ ok t
      → t.in_flight_packets ≡ s.in_flight_packets
  unfolding run_callback
  run_callback-flights (call_send sequence) s t h = send_data-flights sequence false s t h
  run_callback-flights (call_timeout sequence token) s t h =
      elim (on_timeout_cases sequence token s t h) [
        | inl same ↦ ap (λ (u : Sim F R). u.in_flight_packets) same
        | inr (_, _, _, sent) ↦ send_data-flights sequence true s t sent
      ]
