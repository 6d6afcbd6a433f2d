-- ===== src/Engine/Landing.antt =====
-- Arrivals and launches in a sound state: they raise no exception and leave a sound state.
use cps344finalproject.Base.{
  ℕ, ◌≡◌, sym, ap, subst, true, some, none, List, ◌∷◌, Option, Result, ok, ◌>>=◌, ◌==◌, leb, member,
  opt_eq, All, All-concat, arith, inl, inr, is_ok, is_ok-eq-ok, if-both, Returns, returned,
  Returns-if, ◌+◌,
}
use cps344finalproject.Base.Float.{Float, Random}
use cps344finalproject.Packet.{
  Packet, InFlightPacket, Mode, udp, tcp, PacketType, data_packet, ack_packet,
}
use cps344finalproject.Router.{Router}
use cps344finalproject.Graph.Manager.{get_edge_delay}
use cps344finalproject.Engine.{Sim}
use cps344finalproject.Engine.Send.{schedule, send_ack}
use cps344finalproject.Engine.Link.{launch_link, fly, maybe_duplicate}
use cps344finalproject.Engine.Receive.{
  record_drop, record_delivery, note_sequence, on_data_received, accept_ack, on_ack_received,
  deliver, handle_arrival, arrived,
}
use cps344finalproject.Engine.Run.{
  Decision, decide_action, chosen_action, forward_packet, dispatch_packet, busy, land,
}
use cps344finalproject.Engine.Effects.Links.{Flown, fly-Flown, maybe_duplicate_cases}
use cps344finalproject.Engine.Effects.Calls.{taken}
use cps344finalproject.Engine.Sound.{
  IsHomeward, Forwards-same, IsServing, IsFlying, IsSound, insert-Sound, enqueue_at-Returns,
  send_ack-Returns,
}

module _ {F : Type 0} ⦃fl : Float F⦄ (K : ℕ → Type 0) where
  module _ {R : Type 0} where
    note_sequence-IsSound :
        (sequence : ℕ) (s : Sim F R) → IsSound K s → IsSound K (note_sequence sequence s)
    unfolding note_sequence
    note_sequence-IsSound sequence s i =
        if-both (IsSound K) (member sequence s.delivered_sequences) i i

    accept_ack-IsSound :
        (acked : Option ℕ) (s : Sim F R) → IsSound K s → IsSound K (accept_ack acked s)
    unfolding accept_ack schedule
    accept_ack-IsSound none s i = i
    accept_ack-IsSound (some acked) s i = if-both (IsSound K) (leb s.packet_goal (acked + 1)) i i

    on_ack_received-IsSound :
        (packet : Packet) (s : Sim F R) → IsSound K s → IsSound K (on_ack_received packet s)
    unfolding on_ack_received
    on_ack_received-IsSound packet s i =
        if-both (IsSound K) (opt_eq s.awaiting_ack packet.ack_for)
          (accept_ack-IsSound packet.ack_for (record s { awaiting_ack = none }) i) i

    deliver-Returns :
        (packet : Packet) (s : Sim F R) → IsSound K s → Returns (IsSound K) (deliver packet s)
    unfolding deliver on_data_received record_delivery
    deliver-Returns packet s i = go packet.packet_type
      where
        noted : IsSound K (note_sequence packet.sequence (record_delivery packet s))
        noted = note_sequence-IsSound packet.sequence (record_delivery packet s) i

        acked :
            (m : Mode)
            → Returns (IsSound K) (elim m [
              | udp ↦ ok (note_sequence packet.sequence (record_delivery packet s))
              | tcp ↦
                  send_ack packet.sequence
                    (note_sequence packet.sequence (record_delivery packet s))
            ])
        acked udp = returned noted
        acked tcp = send_ack-Returns K packet.sequence _ noted

        go :
            (k : PacketType)
            → Returns (IsSound K) (elim k [
              | data_packet ↦ on_data_received packet (record_delivery packet s)
              | ack_packet ↦ ok (on_ack_received packet (record_delivery packet s))
            ])
        go data_packet = acked s.mode
        go ack_packet = returned (on_ack_received-IsSound packet (record_delivery packet s) i)

    pub land-Returns :
        ⦃rand : Random F R⦄ (f : InFlightPacket F) (s : Sim F R)
        → IsFlying K f
        → IsSound K s
        → Returns (IsSound K) (land f s)
    unfolding land handle_arrival record_drop
    land-Returns f s (there, known) i =
        Returns-if f.dropped (λ _. returned i)
          (λ _.
            Returns-if (f.end_node == f.packet.destination) (λ _. deliver-Returns (arrived f) s i)
              (λ other.
                enqueue_at-Returns K f.end_node (arrived f) s there
                  (record { known = known; away = λ e. ground (arith, e, other) }) i))

  module _ {R : Type 0} ⦃rand : Random F R⦄ where
    Flown-IsSound :
        (packet : Packet) (a b : ℕ) (s t : Sim F R)
        → K b
        → K packet.destination
        → Flown packet a b s t
        → IsSound K s
        → IsSound K t
    Flown-IsSound packet a b s t there known flown i =
        subst (IsSound K) (sym flown.result) (record {
          from_known = i.from_known;
          to_known = i.to_known;
          apart = i.apart;
          found = i.found;
          serving = i.serving;
          flying = All-concat (IsFlying K) s.in_flight_packets flown.flight i.flying (
            subst K (sym flown.to_node) there,
            subst K (sym (ap (λ (p : Packet). p.destination) flown.carries)) known,
          );
        })

    launch_link-Returns :
        (packet : Packet) (a b : ℕ) (s : Sim F R)
        → K b
        → K packet.destination
        → is_ok (get_edge_delay a b s.graph_manager) ≡ true
        → IsSound K s
        → Returns (IsSound K) (launch_link packet a b s)
    unfolding launch_link
    launch_link-Returns packet a b s there known edge i =
        let (delay, e) = is_ok-eq-ok (get_edge_delay a b s.graph_manager) edge in
        let u = fly packet a b delay s in
        let flown = Flown-IsSound packet a b s u there known (fly-Flown packet a b delay s) i in
        let both : IsSound K (maybe_duplicate packet a b delay u) =
          elim (maybe_duplicate_cases packet a b delay u) [
            | inl (g, same) ↦ subst (IsSound K) (sym same) flown
            | inr (g, twice) ↦
                Flown-IsSound twice.copy a b _ _ there (subst K (sym twice.same_destination) known)
                  twice.flown flown
          ] in
        subst
          (λ m.
            Returns (IsSound K)
              (m >>= λ delay. ok (maybe_duplicate packet a b delay (fly packet a b delay s))))
          (sym e) (returned both)

    -- A router in a sound state takes a packet from its queue and drops it or passes it on.
    pub dispatch_packet-Returns :
        (id : ℕ) (router : Router F) (packet : Packet) (rest : List Packet) (s : Sim F R)
        → IsServing K s.graph_manager (id, router)
        → router.queue ≡ packet ∷ rest
        → IsSound K s
        → Returns (IsSound K) (dispatch_packet id router packet rest s)
    unfolding dispatch_packet forward_packet record_drop
    dispatch_packet-Returns id router packet rest s (there, forwards, waiting, own) queue i =
        let (home, others) = subst (All (IsHomeward K id)) queue waiting in
        let serves : IsServing K s.graph_manager (id, busy rest router s) = (
          there,
          Forwards-same K s.graph_manager id router rest (busy rest router s).next_available_time_ms
              forwards,
          others,
          own,
        ) in
        let after : IsSound K (taken id router rest s) =
          insert-Sound K id (busy rest router s) serves i in
        let decision = decide_action (chosen_action router packet) packet router in
        let next : Decision → Result (Sim F R) =
          λ d. forward_packet d packet router (taken id router rest s) in
        elim (forwards packet home) [
          | inl dropped ↦
              subst (λ m. Returns (IsSound K) (m >>= next)) (sym dropped) (returned after)
          | inr (hop, passed, known, edge) ↦
              subst (λ m. Returns (IsSound K) (m >>= next)) (sym passed)
                (launch_link-Returns packet router.router_id hop (taken id router rest s) known
                  home.known edge after)
        ]
