-- ===== src/Engine/Datagram/Frame.antt =====
-- A frame keeps the invariant of the UDP-like mode.
use cps344finalproject.Base.{
  ℕ, ◌≡◌, refl, sym, subst, some, List, ◌∷◌, lookup, ok, arith, All, All-concat, All-lookup,
  All-insert, inl, inr,
}
use cps344finalproject.Base.Float.{Float, Random}
use cps344finalproject.Packet.{Packet, InFlightPacket}
use cps344finalproject.Router.{Router}
use cps344finalproject.Engine.{Sim, Event, Callback, call_send, call_timeout}
use cps344finalproject.Engine.Link.{launch_link}
use cps344finalproject.Engine.Receive.{arrived, record_drop}
use cps344finalproject.Engine.Run.{run_callback, land, dispatch_packet, busy, age, update}
use cps344finalproject.Engine.Effects.Calls.{
  land_cases, dispatch_packet_cases, taken, run_callback-flights,
}
use cps344finalproject.Engine.Effects.Links.{Flown, Doubled, redrawn, launch_link_cases}
use cps344finalproject.Engine.Rule.{Keeps, update-keeps}
use cps344finalproject.Engine.Datagram.{
  IsDatagram, Planned, IsUdp, IsUdp-routers, enqueue_at-IsUdp, send_data-IsUdp, deliver-IsUdp,
  record_drop-IsUdp,
}

-- The invariant of a state with its own flights.
abbrev pub UdpInv : {F R : Type 0} → Sim F R → Type 0
UdpInv s = IsUdp s.in_flight_packets s

module _ {F R : Type 0} ⦃fl : Float F⦄ ⦃rand : Random F R⦄ where
  run_callback-IsUdp :
      (flights : List (InFlightPacket F)) (s t : Sim F R) (e : Event F) (es : List (Event F))
      → s.events ≡ e ∷ es
      → run_callback e.callback (record s { events = es }) ≡ ok t
      → IsUdp flights s
      → IsUdp flights t
  unfolding run_callback
  run_callback-IsUdp flights s t e es head h i = go e.callback refl h
    where
      due : Planned s.packet_goal e.callback
      due = (subst (All (λ (e : Event F). Planned s.packet_goal e.callback)) head i.planned).0

      go :
          (c : Callback)
          → e.callback ≡ c
          → run_callback c (record s { events = es }) ≡ ok t
          → IsUdp flights t
      go (call_send sequence) same h =
          send_data-IsUdp flights sequence s t e es head (subst (Planned s.packet_goal) same due) h
            i
      go (call_timeout sequence token) same h = absurd (subst (Planned s.packet_goal) same due)

  land-IsUdp :
      (flights : List (InFlightPacket F)) (f : InFlightPacket F) (s t : Sim F R)
      → land f s ≡ ok t
      → IsDatagram s.packet_goal f.packet
      → IsUdp flights s
      → IsUdp flights t
  land-IsUdp flights f s t h fits i =
      let fits' : IsDatagram s.packet_goal (arrived f) = ground arith in
      elim (land_cases f s t h) [
        | inl (inl lost) ↦ subst (IsUdp flights) (sym lost) (record_drop-IsUdp flights _ _ _ s i)
        | inl (inr (_, there)) ↦ deliver-IsUdp flights (arrived f) s t there fits' i
        | inr (_, onward) ↦ enqueue_at-IsUdp flights f.end_node (arrived f) s t onward fits' i
      ]

  Flown-UdpInv :
      (packet : Packet) (a b : ℕ) (s t : Sim F R)
      → Flown packet a b s t
      → IsDatagram s.packet_goal packet
      → UdpInv s
      → UdpInv t
  Flown-UdpInv packet a b s t f fits i =
      let P = λ (f : InFlightPacket F). IsDatagram s.packet_goal f.packet in
      let links =
        All-concat P s.in_flight_packets f.flight i.links
          (subst (IsDatagram s.packet_goal) (sym f.carries) fits) in
      subst UdpInv (sym f.result) (ground arith)

  launch-UdpInv :
      (packet : Packet) (a b : ℕ) (s t : Sim F R)
      → launch_link packet a b s ≡ ok t
      → IsDatagram s.packet_goal packet
      → UdpInv s
      → UdpInv t
  launch-UdpInv packet a b s t h fits i =
      let (u, flown, rest) = launch_link_cases packet a b s t h in
      let j = Flown-UdpInv packet a b s u flown fits i in
      let fits' : IsDatagram u.packet_goal packet =
        subst (λ (u : Sim F R). IsDatagram u.packet_goal packet) (sym flown.result) fits in
      elim rest [
        | inl (g, same) ↦ subst UdpInv (sym same) (ground arith)
        | inr (g, twice) ↦
            Flown-UdpInv twice.copy a b _ t twice.flown (copied u g t twice fits') (ground arith)
      ]
    where
      copied :
          (u : Sim F R) (g : R) (t : Sim F R)
          (d : Doubled packet a b (redrawn g u.chaos_drop_remaining u) t)
          → IsDatagram u.packet_goal packet
          → IsDatagram u.packet_goal d.copy
      copied u g t d fits =
          let e1 = d.same_type in
          let e2 = d.same_sequence in let e3 = d.same_retransmission in ground (arith, e1, e2, e3)

  dispatch-UdpInv :
      (s t : Sim F R) (id : ℕ) (router : Router F) (packet : Packet) (rest : List Packet)
      → lookup id s.routers ≡ some router
      → router.queue ≡ packet ∷ rest
      → dispatch_packet id router packet rest s ≡ ok t
      → UdpInv s
      → UdpInv t
  unfolding record_drop
  dispatch-UdpInv s t id router packet rest found queue h i =
      let P = IsDatagram s.packet_goal in
      let Q = λ (e : ℕ × Router F). All P e.1.queue in
      let s' = taken id router rest s in
      let queued = subst (All P) queue (All-lookup Q id s.routers i.queues found) in
      let j =
        IsUdp-routers s.in_flight_packets s _
          (All-insert Q id (busy rest router s) s.routers i.queues queued.1) i in
      elim (dispatch_packet_cases id router packet rest s t h) [
        | inl (_, dropped) ↦
            subst UdpInv (sym dropped) (record_drop-IsUdp s.in_flight_packets _ _ _ s' j)
        | inr (hop, _, launched) ↦
            launch-UdpInv packet router.router_id hop s' t launched queued.0 j
      ]

  pub UdpInv-Keeps : Keeps {F = F} {R = R} UdpInv
  UdpInv-Keeps = record {
    works = record {
      callback = λ s t e es head called i.
          subst (λ (l : List (InFlightPacket F)). IsUdp l t)
            (sym (run_callback-flights e.callback _ t called))
            (run_callback-IsUdp s.in_flight_packets s t e es head called i);
      dispatch = dispatch-UdpInv;
      stays = λ s f l dt i.
          let links =
            All-concat (λ (f : InFlightPacket F). IsDatagram s.packet_goal f.packet) l (age dt f)
              i.links.1 i.links.0 in
          ground arith;
      lands = λ s t f l dt h i.
          let before : IsUdp l s = ground arith in
          let after = land-IsUdp l (age dt f) s t h i.links.0 before in ground arith;
    };
    marks = λ s es i. ground arith;
    clock = λ s t i. ground arith;
    finish = λ s on i. ground arith;
  }

  pub update-UdpInv : (dt_ms : F) (s t : Sim F R) → update dt_ms s ≡ ok t → UdpInv s → UdpInv t
  update-UdpInv dt_ms s t h i = update-keeps UdpInv UdpInv-Keeps dt_ms s t h i
