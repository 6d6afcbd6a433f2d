-- ===== src/Engine/Reliable/Frame.antt =====
-- A frame keeps the stop-and-wait invariant.
use cps344finalproject.Base.{
  ℕ, ◌+◌, ◌≤◌, ◌≡◌, refl, sym, ap, subst, false, some, List, ◌∷◌, lookup, ok, arith, All,
  All-concat, All-lookup, All-insert, inl, inr,
}
use cps344finalproject.Base.Float.{Float, Random}
use cps344finalproject.Packet.{Packet, InFlightPacket}
use cps344finalproject.Router.{Router}
use cps344finalproject.Engine.{Sim, Event, Callback, call_send, call_timeout}
use cps344finalproject.Engine.Link.{launch_link}
use cps344finalproject.Engine.Run.{run_callback, land, dispatch_packet, busy, age, update}
use cps344finalproject.Engine.Effects.Calls.{
  land_cases, dispatch_packet_cases, taken, run_callback-flights,
}
use cps344finalproject.Engine.Effects.Links.{Flown, Doubled, redrawn, launch_link_cases}
use cps344finalproject.Engine.Receive.{arrived, record_drop}
use cps344finalproject.Engine.Rule.{Keeps, update-keeps}
use cps344finalproject.Engine.Reliable.{
  Planned, is_send, is_waiting, sends, IsTcp, Allowed, IsTcp-routers, enqueue_at-IsTcp,
}
use cps344finalproject.Engine.Reliable.Sending.{
  send_data-IsTcp, on_timeout-IsTcp, deliver-IsTcp, record_drop-IsTcp,
}

-- The invariant of a state with its own flights.
abbrev pub TcpInv : {F R : Type 0} → Sim F R → Type 0
TcpInv s = IsTcp s.in_flight_packets s

module _ {F R : Type 0} ⦃fl : Float F⦄ ⦃rand : Random F R⦄ where
  run_callback-IsTcp :
      (flights : List (InFlightPacket F)) (s t : Sim F R) (e : Event F) (es : List (Event F))
      → s.events ≡ e ∷ es
      → run_callback e.callback (record s { events = es }) ≡ ok t
      → IsTcp flights s
      → IsTcp flights t
  unfolding run_callback
  run_callback-IsTcp flights s t e es head h i = go e.callback refl h
    where
      planned : All (λ (e : Event F). Planned s.next_sequence_to_send e.callback) (e ∷ es)
      planned =
          subst (All (λ (e : Event F). Planned s.next_sequence_to_send e.callback)) head i.planned

      counted : is_send e.callback + sends es + is_waiting s.awaiting_ack ≤ 1
      counted =
          subst (λ (l : List (Event F)). sends l + is_waiting s.awaiting_ack ≤ 1) head
            i.one_at_a_time

      rest : IsTcp flights (record s { events = es })
      rest = ground (arith, planned, counted)

      go :
          (c : Callback)
          → e.callback ≡ c
          → run_callback c (record s { events = es }) ≡ ok t
          → IsTcp flights t
      go (call_send sequence) same h =
          let one : is_send e.callback ≡ 1 = ap is_send same in
          send_data-IsTcp flights sequence false _ t h
            (subst (Planned s.next_sequence_to_send) same planned.0, omega (arith, counted)) rest
      go (call_timeout sequence token) same h = on_timeout-IsTcp flights sequence token _ t h rest

  land-IsTcp :
      (flights : List (InFlightPacket F)) (f : InFlightPacket F) (s t : Sim F R)
      → land f s ≡ ok t
      → Allowed flights s f.packet
      → IsTcp flights s
      → IsTcp flights t
  land-IsTcp flights f s t h fits i = elim (land_cases f s t h) [
    | inl (inl lost) ↦ subst (IsTcp flights) (sym lost) (record_drop-IsTcp flights _ _ _ s i)
    | inl (inr (_, there)) ↦ deliver-IsTcp flights (arrived f) s t there fits i
    | inr (_, onward) ↦ enqueue_at-IsTcp flights f.end_node (arrived f) s t onward fits i
  ]

  Flown-TcpInv :
      (packet : Packet) (a b : ℕ) (s t : Sim F R)
      → Flown packet a b s t
      → Allowed s.in_flight_packets s packet
      → TcpInv s
      → TcpInv t
  Flown-TcpInv packet a b s t f fits i =
      let links =
        All-concat (λ (f : InFlightPacket F). Allowed s.in_flight_packets s f.packet)
          s.in_flight_packets f.flight i.links
          (subst (Allowed s.in_flight_packets s) (sym f.carries) fits) in
      subst TcpInv (sym f.result) (ground arith)

  launch-TcpInv :
      (packet : Packet) (a b : ℕ) (s t : Sim F R)
      → launch_link packet a b s ≡ ok t
      → Allowed s.in_flight_packets s packet
      → TcpInv s
      → TcpInv t
  launch-TcpInv packet a b s t h fits i =
      let (u, flown, rest) = launch_link_cases packet a b s t h in
      let j = Flown-TcpInv packet a b s u flown fits i in
      let fits' : Allowed u.in_flight_packets u packet =
        subst (λ (u : Sim F R). Allowed u.in_flight_packets u packet) (sym flown.result) fits in
      elim rest [
        | inl (g, same) ↦ subst TcpInv (sym same) (ground arith)
        | inr (g, twice) ↦
            Flown-TcpInv twice.copy a b _ t twice.flown (copied u g t twice fits') (ground arith)
      ]
    where
      copied :
          (u : Sim F R) (g : R) (t : Sim F R)
          (d : Doubled packet a b (redrawn g u.chaos_drop_remaining u) t)
          → Allowed u.in_flight_packets u packet
          → Allowed u.in_flight_packets u d.copy
      copied u g t d fits =
          let e1 = d.same_type in
          let e2 = d.same_sequence in let e3 = d.same_ack in ground (arith, e1, e2, e3)

  taken-TcpInv :
      (id : ℕ) (router : Router F) (packet : Packet) (rest : List Packet) (s : Sim F R)
      → lookup id s.routers ≡ some router
      → router.queue ≡ packet ∷ rest
      → TcpInv s
      → TcpInv (taken id router rest s) × Allowed s.in_flight_packets s packet
  taken-TcpInv id router packet rest s found queue i =
      let P = Allowed s.in_flight_packets s in
      let queued =
        subst (All P) queue
          (All-lookup (λ (e : ℕ × Router F). All P e.1.queue) id s.routers i.queues found) in
      (
        IsTcp-routers s.in_flight_packets s _
            (All-insert (λ (e : ℕ × Router F). All P e.1.queue) id (busy rest router s) s.routers
              i.queues queued.1)
            i,
        queued.0,
      )

  dispatch-TcpInv :
      (s t : Sim F R) (id : ℕ) (router : Router F) (packet : Packet) (rest : List Packet)
      → lookup id s.routers ≡ some router
      → router.queue ≡ packet ∷ rest
      → dispatch_packet id router packet rest s ≡ ok t
      → TcpInv s
      → TcpInv t
  unfolding record_drop
  dispatch-TcpInv s t id router packet rest found queue h i =
      let s' = taken id router rest s in
      let (j, fits) = taken-TcpInv id router packet rest s found queue i in
      elim (dispatch_packet_cases id router packet rest s t h) [
        | inl (_, dropped) ↦
            subst TcpInv (sym dropped) (record_drop-IsTcp s.in_flight_packets _ _ _ s' j)
        | inr (hop, _, launched) ↦ launch-TcpInv packet router.router_id hop s' t launched fits j
      ]

  TcpInv-Keeps : Keeps {F = F} {R = R} TcpInv
  TcpInv-Keeps = record {
    works = record {
      callback = λ s t e es head called i.
          subst (λ (l : List (InFlightPacket F)). IsTcp l t)
            (sym (run_callback-flights e.callback _ t called))
            (run_callback-IsTcp s.in_flight_packets s t e es head called i);
      dispatch = dispatch-TcpInv;
      stays = λ s f l dt i.
          let links =
            All-concat (λ (f : InFlightPacket F). Allowed s.in_flight_packets s f.packet) l
              (age dt f) i.links.1 i.links.0 in
          ground arith;
      lands = λ s t f l dt h i.
          let before : IsTcp l s = ground arith in
          let after = land-IsTcp l (age dt f) s t h i.links.0 before in ground arith;
    };
    marks = λ s es i. ground arith;
    clock = λ s t i. ground arith;
    finish = λ s on i. ground arith;
  }

  pub update-TcpInv : (dt_ms : F) (s t : Sim F R) → update dt_ms s ≡ ok t → TcpInv s → TcpInv t
  update-TcpInv dt_ms s t h i = update-keeps TcpInv TcpInv-Keeps dt_ms s t h i
