-- ===== src/Engine/Drawable.antt =====
-- simulation.py: the nodes at which packets and marks stand. `K` says which nodes there are.
use cps344finalproject.Base.{
  ℕ, ◌≡◌, sym, subst, Bool, Bool-cases, true, false, Option, none, some, List, [], ◌∷◌, lookup, ok,
  >>=-eq-ok, if-true, if-false, All, All-concat, All-insert, All-lookup, member, leb, opt_eq, ◌+◌,
  inl, inr,
}
use cps344finalproject.Base.Float.{Float, Random, num}
use cps344finalproject.Packet.{Packet, InFlightPacket, PacketEvent, Mode-cases}
use cps344finalproject.Router.{Router, enqueue}
use cps344finalproject.Graph.Manager.{GraphManager, get_edge_delay}
use cps344finalproject.Engine.{Sim, Callback, call_send, call_timeout}
use cps344finalproject.Engine.Send.{
  await_ack, schedule, make_packet, inject_packet, send_data, send_ack,
}
use cps344finalproject.Engine.Link.{launch_link}
use cps344finalproject.Engine.Receive.{
  arrived, record_drop, record_delivery, note_sequence, on_ack_received, accept_ack, deliver,
}
use cps344finalproject.Engine.Run.{run_callback, dispatch_packet, land, busy, age, fade, update}
use cps344finalproject.Engine.Effects.{queue_at, enqueue_at-eq-ok}
use cps344finalproject.Engine.Effects.Links.{Flown, launch_link_cases}
use cps344finalproject.Engine.Effects.Calls.{
  inject_packet-eq-ok, send_data_cases, on_timeout_cases, on_data_received_cases, deliver_cases,
  land_cases, dispatch_packet_cases, await_ack-tcp, await_ack-udp, taken, count_sent,
  run_callback-flights,
}
use cps344finalproject.Engine.Rule.{Keeps, update-keeps}

abbrev pub IsShown : (ℕ → Type 0) → Option ℕ → Type 0
IsShown K none = Unit
IsShown K (some n) = K n

module _ {F : Type 0} (K : ℕ → Type 0) where
  abbrev pub IsMark : PacketEvent F → Type 0
  IsMark event = IsShown K event.node × IsShown K event.start_node × IsShown K event.end_node

  abbrev pub IsBetween : InFlightPacket F → Type 0
  IsBetween flight = K flight.start_node × K flight.end_node

  abbrev pub IsNamed : ℕ × Router F → Type 0
  IsNamed (id, router) = K router.router_id

  -- The marks and the routers are at known nodes.
  abbrev pub IsMarked : {R : Type 0} → GraphManager F → Sim F R → Type 0
  IsMarked gm s = (s.graph_manager ≡ gm) × All IsMark s.packet_events × All IsNamed s.routers

  -- So are the packets on links.
  abbrev pub IsDrawable : {R : Type 0} → GraphManager F → Sim F R → Type 0
  IsDrawable gm s = IsMarked gm s × All IsBetween s.in_flight_packets

  fade-IsMark :
      ⦃fl : Float F⦄ (dt : F) (es : List (PacketEvent F)) → All IsMark es → All IsMark (fade dt es)
  unfolding fade
  fade-IsMark dt [] h = tt
  fade-IsMark ⦃fl⦄ dt (e ∷ es) (h, rest) =
      let after = fade-IsMark dt es rest in
      elim (Bool-cases (fl.lt (num 0) (fl.sub e.ttl_ms dt))) [
        | inl on ↦ subst (All IsMark) (sym (if-true _ _ _ on)) (h, after)
        | inr off ↦ subst (All IsMark) (sym (if-false _ _ _ off)) after
      ]

module _ {F R : Type 0} ⦃fl : Float F⦄ ⦃rand : Random F R⦄ (K : ℕ → Type 0) (gm : GraphManager F)
    (linked : (a b d : ℕ) → get_edge_delay a b gm ≡ ok d → K a × K b) where
  abbrev I : Sim F R → Type 0
  I = IsMarked K gm

  queue_at-IsMarked :
      (node : ℕ) (packet : Packet) (router : Router F) (s : Sim F R)
      → lookup node s.routers ≡ some router
      → I s
      → I (queue_at node packet router s)
  queue_at-IsMarked node packet router s found (same, marks, ids) = (
    same,
    marks,
    All-insert (IsNamed K) node (enqueue packet router) s.routers ids
        (All-lookup (IsNamed K) node s.routers ids found),
  )

  inject_packet-IsMarked :
      (packet : Packet) (s t : Sim F R) → inject_packet packet s ≡ ok t → I s → I t
  inject_packet-IsMarked packet s t h i =
      let (router, found, e) = inject_packet-eq-ok packet s t h in
      subst I (sym e) (queue_at-IsMarked packet.source packet router (count_sent packet s) found i)

  await_ack-IsMarked : (sequence : ℕ) (s : Sim F R) → I s → I (await_ack sequence s)
  unfolding schedule
  await_ack-IsMarked sequence s i = elim (Mode-cases s.mode) [
    | inl e ↦ subst I (sym (await_ack-udp sequence s e)) i
    | inr e ↦ subst I (sym (await_ack-tcp sequence s e)) i
  ]

  send_data-IsMarked :
      (sequence : ℕ) (again : Bool) (s t : Sim F R) → send_data sequence again s ≡ ok t → I s → I t
  send_data-IsMarked sequence again s t h i = elim (send_data_cases sequence again s t h) [
    | inl (_, same) ↦ subst I (sym same) i
    | inr (u, _, injected, e) ↦
        subst I (sym e) (await_ack-IsMarked sequence u (inject_packet-IsMarked _ _ u injected i))
  ]

  send_ack-IsMarked : (sequence : ℕ) (s t : Sim F R) → send_ack sequence s ≡ ok t → I s → I t
  unfolding send_ack make_packet
  send_ack-IsMarked sequence s t h i = inject_packet-IsMarked _ _ t h i

  note_sequence-IsMarked : (sequence : ℕ) (s : Sim F R) → I s → I (note_sequence sequence s)
  unfolding note_sequence
  note_sequence-IsMarked sequence s i = elim (Bool-cases (member sequence s.delivered_sequences)) [
    | inl old ↦ subst I (sym (if-true _ _ _ old)) i
    | inr new ↦ subst I (sym (if-false _ _ _ new)) i
  ]

  accept_ack-IsMarked : (acked : Option ℕ) (s : Sim F R) → I s → I (accept_ack acked s)
  unfolding accept_ack schedule
  accept_ack-IsMarked none s i = i
  accept_ack-IsMarked (some acked) s i = elim (Bool-cases (leb s.packet_goal (acked + 1))) [
    | inl last ↦ subst I (sym (if-true _ _ _ last)) i
    | inr more ↦ subst I (sym (if-false _ _ _ more)) i
  ]

  on_ack_received-IsMarked : (packet : Packet) (s : Sim F R) → I s → I (on_ack_received packet s)
  unfolding on_ack_received
  on_ack_received-IsMarked packet s i = elim (Bool-cases (opt_eq s.awaiting_ack packet.ack_for)) [
    | inl this ↦ subst I (sym (if-true _ _ _ this)) (accept_ack-IsMarked packet.ack_for _ i)
    | inr late ↦ subst I (sym (if-false _ _ _ late)) i
  ]

  deliver-IsMarked :
      (packet : Packet) (s t : Sim F R)
      → K packet.current_node
      → deliver packet s ≡ ok t
      → I s
      → I t
  unfolding record_delivery
  deliver-IsMarked packet s t here h (same, marks, ids) =
      let noted : I (record_delivery packet s) =
        (same, All-concat (IsMark K) s.packet_events _ marks (here, tt, tt), ids) in
      elim (deliver_cases packet s t h) [
        | inr (_, e) ↦ subst I (sym e) (on_ack_received-IsMarked packet _ noted)
        | inl (_, received) ↦
            let counted = note_sequence-IsMarked packet.sequence _ noted in
            elim (on_data_received_cases packet _ t received) [
              | inl (_, e) ↦ subst I (sym e) counted
              | inr (_, acked) ↦ send_ack-IsMarked packet.sequence _ t acked counted
            ]
      ]

  run_callback-IsMarked : (c : Callback) (s t : Sim F R) → run_callback c s ≡ ok t → I s → I t
  unfolding run_callback
  run_callback-IsMarked (call_send sequence) s t h i = send_data-IsMarked sequence false s t h i
  run_callback-IsMarked (call_timeout sequence token) s t h i =
      elim (on_timeout_cases sequence token s t h) [
        | inl same ↦ subst I (sym same) i
        | inr (_, _, _, sent) ↦ send_data-IsMarked sequence true s t sent i
      ]

  dispatch_packet-IsMarked :
      (id : ℕ) (router : Router F) (packet : Packet) (rest : List Packet) (s t : Sim F R)
      → lookup id s.routers ≡ some router
      → dispatch_packet id router packet rest s ≡ ok t
      → I s
      → I t
  unfolding record_drop
  dispatch_packet-IsMarked id router packet rest s t found h (same, marks, ids) =
      let named = All-lookup (IsNamed K) id s.routers ids found in
      let kept = All-insert (IsNamed K) id (busy rest router s) s.routers ids named in
      elim (dispatch_packet_cases id router packet rest s t h) [
        | inl (_, dropped) ↦
            subst I (sym dropped)
              (same, All-concat (IsMark K) s.packet_events _ marks (tt, named, tt), kept)
        | inr (hop, _, launched) ↦
            let (u, flown, copied) =
              launch_link_cases packet router.router_id hop (taken id router rest s) t launched in
            let j = subst I (sym flown.result) (same, marks, kept) in
            elim copied [
              | inl (g, e) ↦ subst I (sym e) j
              | inr (g, twice) ↦ subst I (sym twice.flown.result) j
            ]
      ]

  land-IsMarked :
      (f : InFlightPacket F) (s t : Sim F R) → IsBetween K f → land f s ≡ ok t → I s → I t
  unfolding record_drop
  land-IsMarked f s t ends h (same, marks, ids) = elim (land_cases f s t h) [
    | inl (inl lost) ↦
        subst I (sym lost)
          (same, All-concat (IsMark K) s.packet_events _ marks (tt, ends.0, ends.1), ids)
    | inl (inr (_, delivered)) ↦
        deliver-IsMarked (arrived f) s t ends.1 delivered (same, marks, ids)
    | inr (_, onward) ↦
        let (router, found, e) = enqueue_at-eq-ok _ _ s t onward in
        subst I (sym e) (queue_at-IsMarked f.end_node (arrived f) router s found (same, marks, ids))
  ]

  Flown-IsBetween :
      (packet : Packet) (a b : ℕ) (s t : Sim F R)
      → K a × K b
      → Flown packet a b s t
      → All (IsBetween K) s.in_flight_packets
      → All (IsBetween K) t.in_flight_packets
  Flown-IsBetween packet a b s t ends f flights =
      subst (λ (t : Sim F R). All (IsBetween K) t.in_flight_packets) (sym f.result)
        (All-concat (IsBetween K) s.in_flight_packets f.flight flights
          (subst K (sym f.from_node) ends.0, subst K (sym f.to_node) ends.1))

  launch_link-IsBetween :
      (packet : Packet) (a b : ℕ) (s t : Sim F R)
      → s.graph_manager ≡ gm
      → launch_link packet a b s ≡ ok t
      → All (IsBetween K) s.in_flight_packets
      → All (IsBetween K) t.in_flight_packets
  unfolding launch_link
  launch_link-IsBetween packet a b s t same h flights =
      let (delay, found, _) = >>=-eq-ok (get_edge_delay a b s.graph_manager) _ h in
      let ends = linked a b delay (subst (λ gm. get_edge_delay a b gm ≡ ok delay) same found) in
      let (u, flown, copied) = launch_link_cases packet a b s t h in
      let j = Flown-IsBetween packet a b s u ends flown flights in
      elim copied [
        | inl (g, e) ↦ subst (λ (t : Sim F R). All (IsBetween K) t.in_flight_packets) (sym e) j
        | inr (g, twice) ↦ Flown-IsBetween twice.copy a b _ t ends twice.flown j
      ]

  dispatch_packet-IsBetween :
      (id : ℕ) (router : Router F) (packet : Packet) (rest : List Packet) (s t : Sim F R)
      → s.graph_manager ≡ gm
      → dispatch_packet id router packet rest s ≡ ok t
      → All (IsBetween K) s.in_flight_packets
      → All (IsBetween K) t.in_flight_packets
  unfolding record_drop
  dispatch_packet-IsBetween id router packet rest s t same h flights =
      elim (dispatch_packet_cases id router packet rest s t h) [
        | inl (_, dropped) ↦
            subst (λ (t : Sim F R). All (IsBetween K) t.in_flight_packets) (sym dropped) flights
        | inr (hop, _, launched) ↦
            launch_link-IsBetween packet router.router_id hop (taken id router rest s) t same
              launched flights
      ]

  IsDrawable-Keeps : Keeps {F = F} {R = R} (IsDrawable K gm)
  IsDrawable-Keeps = record {
    works = record {
      callback = λ s t e es head called i. (
        run_callback-IsMarked e.callback _ t called i.0,
        subst (All (IsBetween K)) (sym (run_callback-flights e.callback _ t called)) i.1,
      );
      dispatch = λ s t id router packet rest found queue h i. (
        dispatch_packet-IsMarked id router packet rest s t found h i.0,
        dispatch_packet-IsBetween id router packet rest s t i.0.0 h i.1,
      );
      stays = λ s f l dt i. (i.0, All-concat (IsBetween K) l (age dt f) i.1.1 i.1.0);
      lands = λ s t f l dt h i. (land-IsMarked (age dt f) s t i.1.0 h i.0, i.1.1);
    };
    marks = λ s dt i. ((i.0.0, fade-IsMark K dt s.packet_events i.0.1, i.0.2), i.1);
    clock = λ s t i. i;
    finish = λ s on i. i;
  }

  pub update-IsDrawable :
      (dt_ms : F) (s t : Sim F R) → update dt_ms s ≡ ok t → IsDrawable K gm s → IsDrawable K gm t
  update-IsDrawable dt_ms s t h i = update-keeps (IsDrawable K gm) IsDrawable-Keeps dt_ms s t h i
