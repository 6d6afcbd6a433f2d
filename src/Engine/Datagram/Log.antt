-- ===== src/Engine/Datagram/Log.antt =====
-- simulation.py: what a frame of the UDP-like mode sends.
use cps344finalproject.Base.{
  ℕ, ◌+◌, ◌≤◌, ◌<◌, ◌≡◌, refl, sym, ap, ◌∙◌, subst, Bool-cases, false, some, List, [], ◌∷◌, ◌++◌,
  append_assoc, lookup, ok, if◌then◌else◌, if-true, if-false, ◌==◌, count, count-append, length,
  length-append, member, All, arith, inl, inr,
}
use cps344finalproject.Base.Float.{Float, Random}
use cps344finalproject.Packet.{Packet, InFlightPacket, udp, data_packet}
use cps344finalproject.Router.{Router, enqueue}
use cps344finalproject.Engine.{Sim, Event, Callback, call_send, call_timeout}
use cps344finalproject.Engine.Send.{make_packet, send_data, enqueue_at}
use cps344finalproject.Engine.Receive.{
  arrived, record_drop, record_delivery, note_sequence, deliver,
}
use cps344finalproject.Engine.Run.{run_callback, dispatch_packet, land, busy, age, update}
use cps344finalproject.Engine.Effects.{enqueue_at-eq-ok}
use cps344finalproject.Engine.Effects.Links.{Flown, launch_link_cases}
use cps344finalproject.Engine.Effects.Calls.{
  data_spec, send_data_cases, inject_packet-eq-ok, await_ack-udp, deliver_cases,
  on_data_received_cases, land_cases, dispatch_packet_cases, taken, run_callback-flights,
}
use cps344finalproject.Engine.Rule.{Keeps, update-keeps}
use cps344finalproject.Engine.Datagram.{Planned, IsUdp}
use cps344finalproject.Engine.Datagram.Frame.{UdpInv, UdpInv-Keeps}
use cps344finalproject.Engine.Datagram.Sends.{
  scheduled, to_send, is_original, waiting, in_routers, on_links, underway, waiting-concat,
  on_links-concat, in_routers-insert,
}

module _ {F R : Type 0} where
  -- Since `s` the state `t` has sent the sequences `sent`, which were the first that `s` had
  -- scheduled, and the packets of `t` in routers and `flights` stem from these.
  abbrev pub Sent : List ℕ → Sim F R → List (InFlightPacket F) → Sim F R → Type 0
  Sent sent s flights t =
      (scheduled s.events ≡ sent ++ scheduled t.events)
      × (t.stats.packets_sent + s.stats.duplicate_packets
          ≡ s.stats.packets_sent + length sent + t.stats.duplicate_packets)
      × ((n : ℕ) → in_routers n t.routers + on_links n flights ≤ underway n s + count n sent)
      × (t.udp_sent_all ≡ s.udp_sent_all)

  abbrev pub Log : Sim F R → List (InFlightPacket F) → Sim F R → Type 0
  Log s flights t = (sent : List ℕ) × Sent sent s flights t

  enqueue_at-Log :
      (base : Sim F R) (flights : List (InFlightPacket F)) (f : InFlightPacket F) (node : ℕ)
      (packet : Packet) (s t : Sim F R)
      → enqueue_at node packet s ≡ ok t
      → ((n : ℕ) → is_original n packet ≡ is_original n f.packet)
      → Log base (f ∷ flights) s
      → Log base flights t
  enqueue_at-Log base flights f node packet s t h same (sent, (planned, counted, stems, started)) =
      let (router, found, e) = enqueue_at-eq-ok node packet s t h in
      subst (Log base flights) (sym e) (
        sent,
        (
          planned,
          counted,
          (λ n. omega (
            arith,
            stems n,
            same n,
            in_routers-insert n node (enqueue packet router) router s.routers found,
            waiting-concat n router.queue packet,
          )),
          started,
        ),
      )

  landed :
      (base : Sim F R) (flights : List (InFlightPacket F)) (f : InFlightPacket F) (s : Sim F R)
      → Log base (f ∷ flights) s
      → Log base flights s
  landed base flights f s (sent, (planned, counted, stems, started)) =
      (sent, (planned, counted, (λ n. omega (arith, stems n)), started))

module _ {F R : Type 0} ⦃fl : Float F⦄ ⦃rand : Random F R⦄ (base : Sim F R) where
  note_sequence-Log :
      (flights : List (InFlightPacket F)) (sequence : ℕ) (s : Sim F R)
      → Log base flights s
      → Log base flights (note_sequence sequence s)
  unfolding note_sequence
  note_sequence-Log flights sequence s i =
      elim (Bool-cases (member sequence s.delivered_sequences)) [
        | inl old ↦ subst (Log base flights) (sym (if-true _ _ _ old)) i
        | inr new ↦ subst (Log base flights) (sym (if-false _ _ _ new)) i
      ]

  deliver-Log :
      (flights : List (InFlightPacket F)) (packet : Packet) (s t : Sim F R)
      → deliver packet s ≡ ok t
      → s.mode ≡ udp
      → packet.packet_type ≡ data_packet
      → Log base flights s
      → Log base flights t
  unfolding record_delivery
  deliver-Log flights packet s t h in_udp kind_is i = elim (deliver_cases packet s t h) [
    | inr (kind, _) ↦ absurd (ground (arith, kind, kind_is))
    | inl (_, received) ↦ elim (on_data_received_cases packet _ t received) [
      | inr (in_tcp, _) ↦ absurd (ground (arith, in_tcp, in_udp))
      | inl (_, e) ↦
          subst (Log base flights) (sym e)
            (note_sequence-Log flights packet.sequence (record_delivery packet s) i)
    ]
  ]

  land-Log :
      (flights : List (InFlightPacket F)) (f : InFlightPacket F) (s t : Sim F R)
      → land f s ≡ ok t
      → s.mode ≡ udp
      → f.packet.packet_type ≡ data_packet
      → Log base (f ∷ flights) s
      → Log base flights t
  unfolding record_drop
  land-Log flights f s t h in_udp kind_is i = elim (land_cases f s t h) [
    | inl (inl lost) ↦ subst (Log base flights) (sym lost) (landed base flights f s i)
    | inl (inr (_, there)) ↦
        deliver-Log flights (arrived f) s t there in_udp kind_is (landed base flights f s i)
    | inr (_, onward) ↦
        enqueue_at-Log base flights f f.end_node (arrived f) s t onward (λ n. refl) i
  ]

  -- A scheduled send.
  send_data-Log :
      (flights : List (InFlightPacket F)) (sequence : ℕ) (s t : Sim F R) (e : Event F)
      (es : List (Event F))
      → s.events ≡ e ∷ es
      → e.callback ≡ call_send sequence
      → sequence < s.packet_goal
      → s.mode ≡ udp
      → send_data sequence false (record s { events = es }) ≡ ok t
      → Log base flights s
      → Log base flights t
  unfolding make_packet
  send_data-Log flights sequence s t e es head call lt in_udp h
        (sent, (planned, counted, stems, started)) =
      elim (send_data_cases sequence false _ t h) [
        | inl (past, same) ↦ absurd (ground arith)
        | inr (u, within, injected, e') ↦
            let packet = (make_packet (data_spec sequence false s) s).0 in
            let (router, found, q) = inject_packet-eq-ok _ _ u injected in
            let mode : u.mode ≡ udp = ap (λ (u : Sim F R). u.mode) q ∙ in_udp in
            let first : scheduled s.events ≡ sequence ∷ scheduled es =
              ap (λ (l : List (Event F)). scheduled l) head
              ∙ ap (λ c. to_send c ++ scheduled es) call in
            subst (Log base flights) (sym (e' ∙ await_ack-udp sequence u mode)) (
              subst (Log base flights) (sym q) (
                sent ++ sequence ∷ [],
                (
                  planned
                      ∙ ap (λ l. sent ++ l) first
                      ∙ sym (append_assoc sent (sequence ∷ []) (scheduled es)),
                  omega (arith, counted, length-append sent (sequence ∷ [])),
                  (λ n. omega (
                    arith,
                    stems n,
                    in_routers-insert n s.source (enqueue packet router) router s.routers found,
                    waiting-concat n router.queue packet,
                    count-append n sent (sequence ∷ []),
                  )),
                  started,
                ),
              ))
      ]

  callback-Log :
      (flights : List (InFlightPacket F)) (s t : Sim F R) (e : Event F) (es : List (Event F))
      → s.events ≡ e ∷ es
      → run_callback e.callback (record s { events = es }) ≡ ok t
      → IsUdp flights s
      → Log base flights s
      → Log base flights t
  unfolding run_callback
  callback-Log flights s t e es head h i l = go e.callback refl h
    where
      due : Planned s.packet_goal e.callback
      due = (subst (All (λ (e : Event F). Planned s.packet_goal e.callback)) head i.planned).0

      go :
          (c : Callback)
          → e.callback ≡ c
          → run_callback c (record s { events = es }) ≡ ok t
          → Log base flights t
      go (call_send sequence) same h =
          send_data-Log flights sequence s t e es head same (subst (Planned s.packet_goal) same due)
            i.in_udp h l
      go (call_timeout sequence token) same h = absurd (subst (Planned s.packet_goal) same due)

  Flown-Log :
      (n : ℕ) (packet : Packet) (a b : ℕ) (s t : Sim F R)
      → Flown packet a b s t
      → on_links n t.in_flight_packets ≡ on_links n s.in_flight_packets + is_original n packet
  Flown-Log n packet a b s t f =
      ap (λ (t : Sim F R). on_links n t.in_flight_packets) f.result
      ∙ on_links-concat n s.in_flight_packets f.flight
      ∙ ap (λ p. on_links n s.in_flight_packets + is_original n p) f.carries

  dispatch-Log :
      (s t : Sim F R) (id : ℕ) (router : Router F) (packet : Packet) (rest : List Packet)
      → lookup id s.routers ≡ some router
      → router.queue ≡ packet ∷ rest
      → dispatch_packet id router packet rest s ≡ ok t
      → Log base s.in_flight_packets s
      → Log base t.in_flight_packets t
  unfolding record_drop
  dispatch-Log s t id router packet rest found queue h (sent, (planned, counted, stems, started)) =
      let s' = taken id router rest s in
      let fewer : (n : ℕ)
          → in_routers n s'.routers + is_original n packet ≡ in_routers n s.routers =
        λ n. omega (
          arith,
          in_routers-insert n id (busy rest router s) router s.routers found,
          ap (waiting n) queue,
        ) in
      elim (dispatch_packet_cases id router packet rest s t h) [
        | inl (_, dropped) ↦
            subst (λ (t : Sim F R). Log base t.in_flight_packets t) (sym dropped)
              (sent, (planned, counted, (λ n. omega (arith, stems n, fewer n)), started))
        | inr (hop, _, launched) ↦
            let (u, flown, copied) = launch_link_cases packet router.router_id hop s' t launched in
            let out : Log base u.in_flight_packets u =
              subst (λ (t : Sim F R). Log base t.in_flight_packets t) (sym flown.result)
                (
                  sent,
                  (
                    planned,
                    counted,
                    (λ n. omega (
                      arith,
                      stems n,
                      fewer n,
                      on_links-concat n s.in_flight_packets flown.flight,
                      ap (is_original n) flown.carries,
                    )),
                    started,
                  ),
                ) in
            elim copied [
              | inl (g, same) ↦
                  subst (λ (t : Sim F R). Log base t.in_flight_packets t) (sym same) out
              | inr (g, twice) ↦
                  let (sent', (planned', counted', stems', started')) = out in
                  subst (λ (t : Sim F R). Log base t.in_flight_packets t) (sym twice.flown.result)
                    (
                      sent',
                      (
                        planned',
                        omega (arith, counted'),
                        (λ n. omega (
                          arith,
                          stems' n,
                          on_links-concat n u.in_flight_packets twice.flown.flight,
                          ap (is_original n) twice.flown.carries,
                          if-true {A = ℕ} twice.copy.duplicate 0
                              (if twice.copy.sequence == n then 1 else 0) twice.is_copy,
                        )),
                        started',
                      ),
                    )
            ]
      ]

  -- A state of the UDP-like mode, with the log since the first state.
  abbrev Logged : Sim F R → Type 0
  Logged t = UdpInv t × Log base t.in_flight_packets t

  Logged-Keeps : Keeps {F = F} {R = R} Logged
  Logged-Keeps = record {
    works = record {
      callback = λ s t e es head called (i, l). (
        UdpInv-Keeps.works.callback s t e es head called i,
        subst (λ (fs : List (InFlightPacket F)). Log base fs t)
            (sym (run_callback-flights e.callback _ t called))
            (callback-Log s.in_flight_packets s t e es head called i l),
      );
      dispatch = λ s t id router packet rest found queue h (i, l). (
        UdpInv-Keeps.works.dispatch s t id router packet rest found queue h i,
        dispatch-Log s t id router packet rest found queue h l,
      );
      stays = λ s f fs dt (i, (sent, (planned, counted, stems, started))). (
        UdpInv-Keeps.works.stays s f fs dt i,
        (
          sent,
          (
            planned,
            counted,
            (λ n. omega (arith, stems n, on_links-concat n fs (age dt f))),
            started,
          ),
        ),
      );
      lands = λ s t f fs dt h (i, l). (
        UdpInv-Keeps.works.lands s t f fs dt h i,
        land-Log fs (age dt f) s t h i.in_udp i.links.0.is_data l,
      );
    };
    marks = λ s dt (i, l). (UdpInv-Keeps.marks s dt i, l);
    clock = λ s now (i, l). (UdpInv-Keeps.clock s now i, l);
    finish = λ s on (i, l). (UdpInv-Keeps.finish s on i, l);
  }

  pub update-Log :
      (dt_ms : F) (t : Sim F R)
      → update dt_ms base ≡ ok t
      → UdpInv base
      → Log base t.in_flight_packets t
  update-Log dt_ms t h i =
      let nothing : Log base base.in_flight_packets base =
        ([], (refl, omega arith, (λ n. omega arith), refl)) in
      (update-keeps Logged Logged-Keeps dt_ms base t h (i, nothing)).1
