-- ===== src/Engine/Reliable/Sending.antt =====
-- Sends, acknowledgements and timeouts keep the stop-and-wait invariant.
use cps344finalproject.Base.{
  ℕ, ◌+◌, ◌≤◌, ◌<◌, ◌≡◌, refl, sym, ap, subst, Bool, true, Option, none, some, List, [], ◌∷◌, ◌++◌,
  ok, arith, member, member-upto_lt, member-upto_ge, if-true, if-false, Bool-cases, inl, inr, leb,
  opt_eq,
}
use cps344finalproject.Base.Float.{Float, num}
use cps344finalproject.Packet.{Packet, InFlightPacket, tcp, Label, data_packet, ack_packet}
use cps344finalproject.Engine.{Sim, Event, call_send, call_timeout}
use cps344finalproject.Engine.Send.{
  make_packet, inject_packet, send_ack, send_data, await_ack, schedule,
}
use cps344finalproject.Engine.Receive.{
  note_sequence, on_data_received, accept_ack, on_ack_received, on_timeout, deliver,
  record_delivery, record_drop,
}
use cps344finalproject.Engine.Effects.Calls.{
  send_data_cases, on_timeout_cases, on_data_received_cases, deliver_cases, count_sent,
  inject_packet-eq-ok, await_ack-tcp,
}
use cps344finalproject.Engine.Reliable.{
  Planned-no_sends, Fits, Fits-mono, Planned, sends, sends-push_event, All-push_event, IsTcp,
  Allowed, Queues-mono, Links-mono, enqueue_at-IsTcp,
}

module _ {F R : Type 0} ⦃fl : Float F⦄ (flights : List (InFlightPacket F)) where
  inject_packet-IsTcp :
      (packet : Packet) (s t : Sim F R)
      → inject_packet packet s ≡ ok t
      → Allowed flights s packet
      → IsTcp flights s
      → IsTcp flights t
  unfolding inject_packet
  inject_packet-IsTcp packet s t h fits i =
      enqueue_at-IsTcp flights packet.source packet (count_sent packet s) t h fits (ground arith)

  -- What the state must be like for a send: nothing else is scheduled, and nothing else awaited.
  abbrev pub CanSend : ℕ → Sim F R → Type 0
  CanSend sequence s = (sequence ≡ s.next_sequence_to_send) × (sends s.events ≡ 0)

  await_ack-IsTcp :
      (sequence : ℕ) (s : Sim F R)
      → CanSend sequence s
      → IsTcp flights s
      → IsTcp flights (await_ack sequence s)
  unfolding schedule
  await_ack-IsTcp sequence s can i =
      let e : Event F = record {
        due_time = fl.add s.current_time_ms s.retransmission_timeout_ms;
        event_id = s.next_event_id;
        callback = call_timeout sequence (s.timeout_token + 1);
      } in
      let planned =
        All-push_event (λ (e : Event F). Planned s.next_sequence_to_send e.callback) e s.events tt
          i.planned in
      subst (IsTcp flights) (sym (await_ack-tcp sequence s i.in_tcp))
        (ground (arith, sends-push_event e s.events))

  pub send_data-IsTcp :
      (sequence : ℕ) (again : Bool) (s t : Sim F R)
      → send_data sequence again s ≡ ok t
      → CanSend sequence s
      → IsTcp flights s
      → IsTcp flights t
  unfolding make_packet
  send_data-IsTcp sequence again s t h can i = elim (send_data_cases sequence again s t h) [
    | inl (_, same) ↦ subst (IsTcp flights) (sym same) i
    | inr (u, within, injected, e) ↦
        let (router, _, e') = inject_packet-eq-ok _ _ u injected in
        let j = inject_packet-IsTcp _ _ u injected (ground arith) (ground arith) in
        let can' : CanSend sequence u = subst (CanSend sequence) (sym e') (ground arith) in
        subst (IsTcp flights) (sym e) (await_ack-IsTcp sequence u can' j)
  ]

  pub on_timeout-IsTcp :
      (sequence token : ℕ) (s t : Sim F R)
      → on_timeout sequence token s ≡ ok t
      → IsTcp flights s
      → IsTcp flights t
  on_timeout-IsTcp sequence token s t h i = elim (on_timeout_cases sequence token s t h) [
    | inl same ↦ subst (IsTcp flights) (sym same) i
    | inr (_, waits, _, sent) ↦ send_data-IsTcp sequence true s t sent (ground arith) i
  ]

  send_ack-IsTcp :
      (sequence : ℕ) (s t : Sim F R)
      → send_ack sequence s ≡ ok t
      → sequence < s.stats.packets_delivered
      → IsTcp flights s
      → IsTcp flights t
  unfolding send_ack make_packet
  send_ack-IsTcp sequence s t h lt i = inject_packet-IsTcp _ _ t h (ground arith) (ground arith)

  -- A sequence that is new is the one in hand.
  note_new-IsTcp :
      (sequence : ℕ) (s : Sim F R) (completed : List ℕ)
      → sequence ≡ s.stats.packets_delivered
      → sequence ≤ s.next_sequence_to_send
      → sequence < s.packet_goal
      → IsTcp flights s
      → IsTcp flights (record s {
        delivered_sequences = s.delivered_sequences ++ sequence ∷ [];
        stats = record (s.stats) {
          completed_sequences = completed;
          packets_delivered = s.stats.packets_delivered + 1;
        };
      })
  note_new-IsTcp sequence s completed e le lt i =
      let n = s.next_sequence_to_send in
      let m = s.stats.packets_delivered in
      let wider = Fits-mono s.packet_goal n m n (m + 1) (omega arith) (omega arith) in
      let q =
        Queues-mono (Fits s.packet_goal n m) (Fits s.packet_goal n (m + 1)) s.routers wider
          i.queues in
      let l =
        Links-mono (Fits s.packet_goal n m) (Fits s.packet_goal n (m + 1)) flights wider i.links in
      ground arith

  note_sequence-IsTcp :
      (sequence : ℕ) (s : Sim F R)
      → sequence ≤ s.next_sequence_to_send
      → sequence < s.packet_goal
      → IsTcp flights s
      → IsTcp flights (note_sequence sequence s)
        × (sequence < (note_sequence sequence s).stats.packets_delivered)
  unfolding note_sequence
  note_sequence-IsTcp sequence s le lt i =
      let m = s.stats.packets_delivered in
      elim (Bool-cases (member sequence s.delivered_sequences)) [
        | inl old ↦
            subst (λ (u : Sim F R). IsTcp flights u × (sequence < u.stats.packets_delivered))
              (sym (if-true _ _ _ old))
              (i, ground (arith, member-upto_ge m sequence, ap (member sequence) i.in_order))
        | inr new ↦
            let e : sequence ≡ m =
              ground (arith, member-upto_lt m sequence, ap (member sequence) i.in_order) in
            subst (λ (u : Sim F R). IsTcp flights u × (sequence < u.stats.packets_delivered))
              (sym (if-false _ _ _ new)) (note_new-IsTcp sequence s _ e le lt i, omega arith)
      ]

  on_data_received-IsTcp :
      (packet : Packet) (s t : Sim F R)
      → on_data_received packet s ≡ ok t
      → packet.packet_type ≡ data_packet
      → Allowed flights s packet
      → IsTcp flights s
      → IsTcp flights t
  on_data_received-IsTcp packet s t h kind fits i =
      let (j, lt) = note_sequence-IsTcp packet.sequence s (ground arith) (ground arith) i in
      elim (on_data_received_cases packet s t h) [
        | inl (udp_mode, _) ↦ absurd (let e : s.mode ≡ tcp = i.in_tcp in ground arith)
        | inr (_, acked) ↦ send_ack-IsTcp packet.sequence _ t acked lt j
      ]

  -- The acknowledgement for the sequence in hand: either it was the last, or the next is sent.
  accept_ack-IsTcp :
      (acked : ℕ) (s : Sim F R)
      → acked ≡ s.next_sequence_to_send
      → acked < s.stats.packets_delivered
      → sends s.events ≡ 0
      → s.awaiting_ack ≡ none
      → IsTcp flights s
      → IsTcp flights (accept_ack (some acked) s)
  unfolding accept_ack schedule
  accept_ack-IsTcp acked s e lt none_planned free i =
      let n = s.next_sequence_to_send in
      let m = s.stats.packets_delivered in
      elim (Bool-cases (leb s.packet_goal (acked + 1))) [
        | inl last ↦ subst (IsTcp flights) (sym (if-true _ _ _ last)) (ground arith)
        | inr more ↦
            let wider = Fits-mono s.packet_goal n m (acked + 1) m (omega arith) (omega arith) in
            let q =
              Queues-mono (Fits s.packet_goal n m) (Fits s.packet_goal (acked + 1) m) s.routers
                wider i.queues in
            let l =
              Links-mono (Fits s.packet_goal n m) (Fits s.packet_goal (acked + 1) m) flights wider
                i.links in
            let e' : Event F = record {
              due_time = fl.add s.current_time_ms (num 150);
              event_id = s.next_event_id;
              callback = call_send (acked + 1);
            } in
            let planned =
              All-push_event (λ (e : Event F). Planned (acked + 1) e.callback) e' s.events refl
                (Planned-no_sends (acked + 1) s.events none_planned) in
            subst (IsTcp flights) (sym (if-false _ _ _ more))
              (ground (arith, sends-push_event e' s.events))
      ]

  on_ack_received-IsTcp :
      (packet : Packet) (s : Sim F R)
      → packet.packet_type ≡ ack_packet
      → Allowed flights s packet
      → IsTcp flights s
      → IsTcp flights (on_ack_received packet s)
  unfolding on_ack_received
  on_ack_received-IsTcp packet s kind fits i =
      let named : packet.ack_for ≡ some packet.sequence = ground arith in
      let lt : packet.sequence < s.stats.packets_delivered = ground arith in
      elim (Bool-cases (opt_eq s.awaiting_ack packet.ack_for)) [
        | inr other ↦ subst (IsTcp flights) (sym (if-false _ _ _ other)) i
        | inl same ↦
            let s' = record s { awaiting_ack = none } in
            let waits : s.awaiting_ack ≡ some packet.sequence = ground arith in
            subst (IsTcp flights) (sym (if-true _ _ _ same)) (
              subst (λ (o : Option ℕ). IsTcp flights (accept_ack o s')) (sym named)
                (accept_ack-IsTcp packet.sequence s' (ground arith) lt (ground arith) refl
                  (ground arith)))
      ]

  pub deliver-IsTcp :
      (packet : Packet) (s t : Sim F R)
      → deliver packet s ≡ ok t
      → Allowed flights s packet
      → IsTcp flights s
      → IsTcp flights t
  unfolding record_delivery
  deliver-IsTcp packet s t h fits i =
      let s' = record_delivery packet s in
      let j : IsTcp flights s' = ground arith in
      elim (deliver_cases packet s t h) [
        | inl (kind, received) ↦ on_data_received-IsTcp packet s' t received kind fits j
        | inr (kind, e) ↦
            subst (IsTcp flights) (sym e) (on_ack_received-IsTcp packet s' kind fits j)
      ]

  pub record_drop-IsTcp :
      (a b : Option ℕ) (why : Label) (s : Sim F R)
      → IsTcp flights s
      → IsTcp flights (record_drop a b why s)
  unfolding record_drop
  record_drop-IsTcp a b why s i = ground arith
