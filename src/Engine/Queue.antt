-- ===== src/Engine/Queue.antt =====
-- simulation.py: the order of the event queue.
use cps344finalproject.Base.{
  ℕ, ◌+◌, ◌≡◌, refl, sym, subst, Bool, Bool-cases, true, false, Option, none, some, List, [], ◌∷◌,
  ok, if-cases, if-true, if-false, if-both, All, All-mono, member, leb, opt_eq, inl, inr,
}
use cps344finalproject.Base.Float.{Float, Random}
use cps344finalproject.Packet.{Packet, InFlightPacket, Mode-cases}
use cps344finalproject.Router.{Router}
use cps344finalproject.Engine.{Sim, Event, Callback, call_send, call_timeout}
use cps344finalproject.Engine.Send.{
  event_lt, push_event, schedule, make_packet, send_data, send_ack,
}
use cps344finalproject.Engine.Receive.{
  arrived, record_drop, record_delivery, note_sequence, on_ack_received, accept_ack, deliver,
}
use cps344finalproject.Engine.Run.{run_callback, dispatch_packet, land, age}
use cps344finalproject.Engine.Commands.{reset_run_state, schedule_all, start_run}
use cps344finalproject.Engine.Effects.{enqueue_at-eq-ok}
use cps344finalproject.Engine.Effects.Links.{launch_link_cases}
use cps344finalproject.Engine.Effects.Starts.{start_run_cases, fresh, goals}
use cps344finalproject.Engine.Effects.Calls.{
  inject_packet-eq-ok, send_data_cases, on_timeout_cases, on_data_received_cases, deliver_cases,
  land_cases, dispatch_packet_cases, await_ack-tcp, await_ack-udp, taken,
}
use cps344finalproject.Engine.Rule.{Keeps, update-keeps}
use cps344finalproject.Engine.Session.{Session, Session-keeps}

-- What the order of the due times needs: `<`, `<=` and `==` belong together.
pub record IsTimeOrder {F : Type 0} (fl : Float F) : Type 0 where
  pub le_of_lt : (a b : F) → fl.lt a b ≡ true → fl.le a b ≡ true
  pub le_of_not_lt : (a b : F) → fl.lt a b ≡ false → fl.le b a ≡ true
  pub le_of_eq : (a b : F) → fl.eq a b ≡ true → (fl.le a b ≡ true) × (fl.le b a ≡ true)
  pub le_trans : (a b c : F) → fl.le a b ≡ true → fl.le b c ≡ true → fl.le a c ≡ true

module _ {F : Type 0} ⦃fl : Float F⦄ where
  -- An event that is due no earlier than the other.
  abbrev IsAfter : Event F → Event F → Type 0
  IsAfter e x = fl.le e.due_time x.due_time ≡ true

  abbrev pub Ascending : List (Event F) → Type 0
  Ascending [] = Unit
  Ascending (e ∷ es) = All (IsAfter e) es × Ascending es

  module _ (order : IsTimeOrder fl) where
    event_lt-true : (a b : Event F) → event_lt a b ≡ true → IsAfter a b
    event_lt-true a b h = elim (if-cases (fl.eq a.due_time b.due_time) h) [
      | inl (same, _) ↦ (order.le_of_eq a.due_time b.due_time same).0
      | inr (_, before) ↦ order.le_of_lt a.due_time b.due_time before
    ]

    event_lt-false : (a b : Event F) → event_lt a b ≡ false → IsAfter b a
    event_lt-false a b h = elim (if-cases (fl.eq a.due_time b.due_time) h) [
      | inl (same, _) ↦ (order.le_of_eq a.due_time b.due_time same).1
      | inr (_, after) ↦ order.le_of_not_lt a.due_time b.due_time after
    ]

    push-All :
        (P : Event F → Type 0) (e : Event F) (es : List (Event F))
        → P e
        → All P es
        → All P (push_event e es)
    unfolding push_event
    push-All P e [] h i = (h, tt)
    push-All P e (x ∷ es) h i = if-both (All P) (event_lt e x) (h, i) (i.0, push-All P e es h i.1)

    push-Ascending :
        (e : Event F) (es : List (Event F)) → Ascending es → Ascending (push_event e es)
    unfolding push_event
    push-Ascending e [] h = (tt, tt)
    push-Ascending e (x ∷ es) h = elim (Bool-cases (event_lt e x)) [
      | inl before ↦
          let first = event_lt-true e x before in
          subst Ascending (sym (if-true (event_lt e x) _ _ before)) (
            (
              first,
              All-mono (IsAfter x) (IsAfter e) es
                  (λ y k. order.le_trans e.due_time x.due_time y.due_time first k) h.0,
            ),
            h,
          )
      | inr after ↦
          subst Ascending (sym (if-false (event_lt e x) _ _ after))
            (push-All (IsAfter x) e es (event_lt-false e x after) h.0, push-Ascending e es h.1)
    ]

module _ {F R : Type 0} ⦃fl : Float F⦄ ⦃rand : Random F R⦄ (order : IsTimeOrder fl) where
  abbrev InOrder : Sim F R → Type 0
  InOrder s = Ascending s.events

  schedule-InOrder :
      (delay : F) (c : Callback) (s : Sim F R) → InOrder s → InOrder (schedule delay c s)
  unfolding schedule
  schedule-InOrder delay c s i = push-Ascending order _ s.events i

  send_data-InOrder :
      (sequence : ℕ) (again : Bool) (s t : Sim F R)
      → send_data sequence again s ≡ ok t
      → InOrder s
      → InOrder t
  send_data-InOrder sequence again s t h i = elim (send_data_cases sequence again s t h) [
    | inl (_, same) ↦ subst InOrder (sym same) i
    | inr (u, _, injected, e) ↦
        let (router, _, e') = inject_packet-eq-ok _ _ u injected in
        let j : InOrder u = subst InOrder (sym e') i in
        subst InOrder (sym e) (elim (Mode-cases u.mode) [
          | inl m ↦ subst InOrder (sym (await_ack-udp sequence u m)) j
          | inr m ↦ subst InOrder (sym (await_ack-tcp sequence u m)) (schedule-InOrder _ _ _ j)
        ])
  ]

  send_ack-InOrder :
      (sequence : ℕ) (s t : Sim F R) → send_ack sequence s ≡ ok t → InOrder s → InOrder t
  unfolding send_ack make_packet
  send_ack-InOrder sequence s t h i =
      let (router, _, e) = inject_packet-eq-ok _ _ t h in subst InOrder (sym e) i

  note_sequence-InOrder :
      (sequence : ℕ) (s : Sim F R) → InOrder s → InOrder (note_sequence sequence s)
  unfolding note_sequence
  note_sequence-InOrder sequence s i = elim (Bool-cases (member sequence s.delivered_sequences)) [
    | inl old ↦ subst InOrder (sym (if-true _ _ _ old)) i
    | inr new ↦ subst InOrder (sym (if-false _ _ _ new)) i
  ]

  accept_ack-InOrder : (acked : Option ℕ) (s : Sim F R) → InOrder s → InOrder (accept_ack acked s)
  unfolding accept_ack
  accept_ack-InOrder none s i = i
  accept_ack-InOrder (some acked) s i = elim (Bool-cases (leb s.packet_goal (acked + 1))) [
    | inl last ↦ subst InOrder (sym (if-true _ _ _ last)) i
    | inr more ↦ subst InOrder (sym (if-false _ _ _ more)) (schedule-InOrder _ _ _ i)
  ]

  on_ack_received-InOrder :
      (packet : Packet) (s : Sim F R) → InOrder s → InOrder (on_ack_received packet s)
  unfolding on_ack_received
  on_ack_received-InOrder packet s i = elim (Bool-cases (opt_eq s.awaiting_ack packet.ack_for)) [
    | inl this ↦ subst InOrder (sym (if-true _ _ _ this)) (accept_ack-InOrder packet.ack_for _ i)
    | inr late ↦ subst InOrder (sym (if-false _ _ _ late)) i
  ]

  deliver-InOrder :
      (packet : Packet) (s t : Sim F R) → deliver packet s ≡ ok t → InOrder s → InOrder t
  unfolding record_delivery
  deliver-InOrder packet s t h i = elim (deliver_cases packet s t h) [
    | inr (_, e) ↦
        subst InOrder (sym e) (on_ack_received-InOrder packet (record_delivery packet s) i)
    | inl (_, received) ↦
        let counted = note_sequence-InOrder packet.sequence (record_delivery packet s) i in
        elim (on_data_received_cases packet _ t received) [
          | inl (_, e) ↦ subst InOrder (sym e) counted
          | inr (_, acked) ↦ send_ack-InOrder packet.sequence _ t acked counted
        ]
  ]

  run_callback-InOrder :
      (c : Callback) (s t : Sim F R) → run_callback c s ≡ ok t → InOrder s → InOrder t
  unfolding run_callback
  run_callback-InOrder (call_send sequence) s t h i = send_data-InOrder sequence false s t h i
  run_callback-InOrder (call_timeout sequence token) s t h i =
      elim (on_timeout_cases sequence token s t h) [
        | inl same ↦ subst InOrder (sym same) i
        | inr (_, _, _, sent) ↦ send_data-InOrder sequence true s t sent i
      ]

  dispatch_packet-InOrder :
      (id : ℕ) (router : Router F) (packet : Packet) (rest : List Packet) (s t : Sim F R)
      → dispatch_packet id router packet rest s ≡ ok t
      → InOrder s
      → InOrder t
  unfolding record_drop
  dispatch_packet-InOrder id router packet rest s t h i =
      elim (dispatch_packet_cases id router packet rest s t h) [
        | inl (_, dropped) ↦ subst InOrder (sym dropped) i
        | inr (hop, _, launched) ↦
            let (u, flown, copied) =
              launch_link_cases packet router.router_id hop (taken id router rest s) t launched in
            let j = subst InOrder (sym flown.result) i in
            elim copied [
              | inl (g, e) ↦ subst InOrder (sym e) j
              | inr (g, twice) ↦ subst InOrder (sym twice.flown.result) j
            ]
      ]

  land-InOrder : (f : InFlightPacket F) (s t : Sim F R) → land f s ≡ ok t → InOrder s → InOrder t
  unfolding record_drop
  land-InOrder f s t h i = elim (land_cases f s t h) [
    | inl (inl lost) ↦ subst InOrder (sym lost) i
    | inl (inr (_, delivered)) ↦ deliver-InOrder (arrived f) s t delivered i
    | inr (_, onward) ↦
        let (router, _, e) = enqueue_at-eq-ok _ _ s t onward in subst InOrder (sym e) i
  ]

  pub callback-InOrder :
      (s t : Sim F R) (e : Event F) (es : List (Event F))
      → s.events ≡ e ∷ es
      → run_callback e.callback (record s { events = es }) ≡ ok t
      → InOrder s
      → InOrder t
  callback-InOrder s t e es head called i =
      run_callback-InOrder e.callback _ t called ((subst Ascending head i).1)

  InOrder-Keeps : Keeps {F = F} {R = R} InOrder
  InOrder-Keeps = record {
    works = record {
      callback = callback-InOrder;
      dispatch = λ s t id router packet rest found queue h i.
          dispatch_packet-InOrder id router packet rest s t h i;
      stays = λ s f l dt i. i;
      lands = λ s t f l dt h i. land-InOrder (age dt f) s t h i;
    };
    marks = λ s dt i. i;
    clock = λ s t i. i;
    finish = λ s on i. i;
  }

  schedule_all-InOrder : (l : List ℕ) (s : Sim F R) → InOrder s → InOrder (schedule_all l s)
  unfolding schedule_all
  schedule_all-InOrder [] s i = i
  schedule_all-InOrder (x ∷ l) s i = schedule_all-InOrder l _ (schedule-InOrder _ _ s i)

  start_run-InOrder : (s : Sim F R) → InOrder (start_run s)
  unfolding reset_run_state
  start_run-InOrder s = elim (start_run_cases s (start_run s) refl) [
    | inl (_, e) ↦ subst InOrder (sym e) (schedule_all-InOrder (goals s.packet_goal) (fresh s) tt)
    | inr (_, e) ↦ subst InOrder (sym e) (schedule-InOrder _ _ (fresh s) tt)
  ]

  reset-InOrder : (u : Sim F R) → InOrder (reset_run_state true u)
  unfolding reset_run_state
  reset-InOrder u = tt

  -- At every moment of a session the events stand in the order in which `heappop` returns them, that
  -- of their due times, for numbers whose comparisons belong together. The array of `heapq` is only
  -- partly in order.
  pub Session-Ascending : {s : Sim F R} → Session s → Ascending s.events
  Session-Ascending h =
      Session-keeps InOrder (λ dt s t e i. update-keeps InOrder InOrder-Keeps dt s t e i)
        reset-InOrder start_run-InOrder h
