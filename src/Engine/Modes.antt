-- ===== src/Engine/Modes.antt =====
-- What the two modes guarantee throughout a session.
use cps344finalproject.Base.{
  ℕ, zero, suc, ◌+◌, ◌≤◌, ◌<◌, ◌≡◌, refl, sym, ap, subst, true, List, [], ◌∷◌, ok, arith, length,
  All, inl, inr, ◌⊎◌, upto, ◌∙◌,
}
use cps344finalproject.Base.Float.{Float, Random}
use cps344finalproject.Packet.{Mode-cases, udp, tcp}
use cps344finalproject.Graph.Manager.{range_from}
use cps344finalproject.Engine.{Sim, Event}
use cps344finalproject.Engine.Send.{schedule, push_event}
use cps344finalproject.Engine.Run.{update}
use cps344finalproject.Engine.Commands.{reset_run_state, start_run, schedule_all}
use cps344finalproject.Engine.Session.{Session, Session-keeps}
use cps344finalproject.Engine.Effects.Starts.{All-clear, goals, fresh, start_run_cases}
use cps344finalproject.Engine.Reliable.{Fits, sends, is_waiting, All-push_event}
use cps344finalproject.Engine.Reliable.Frame.{TcpInv, update-TcpInv}
use cps344finalproject.Engine.Datagram.{IsDatagram, Planned}
use cps344finalproject.Engine.Datagram.Distinct.{length-le_of_distinct}
use cps344finalproject.Engine.Datagram.Frame.{UdpInv, update-UdpInv}

length-push_event :
    {F : Type 0} ⦃fl : Float F⦄ (e : Event F) (es : List (Event F))
    → length (push_event e es) ≡ suc (length es)
unfolding push_event
length-push_event e [] = refl
length-push_event e (x ∷ es) = ground (arith, length-push_event e es)

range_from-lt : (n a goal : ℕ) → a + n ≤ goal → All (λ q. q < goal) (range_from a n)
range_from-lt zero a goal h = tt
range_from-lt (suc n) a goal h = (omega arith, range_from-lt n (suc a) goal (omega arith))

length-range_from : (n a : ℕ) → length (range_from a n) ≡ n
length-range_from zero a = refl
length-range_from (suc n) a = omega (arith, length-range_from n (suc a))

-- What holds in either mode.
abbrev pub ModeInv : {F R : Type 0} → Sim F R → Type 0
ModeInv s = TcpInv s ⊎ UdpInv s

module _ {F R : Type 0} ⦃fl : Float F⦄ where
  -- The sends that `schedule_all` adds are for goals, and there is one for each.
  schedule_all-Planned :
      (goal : ℕ) (l : List ℕ) (s : Sim F R)
      → All (λ q. q < goal) l
      → All (λ (e : Event F). Planned goal e.callback) s.events
      → All (λ (e : Event F). Planned goal e.callback) (schedule_all l s).events
  unfolding schedule_all schedule
  schedule_all-Planned goal [] s h a = a
  schedule_all-Planned goal (x ∷ l) s h a =
      schedule_all-Planned goal l _ h.1
        (All-push_event (λ (e : Event F). Planned goal e.callback) _ s.events h.0 a)

  length-schedule_all :
      (l : List ℕ) (s : Sim F R) → length (schedule_all l s).events ≡ length l + length s.events
  unfolding schedule_all schedule
  length-schedule_all [] s = omega arith
  length-schedule_all (x ∷ l) s =
      omega (arith, length-schedule_all l _, length-push_event _ s.events)

  reset-TcpInv : (s : Sim F R) → s.mode ≡ tcp → TcpInv (reset_run_state true s)
  unfolding reset_run_state
  reset-TcpInv s e = let queues = All-clear (Fits s.packet_goal 0 0) s.routers in ground arith

  reset-UdpInv : (s : Sim F R) → s.mode ≡ udp → UdpInv (reset_run_state true s)
  unfolding reset_run_state
  reset-UdpInv s e = let queues = All-clear (IsDatagram s.packet_goal) s.routers in ground arith

  pub reset-ModeInv : (s : Sim F R) → ModeInv (reset_run_state true s)
  reset-ModeInv s = elim (Mode-cases s.mode) [
    | inl e ↦ inr (reset-UdpInv s e)
    | inr e ↦ inl (reset-TcpInv s e)
  ]

  pub start_run-ModeInv : (s : Sim F R) → ModeInv (start_run s)
  unfolding reset_run_state schedule push_event
  start_run-ModeInv s = elim (start_run_cases s (start_run s) refl) [
    | inl (e, e') ↦
        let before = reset-UdpInv s e in
        let l = goals s.packet_goal in
        let planned =
          schedule_all-Planned s.packet_goal l (fresh s)
            (range_from-lt s.packet_goal 0 s.packet_goal (omega arith)) tt in
        inr (
          subst UdpInv (sym e')
            (ground (arith, length-schedule_all l (fresh s), length-range_from s.packet_goal 0)))
    | inr (e, e') ↦ let before = reset-TcpInv s e in inl (subst TcpInv (sym e') (ground arith))
  ]

module _ {F R : Type 0} ⦃fl : Float F⦄ ⦃rand : Random F R⦄ where
  pub update-ModeInv : (dt_ms : F) (s t : Sim F R) → update dt_ms s ≡ ok t → ModeInv s → ModeInv t
  update-ModeInv dt_ms s t h (inl i) = inl (update-TcpInv dt_ms s t h i)
  update-ModeInv dt_ms s t h (inr i) = inr (update-UdpInv dt_ms s t h i)

  pub Session-ModeInv : {s : Sim F R} → Session s → ModeInv s
  Session-ModeInv h = Session-keeps ModeInv update-ModeInv reset-ModeInv start_run-ModeInv h

  Session-TcpInv : {s : Sim F R} → Session s → s.mode ≡ tcp → TcpInv s
  Session-TcpInv {s} h e = elim (Session-ModeInv h) [
    | inl i ↦ i
    | inr i ↦ absurd (let e' = i.in_udp in ground arith)
  ]

  pub Session-UdpInv : {s : Sim F R} → Session s → s.mode ≡ udp → UdpInv s
  Session-UdpInv {s} h e = elim (Session-ModeInv h) [
    | inl i ↦ absurd (let e' = i.in_tcp in ground arith)
    | inr i ↦ i
  ]

  -- The TCP-like mode is reliable: when a session of it is running and marked completed, every
  -- sequence 0, …, packet_goal - 1 has been delivered, in this order and each once, and counted,
  -- whatever was lost, delayed or duplicated.
  pub tcp_reliable :
      {s : Sim F R}
      → Session s
      → s.mode ≡ tcp
      → s.running ≡ true
      → s.completed ≡ true
      → (s.delivered_sequences ≡ upto s.packet_goal) × (s.stats.packets_delivered ≡ s.packet_goal)
  tcp_reliable {s} h e on done =
      let i = Session-TcpInv h e in
      let m : s.stats.packets_delivered ≡ s.packet_goal =
        omega (arith, i.bounded, i.all_done on done) in
      (i.in_order ∙ ap upto m, m)

  -- In the TCP-like mode the sequences are delivered in order and without gaps, at every moment of
  -- a session, no further than one past the sequence in hand, and at most one transmission is
  -- scheduled or waits for its acknowledgement.
  pub tcp_in_order :
      {s : Sim F R}
      → Session s
      → s.mode ≡ tcp
      → (s.delivered_sequences ≡ upto s.stats.packets_delivered)
        × (s.next_sequence_to_send ≤ s.stats.packets_delivered)
        × (s.stats.packets_delivered ≤ suc s.next_sequence_to_send)
        × (sends s.events + is_waiting s.awaiting_ack ≤ 1)
  tcp_in_order h e = let i = Session-TcpInv h e in (i.in_order, i.low, i.high, i.one_at_a_time)

  -- In either mode no more sequences count as delivered than the goal has, whatever is duplicated.
  pub delivered-le-goal : {s : Sim F R} → Session s → s.stats.packets_delivered ≤ s.packet_goal
  delivered-le-goal {s} h = elim (Session-ModeInv h) [
    | inl i ↦ i.bounded
    | inr i ↦ omega (
      arith,
      i.delivered,
      length-le_of_distinct s.packet_goal s.delivered_sequences i.distinct i.in_goal,
    )
  ]
