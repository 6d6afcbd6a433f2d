-- ===== src/Engine/Once.antt =====
-- simulation.py: which sequences a run of the UDP-like mode sends.
use cps344finalproject.Base.{
  ℕ, zero, suc, ◌+◌, ◌≤◌, ◌≡◌, refl, sym, ap, ◌∙◌, subst, true, List, [], ◌∷◌, ◌++◌, ok, ltb, leb,
  ◌&&◌, count, count-append, length, length-append, arith, inl, inr,
}
use cps344finalproject.Base.Float.{Float, Random}
use cps344finalproject.Packet.{udp}
use cps344finalproject.Graph.Manager.{range_from}
use cps344finalproject.Engine.{Sim}
use cps344finalproject.Engine.Send.{schedule, one_if}
use cps344finalproject.Engine.Run.{update}
use cps344finalproject.Engine.Commands.{reset_run_state, start_run, schedule_all}
use cps344finalproject.Engine.Session.{Session, Session-keeps, next, frame}
use cps344finalproject.Engine.Clock.{update-parameters}
use cps344finalproject.Engine.Effects.Starts.{goals, fresh, start_run_cases}
use cps344finalproject.Engine.Datagram.Frame.{UdpInv}
use cps344finalproject.Engine.Datagram.Sends.{
  scheduled, underway, in_routers-clear, count-push_event,
}
use cps344finalproject.Engine.Datagram.Log.{Log, update-Log}
use cps344finalproject.Engine.Modes.{
  ModeInv, update-ModeInv, reset-ModeInv, start_run-ModeInv, Session-UdpInv,
}

count-range_from : (n k a : ℕ) → count n (range_from a k) ≡ one_if (leb a n && ltb n (a + k))
count-range_from n zero a = ground arith
count-range_from n (suc k) a = ground (arith, count-range_from n k (suc a))

count-goals : (n k : ℕ) → count n (goals k) ≡ one_if (ltb n k)
count-goals n k = ground (arith, count-range_from n k 0)

module _ {F R : Type 0} ⦃fl : Float F⦄ where
  count-schedule_all :
      (n : ℕ) (l : List ℕ) (s : Sim F R)
      → count n (scheduled (schedule_all l s).events) ≡ count n l + count n (scheduled s.events)
  unfolding schedule_all schedule
  count-schedule_all n [] s = omega arith
  count-schedule_all n (x ∷ l) s =
      omega (arith, count-schedule_all n l _, count-push_event n _ s.events)

  -- `sent` are the sequences that are sent and no longer scheduled.
  abbrev pub SentOnce : List ℕ → Sim F R → Type 0
  SentOnce sent s =
      (s.stats.packets_sent ≡ length sent + s.stats.duplicate_packets)
      × ((n : ℕ) → count n sent + count n (scheduled s.events) ≡ one_if (ltb n s.packet_goal))
      × ((n : ℕ) → underway n s ≤ count n sent)

  abbrev Once : Sim F R → Type 0
  Once s = s.mode ≡ udp → s.udp_sent_all ≡ true → (sent : List ℕ) × SentOnce sent s

  start_run-each :
      (n : ℕ) (s : Sim F R)
      → count n (scheduled (schedule_all (goals s.packet_goal) (fresh s)).events)
        ≡ one_if (ltb n (fresh s).packet_goal)
  unfolding reset_run_state
  start_run-each n s =
      let goal : one_if (ltb n s.packet_goal) ≡ one_if (ltb n (fresh s).packet_goal) = refl in
      count-schedule_all n (goals s.packet_goal) (fresh s)
      ∙ omega (arith, count-goals n s.packet_goal, goal)

  start_run-Once : (s : Sim F R) → Once (start_run s)
  unfolding reset_run_state schedule
  start_run-Once s = elim (start_run_cases s (start_run s) refl) [
    | inl (_, e) ↦ subst Once (sym e) (λ in_udp started. (
      [],
      (
        refl,
        (λ n. omega (arith, start_run-each n s)),
        (λ n. omega (arith, in_routers-clear n s.routers)),
      ),
    ))
    | inr (in_tcp, e) ↦
        subst Once (sym e) (λ in_udp started. absurd (ground (arith, in_tcp, in_udp)))
  ]

  reset-Once : (s : Sim F R) → Once (reset_run_state true s)
  unfolding reset_run_state
  reset-Once s in_udp started = absurd (ground (arith, started))

module _ {F R : Type 0} ⦃fl : Float F⦄ ⦃rand : Random F R⦄ where
  -- At any moment of a session in the UDP-like mode, a frame sends what comes first in the schedule.
  frame-Log :
      {s t : Sim F R} (dt_ms : F)
      → Session s
      → s.mode ≡ udp
      → update dt_ms s ≡ ok t
      → Log s t.in_flight_packets t
  frame-Log {s} {t} dt_ms h in_udp e = update-Log s dt_ms t e (Session-UdpInv h in_udp)

  update-Once :
      (dt_ms : F) (s t : Sim F R) → update dt_ms s ≡ ok t → ModeInv s × Once s → ModeInv t × Once t
  update-Once dt_ms s t h (mode, once) = (
    update-ModeInv dt_ms s t h mode,
    (λ in_udp started.
        let same = update-parameters dt_ms s t h in
        let was_udp : s.mode ≡ udp = sym (ap (λ p. p.mode) same) ∙ in_udp in
        let i : UdpInv s = elim mode [
          | inl i ↦ absurd (let e = i.in_tcp in ground arith)
          | inr i ↦ i
        ] in
        let (sent, (planned, counted, stems, on)) = update-Log s dt_ms t h i in
        let (before, (total, each, under)) = once was_udp (sym on ∙ started) in
        (
          before ++ sent,
          (
            omega (arith, total, counted, length-append before sent),
            (λ n.
                let goal : one_if (ltb n t.packet_goal) ≡ one_if (ltb n s.packet_goal) =
                  ap (λ p. one_if (ltb n p.packet_goal)) same in
                omega (
                  arith,
                  goal,
                  each n,
                  count-append n before sent,
                  ap (count n) planned,
                  count-append n sent (scheduled t.events),
                )),
            (λ n. omega (arith, stems n, under n, count-append n before sent)),
          ),
        )),
  )

  -- Once a run of the UDP-like mode is started, there are sequences that have been sent, such that
  -- each sequence below the goal is either one of them or still scheduled, once in all, and no other
  -- sequence is; the packets sent are one for each of them and the copies that links made; and of
  -- each of them at most one original packet is underway, and of no other sequence.
  pub udp_sends_once :
      {s : Sim F R}
      → Session s
      → s.mode ≡ udp
      → s.udp_sent_all ≡ true
      → (sent : List ℕ) × (s.stats.packets_sent ≡ length sent + s.stats.duplicate_packets)
        × ((n : ℕ) → count n sent + count n (scheduled s.events) ≡ one_if (ltb n s.packet_goal))
        × ((n : ℕ) → underway n s ≤ count n sent)
  udp_sends_once h in_udp started =
      let (sent, (total, each, under)) =
        (Session-keeps (λ (s : Sim F R). ModeInv s × Once s) update-Once
            (λ s. (reset-ModeInv s, reset-Once s)) (λ s. (start_run-ModeInv s, start_run-Once s))
            h).1
          in_udp started in
      (sent, total, each, under)

  -- Once a run of the UDP-like mode is started, no sequence is sent again and none is acknowledged:
  -- the scheduled sends of a sequence and its original packets underway are together at most one,
  -- and none for a sequence that is not below the goal; a frame that raises no exception does not
  -- increase their number, and after it the counts of retransmissions and of acknowledgements are 0.
  pub udp_never_repeats :
      {s t : Sim F R}
      → Session s
      → s.mode ≡ udp
      → s.udp_sent_all ≡ true
      → (dt_ms : F) → update dt_ms s ≡ ok t
      → (n : ℕ)
      → (count n (scheduled s.events) + underway n s ≤ one_if (ltb n s.packet_goal))
        × (count n (scheduled t.events) + underway n t
            ≤ count n (scheduled s.events) + underway n s)
        × (t.stats.retransmissions ≡ 0)
        × (t.stats.acknowledgements ≡ 0)
  udp_never_repeats {s} {t} h in_udp started dt_ms e n =
      let (_, _, each, under) = udp_sends_once h in_udp started in
      let (sent, (planned, _, stems, _)) = frame-Log dt_ms h in_udp e in
      let i =
        Session-UdpInv (next h (frame dt_ms e))
          (ap (λ p. p.mode) (update-parameters dt_ms s t e) ∙ in_udp) in
      (
        omega (arith, each n, under n),
        omega (arith, stems n, ap (count n) planned, count-append n sent (scheduled t.events)),
        i.never_again,
        i.no_acks,
      )
