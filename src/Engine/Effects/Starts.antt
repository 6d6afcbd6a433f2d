-- ===== src/Engine/Effects/Starts.antt =====
-- What a reset and the start of a run leave behind.
use cps344finalproject.Base.{
  ℕ, ◌≡◌, refl, ap, ◌∙◌, true, List, [], ◌∷◌, map, Dict, All, inl, inr, ◌⊎◌,
}
use cps344finalproject.Base.Float.{Float, num}
use cps344finalproject.Packet.{Packet, Mode, udp, tcp}
use cps344finalproject.Stats.{mark_started}
use cps344finalproject.Router.{Router}
use cps344finalproject.Engine.{Sim, call_send}
use cps344finalproject.Engine.Send.{schedule}
use cps344finalproject.Engine.Commands.{clear_router, reset_run_state, schedule_all, start_run}
use cps344finalproject.Graph.Manager.{range_from}

-- A reset router has an empty queue.
pub All-clear :
    {F : Type 0} ⦃fl : Float F⦄ (P : Packet → Type 0) (m : Dict (Router F))
    → All (λ (e : ℕ × Router F). All P e.1.queue) (map clear_router m)
All-clear P [] = tt
All-clear P ((id, r) ∷ m) = (tt, All-clear P m)

-- The sequence numbers 0, …, n - 1 that a run of the UDP-like mode schedules.
abbrev pub goals : ℕ → List ℕ
goals = range_from 0

module _ {F R : Type 0} ⦃fl : Float F⦄ where
  -- Scheduling touches the events and their counter.
  pub schedule_all-eq :
      (l : List ℕ) (s : Sim F R)
      → schedule_all l s ≡ record s {
        events = (schedule_all l s).events;
        next_event_id = (schedule_all l s).next_event_id;
      }
  unfolding schedule_all schedule
  schedule_all-eq [] s = refl
  schedule_all-eq (x ∷ l) s =
      schedule_all-eq l (schedule (fl.mul (num x) s.send_interval_ms) (call_send x) s)

  -- The state that a run starts from.
  abbrev pub fresh : Sim F R → Sim F R
  fresh s =
      let r = reset_run_state true s in
      record r { running = true; stats = mark_started r.current_time_ms r.stats }

  pub start_run_cases :
      (s t : Sim F R)
      → t ≡ start_run s
      → ((s.mode ≡ udp)
          × (t ≡ record (fresh s) {
            events = (schedule_all (goals s.packet_goal) (fresh s)).events;
            next_event_id = (schedule_all (goals s.packet_goal) (fresh s)).next_event_id;
            udp_sent_all = true;
          }))
        ⊎ ((s.mode ≡ tcp) × (t ≡ schedule (num 0) (call_send 0) (fresh s)))
  unfolding start_run reset_run_state
  start_run_cases s t h = go s.mode refl h
    where
      go :
          (m : Mode)
          → s.mode ≡ m
          → t ≡ elim m [
            | udp ↦ record (schedule_all (goals s.packet_goal) (fresh s)) { udp_sent_all = true }
            | tcp ↦ schedule (num 0) (call_send 0) (fresh s)
          ]
          → ((s.mode ≡ udp)
              × (t ≡ record (fresh s) {
                events = (schedule_all (goals s.packet_goal) (fresh s)).events;
                next_event_id = (schedule_all (goals s.packet_goal) (fresh s)).next_event_id;
                udp_sent_all = true;
              }))
            ⊎ ((s.mode ≡ tcp) × (t ≡ schedule (num 0) (call_send 0) (fresh s)))
      go udp e h = inl (
        e,
        h
            ∙ ap (λ (u : Sim F R). record u { udp_sent_all = true })
                (schedule_all-eq (goals s.packet_goal) (fresh s)),
      )
      go tcp e h = inr (e, h)
