-- ===== src/Engine/Overdue.antt =====
-- simulation.py: what `_run_due_events` leaves in the queue.
use cps344finalproject.Base.{
  ℕ, zero, suc, ◌≡◌, refl, sym, subst, Bool-cases, true, false, List, [], ◌∷◌, ok, ok-injective,
  >>=-eq-ok, if-cases, All, All-mono, arith, inl, inr, length, Returns-result,
}
use cps344finalproject.Base.Float.{Float, Random}
use cps344finalproject.Engine.{Sim, Event}
use cps344finalproject.Engine.Run.{run_events, run_due_events}
use cps344finalproject.Engine.Session.{Session}
use cps344finalproject.Engine.Frames.{run_due_events-Returns}
use cps344finalproject.Engine.Checked.{IsNode}
use cps344finalproject.Engine.Ready.{Session-IsReady}
use cps344finalproject.Engine.Queue.{IsTimeOrder, Ascending, callback-InOrder, Session-Ascending}

module _ {F : Type 0} ⦃fl : Float F⦄ where
  -- An event that is not due yet.
  abbrev pub IsWaiting : F → Event F → Type 0
  IsWaiting now e = fl.le e.due_time now ≡ false

  -- When the first event is not due, no event is.
  first-IsWaiting :
      (order : IsTimeOrder fl) (now : F) (e : Event F) (es : List (Event F))
      → IsWaiting now e
      → Ascending (e ∷ es)
      → All (IsWaiting now) (e ∷ es)
  first-IsWaiting order now e es h (after, _) = (
    h,
    All-mono (λ x. fl.le e.due_time x.due_time ≡ true) (IsWaiting now) es
        (λ x k. elim (Bool-cases (fl.le x.due_time now)) [
          | inl due ↦ absurd (ground (arith, order.le_trans e.due_time x.due_time now k due, h))
          | inr waits ↦ waits
        ])
        after,
  )

module _ {F R : Type 0} ⦃fl : Float F⦄ ⦃rand : Random F R⦄ (order : IsTimeOrder fl) where
  abbrev AllWait : Sim F R → Type 0
  AllWait t = All (IsWaiting t.current_time_ms) t.events

  run_events-IsWaiting :
      (fuel : ℕ) (s t : Sim F R) (es : List (Event F))
      → s.events ≡ es
      → run_events fuel s ≡ ok t
      → Ascending s.events
      → AllWait t
  unfolding run_events
  run_events-IsWaiting zero s t [] e h i =
      subst AllWait (ok-injective (simp (e, run_events) at h))
        (subst (All (IsWaiting s.current_time_ms)) (sym e) tt)
  run_events-IsWaiting zero s t (x ∷ es) e h i =
      elim (if-cases (fl.le x.due_time s.current_time_ms) (simp (e, run_events) at h)) [
        | inl (due, cut) ↦ absurd (cc)
        | inr (later, same) ↦ subst AllWait (ok-injective same) (
            subst (All (IsWaiting s.current_time_ms)) (sym e)
              (first-IsWaiting order s.current_time_ms x es later (subst Ascending e i)))
      ]
  run_events-IsWaiting (suc fuel) s t [] e h i =
      subst AllWait (ok-injective (simp (e, run_events) at h))
        (subst (All (IsWaiting s.current_time_ms)) (sym e) tt)
  run_events-IsWaiting (suc fuel) s t (x ∷ es) e h i =
      elim (if-cases (fl.le x.due_time s.current_time_ms) (simp (e, run_events) at h)) [
        | inl (due, called) ↦
            let (s', one, ends) = >>=-eq-ok _ (λ s'. run_events fuel s') called in
            run_events-IsWaiting fuel s' t s'.events refl ends
              (callback-InOrder order s s' x es e one i)
        | inr (later, same) ↦ subst AllWait (ok-injective same) (
            subst (All (IsWaiting s.current_time_ms)) (sym e)
              (first-IsWaiting order s.current_time_ms x es later (subst Ascending e i)))
      ]

  -- At any moment of a session and for any new time, the loop over the due events ends without an
  -- exception, and every event that is left is due later, when adding the retransmission timeout to
  -- the new time gives a later time, for numbers whose comparisons belong together.
  pub due_events_are_run :
      {s : Sim F R}
      → Session s
      → (now : F) → fl.le (fl.add now s.retransmission_timeout_ms) now ≡ false
      → (t : Sim F R) × (run_due_events (record s { current_time_ms = now }) ≡ ok t)
        × All (λ (e : Event F). fl.le e.due_time t.current_time_ms ≡ false) t.events
  unfolding run_due_events
  due_events_are_run {s} h now later =
      let s' = record s { current_time_ms = now } in
      let (t, e, _) = Returns-result (run_due_events-Returns IsNode s' later (Session-IsReady h)) in
      (
        t,
        e,
        run_events-IsWaiting (length s.events) s' t s.events refl e (Session-Ascending order h),
      )
