-- ===== src/Engine/Clock.antt =====
-- The clock of a run: what a frame leaves alone, and when the clock ends the run.
use cps344finalproject.Base.{
  ◌≡◌, refl, ap, ◌∙◌, true, false, some, ok, arith, if-cases, inl, inr, sym, ok-injective,
}
use cps344finalproject.Base.Float.{Float, Random}
use cps344finalproject.Engine.{Sim}
use cps344finalproject.Engine.Run.{
  update, run_frame, check_finished, finish_run, update_packet_events,
}
use cps344finalproject.Engine.Rule.{Works, loops-keep}
use cps344finalproject.Engine.Rounds.{run_frame_cases, at_time}
use cps344finalproject.Engine.Effects.Kept.{
  kept, parameters, run_callback-kept, dispatch_packet-kept, land-kept,
}

module _ {F R : Type 0} ⦃fl : Float F⦄ ⦃rand : Random F R⦄ where
  kept-Works : (s₀ : Sim F R) → Works (λ (s : Sim F R). kept s ≡ kept s₀)
  kept-Works s₀ = record {
    callback = λ s t e es head called same. run_callback-kept e.callback _ t called ∙ same;
    dispatch = λ s t id router packet rest found queue h same.
        dispatch_packet-kept id router packet rest s t h ∙ same;
    stays = λ s f l dt same. same;
    lands = λ s t f l dt h same. land-kept _ s t h ∙ same;
  }

  -- A frame is over when its loops are: the check at its end sees the new time.
  frame_cases :
      (dt : F) (s t : Sim F R)
      → run_frame dt s ≡ ok t
      → (u : Sim F R) × (kept u ≡ kept (at_time dt s)) × (t ≡ check_finished u)
  frame_cases dt s t h =
      let (s₁, s₂, u, called, sent, moved, e) = run_frame_cases dt s t h in
      let now = at_time dt s in
      (u, loops-keep _ (kept-Works now) dt now s₁ s₂ u called sent moved refl, e)

  check_finished-stops :
      (u : Sim F R)
      → u.running ≡ true
      → fl.le u.max_runtime_ms u.current_time_ms ≡ true
      → ((check_finished u).running ≡ false)
        × ((check_finished u).completed ≡ true)
        × ((check_finished u).stats.end_time_ms ≡ some u.current_time_ms)
  unfolding check_finished finish_run
  check_finished-stops u on late = ground arith

  -- A frame that takes the clock of a running simulation to its limit, and raises no exception,
  -- ends the run at that time, whatever is still scheduled or under way.
  pub update-stops :
      (dt : F) (s t : Sim F R)
      → update dt s ≡ ok t
      → s.running ≡ true
      → fl.le s.max_runtime_ms (fl.add s.current_time_ms dt) ≡ true
      → (t.running ≡ false)
        × (t.completed ≡ true)
        × (t.stats.end_time_ms ≡ some (fl.add s.current_time_ms dt))
  unfolding update update_packet_events
  update-stops dt s t h on late = elim (if-cases s.running h) [
    | inr (off, _) ↦ absurd (ground arith)
    | inl (_, ran) ↦
        let (u, same, e) = frame_cases dt _ t ran in
        let time : u.current_time_ms ≡ fl.add s.current_time_ms dt = ap (λ k. k.0) same in
        let runs : u.running ≡ true = ap (λ k. k.1) same ∙ on in
        let limit : u.max_runtime_ms ≡ s.max_runtime_ms = ap (λ k. k.2.max_runtime_ms) same in
        let stop =
          check_finished-stops u runs
            (ap (λ x. fl.le x u.current_time_ms) limit ∙ ap (fl.le s.max_runtime_ms) time ∙ late) in
        (
          ap (λ (v : Sim F R). v.running) e ∙ stop.0,
          ap (λ (v : Sim F R). v.completed) e ∙ stop.1,
          ap (λ (v : Sim F R). v.stats.end_time_ms) e ∙ stop.2 ∙ ap some time,
        )
  ]

  check_finished-parameters : (u : Sim F R) → parameters (check_finished u) ≡ parameters u
  unfolding check_finished finish_run
  check_finished-parameters u = ground arith

  -- A frame that raises no exception changes nothing that the user has set: the limits, the mode, the goal, the endpoints,
  -- the port, the kind of routers, the conditions and the topology.
  pub update-parameters :
      (dt : F) (s t : Sim F R) → update dt s ≡ ok t → parameters t ≡ parameters s
  unfolding update update_packet_events
  update-parameters dt s t h = elim (if-cases s.running h) [
    | inr (_, same) ↦ ap parameters (sym (ok-injective same))
    | inl (_, ran) ↦
        let (u, same, e) = frame_cases dt _ t ran in
        ap parameters e ∙ check_finished-parameters u ∙ ap (λ k. k.2) same
  ]
