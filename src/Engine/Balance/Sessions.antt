-- ===== src/Engine/Balance/Sessions.antt =====
-- The counters are in balance throughout a session.
use cps344finalproject.Base.{
  ◌≡◌, refl, sym, subst, true, [], ◌∷◌, map, Dict, arith, length, inl, inr,
}
use cps344finalproject.Base.Float.{Float, Random}
use cps344finalproject.Router.{Router}
use cps344finalproject.Engine.{Sim}
use cps344finalproject.Engine.Send.{schedule}
use cps344finalproject.Engine.Commands.{clear_router, reset_run_state, start_run}
use cps344finalproject.Engine.Session.{Session, Session-keeps}
use cps344finalproject.Engine.Effects.Starts.{start_run_cases}
use cps344finalproject.Engine.Balance.{queued, IsBalanced}
use cps344finalproject.Engine.Balance.Frame.{update-IsBalanced}

queued-clear : {F : Type 0} ⦃fl : Float F⦄ (m : Dict (Router F)) → queued (map clear_router m) ≡ 0
queued-clear [] = refl
queued-clear (_ ∷ m) = omega (arith, queued-clear m)

module _ {F R : Type 0} ⦃fl : Float F⦄ where
  reset-IsBalanced :
      (s : Sim F R)
      → IsBalanced (length (reset_run_state true s).in_flight_packets) (reset_run_state true s)
  unfolding reset_run_state
  reset-IsBalanced s = ground (arith, queued-clear s.routers)

  start_run-IsBalanced :
      (s : Sim F R) → IsBalanced (length (start_run s).in_flight_packets) (start_run s)
  unfolding reset_run_state schedule
  start_run-IsBalanced s =
      let P = λ (t : Sim F R). IsBalanced (length t.in_flight_packets) t in
      let r = reset-IsBalanced s in
      elim (start_run_cases s (start_run s) refl) [
        | inl (_, e) ↦ subst P (sym e) (ground arith)
        | inr (_, e) ↦ subst P (sym e) (ground arith)
      ]

module _ {F R : Type 0} ⦃fl : Float F⦄ ⦃rand : Random F R⦄ where
  -- In every state of a session the packets delivered for the first time, the packets dropped and
  -- the packets that wait in a router or are on a link were all counted as sent, and are at most
  -- as many; so are the retransmissions, duplicates and acknowledgements together; the count of
  -- deliveries is the number of sequences delivered, and the statistics name the same sequences.
  pub Session-IsBalanced : {s : Sim F R} → Session s → IsBalanced (length s.in_flight_packets) s
  Session-IsBalanced h =
      Session-keeps (λ (s : Sim F R). IsBalanced (length s.in_flight_packets) s) update-IsBalanced
        reset-IsBalanced start_run-IsBalanced h
