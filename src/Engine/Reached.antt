-- ===== src/Engine/Reached.antt =====
-- Sessions of the sample numbers, and where they have come to.
use cps344finalproject.Base.{
  ℕ, ◌≡◌, refl, some, true, List, [], ◌∷◌, ok, >>=-eq-ok, ok-injective, subst,
}
use cps344finalproject.Base.Float.{num}
use cps344finalproject.Base.Fixed.{ℤ, fixed, congruential}
use cps344finalproject.Packet.{udp, tcp}
use cps344finalproject.Engine.{Sim, new_engine}
use cps344finalproject.Graph.Manager.{new_manager}
use cps344finalproject.Engine.Run.{update}
use cps344finalproject.Engine.Commands.{
  setup_topology, start_run, toggle_mode, key_space, key_m, handle_keydown,
}
use cps344finalproject.Engine.Session.{Session, begin, next, frame, press}
use cps344finalproject.Base.{is_ok}
use cps344finalproject.Engine.Samples.{
  program, frames, replicate, booted, tcp_done, udp_done, udp_early, value_of_lem,
}

frames-Session : (dts : List ℕ) {s t : Sim ℤ ℕ} → frames dts s ≡ ok t → Session s → Session t
frames-Session [] h before = subst Session (ok-injective h) before
frames-Session (dt ∷ dts) {s} h before =
    let (u, e, rest) = >>=-eq-ok (update (num dt) s) (frames dts) h in
    frames-Session dts rest (next before (frame (num dt) e))

setup-is_ok :
    is_ok (setup_topology (some "Campus Backbone") (new_engine {F = ℤ} {R = ℕ} new_manager)) ≡ true
unfolding program
setup-is_ok = refl

pub booted-Session : Session booted
unfolding booted
booted-Session = begin (value_of_lem _ _ setup-is_ok)

tcp_run-is_ok : is_ok (frames (replicate 80 250) (start_run (toggle_mode booted))) ≡ true
unfolding program booted
tcp_run-is_ok = refl

tcp_started : Session (start_run (toggle_mode booted))
unfolding handle_keydown
tcp_started = next (next booted-Session (press key_m refl)) (press key_space refl)

pub tcp_done-Session : Session tcp_done
unfolding tcp_done
tcp_done-Session = frames-Session (replicate 80 250) (value_of_lem _ _ tcp_run-is_ok) tcp_started

pub tcp_done-mode : tcp_done.mode ≡ tcp
unfolding program booted tcp_done
tcp_done-mode = refl

pub tcp_done-running : tcp_done.running ≡ true
unfolding program booted tcp_done
tcp_done-running = refl

pub tcp_done-completed : tcp_done.completed ≡ true
unfolding program booted tcp_done
tcp_done-completed = refl

udp_run-is_ok : is_ok (frames (replicate 20 250) (start_run booted)) ≡ true
unfolding program booted
udp_run-is_ok = refl

udp_started : Session (start_run booted)
unfolding handle_keydown
udp_started = next booted-Session (press key_space refl)

pub udp_done-Session : Session udp_done
unfolding udp_done
udp_done-Session = frames-Session (replicate 20 250) (value_of_lem _ _ udp_run-is_ok) udp_started

pub udp_done-mode : udp_done.mode ≡ udp
unfolding program booted udp_done
udp_done-mode = refl

pub udp_done-started : udp_done.udp_sent_all ≡ true
unfolding program booted udp_done
udp_done-started = refl

early_run-is_ok : is_ok (frames (replicate 4 250) (start_run booted)) ≡ true
unfolding program booted
early_run-is_ok = refl

pub udp_early-Session : Session udp_early
unfolding udp_early
udp_early-Session = frames-Session (replicate 4 250) (value_of_lem _ _ early_run-is_ok) udp_started

pub udp_early-mode : udp_early.mode ≡ udp
unfolding program booted udp_early
udp_early-mode = refl

pub udp_early-started : udp_early.udp_sent_all ≡ true
unfolding program booted udp_early
udp_early-started = refl
