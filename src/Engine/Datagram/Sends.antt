-- ===== src/Engine/Datagram/Sends.antt =====
-- simulation.py: which sequences are scheduled to be sent, and which original packets are underway.
use cps344finalproject.Base.{
  ℕ, ◌+◌, ◌≡◌, refl, some, List, [], ◌∷◌, ◌++◌, Dict, lookup, insert, map, if◌then◌else◌, ◌==◌,
  count, count-append, if-both, arith,
}
use cps344finalproject.Base.Float.{Float}
use cps344finalproject.Packet.{Packet, InFlightPacket}
use cps344finalproject.Router.{Router}
use cps344finalproject.Engine.{Sim, Event, Callback, call_send, call_timeout}
use cps344finalproject.Engine.Send.{push_event, event_lt}
use cps344finalproject.Engine.Commands.{clear_router}

-- The sequences of the sends that are scheduled.
abbrev pub to_send : Callback → List ℕ
to_send (call_send sequence) = sequence ∷ []
to_send (call_timeout _ _) = []

abbrev pub scheduled : {F : Type 0} → List (Event F) → List ℕ
scheduled [] = []
scheduled (e ∷ es) = to_send e.callback ++ scheduled es

-- 1 for a packet with the sequence that is no copy made by a link.
abbrev pub is_original : ℕ → Packet → ℕ
is_original n p = if p.duplicate then 0 else if p.sequence == n then 1 else 0

abbrev pub waiting : ℕ → List Packet → ℕ
waiting n [] = 0
waiting n (p ∷ ps) = is_original n p + waiting n ps

abbrev pub in_routers : {F : Type 0} → ℕ → Dict (Router F) → ℕ
in_routers n [] = 0
in_routers n ((_, router) ∷ routers) = waiting n router.queue + in_routers n routers

abbrev pub on_links : {F : Type 0} → ℕ → List (InFlightPacket F) → ℕ
on_links n [] = 0
on_links n (f ∷ fs) = is_original n f.packet + on_links n fs

-- How many original packets with the sequence are in the network.
abbrev pub underway : {F R : Type 0} → ℕ → Sim F R → ℕ
underway n s = in_routers n s.routers + on_links n s.in_flight_packets

pub waiting-concat :
    (n : ℕ) (ps : List Packet) (p : Packet)
    → waiting n (ps ++ p ∷ []) ≡ waiting n ps + is_original n p
waiting-concat n [] p = omega arith
waiting-concat n (q ∷ ps) p = omega (arith, waiting-concat n ps p)

pub on_links-concat :
    {F : Type 0} (n : ℕ) (fs : List (InFlightPacket F)) (f : InFlightPacket F)
    → on_links n (fs ++ f ∷ []) ≡ on_links n fs + is_original n f.packet
on_links-concat n [] f = omega arith
on_links-concat n (g ∷ fs) f = omega (arith, on_links-concat n fs f)

pub in_routers-insert :
    {F : Type 0} (n k : ℕ) (new old : Router F) (m : Dict (Router F))
    → lookup k m ≡ some old
    → in_routers n (insert k new m) + waiting n old.queue ≡ in_routers n m + waiting n new.queue
in_routers-insert n k new old [] h = cc
in_routers-insert n k new old ((j, r) ∷ m) h = ground (arith, in_routers-insert n k new old m)

pub in_routers-clear :
    {F : Type 0} ⦃fl : Float F⦄ (n : ℕ) (m : Dict (Router F))
    → in_routers n (map clear_router m) ≡ 0
in_routers-clear n [] = refl
in_routers-clear n ((id, r) ∷ m) = omega (arith, in_routers-clear n m)

pub count-push_event :
    {F : Type 0} ⦃fl : Float F⦄ (n : ℕ) (e : Event F) (es : List (Event F))
    → count n (scheduled (push_event e es)) ≡ count n (to_send e.callback) + count n (scheduled es)
unfolding push_event
count-push_event n e [] = count-append n (to_send e.callback) []
count-push_event n e (x ∷ es) =
    if-both
      (λ l.
        count n (scheduled l)
        ≡ count n (to_send e.callback) + count n (to_send x.callback ++ scheduled es))
      (event_lt e x) {x = e ∷ x ∷ es} {y = x ∷ push_event e es}
      (count-append n (to_send e.callback) (to_send x.callback ++ scheduled es))
      (omega (
        arith,
        count-append n (to_send x.callback) (scheduled (push_event e es)),
        count-append n (to_send x.callback) (scheduled es),
        count-push_event n e es,
      ))
