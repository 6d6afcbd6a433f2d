-- ===== src/Engine/Rounds.antt =====
-- What one round of a loop of `update` has done that raised no exception.
use cps344finalproject.Base.{
  ℕ, suc, ◌≡◌, refl, some, List, [], ◌∷◌, ◌++◌, lookup, ok, or_raise, key_error, >>=-eq-ok,
  or_raise-eq-ok, if◌then◌else◌, if-cases, inl, inr, ◌⊎◌,
}
use cps344finalproject.Base.Float.{Float, Random, num}
use cps344finalproject.Packet.{Packet, InFlightPacket}
use cps344finalproject.Router.{Router}
use cps344finalproject.Engine.{Sim, Event}
use cps344finalproject.Engine.Run.{
  run_callback, run_events, run_due_events, dispatch_packet, dispatch_router, dispatch_routers, age,
  land, advance_all, advance_in_flight_packets, check_finished, run_frame,
}

module _ {F R : Type 0} ⦃fl : Float F⦄ ⦃rand : Random F R⦄ where
  pub run_events_cases :
      (fuel : ℕ) (s t : Sim F R) (x : Event F) (es : List (Event F))
      → s.events ≡ x ∷ es
      → run_events (suc fuel) s ≡ ok t
      → (t ≡ s)
        ⊎ ((s' : Sim F R) × (run_callback x.callback (record s { events = es }) ≡ ok s')
            × (run_events fuel s' ≡ ok t))
  unfolding run_events
  run_events_cases fuel s t x es e h =
      elim (if-cases (fl.le x.due_time s.current_time_ms) (simp (e, run_events) at h)) [
        | inl (due, called) ↦ inr (>>=-eq-ok _ (λ s'. run_events fuel s') called)
        | inr (later, same) ↦ inl (cc)
      ]

  pub dispatch_router_cases :
      (id : ℕ) (s t : Sim F R)
      → dispatch_router id s ≡ ok t
      → (t ≡ s)
        ⊎ ((router : Router F) × (packet : Packet) × (rest : List Packet) × (lookup id s.routers
              ≡ some router)
            × (router.queue ≡ packet ∷ rest)
            × (dispatch_packet id router packet rest s ≡ ok t))
  unfolding dispatch_router
  dispatch_router_cases id s t h =
      let (router, found, h') = >>=-eq-ok (or_raise (lookup id s.routers) key_error) _ h in
      go router (or_raise-eq-ok (lookup id s.routers) key_error found) router.queue refl h'
    where
      go :
          (router : Router F)
          → lookup id s.routers ≡ some router
          → (queue : List Packet) → router.queue ≡ queue
          → elim queue [
            | [] ↦ ok s
            | packet ∷ rest ↦
                if fl.lt s.current_time_ms router.next_available_time_ms
                then ok s
                else dispatch_packet id router packet rest s
          ]
            ≡ ok t
          → (t ≡ s)
            ⊎ ((router : Router F) × (packet : Packet) × (rest : List Packet) × (lookup id s.routers
                  ≡ some router)
                × (router.queue ≡ packet ∷ rest)
                × (dispatch_packet id router packet rest s ≡ ok t))
      go router found [] e h = inl (cc)
      go router found (packet ∷ rest) e h =
          elim (if-cases (fl.lt s.current_time_ms router.next_available_time_ms) h) [
            | inl (waits, same) ↦ inl (cc)
            | inr (free, sent) ↦ inr (router, packet, rest, found, e, sent)
          ]

  pub advance_all_cases :
      (dt : F) (f : InFlightPacket F) (fs remaining : List (InFlightPacket F)) (s t : Sim F R)
      → advance_all dt (f ∷ fs) remaining s ≡ ok t
      → (advance_all dt fs (remaining ++ age dt f ∷ []) s ≡ ok t)
        ⊎ ((s' : Sim F R) × (land (age dt f) s ≡ ok s') × (advance_all dt fs remaining s' ≡ ok t))
  unfolding advance_all
  advance_all_cases dt f fs remaining s t h =
      elim (if-cases (fl.lt (num 0) (age dt f).remaining_time_ms) h) [
        | inl (moves, rest) ↦ inl rest
        | inr (ends, landed) ↦
            inr (>>=-eq-ok (land (age dt f) s) (λ s'. advance_all dt fs remaining s') landed)
      ]

  -- The state when the clock has moved.
  abbrev pub at_time : F → Sim F R → Sim F R
  at_time dt s = record s { current_time_ms = fl.add s.current_time_ms dt }

  pub run_frame_cases :
      (dt : F) (s t : Sim F R)
      → run_frame dt s ≡ ok t
      → (s₁ : Sim F R) × (s₂ : Sim F R) × (s₃ : Sim F R) × (run_due_events (at_time dt s) ≡ ok s₁)
        × (dispatch_routers s₁ ≡ ok s₂)
        × (advance_in_flight_packets dt s₂ ≡ ok s₃)
        × (t ≡ check_finished s₃)
  unfolding run_frame
  run_frame_cases dt s t h =
      let (s₁, called, h₁) = >>=-eq-ok (run_due_events (at_time dt s)) _ h in
      let (s₂, sent, h₂) = >>=-eq-ok (dispatch_routers s₁) _ h₁ in
      let (s₃, moved, h₃) = >>=-eq-ok (advance_in_flight_packets dt s₂) _ h₂ in
      (s₁, s₂, s₃, called, sent, moved, cc)
