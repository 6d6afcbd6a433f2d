-- ===== src/Engine/Frames.antt =====
-- A frame from a sound state raises no exception and leaves a sound state.
use cps344finalproject.Base.{
  ℕ, zero, suc, ◌≡◌, refl, sym, subst, true, false, List, [], ◌∷◌, ◌++◌, keys, Dict, Result, ok,
  err, or_raise, key_error, out_of_fuel, ◌>>=◌, if◌then◌else◌, leb, length, All, All-concat,
  All-lookup, inl, inr, ◌⊎◌, if-both, Returns, returned, Returns-bind, Returns-if, Returns-value,
  if-cases, ok-injective,
}
use cps344finalproject.Base.Float.{Float, Random, num}
use cps344finalproject.Packet.{Packet, InFlightPacket}
use cps344finalproject.Router.{Router}
use cps344finalproject.Stats.{mark_finished}
use cps344finalproject.Engine.{Sim, Event}
use cps344finalproject.Engine.Run.{
  insert_sorted, sort, run_callback, run_events, run_due_events, dispatch_packet, dispatch_router,
  dispatch_all, dispatch_routers, age, advance_all, advance_in_flight_packets, update_packet_events,
  finish_run, check_finished, run_frame, update,
}
use cps344finalproject.Engine.Rounds.{at_time, run_frame_cases}
use cps344finalproject.Engine.Due.{run_due_events-ends}
use cps344finalproject.Engine.Sound.{IsServing, IsFlying, IsSound, run_callback-Returns}
use cps344finalproject.Engine.Landing.{land-Returns, dispatch_packet-Returns}

All-insert_sorted :
    (P : ℕ → Type 0) (k : ℕ) (ks : List ℕ) → P k → All P ks → All P (insert_sorted k ks)
All-insert_sorted P k [] h a = (h, tt)
All-insert_sorted P k (j ∷ ks) h a =
    if-both (All P) (leb k j) (h, a) (a.0, All-insert_sorted P k ks h a.1)

All-sort : (P : ℕ → Type 0) (ks : List ℕ) → All P ks → All P (sort ks)
All-sort P [] a = tt
All-sort P (k ∷ ks) a = All-insert_sorted P k (sort ks) a.0 (All-sort P ks a.1)

All-keys :
    {V : Type 0} (P : ℕ → Type 0) (Q : ℕ × V → Type 0) (m : Dict V)
    → ((e : ℕ × V) → Q e → P e.0)
    → All Q m
    → All P (keys m)
All-keys P Q [] f a = tt
All-keys P Q (e ∷ m) f a = (f e a.0, All-keys P Q m f a.1)

module _ {F R : Type 0} ⦃fl : Float F⦄ ⦃rand : Random F R⦄ (K : ℕ → Type 0) where
  -- It returns a sound state, or has used its fuel up.
  abbrev MayEnd : Result (Sim F R) → Type 0
  MayEnd m = Returns (IsSound K) m ⊎ (m ≡ err out_of_fuel)

  MayEnd-bind :
      {m : Result (Sim F R)} (f : Sim F R → Result (Sim F R))
      → Returns (IsSound K) m
      → ((t : Sim F R) → IsSound K t → MayEnd (f t))
      → MayEnd (m >>= f)
  MayEnd-bind f (returned {a = t} i) rest = rest t i

  run_events-ends_sound : (fuel : ℕ) (s : Sim F R) → IsSound K s → MayEnd (run_events fuel s)
  unfolding run_events
  run_events-ends_sound zero s i = go s.events
    where
      go :
          (es : List (Event F))
          → MayEnd (elim es [
            | [] ↦ ok s
            | e ∷ _ ↦ if fl.le e.due_time s.current_time_ms then err out_of_fuel else ok s
          ])
      go [] = inl (returned i)
      go (e ∷ es) =
          if-both MayEnd (fl.le e.due_time s.current_time_ms) (inr refl) (inl (returned i))
  run_events-ends_sound (suc fuel) s i = go (run_events-ends_sound fuel) s.events
    where
      go :
          ((t : Sim F R) → IsSound K t → MayEnd (run_events fuel t))
          → (es : List (Event F))
          → MayEnd (elim es [
            | [] ↦ ok s
            | e ∷ es ↦
                if fl.le e.due_time s.current_time_ms
                then (run_callback e.callback (record s { events = es }) >>= λ s'.
                    run_events fuel s')
                else ok s
          ])
      go rest [] = inl (returned i)
      go rest (e ∷ es) =
          if-both MayEnd (fl.le e.due_time s.current_time_ms)
            (MayEnd-bind (run_events fuel)
              (run_callback-Returns K e.callback (record s { events = es }) i) rest)
            (inl (returned i))

  pub run_due_events-Returns :
      (s : Sim F R)
      → fl.le (fl.add s.current_time_ms s.retransmission_timeout_ms) s.current_time_ms ≡ false
      → IsSound K s
      → Returns (IsSound K) (run_due_events s)
  unfolding run_due_events
  run_due_events-Returns s later i = elim (run_events-ends_sound (length s.events) s i) [
    | inl returns ↦ returns
    | inr spent ↦ absurd (run_due_events-ends s later spent)
  ]

  dispatch_router-Returns :
      (id : ℕ) (s : Sim F R) → K id → IsSound K s → Returns (IsSound K) (dispatch_router id s)
  unfolding dispatch_router
  dispatch_router-Returns id s k i =
      let (router, e) = i.found id k in
      let serves = All-lookup (IsServing K s.graph_manager) id s.routers i.serving e in
      subst (λ o. Returns (IsSound K) (or_raise o key_error >>= λ router. body router router.queue))
        (sym e) (go router serves router.queue refl)
    where
      body : Router F → List Packet → Result (Sim F R)
      body router queue = elim queue [
        | [] ↦ ok s
        | packet ∷ rest ↦
            if fl.lt s.current_time_ms router.next_available_time_ms
            then ok s
            else dispatch_packet id router packet rest s
      ]

      go :
          (router : Router F)
          → IsServing K s.graph_manager (id, router)
          → (queue : List Packet) → router.queue ≡ queue
          → Returns (IsSound K) (body router queue)
      go router serves [] e = returned i
      go router serves (packet ∷ rest) e =
          Returns-if (fl.lt s.current_time_ms router.next_available_time_ms) (λ _. returned i)
            (λ _. dispatch_packet-Returns K id router packet rest s serves e i)

  dispatch_all-Returns :
      (ids : List ℕ) (s : Sim F R)
      → All K ids
      → IsSound K s
      → Returns (IsSound K) (dispatch_all ids s)
  unfolding dispatch_all
  dispatch_all-Returns [] s k i = returned i
  dispatch_all-Returns (id ∷ ids) s k i =
      Returns-bind (dispatch_router-Returns id s k.0 i) (λ t j. dispatch_all-Returns ids t k.1 j)

  dispatch_routers-Returns : (s : Sim F R) → IsSound K s → Returns (IsSound K) (dispatch_routers s)
  unfolding dispatch_routers
  dispatch_routers-Returns s i =
      dispatch_all-Returns (sort (keys s.routers)) s
        (All-sort K (keys s.routers)
          (All-keys K (IsServing K s.graph_manager) s.routers (λ e h. h.0) i.serving))
        i

  advance_all-Returns :
      (dt : F) (fs remaining : List (InFlightPacket F)) (s : Sim F R)
      → All (IsFlying K) fs
      → All (IsFlying K) remaining
      → IsSound K s
      → Returns (IsSound K) (advance_all dt fs remaining s)
  unfolding advance_all
  advance_all-Returns dt [] remaining s f r i = returned (record {
    from_known = i.from_known;
    to_known = i.to_known;
    apart = i.apart;
    found = i.found;
    serving = i.serving;
    flying = r;
  })
  advance_all-Returns dt (flight ∷ fs) remaining s f r i =
      Returns-if (fl.lt (num 0) (age dt flight).remaining_time_ms)
        (λ _.
          advance_all-Returns dt fs (remaining ++ age dt flight ∷ []) s f.1
            (All-concat (IsFlying K) remaining (age dt flight) r f.0) i)
        (λ _.
          Returns-bind (land-Returns K (age dt flight) s f.0 i)
            (λ t j. advance_all-Returns dt fs remaining t f.1 r j))

  -- The checks at the end leave the run as it is, or mark it as finished.
  check_finished_cases :
      (P : Sim F R → Type 0) (s : Sim F R)
      → P s
      → P (record s {
        running = false;
        completed = true;
        stats = mark_finished s.current_time_ms s.stats;
      })
      → P (check_finished s)
  unfolding check_finished finish_run
  check_finished_cases P s h k =
      let finished = if-both P s.running k h in if-both P _ finished (if-both P _ finished h)

  -- The rest of a frame, behind the loop over the due events.
  update-from :
      (dt : F) (s : Sim F R)
      → Returns (IsSound K) (run_due_events (at_time dt (update_packet_events dt s)))
      → IsSound K s
      → Returns (IsSound K) (update dt s)
  unfolding update update_packet_events run_frame advance_in_flight_packets
  update-from dt s called i =
      Returns-if s.running
        (λ _. Returns-bind called (λ s₁ i₁. Returns-bind (dispatch_routers-Returns s₁ i₁) (λ s₂ i₂.
          Returns-bind (advance_all-Returns dt s₂.in_flight_packets [] s₂ i₂.flying tt i₂)
            (λ s₃ i₃. returned (check_finished_cases (IsSound K) s₃ i₃ i₃)))))
        (λ _. returned i)

  -- A frame from a sound state raises no exception, when the timeout moves the clock.
  pub update-Returns :
      (dt : F) (s : Sim F R)
      → fl.le
          (fl.add (fl.add s.current_time_ms dt) s.retransmission_timeout_ms)
          (fl.add s.current_time_ms dt)
        ≡ false
      → IsSound K s
      → Returns (IsSound K) (update dt s)
  unfolding update_packet_events
  update-Returns dt s later i =
      update-from dt s (run_due_events-Returns (at_time dt (update_packet_events dt s)) later i) i

  -- A frame that raises no exception leaves a sound state, whatever the clock does.
  pub update-IsSound : (dt : F) (s t : Sim F R) → update dt s ≡ ok t → IsSound K s → IsSound K t
  unfolding update update_packet_events run_due_events
  update-IsSound dt s t h i = elim (if-cases s.running h) [
    | inr (_, same) ↦ subst (IsSound K) (ok-injective same) i
    | inl (_, ran) ↦
        let now = at_time dt (update_packet_events dt s) in
        let (s₁, s₂, s₃, called, _, _, _) = run_frame_cases dt (update_packet_events dt s) t ran in
        elim (run_events-ends_sound (length now.events) now i) [
          | inr spent ↦ absurd (cc)
          | inl returns ↦ Returns-value (subst (Returns (IsSound K)) h (update-from dt s returns i))
        ]
  ]
