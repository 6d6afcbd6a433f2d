-- ===== src/Engine/Rule.antt =====
-- A proof rule for `update`: what the leaves of the three loops keep, the whole frame keeps.
use cps344finalproject.Base.{
  ℕ, zero, suc, ◌≡◌, refl, sym, Bool, true, false, some, List, [], ◌∷◌, ◌++◌, lookup, append_assoc,
  append-nil, subst, ok, >>=-eq-ok, if◌then◌else◌, if-cases, if-true, if-false, Bool-cases, inl,
  inr, arith, length,
}
use cps344finalproject.Base.Float.{Float, Random}
use cps344finalproject.Packet.{Packet, InFlightPacket}
use cps344finalproject.Stats.{mark_finished}
use cps344finalproject.Router.{Router}
use cps344finalproject.Engine.{Sim, Event}
use cps344finalproject.Engine.Run.{
  run_callback, run_events, run_due_events, dispatch_packet, dispatch_router, dispatch_all,
  dispatch_routers, age, land, advance_all, advance_in_flight_packets, update_packet_events, fade,
  finish_run, check_finished, run_frame, update,
}
use cps344finalproject.Engine.Rounds.{
  run_events_cases, dispatch_router_cases, advance_all_cases, at_time, run_frame_cases,
}

module _ {F R : Type 0} ⦃fl : Float F⦄ ⦃rand : Random F R⦄ where
  -- The state with another list of flights.
  abbrev pub with_flights : Sim F R → List (InFlightPacket F) → Sim F R
  with_flights s flights = record s { in_flight_packets = flights }

  -- What to show of an invariant of the three loops.
  pub record Works (I : Sim F R → Type 0) : Type 0 where
    pub callback :
        (s t : Sim F R) (e : Event F) (es : List (Event F))
        → s.events ≡ e ∷ es
        → run_callback e.callback (record s { events = es }) ≡ ok t
        → I s
        → I t
    pub dispatch :
        (s t : Sim F R) (id : ℕ) (router : Router F) (packet : Packet) (rest : List Packet)
        → lookup id s.routers ≡ some router
        → router.queue ≡ packet ∷ rest
        → dispatch_packet id router packet rest s ≡ ok t
        → I s
        → I t
    pub stays :
        (s : Sim F R) (f : InFlightPacket F) (l : List (InFlightPacket F)) (dt : F)
        → I (with_flights s (f ∷ l))
        → I (with_flights s (l ++ age dt f ∷ []))
    pub lands :
        (s t : Sim F R) (f : InFlightPacket F) (l : List (InFlightPacket F)) (dt : F)
        → land (age dt f) s ≡ ok t
        → I (with_flights s (f ∷ l))
        → I (with_flights t l)

  -- What to show of an invariant of frames.
  pub record Keeps (I : Sim F R → Type 0) : Type 0 where
    pub works : Works I
    pub marks :
        (s : Sim F R) (dt : F) → I s → I (record s { packet_events = fade dt s.packet_events })
    pub clock : (s : Sim F R) (t : F) → I s → I (record s { current_time_ms = t })
    pub finish :
        (s : Sim F R)
        → s.running ≡ true
        → I s
        → I (record s {
          running = false;
          completed = true;
          stats = mark_finished s.current_time_ms s.stats;
        })

  module _ (I : Sim F R → Type 0) (works : Works I) where
    open works use {callback, dispatch, stays, lands}

    run_events-keeps :
        (fuel : ℕ) (s t : Sim F R) (es : List (Event F))
        → s.events ≡ es
        → run_events fuel s ≡ ok t
        → I s
        → I t
    unfolding run_events
    run_events-keeps zero s t [] e h i = subst I (ground arith) i
    run_events-keeps zero s t (x ∷ es) e h i = subst I (ground arith) i
    run_events-keeps (suc fuel) s t [] e h i = subst I (ground arith) i
    run_events-keeps (suc fuel) s t (x ∷ es) e h i = elim (run_events_cases fuel s t x es e h) [
      | inl same ↦ subst I (sym same) i
      | inr (s', called, ends) ↦
          run_events-keeps fuel s' t s'.events refl ends (callback s s' x es e called i)
    ]

    dispatch_all-keeps : (ids : List ℕ) (s t : Sim F R) → dispatch_all ids s ≡ ok t → I s → I t
    unfolding dispatch_all
    dispatch_all-keeps [] s t h i = subst I (cc) i
    dispatch_all-keeps (id ∷ ids) s t h i =
        let (s', one, ends) = >>=-eq-ok (dispatch_router id s) (dispatch_all ids) h in
        elim (dispatch_router_cases id s s' one) [
          | inl same ↦ dispatch_all-keeps ids s' t ends (subst I (sym same) i)
          | inr (router, packet, rest, found, queued, done) ↦
              dispatch_all-keeps ids s' t ends
                (dispatch s s' id router packet rest found queued done i)
        ]

    advance_all-keeps :
        (dt : F) (fs remaining : List (InFlightPacket F)) (s t : Sim F R)
        → advance_all dt fs remaining s ≡ ok t
        → I (with_flights s (fs ++ remaining))
        → I t
    unfolding advance_all
    advance_all-keeps dt [] remaining s t h i = subst I (cc) i
    advance_all-keeps dt (f ∷ fs) remaining s t h i =
        elim (advance_all_cases dt f fs remaining s t h) [
          | inl stay ↦
              advance_all-keeps dt fs (remaining ++ age dt f ∷ []) s t stay (
                rw (← append_assoc fs remaining (age dt f ∷ [])) (stays s f (fs ++ remaining) dt i))
          | inr (s', done, ends) ↦
              advance_all-keeps dt fs remaining s' t ends (lands s s' f (fs ++ remaining) dt done i)
        ]

    -- The three loops, one after the other.
    pub loops-keep :
        (dt : F) (s s₁ s₂ t : Sim F R)
        → run_due_events s ≡ ok s₁
        → dispatch_routers s₁ ≡ ok s₂
        → advance_in_flight_packets dt s₂ ≡ ok t
        → I s
        → I t
    unfolding run_due_events dispatch_routers advance_in_flight_packets
    loops-keep dt s s₁ s₂ t called sent moved i =
        let i₁ = run_events-keeps (length s.events) s s₁ s.events refl called i in
        let i₂ = dispatch_all-keeps _ s₁ s₂ sent i₁ in
        advance_all-keeps dt s₂.in_flight_packets [] s₂ t moved (rw append-nil i₂)

  module _ (I : Sim F R → Type 0) (keeps : Keeps I) where
    open keeps use {works, marks, clock, finish}

    if-keeps : (b : Bool) {x y : Sim F R} → I x → I y → I (if b then x else y)
    if-keeps true i j = i
    if-keeps false i j = j

    finish_run-keeps : (s : Sim F R) → I s → I (finish_run s)
    unfolding finish_run
    finish_run-keeps s i = elim (Bool-cases s.running) [
      | inl on ↦ subst I (sym (if-true s.running _ _ on)) (finish s on i)
      | inr off ↦ subst I (sym (if-false s.running _ _ off)) i
    ]

    check_finished-keeps : (s : Sim F R) → I s → I (check_finished s)
    unfolding check_finished
    check_finished-keeps s i =
        if-keeps _ (finish_run-keeps s i) (if-keeps _ (finish_run-keeps s i) i)

    run_frame-keeps : (dt : F) (s t : Sim F R) → run_frame dt s ≡ ok t → I s → I t
    run_frame-keeps dt s t h i =
        let (s₁, s₂, s₃, called, sent, moved, e) = run_frame_cases dt s t h in
        let i₃ = loops-keep I works dt (at_time dt s) s₁ s₂ s₃ called sent moved (clock s _ i) in
        subst I (sym e) (check_finished-keeps s₃ i₃)

    -- Every frame keeps the invariant.
    pub update-keeps : (dt : F) (s t : Sim F R) → update dt s ≡ ok t → I s → I t
    unfolding update update_packet_events
    update-keeps dt s t h i =
        let s' = record s { packet_events = fade dt s.packet_events } in
        elim (if-cases s.running h) [
          | inl (on, ran) ↦ run_frame-keeps dt s' t ran (marks s dt i)
          | inr (off, same) ↦ subst I (cc) (marks s dt i)
        ]
