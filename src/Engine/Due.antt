-- ===== src/Engine/Due.antt =====
-- `_run_due_events` ends: an event that it runs schedules nothing that is due at once.
use cps344finalproject.Base.{
  ℕ, zero, suc, ◌≤◌, ◌≡◌, refl, sym, ap, ◌∙◌, Bool, true, false, Option, none, some, List, [], ◌∷◌,
  lookup, ok, err, or_raise, key_error, out_of_fuel, Result, ◌>>=◌, arith, inl, inr, ◌⊎◌, not, ◌||◌,
  ◌==◌, opt_eq, if-cases, if◌then◌else◌, length, Error, leb,
}
use cps344finalproject.Base.Float.{Float, Random}
use cps344finalproject.Packet.{Packet, Mode-cases}
use cps344finalproject.Engine.{Sim, Event, Callback, call_send, call_timeout}
use cps344finalproject.Engine.Send.{
  push_event, enqueue_at, inject_packet, send_data, await_ack, schedule,
}
use cps344finalproject.Engine.Receive.{on_timeout}
use cps344finalproject.Engine.Run.{run_callback, run_events, run_due_events}
use cps344finalproject.Engine.Effects.Kept.{run_callback-kept}
use cps344finalproject.Engine.Effects.Calls.{
  inject_packet-eq-ok, send_data_cases, on_timeout_cases, await_ack-tcp, await_ack-udp,
}

-- A call that failed has failed at its first or at its second step.
>>=-eq-err {ℓ κ} :
    {A : Type ℓ} {B : Type κ} (m : Result A) (f : A → Result B) {e : Error}
    → (m >>= f) ≡ err e
    → ◌⊎◌ (m ≡ err e) ((a : A) × (m ≡ ok a) × (f a ≡ err e))
>>=-eq-err (ok a) f h = inr (a, refl, h)
>>=-eq-err (err e) f h = inl (cc)

or_raise-key_error {ℓ} :
    {A : Type ℓ} (o : Option A) → ¬ (◌≡◌ {A = Result A} (or_raise o key_error) (err out_of_fuel))
or_raise-key_error none h = ground arith
or_raise-key_error (some a) h = ground arith

module _ {F : Type 0} ⦃fl : Float F⦄ where
  -- How many events are due.
  abbrev due : F → List (Event F) → ℕ
  due now [] = 0
  due now (e ∷ es) = let rest = due now es in if fl.le e.due_time now then suc rest else rest

  due-le-length : (now : F) (es : List (Event F)) → due now es ≤ length es
  due-le-length now [] = omega arith
  due-le-length now (e ∷ es) = ground (arith, due-le-length now es)

  due-push_event :
      (now : F) (e : Event F) (es : List (Event F))
      → fl.le e.due_time now ≡ false
      → due now (push_event e es) ≡ due now es
  unfolding push_event
  due-push_event now e [] later = ground arith
  due-push_event now e (x ∷ es) later = ground (arith, due-push_event now e es later)

module _ {F R : Type 0} ⦃fl : Float F⦄ where
  enqueue_at-ends :
      (node : ℕ) (packet : Packet) (s : Sim F R) → ¬ (enqueue_at node packet s ≡ err out_of_fuel)
  unfolding enqueue_at
  enqueue_at-ends node packet s h =
      elim (>>=-eq-err (or_raise (lookup node s.routers) key_error) _ h) [
        | inl missing ↦ or_raise-key_error (lookup node s.routers) missing
        | inr (router, _, e) ↦ ground arith
      ]

  send_data-ends :
      (sequence : ℕ) (again : Bool) (s : Sim F R) → ¬ (send_data sequence again s ≡ err out_of_fuel)
  unfolding send_data inject_packet
  send_data-ends sequence again s h = elim (if-cases (leb s.packet_goal sequence) h) [
    | inl (_, e) ↦ ground arith
    | inr (_, sent) ↦ elim (>>=-eq-err _ (λ u. ok (await_ack sequence u)) sent) [
      | inl failed ↦ enqueue_at-ends _ _ _ failed
      | inr (u, _, e) ↦ ground arith
    ]
  ]

  -- What a callback may schedule is due after the timeout.
  await_ack-events :
      (sequence : ℕ) (s : Sim F R)
      → ((await_ack sequence s).events ≡ s.events)
        ⊎ ((e : Event F) × (e.due_time ≡ fl.add s.current_time_ms s.retransmission_timeout_ms)
            × ((await_ack sequence s).events ≡ push_event e s.events))
  unfolding schedule
  await_ack-events sequence s = elim (Mode-cases s.mode) [
    | inl e ↦ inl (ap (λ (u : Sim F R). u.events) (await_ack-udp sequence s e))
    | inr e ↦ inr (_, refl, ap (λ (u : Sim F R). u.events) (await_ack-tcp sequence s e))
  ]

  send_data-due :
      (sequence : ℕ) (again : Bool) (s t : Sim F R)
      → send_data sequence again s ≡ ok t
      → fl.le (fl.add s.current_time_ms s.retransmission_timeout_ms) s.current_time_ms ≡ false
      → due s.current_time_ms t.events ≡ due s.current_time_ms s.events
  send_data-due sequence again s t h later =
      let now = s.current_time_ms in
      elim (send_data_cases sequence again s t h) [
        | inl (_, same) ↦ ap (λ (u : Sim F R). due now u.events) same
        | inr (u, _, injected, e) ↦
            let (router, _, e') = inject_packet-eq-ok _ _ u injected in
            let same : u.events ≡ s.events = ap (λ (v : Sim F R). v.events) e' in
            let time : u.current_time_ms ≡ now = ap (λ (v : Sim F R). v.current_time_ms) e' in
            let wait : u.retransmission_timeout_ms ≡ s.retransmission_timeout_ms =
              ap (λ (v : Sim F R). v.retransmission_timeout_ms) e' in
            ap (λ (v : Sim F R). due now v.events) e ∙ elim (await_ack-events sequence u) [
              | inl none_new ↦ ap (due now) (none_new ∙ same)
              | inr (x, at, pushed) ↦
                  let after : fl.le x.due_time now ≡ false =
                    ap (λ d. fl.le d now) (at ∙ simp (time, wait)) ∙ later in
                  ap (due now) pushed ∙ due-push_event now x u.events after ∙ ap (due now) same
            ]
      ]

  on_timeout-ends :
      (sequence token : ℕ) (s : Sim F R) → ¬ (on_timeout sequence token s ≡ err out_of_fuel)
  unfolding on_timeout
  on_timeout-ends sequence token s h = elim (if-cases (not s.running || s.completed) h) [
    | inl (_, e) ↦ ground arith
    | inr (_, h') ↦
        elim (if-cases
          (not (opt_eq s.awaiting_ack (some sequence)) || not (token == s.timeout_token)) h') [
            | inl (_, e) ↦ ground arith
            | inr (_, sent) ↦ send_data-ends sequence true s sent
          ]
  ]

module _ {F R : Type 0} ⦃fl : Float F⦄ ⦃rand : Random F R⦄ where
  run_callback-ends : (c : Callback) (s : Sim F R) → ¬ (run_callback c s ≡ err out_of_fuel)
  unfolding run_callback
  run_callback-ends (call_send sequence) s h = send_data-ends sequence false s h
  run_callback-ends (call_timeout sequence token) s h = on_timeout-ends sequence token s h

  run_callback-due :
      (c : Callback) (s t : Sim F R)
      → run_callback c s ≡ ok t
      → fl.le (fl.add s.current_time_ms s.retransmission_timeout_ms) s.current_time_ms ≡ false
      → due s.current_time_ms t.events ≡ due s.current_time_ms s.events
  unfolding run_callback
  run_callback-due (call_send sequence) s t h later = send_data-due sequence false s t h later
  run_callback-due (call_timeout sequence token) s t h later =
      elim (on_timeout_cases sequence token s t h) [
        | inl same ↦ ap (λ (u : Sim F R). due s.current_time_ms u.events) same
        | inr (_, _, _, sent) ↦ send_data-due sequence true s t sent later
      ]

  -- Fuel for every due event is enough.
  run_events-ends :
      (fuel : ℕ) (now timeout : F) (s : Sim F R) (es : List (Event F))
      → s.events ≡ es
      → s.current_time_ms ≡ now
      → s.retransmission_timeout_ms ≡ timeout
      → fl.le (fl.add now timeout) now ≡ false
      → due now es ≤ fuel
      → ¬ (run_events fuel s ≡ err out_of_fuel)
  unfolding run_events
  run_events-ends zero now timeout s [] e at wait later enough h = ground arith
  run_events-ends zero now timeout s (x ∷ es) e at wait later enough h = ground arith
  run_events-ends (suc fuel) now timeout s [] e at wait later enough h = ground arith
  run_events-ends (suc fuel) now timeout s (x ∷ es) e at wait later enough h =
      elim (if-cases (fl.le x.due_time s.current_time_ms) (simp (e, run_events) at h)) [
        | inr (_, same) ↦ ground arith
        | inl (is_due, called) ↦
            let popped = record s { events = es } in
            elim (>>=-eq-err (run_callback x.callback popped) (run_events fuel) called) [
              | inl failed ↦ run_callback-ends x.callback popped failed
              | inr (t, ran, rest) ↦
                  let same = run_callback-kept x.callback popped t ran in
                  let fewer = run_callback-due x.callback popped t ran (simp (at, wait, later)) in
                  let left : due now t.events ≡ due now es =
                    ap (λ m. due m t.events) (sym at) ∙ fewer ∙ ap (λ m. due m es) at in
                  let due_now : fl.le x.due_time now ≡ true =
                    ap (fl.le x.due_time) (sym at) ∙ is_due in
                  run_events-ends fuel now timeout t t.events refl (ap (λ k. k.0) same ∙ at)
                    (ap (λ k. k.2.retransmission_timeout_ms) same ∙ wait) later (ground arith) rest
            ]
      ]

  -- The loop over the due events always ends, within one round for each event that is there at its
  -- start, when the timeout is long enough to move the clock: whatever the events do, they schedule
  -- nothing that is due already.
  pub run_due_events-ends :
      (s : Sim F R)
      → fl.le (fl.add s.current_time_ms s.retransmission_timeout_ms) s.current_time_ms ≡ false
      → ¬ (run_due_events s ≡ err out_of_fuel)
  unfolding run_due_events
  run_due_events-ends s later h =
      run_events-ends (length s.events) s.current_time_ms s.retransmission_timeout_ms s s.events
        refl refl refl later (due-le-length s.current_time_ms s.events) h
