-- ===== src/Engine/Balance/Frame.antt =====
-- A frame keeps the balance of the counters.
use cps344finalproject.Base.{
  ℕ, suc, ◌≡◌, sym, ap, subst, true, false, Option, some, List, [], ◌∷◌, lookup, ok, arith, length,
  length-append, inl, inr,
}
use cps344finalproject.Base.Float.{Float, Random}
use cps344finalproject.Packet.{Packet, InFlightPacket, Label}
use cps344finalproject.Router.{Router}
use cps344finalproject.Engine.{Sim, Callback, call_send, call_timeout}
use cps344finalproject.Engine.Receive.{deliver, arrived, record_delivery, record_drop, on_timeout}
use cps344finalproject.Engine.Run.{run_callback, land, dispatch_packet, busy, age, update}
use cps344finalproject.Engine.Link.{launch_link}
use cps344finalproject.Engine.Effects.Calls.{
  deliver_cases, on_timeout_cases, run_callback-flights, land_cases, dispatch_packet_cases, taken,
}
use cps344finalproject.Engine.Effects.Links.{Flown, launch_link_cases}
use cps344finalproject.Engine.Rule.{Keeps, update-keeps}
use cps344finalproject.Engine.Balance.{
  queued-insert, IsBalanced, enqueue_at-IsBalanced, send_data-IsBalanced,
  on_data_received-IsBalanced, on_ack_received-IsBalanced,
}

module _ {F R : Type 0} ⦃fl : Float F⦄ where
  record_drop-IsBalanced :
      (n : ℕ) (a b : Option ℕ) (why : Label) (s : Sim F R)
      → IsBalanced (suc n) s
      → IsBalanced n (record_drop a b why s)
  unfolding record_drop
  record_drop-IsBalanced n a b why s h = ground arith

  deliver-IsBalanced :
      (n : ℕ) (packet : Packet) (s t : Sim F R)
      → deliver packet s ≡ ok t
      → IsBalanced (suc n) s
      → IsBalanced n t
  unfolding record_delivery
  deliver-IsBalanced n packet s t h b =
      let s' = record_delivery packet s in
      let noted : IsBalanced (suc n) s' = ground arith in
      elim (deliver_cases packet s t h) [
        | inl (_, received) ↦ on_data_received-IsBalanced n packet s' t received noted
        | inr (_, e) ↦ subst (IsBalanced n) (sym e) (on_ack_received-IsBalanced n packet s' noted)
      ]

  on_timeout-IsBalanced :
      (n sequence token : ℕ) (s t : Sim F R)
      → on_timeout sequence token s ≡ ok t
      → IsBalanced n s
      → IsBalanced n t
  on_timeout-IsBalanced n sequence token s t h b = elim (on_timeout_cases sequence token s t h) [
    | inl same ↦ subst (IsBalanced n) (sym same) b
    | inr (_, _, _, sent) ↦ send_data-IsBalanced n sequence true s t sent b
  ]

module _ {F R : Type 0} ⦃fl : Float F⦄ ⦃rand : Random F R⦄ where
  run_callback-IsBalanced :
      (n : ℕ) (c : Callback) (s t : Sim F R)
      → run_callback c s ≡ ok t
      → IsBalanced n s
      → IsBalanced n t
  unfolding run_callback
  run_callback-IsBalanced n (call_send sequence) s t h b =
      send_data-IsBalanced n sequence false s t h b
  run_callback-IsBalanced n (call_timeout sequence token) s t h b =
      on_timeout-IsBalanced n sequence token s t h b

  land-IsBalanced :
      (n : ℕ) (f : InFlightPacket F) (s t : Sim F R)
      → land f s ≡ ok t
      → IsBalanced (suc n) s
      → IsBalanced n t
  land-IsBalanced n f s t h b = elim (land_cases f s t h) [
    | inl (inl lost) ↦ subst (IsBalanced n) (sym lost) (record_drop-IsBalanced n _ _ _ s b)
    | inl (inr (_, there)) ↦ deliver-IsBalanced n (arrived f) s t there b
    | inr (_, onward) ↦ enqueue_at-IsBalanced n f.end_node (arrived f) s t onward b
  ]

  Flown-IsBalanced :
      (packet : Packet) (a b : ℕ) (s t : Sim F R)
      → Flown packet a b s t
      → IsBalanced (suc (length s.in_flight_packets)) s
      → IsBalanced (length t.in_flight_packets) t
  Flown-IsBalanced packet a b s t f h =
      subst (λ (t : Sim F R). IsBalanced (length t.in_flight_packets) t) (sym f.result)
        (ground (arith, length-append s.in_flight_packets (f.flight ∷ [])))

  launch-IsBalanced :
      (packet : Packet) (a b : ℕ) (s t : Sim F R)
      → launch_link packet a b s ≡ ok t
      → IsBalanced (suc (length s.in_flight_packets)) s
      → IsBalanced (length t.in_flight_packets) t
  launch-IsBalanced packet a b s t h i =
      let (u, flown, rest) = launch_link_cases packet a b s t h in
      let j = Flown-IsBalanced packet a b s u flown i in
      elim rest [
        | inl (g, same) ↦
            subst (λ (t : Sim F R). IsBalanced (length t.in_flight_packets) t) (sym same)
              (ground arith)
        | inr (g, twice) ↦ Flown-IsBalanced twice.copy a b _ t twice.flown (ground arith)
      ]

  taken-IsBalanced :
      (n id : ℕ) (router : Router F) (packet : Packet) (rest : List Packet) (s : Sim F R)
      → lookup id s.routers ≡ some router
      → router.queue ≡ packet ∷ rest
      → IsBalanced n s
      → IsBalanced (suc n) (taken id router rest s)
  taken-IsBalanced n id router packet rest s found queue b =
      let e : length router.queue ≡ suc (length rest) = ap length queue in
      ground (arith, queued-insert id (busy rest router s) router s.routers found)

  dispatch-IsBalanced :
      (s t : Sim F R) (id : ℕ) (router : Router F) (packet : Packet) (rest : List Packet)
      → lookup id s.routers ≡ some router
      → router.queue ≡ packet ∷ rest
      → dispatch_packet id router packet rest s ≡ ok t
      → IsBalanced (length s.in_flight_packets) s
      → IsBalanced (length t.in_flight_packets) t
  unfolding record_drop
  dispatch-IsBalanced s t id router packet rest found queue h b =
      let s' = taken id router rest s in
      let free =
        taken-IsBalanced (length s.in_flight_packets) id router packet rest s found queue b in
      elim (dispatch_packet_cases id router packet rest s t h) [
        | inl (_, dropped) ↦
            subst (λ (t : Sim F R). IsBalanced (length t.in_flight_packets) t) (sym dropped)
              (record_drop-IsBalanced _ _ _ _ s' free)
        | inr (hop, _, launched) ↦ launch-IsBalanced packet router.router_id hop s' t launched free
      ]

  IsBalanced-Keeps : Keeps (λ (s : Sim F R). IsBalanced (length s.in_flight_packets) s)
  IsBalanced-Keeps = record {
    works = record {
      callback = λ s t e es head called b.
          subst (λ (l : List (InFlightPacket F)). IsBalanced (length l) t)
            (sym (run_callback-flights e.callback _ t called))
            (run_callback-IsBalanced (length s.in_flight_packets) e.callback _ t called
              (ground arith));
      dispatch = dispatch-IsBalanced;
      stays = λ s f l dt b. ground (arith, length-append l (age dt f ∷ []));
      lands = λ s t f l dt h b.
          let after = land-IsBalanced (length l) (age dt f) s t h (ground arith) in ground arith;
    };
    marks = λ s es b. ground arith;
    clock = λ s t b. ground arith;
    finish = λ s on b. ground arith;
  }

  -- A frame that raises no exception keeps the counters in balance.
  pub update-IsBalanced :
      (dt_ms : F) (s t : Sim F R)
      → update dt_ms s ≡ ok t
      → IsBalanced (length s.in_flight_packets) s
      → IsBalanced (length t.in_flight_packets) t
  update-IsBalanced dt_ms s t h b =
      update-keeps (λ (s : Sim F R). IsBalanced (length s.in_flight_packets) s) IsBalanced-Keeps
        dt_ms s t h b
