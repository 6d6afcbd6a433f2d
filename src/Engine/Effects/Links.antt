-- ===== src/Engine/Effects/Links.antt =====
-- What a launch has changed: a flight for the packet, perhaps another for its copy, and the draws.
use cps344finalproject.Base.{
  ℕ, ◌+◌, ◌≡◌, refl, true, sym, ap, ◌∙◌, subst, [], ◌∷◌, ◌++◌, ok, >>=-eq-ok, arith, inl, inr, ◌⊎◌,
  Bool-cases, if-true, if-false,
}
use cps344finalproject.Base.Float.{Float, Random, num}
use cps344finalproject.Packet.{Packet, InFlightPacket}
use cps344finalproject.Graph.Manager.{get_edge_delay}
use cps344finalproject.Engine.{Sim}
use cps344finalproject.Engine.Send.{make_packet}
use cps344finalproject.Engine.Link.{
  draw, chaos_delay, sample_link_delay, drop_by_loss, drop_by_chaos, should_drop_packet, fly,
  inject_duplicate_flight, duplicate_packet, duplicate_flight, maybe_duplicate, launch_link,
}

module _ {F R : Type 0} ⦃fl : Float F⦄ ⦃rand : Random F R⦄ where
  -- Only the generator and the rest of a burst of losses differ.
  abbrev pub redrawn : R → ℕ → Sim F R → Sim F R
  redrawn g c s = record s { generator = g; chaos_drop_remaining = c }

  abbrev pub with_flight : InFlightPacket F → Sim F R → Sim F R
  with_flight f s = record s { in_flight_packets = s.in_flight_packets ++ f ∷ [] }

  chaos_delay-draws :
      (s : Sim F R)
      → (chaos_delay s).1 ≡ redrawn (chaos_delay s).1.generator s.chaos_drop_remaining s
  unfolding chaos_delay
  chaos_delay-draws s = ground arith

  sample_link_delay-draws :
      (delay : ℕ) (s : Sim F R)
      → (sample_link_delay delay s).1
        ≡ redrawn (sample_link_delay delay s).1.generator s.chaos_drop_remaining s
  unfolding sample_link_delay
  sample_link_delay-draws delay s = chaos_delay-draws (record s {
    generator =
        (rand.uniform (num 0) (fl.mul (num 80) s.conditions.delay_multiplier) s.generator).1;
  })

  should_drop_packet-draws :
      (s : Sim F R)
      → (should_drop_packet s).1
        ≡ redrawn (should_drop_packet s).1.generator (should_drop_packet s).1.chaos_drop_remaining s
  unfolding should_drop_packet drop_by_chaos drop_by_loss
  should_drop_packet-draws s = ground arith

  -- `t` is `s` with the packet on the link from `a` to `b`.
  pub record Flown (packet : Packet) (a b : ℕ) (s t : Sim F R) : Type 0 where
    pub flight : InFlightPacket F
    pub drawn : R
    pub burst : ℕ
    pub carries : flight.packet ≡ packet
    pub from_node : flight.start_node ≡ a
    pub to_node : flight.end_node ≡ b
    pub result : t ≡ redrawn drawn burst (with_flight flight s)

  pub fly-Flown :
      (packet : Packet) (a b delay : ℕ) (s : Sim F R) → Flown packet a b s (fly packet a b delay s)
  unfolding fly
  fly-Flown packet a b delay s =
      let s' = (sample_link_delay delay s).1 in
      let flight : InFlightPacket F = record {
        packet = packet;
        start_node = a;
        end_node = b;
        total_time_ms = (sample_link_delay delay s).0.0;
        remaining_time_ms = (sample_link_delay delay s).0.0;
        delayed = (sample_link_delay delay s).0.1;
        dropped = (should_drop_packet s').0;
      } in
      let drawn = (should_drop_packet s').1.generator in
      let burst = (should_drop_packet s').1.chaos_drop_remaining in
      let e = sample_link_delay-draws delay s in
      let e' = should_drop_packet-draws s' in
      record {
        flight = flight;
        drawn = drawn;
        burst = burst;
        carries = refl;
        from_node = refl;
        to_node = refl;
        result =
            ap (with_flight flight) e' ∙ ap (λ u. redrawn drawn burst (with_flight flight u)) e;
      }

  -- `t` is `s` with a copy of the packet on the link from `a` to `b`, and counted.
  pub record Doubled (packet : Packet) (a b : ℕ) (s t : Sim F R) : Type 0 where
    pub copy : Packet
    pub same_type : copy.packet_type ≡ packet.packet_type
    pub same_sequence : copy.sequence ≡ packet.sequence
    pub same_ack : copy.ack_for ≡ packet.ack_for
    pub same_destination : copy.destination ≡ packet.destination
    pub same_retransmission : copy.retransmission ≡ packet.retransmission
    pub is_copy : copy.duplicate ≡ true
    pub flown :
        Flown copy a b
          (record s {
            next_packet_id = s.next_packet_id + 1;
            stats = record (s.stats) {
              packets_sent = s.stats.packets_sent + 1;
              duplicate_packets = s.stats.duplicate_packets + 1;
            };
          })
          t

  duplicate_flight-Doubled :
      (packet : Packet) (a b delay : ℕ) (s : Sim F R)
      → Doubled packet a b s (duplicate_flight packet a b delay s)
  unfolding duplicate_flight inject_duplicate_flight duplicate_packet make_packet
  duplicate_flight-Doubled packet a b delay s = record {
    copy = (duplicate_packet packet a s).0;
    same_type = refl;
    same_sequence = refl;
    same_ack = refl;
    same_destination = refl;
    same_retransmission = refl;
    is_copy = refl;
    flown = fly-Flown _ a b delay _;
  }

  pub maybe_duplicate_cases :
      (packet : Packet) (a b delay : ℕ) (s : Sim F R)
      → ((g : R) × (maybe_duplicate packet a b delay s ≡ redrawn g s.chaos_drop_remaining s))
        ⊎ ((g : R) × Doubled packet a b
              (redrawn g s.chaos_drop_remaining s)
              (maybe_duplicate packet a b delay s))
  unfolding maybe_duplicate
  maybe_duplicate_cases packet a b delay s =
      elim (Bool-cases (fl.lt (num 0) s.conditions.duplicate_rate)) [
        | inr off ↦ inl (s.generator, if-false _ _ _ off)
        | inl on ↦
            let s' = (draw s).1 in
            let e = if-true _ _ s on in
            elim (Bool-cases (fl.lt (draw s).0 s.conditions.duplicate_rate)) [
              | inr single ↦ inl (s'.generator, e ∙ if-false _ _ _ single)
              | inl twice ↦ inr (
                s'.generator,
                subst (Doubled packet a b s') (sym (e ∙ if-true _ _ _ twice))
                    (duplicate_flight-Doubled packet a b delay s'),
              )
            ]
      ]

  -- A launch is a flight on an edge of the graph, and then perhaps a copy of it.
  pub launch_link_cases :
      (packet : Packet) (a b : ℕ) (s t : Sim F R)
      → launch_link packet a b s ≡ ok t
      → (u : Sim F R) × Flown packet a b s u
        × (((g : R) × (t ≡ redrawn g u.chaos_drop_remaining u))
            ⊎ ((g : R) × Doubled packet a b (redrawn g u.chaos_drop_remaining u) t))
  unfolding launch_link
  launch_link_cases packet a b s t h =
      let (delay, found, e) = >>=-eq-ok (get_edge_delay a b s.graph_manager) _ h in
      let u = fly packet a b delay s in
      let same : maybe_duplicate packet a b delay u ≡ t = cc in
      (
        u,
        fly-Flown packet a b delay s,
        subst
            (λ (t : Sim F R).
              ((g : R) × (t ≡ redrawn g u.chaos_drop_remaining u))
              ⊎ ((g : R) × Doubled packet a b (redrawn g u.chaos_drop_remaining u) t))
            same (maybe_duplicate_cases packet a b delay u),
      )
