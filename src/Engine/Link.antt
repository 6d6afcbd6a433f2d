-- ===== src/Engine/Link.antt =====
-- simulation.py: what happens to a packet that a router puts on a link. Delay, loss and duplication
-- are drawn from the random generator, which every draw replaces.
use cps344finalproject.Base.{
  ℕ, ◌+◌, ◌-◌, Bool, true, Option, none, some, [], ◌∷◌, ◌++◌, Result, ok, ◌>>=◌, if◌then◌else◌, ltb,
}
use cps344finalproject.Base.Float.{Float, Random, num}
use cps344finalproject.Packet.{Packet}
use cps344finalproject.Graph.Manager.{get_edge_delay}
use cps344finalproject.Engine.{Sim}
use cps344finalproject.Engine.Send.{make_packet}

module _ {F R : Type 0} ⦃fl : Float F⦄ ⦃rand : Random F R⦄ where
  -- `self.random.random()`, `uniform` and `randint`
  abbrev pub draw : Sim F R → F × Sim F R
  draw s = let (x, r) = rand.random s.generator in (x, record s { generator = r })

  abbrev pub draw_uniform : F → F → Sim F R → F × Sim F R
  draw_uniform a b s = let (x, r) = rand.uniform a b s.generator in (x, record s { generator = r })

  abbrev pub draw_int : ℕ → ℕ → Sim F R → ℕ × Sim F R
  draw_int a b s = let (x, r) = rand.randint a b s.generator in (x, record s { generator = r })

  -- The chaotic part of the delay: `None` where the draw decides against it.
  unfoldable pub chaos_delay : Sim F R → Option F × Sim F R
  chaos_delay s =
      if s.conditions.chaos_mode
      then (let (x, s') = draw s in
          if fl.lt x (fl.lit 18 2)
          then (let (extra, t) = draw_uniform (num 250) (num 850) s' in (some extra, t))
          else (none, s'))
      else (none, s)

  unfoldable pub sample_link_delay : ℕ → Sim F R → (F × Bool) × Sim F R
  sample_link_delay base_delay_ms s =
      let multiplier = s.conditions.delay_multiplier in
      let scaled_base = fl.mul (num base_delay_ms) multiplier in
      let (jitter, s') = draw_uniform (num 0) (fl.mul (num 80) multiplier) s in
      let (extra, t) = chaos_delay s' in
      let base = fl.add scaled_base jitter in
      let total_delay : F = elim extra [ none ↦ base | some x ↦ fl.add base x ] in
      ((total_delay, fl.lt (fl.mul (num base_delay_ms) (fl.lit 135 2)) total_delay), t)

  -- The last line of `_should_drop_packet`.
  unfoldable pub drop_by_loss : Sim F R → Bool × Sim F R
  drop_by_loss s = let (x, s') = draw s in (fl.lt x s.conditions.loss_rate, s')

  -- The chaotic part: with no drop left over, a draw may start a burst of losses.
  unfoldable pub drop_by_chaos : Sim F R → Bool × Sim F R
  drop_by_chaos s =
      if ltb 0 s.chaos_drop_remaining
      then (true, record s { chaos_drop_remaining = s.chaos_drop_remaining - 1 })
      else (let (x, s') = draw s in
          if fl.lt x (fl.lit 5 2)
          then (let (burst, t) = draw_int 1 2 s' in
              (true, record t { chaos_drop_remaining = burst }))
          else drop_by_loss s')

  unfoldable pub should_drop_packet : Sim F R → Bool × Sim F R
  should_drop_packet s = if s.conditions.chaos_mode then drop_by_chaos s else drop_by_loss s

  -- Samples the link, and puts the packet on it.
  unfoldable pub fly : Packet → ℕ → ℕ → ℕ → Sim F R → Sim F R
  fly packet start_node end_node base_delay_ms s =
      let ((total_delay_ms, delayed), s') = sample_link_delay base_delay_ms s in
      let (dropped, t) = should_drop_packet s' in
      record t {
        in_flight_packets =
            t.in_flight_packets
            ++ record {
              packet = packet;
              start_node = start_node;
              end_node = end_node;
              total_time_ms = total_delay_ms;
              remaining_time_ms = total_delay_ms;
              delayed = delayed;
              dropped = dropped;
            }
              ∷ [];
      }

  unfoldable pub inject_duplicate_flight : Packet → ℕ → ℕ → ℕ → Sim F R → Sim F R
  inject_duplicate_flight packet start_node end_node base_delay_ms s =
      let stats = s.stats in
      fly packet start_node end_node base_delay_ms (record s {
        stats = record stats {
          packets_sent = stats.packets_sent + 1;
          duplicate_packets = stats.duplicate_packets + 1;
        };
      })

  -- The copy that a duplicating link makes.
  unfoldable pub duplicate_packet : Packet → ℕ → Sim F R → Packet × Sim F R
  duplicate_packet packet start_node s =
      let (copy, s') =
        make_packet
          (record {
            source = packet.source;
            destination = packet.destination;
            packet_type = packet.packet_type;
            sequence = packet.sequence;
            ack_for = packet.ack_for;
            retransmission = packet.retransmission;
            duplicate = true;
            duplicated_from = some packet.packet_id;
          })
          s in
      (record copy { current_node = start_node; route_history = packet.route_history }, s')

  unfoldable pub duplicate_flight : Packet → ℕ → ℕ → ℕ → Sim F R → Sim F R
  duplicate_flight packet start_node end_node base_delay_ms s =
      let (copy, s') = duplicate_packet packet start_node s in
      inject_duplicate_flight copy start_node end_node base_delay_ms s'

  -- The second half of `_launch_link`: a link may deliver the packet twice.
  unfoldable pub maybe_duplicate : Packet → ℕ → ℕ → ℕ → Sim F R → Sim F R
  maybe_duplicate packet start_node end_node base_delay_ms s =
      if fl.lt (num 0) s.conditions.duplicate_rate
      then (let (x, s') = draw s in
          if fl.lt x s.conditions.duplicate_rate
          then duplicate_flight packet start_node end_node base_delay_ms s'
          else s')
      else s

  unfoldable pub launch_link : Packet → ℕ → ℕ → Sim F R → Result (Sim F R)
  launch_link packet start_node end_node s = do
    base_delay_ms ← get_edge_delay start_node end_node s.graph_manager
    ok (
        maybe_duplicate packet start_node end_node base_delay_ms
          (fly packet start_node end_node base_delay_ms s))
