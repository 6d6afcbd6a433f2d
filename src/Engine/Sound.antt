-- ===== src/Engine/Sound.antt =====
-- When the routers can bring every packet on its way home: what the calls of a frame need, so that
-- they raise no exception. `K` says which nodes there are.
use cps344finalproject.Base.{
  ℕ, ◌≡◌, ◌≢◌, refl, sym, subst, Bool, true, false, some, none, List, [], ◌∷◌, ◌++◌, lookup, insert,
  Dict, ok, or_raise, key_error, ◌>>=◌, ◌==◌, Bool-cases, All, All-concat, All-lookup, All-insert,
  lookup-insert, arith, inl, inr, ◌⊎◌, Returns, Returns-bind, Returns-if, returned, is_ok, leb,
  opt_eq, Option, not, ◌||◌, ◌+◌,
}
use cps344finalproject.Base.Float.{Float, Random}
use cps344finalproject.Packet.{Packet, InFlightPacket, Mode, udp, tcp}
use cps344finalproject.Router.{Router, enqueue, Action, next_hop}
use cps344finalproject.Graph.Manager.{GraphManager, get_edge_delay}
use cps344finalproject.Engine.{Sim, Callback, call_send, call_timeout}
use cps344finalproject.Engine.Send.{
  enqueue_at, inject_packet, send_ack, send_data, await_ack, schedule, make_packet,
}
use cps344finalproject.Engine.Receive.{on_timeout}
use cps344finalproject.Engine.Run.{discard, pass, decide_action, chosen_action, run_callback}

-- The packet is on its way to a node, and not there yet.
pub record IsHomeward (K : ℕ → Type 0) (node : ℕ) (packet : Packet) : Type 0 where
  pub known : K packet.destination
  pub away : packet.destination ≢ node

module _ {F : Type 0} ⦃fl : Float F⦄ (K : ℕ → Type 0) where
  -- A router either drops a packet or knows a neighbour to pass it to.
  abbrev pub Forwards : GraphManager F → ℕ → Router F → Type 0
  Forwards gm node router =
      (packet : Packet)
      → IsHomeward K node packet
      → (decide_action (chosen_action router packet) packet router ≡ ok discard)
        ⊎ ((hop : ℕ) × (decide_action (chosen_action router packet) packet router ≡ ok (pass hop))
            × K hop
            × (is_ok (get_edge_delay router.router_id hop gm) ≡ true))

  abbrev pub IsServing : GraphManager F → ℕ × Router F → Type 0
  IsServing gm (node, router) =
      K node × Forwards gm node router × All (IsHomeward K node) router.queue × K router.router_id

  abbrev pub IsFlying : InFlightPacket F → Type 0
  IsFlying flight = K flight.end_node × K flight.packet.destination

  decide_action-same :
      (router : Router F) (queue : List Packet) (time : F) (action : Option Action)
      (packet : Packet)
      → decide_action action packet (record router { queue = queue; next_available_time_ms = time })
        ≡ decide_action action packet router
  unfolding decide_action next_hop
  decide_action-same router queue time none packet = refl
  decide_action-same router queue time (some action) packet = refl

  -- What a router decides does not depend on its queue and its clock.
  pub Forwards-same :
      (gm : GraphManager F) (node : ℕ) (router : Router F) (queue : List Packet) (time : F)
      → Forwards gm node router
      → Forwards gm node (record router { queue = queue; next_available_time_ms = time })
  Forwards-same gm node router queue time h packet home =
      let e = decide_action-same router queue time (chosen_action router packet) packet in
      subst
        (λ d.
          (d ≡ ok discard)
          ⊎ ((hop : ℕ) × (d ≡ ok (pass hop))
              × K hop
              × (is_ok (get_edge_delay router.router_id hop gm) ≡ true)))
        (sym e) (h packet home)

  -- The parts of a state that a call may depend on.
  pub record Sound (gm : GraphManager F) (source destination : ℕ) (routers : Dict (Router F))
      (flights : List (InFlightPacket F)) : Type 0 where
    pub from_known : K source
    pub to_known : K destination
    pub apart : source ≢ destination
    pub found : (n : ℕ) → K n → (r : Router F) × (lookup n routers ≡ some r)
    pub serving : All (IsServing gm) routers
    pub flying : All IsFlying flights

  abbrev pub IsSound : {R : Type 0} → Sim F R → Type 0
  IsSound s = Sound s.graph_manager s.source s.destination s.routers s.in_flight_packets

  found-insert :
      (k n : ℕ) (v : Router F) (m : Dict (Router F))
      → ((r : Router F) × (lookup n m ≡ some r))
      → (r : Router F) × (lookup n (insert k v m) ≡ some r)
  found-insert k n v m (r, e) = elim (Bool-cases (k == n)) [
    | inl same ↦ (v, ground (arith, lookup-insert k n v m))
    | inr other ↦ (r, ground (arith, lookup-insert k n v m))
  ]

  -- The routers stay sound when one of them is replaced by a serving one.
  pub insert-Sound :
      {gm : GraphManager F} {source destination : ℕ} {routers : Dict (Router F)}
      {flights : List (InFlightPacket F)} (node : ℕ) (router : Router F)
      → IsServing gm (node, router)
      → Sound gm source destination routers flights
      → Sound gm source destination (insert node router routers) flights
  insert-Sound {gm} {routers = routers} node router serves i = record {
    from_known = i.from_known;
    to_known = i.to_known;
    apart = i.apart;
    found = λ n k. found-insert node n router routers (i.found n k);
    serving = All-insert (IsServing gm) node router routers i.serving serves;
    flying = i.flying;
  }

  module _ {R : Type 0} where
    pub enqueue_at-Returns :
        (node : ℕ) (packet : Packet) (s : Sim F R)
        → K node
        → IsHomeward K node packet
        → IsSound s
        → Returns IsSound (enqueue_at node packet s)
    unfolding enqueue_at
    enqueue_at-Returns node packet s k home i =
        let (router, e) = i.found node k in
        let (_, forwards, waiting, id) =
          All-lookup (IsServing s.graph_manager) node s.routers i.serving e in
        let serves : IsServing s.graph_manager (node, enqueue packet router) = (
          k,
          Forwards-same s.graph_manager node router (router.queue ++ packet ∷ [])
              router.next_available_time_ms forwards,
          All-concat (IsHomeward K node) router.queue packet waiting home,
          id,
        ) in
        subst
          (λ o. Returns IsSound (
            or_raise o key_error >>= λ router.
            ok (record s { routers = insert node (enqueue packet router) s.routers })))
          (sym e) (returned (insert-Sound node (enqueue packet router) serves i))

    pub inject_packet-Returns :
        (packet : Packet) (s : Sim F R)
        → K packet.source
        → IsHomeward K packet.source packet
        → IsSound s
        → Returns IsSound (inject_packet packet s)
    unfolding inject_packet
    inject_packet-Returns packet s k home i = enqueue_at-Returns packet.source packet _ k home i

    pub send_ack-Returns :
        (sequence : ℕ) (s : Sim F R) → IsSound s → Returns IsSound (send_ack sequence s)
    unfolding send_ack make_packet
    send_ack-Returns sequence s i =
        inject_packet-Returns _ _ i.to_known (record { known = i.from_known; away = i.apart }) i

  module _ {R : Type 0} where
    await_ack-IsSound : (sequence : ℕ) (s : Sim F R) → IsSound s → IsSound (await_ack sequence s)
    unfolding await_ack schedule
    await_ack-IsSound sequence s i = go s.mode
      where
        go :
            (m : Mode)
            → IsSound (elim m [
              | udp ↦ s
              | tcp ↦
                  schedule s.retransmission_timeout_ms
                    (call_timeout sequence (s.timeout_token + 1))
                    (record s { awaiting_ack = some sequence; timeout_token = s.timeout_token + 1 })
            ])
        go udp = i
        go tcp = i

    send_data-Returns :
        (sequence : ℕ) (again : Bool) (s : Sim F R)
        → IsSound s
        → Returns IsSound (send_data sequence again s)
    unfolding send_data make_packet
    send_data-Returns sequence again s i =
        Returns-if (leb s.packet_goal sequence) (λ _. returned i)
          (λ _.
            Returns-bind
              (inject_packet-Returns _ _ i.from_known
                (record { known = i.to_known; away = λ e. i.apart (sym e) }) i)
              (λ t j. returned (await_ack-IsSound sequence t j)))

    pub run_callback-Returns :
        ⦃rand : Random F R⦄ (c : Callback) (s : Sim F R)
        → IsSound s
        → Returns IsSound (run_callback c s)
    unfolding run_callback on_timeout
    run_callback-Returns (call_send sequence) s i = send_data-Returns sequence false s i
    run_callback-Returns (call_timeout sequence token) s i =
        Returns-if (not s.running || s.completed) (λ _. returned i)
          (λ _.
            Returns-if
              (not (opt_eq s.awaiting_ack (some sequence)) || not (token == s.timeout_token))
              (λ _. returned i) (λ _. send_data-Returns sequence true s i))
