-- ===== src/Engine/Serving.antt =====
-- simulation.py: the routers that a setup builds, and what packets need of them.
use cps344finalproject.Base.{
  ℕ, ◌≡◌, ◌≢◌, refl, sym, ap, subst, Bool, true, false, ◌&&◌, Option, some, none, List, [], ◌∷◌,
  map, lookup, Dict, ok, key_error, ◌>>=◌, if◌then◌else◌, ◌==◌, ltb, All, arith, inl, inr, ◌⊎◌,
  >>=-is_ok, Bool-cases, &&-split, every, every-member, upto, member-upto_lt, ltb→lt, if-true,
  if-false, if-both, or_raise, ◌∙◌,
}
use cps344finalproject.Base.Float.{Float, num}
use cps344finalproject.Packet.{Packet, InFlightPacket}
use cps344finalproject.Router.{
  Router, Rule, drop_action, apply_rules, demo_rules, new_router, next_hop, build_routers,
  build_demo_sdn_routers, firewall_rules, is_data,
}
use cps344finalproject.Graph.{edge_data}
use cps344finalproject.Graph.Route.{build_forwarding_tables}
use cps344finalproject.Graph.Manager.{GraphManager, get_edge_delay}
use cps344finalproject.Engine.Run.{pass, decide_action, chosen_action}
use cps344finalproject.Engine.Commands.{clear_router}
use cps344finalproject.Engine.Sound.{Forwards, Forwards-same, IsServing, Sound}
use cps344finalproject.Engine.Topologies.{IsLoaded}
use cps344finalproject.Engine.Checked.{
  IsNode, leads, rows_lead, complete, has_row, leads-hop, IsLoaded-complete,
}

firewall_drops :
    (blocked_port : ℕ) (packet : Packet)
    → (apply_rules (firewall_rules blocked_port) packet ≡ none)
      ⊎ (apply_rules (firewall_rules blocked_port) packet ≡ some drop_action)
unfolding apply_rules
firewall_drops blocked_port packet =
    elim (Bool-cases (packet.dst_port == blocked_port && is_data packet.packet_type)) [
      | inl blocked ↦ inr (if-true _ _ _ blocked)
      | inr other ↦ inl (if-false _ _ _ other)
    ]

module _ {F : Type 0} ⦃fl : Float F⦄ where
  new-Forwards :
      (gm : GraphManager F) (id : ℕ) (table : Dict ℕ) (delay : F) (rules : Option (List Rule))
      → ((packet : Packet)
          → (chosen_action (new_router id table delay rules) packet ≡ none)
            ⊎ (chosen_action (new_router id table delay rules) packet ≡ some drop_action))
      → every (leads gm.graph id table) (upto 6) ≡ true
      → Forwards IsNode gm id (new_router id table delay rules)
  unfolding decide_action next_hop get_edge_delay
  new-Forwards gm id table delay rules drops all packet home = elim (drops packet) [
    | inr dropped ↦ inl (ap (λ a. decide_action a packet (new_router id table delay rules)) dropped)
    | inl passed ↦
        let (hop, e, known, edge) =
          leads-hop gm.graph id table packet.destination
            (every-member (leads gm.graph id table) packet.destination (upto 6) all
              (member-upto_lt 6 packet.destination home.known))
            home.away in
        inr (
          hop,
          ap (λ a. decide_action a packet (new_router id table delay rules)) passed
              ∙ ap (λ o. or_raise o key_error >>= λ hop. ok (pass hop)) e,
          known,
          >>=-is_ok (edge_data id hop gm.graph) _ edge (λ d e'. refl),
        )
  ]

  demo_drops :
      (id : ℕ) (table : Dict ℕ) (delay : F) (firewall : Option ℕ) (port : ℕ) (packet : Packet)
      → (chosen_action (new_router id table delay (demo_rules firewall port id)) packet ≡ none)
        ⊎ (chosen_action (new_router id table delay (demo_rules firewall port id)) packet
            ≡ some drop_action)
  demo_drops id table delay none port packet = inl refl
  demo_drops id table delay (some firewall) port packet =
      if-both
        (λ rules.
          (chosen_action (new_router id table delay rules) packet ≡ none)
          ⊎ (chosen_action (new_router id table delay rules) packet ≡ some drop_action))
        (id == firewall) (firewall_drops port packet) (inl refl)

  -- Any routers over checked tables, with rules that only drop packets, when they are cleared.
  module _ (gm : GraphManager F) (delay : F) (rules : ℕ → Option (List Rule))
      (drops : (id : ℕ) (table : Dict ℕ) (packet : Packet)
        → (chosen_action (new_router id table delay (rules id)) packet ≡ none)
          ⊎ (chosen_action (new_router id table delay (rules id)) packet ≡ some drop_action)) where
    abbrev router_of : ℕ × Dict ℕ → ℕ × Router F
    router_of (id, table) = (id, new_router id table delay (rules id))

    IsServing-rows :
        (tables : Dict (Dict ℕ))
        → rows_lead gm.graph tables ≡ true
        → All (IsServing IsNode gm) (map router_of tables)
    unfolding rows_lead
    IsServing-rows [] h = tt
    IsServing-rows ((id, table) ∷ tables) h =
        let (known, h') = &&-split (ltb id 6) _ h in
        let (leading, rest) = &&-split (every (leads gm.graph id table) (upto 6)) _ h' in
        (
          (
            ltb→lt id 6 known,
            new-Forwards gm id table delay (rules id) (drops id table) leading,
            tt,
            ltb→lt id 6 known,
          ),
          IsServing-rows tables rest,
        )

    found-rows :
        (tables : Dict (Dict ℕ)) (n : ℕ)
        → has_row tables n ≡ true
        → (r : Router F) × (lookup n (map router_of tables) ≡ some r)
    found-rows [] n h = absurd (ground arith)
    found-rows ((id, table) ∷ tables) n h = elim (Bool-cases (id == n)) [
      | inl this ↦ (new_router id table delay (rules id), if-true _ _ _ this)
      | inr other ↦
          let (r, e) = found-rows tables n (
            subst {A = Option (Dict ℕ)} (λ o. elim o [ none ↦ false | some _ ↦ true ] ≡ true)
              (if-false _ _ _ other) h) in
          (r, if-false _ _ _ other ∙ e)
    ]

    built-Sound :
        (source destination : ℕ) (tables : Dict (Dict ℕ))
        → IsNode source
        → IsNode destination
        → source ≢ destination
        → complete gm.graph tables ≡ true
        → Sound IsNode gm source destination (map router_of tables) []
    unfolding complete
    built-Sound source destination tables from to apart h =
        let (rows, leading) = &&-split _ _ h in
        record {
          from_known = from;
          to_known = to;
          apart = apart;
          found = λ n k.
              found-rows tables n
                (every-member (has_row tables) n (upto 6) rows (member-upto_lt 6 n k));
          serving = IsServing-rows tables leading;
          flying = tt;
        }

  clear-IsServing :
      (gm : GraphManager F) (routers : Dict (Router F))
      → All (IsServing IsNode gm) routers
      → All (IsServing IsNode gm) (map clear_router routers)
  clear-IsServing gm [] h = tt
  clear-IsServing gm ((id, r) ∷ routers) ((known, forwards, _, own), rest) = (
    (known, Forwards-same IsNode gm id r [] (num 0) forwards, tt, own),
    clear-IsServing gm routers rest,
  )

  clear-found :
      (routers : Dict (Router F)) (n : ℕ)
      → ((r : Router F) × (lookup n routers ≡ some r))
      → (r : Router F) × (lookup n (map clear_router routers) ≡ some r)
  clear-found [] n (r, e) = absurd (ground arith)
  clear-found ((id, r) ∷ routers) n found = elim (Bool-cases (id == n)) [
    | inl this ↦ (_, if-true _ _ _ this)
    | inr other ↦
        let (q, e) = clear-found routers n (found.0, sym (if-false _ _ _ other) ∙ found.1) in
        (q, if-false _ _ _ other ∙ e)
  ]

  -- A reset empties the queues and the links.
  pub clear-Sound :
      (gm : GraphManager F) (source destination : ℕ) (routers : Dict (Router F))
      (flights : List (InFlightPacket F))
      → Sound IsNode gm source destination routers flights
      → Sound IsNode gm source destination (map clear_router routers) []
  clear-Sound gm source destination routers flights i = record {
    from_known = i.from_known;
    to_known = i.to_known;
    apart = i.apart;
    found = λ n k. clear-found routers n (i.found n k);
    serving = clear-IsServing gm routers i.serving;
    flying = tt;
  }

  -- The routers that `_rebuild_routers` may build.
  pub routers-Sound :
      (gm : GraphManager F) (use_sdn : Bool) (firewall : Option ℕ) (delay : F)
      (source destination : ℕ) (tables : Dict (Dict ℕ))
      → IsLoaded gm
      → build_forwarding_tables gm.graph ≡ ok tables
      → IsNode source
      → IsNode destination
      → source ≢ destination
      → Sound IsNode gm source destination
          (if use_sdn
            then build_demo_sdn_routers firewall 80 delay tables
            else build_routers delay tables)
          []
  unfolding build_routers build_demo_sdn_routers
  routers-Sound gm use_sdn firewall delay source destination tables l built from to apart =
      let h = IsLoaded-complete gm tables l built in
      if-both (λ routers. Sound IsNode gm source destination routers []) use_sdn
        (built-Sound gm delay (demo_rules firewall 80)
          (λ id table packet. demo_drops id table delay firewall 80 packet) source destination
          tables from to apart h)
        (built-Sound gm delay (λ id. none) (λ id table packet. inl refl) source destination tables
          from to apart h)
