-- ===== src/Display/Shown.antt =====
-- renderer.py and simulation.py: where the things stand that a frame of a session draws.
use cps344finalproject.Base.{
  ℕ, ◌≡◌, refl, sym, ap, subst, true, Option, none, some, List, [], ◌∷◌, Dict, lookup, Result, ok,
  or_raise, key_error, ◌>>=◌, >>=-eq-ok, is_ok, All, All-mono, All-member, keys-lookup, Returns,
  returned, Returns-bind, Returns-is_ok, inl, inr,
}
use cps344finalproject.Base.Float.{Float, Random}
use cps344finalproject.Packet.{InFlightPacket, PacketEvent, EventKind, drop_event, delivered_event}
use cps344finalproject.Graph.{SimpleGraph, EdgeData, Edge, edges, edge_data}
use cps344finalproject.Graph.Manager.{GraphManager, get_edge_delay}
use cps344finalproject.Graph.Shortest as Shortest
use cps344finalproject.Graph.Shortest.{IsGraph}
use cps344finalproject.Engine.{Sim}
use cps344finalproject.Engine.Send.{schedule}
use cps344finalproject.Engine.Commands.{reset_run_state, start_run}
use cps344finalproject.Engine.Effects.Starts.{start_run_cases}
use cps344finalproject.Engine.Session.{
  Session, begin, next, frame, press, setup_topology-Resets, handle_keydown_cases,
}
use cps344finalproject.Engine.Topologies.{IsLoaded}
use cps344finalproject.Engine.Keys.{Session-IsLoaded}
use cps344finalproject.Engine.Checked.{IsNode}
use cps344finalproject.Engine.Sound.{IsServing}
use cps344finalproject.Engine.Ready.{Session-IsReady}
use cps344finalproject.Engine.Routing.{IsLoaded-IsGraph}
use cps344finalproject.Engine.Drawable.{
  IsShown, IsMark, IsBetween, IsNamed, IsDrawable, update-IsDrawable,
}
use cps344finalproject.Display.{Drawing, each}
use cps344finalproject.Display.Texts.{Format}
use cps344finalproject.Display.Scene.{
  Renderer, Rounding, to_screen, place, draw_edge, draw_drop, draw_flight, draw_node, draw_delivery,
  draw_graph,
}
use cps344finalproject.Display.Panel.{draw}
use cps344finalproject.Graph.Edges.{Ends, edges-Ends, All-rows}
use cps344finalproject.Graph.Shortest.Edges.{edge_data-nodes}
use cps344finalproject.Display.Positions.{IsLoaded-pos, IsLoaded-IsNode}

-- It returns.
abbrev Draws : Result (List Drawing) → Type 0
Draws = Returns (λ ds. Unit {0})

each-Draws :
    {A : Type 0} (P : A → Type 0) (f : A → Result (List Drawing)) (xs : List A)
    → ((x : A) → P x → Draws (f x))
    → All P xs
    → Draws (each f xs)
each-Draws P f [] h a = returned tt
each-Draws P f (x ∷ xs) h a =
    Returns-bind (h x a.0) (λ ds _. Returns-bind (each-Draws P f xs h a.1) (λ rest _. returned tt))

-- The ends of the edges of a graph are its nodes.
IsNode-rows :
    (g : SimpleGraph)
    → IsGraph g
    → All
        (λ (e : ℕ × Dict EdgeData).
          Shortest.IsNode g e.0 × All (λ (r : ℕ × EdgeData). Shortest.IsNode g r.0) e.1)
        g.adjacency
IsNode-rows g wf =
    All-rows (Shortest.IsNode g) g.adjacency
      (λ n k. let (row, e) = keys-lookup n g.adjacency k in wf.node_of n row e) wf.inside

module _ {F : Type 0} ⦃fl : Float F⦄ ⦃round : Rounding F⦄ (r : Renderer) (positions : Dict (F × F))
    (K : ℕ → Type 0) (has : (n : ℕ) → K n → (at : F × F) × (lookup n positions ≡ some at)) where
  place-Returns : (n : ℕ) → K n → Returns (λ p. Unit {0}) (place r positions n)
  unfolding place
  place-Returns n k =
      let (at, e) = has n k in
      subst (λ o. Returns (λ p. Unit {0}) (or_raise o key_error >>= λ at. ok (to_screen r at)))
        (sym e) (returned tt)

  draw_edge-Draws : (e : Edge) → Ends K e → Draws (draw_edge r positions e)
  unfolding draw_edge
  draw_edge-Draws e h =
      Returns-bind (place-Returns e.low h.0)
        (λ a _. Returns-bind (place-Returns e.high h.1) (λ b _. returned tt))

  draw_drop-Draws : (e : PacketEvent F) → IsMark K e → Draws (draw_drop r positions e)
  unfolding draw_drop
  draw_drop-Draws e (_, from, to) = go e.kind e.start_node e.end_node from to
    where
      go :
          (kind : EventKind) (a b : Option ℕ)
          → IsShown K a
          → IsShown K b
          → Draws (draw_drop r positions (record e { kind = kind; start_node = a; end_node = b }))
      go delivered_event a b from to = returned tt
      go drop_event none b from to = returned tt
      go drop_event (some a) (some b) from to =
          Returns-bind (place-Returns a from)
            (λ start _. Returns-bind (place-Returns b to) (λ end _. returned tt))
      go drop_event (some a) none from to =
          Returns-bind (place-Returns a from) (λ start _. returned tt)

  draw_delivery-Draws : (e : PacketEvent F) → IsMark K e → Draws (draw_delivery r positions e)
  unfolding draw_delivery
  draw_delivery-Draws e (at, _, _) = go e.kind e.node at
    where
      go :
          (kind : EventKind) (a : Option ℕ)
          → IsShown K a
          → Draws (draw_delivery r positions (record e { kind = kind; node = a }))
      go drop_event a at = returned tt
      go delivered_event none at = returned tt
      go delivered_event (some a) at = Returns-bind (place-Returns a at) (λ p _. returned tt)

  draw_flight-Draws : (f : InFlightPacket F) → IsBetween K f → Draws (draw_flight r positions f)
  unfolding draw_flight
  draw_flight-Draws f h =
      Returns-bind (place-Returns f.start_node h.0)
        (λ a _. Returns-bind (place-Returns f.end_node h.1) (λ b _. returned tt))

  draw_node-Draws : (a b n : ℕ) → K n → Draws (draw_node r positions a b n)
  unfolding draw_node
  draw_node-Draws a b n h = Returns-bind (place-Returns n h) (λ p _. returned tt)

module _ {F : Type 0} ⦃fl : Float F⦄ where
  IsLoaded-linked :
      (gm : GraphManager F)
      → IsLoaded gm
      → (a b d : ℕ) → get_edge_delay a b gm ≡ ok d
      → IsNode a × IsNode b
  unfolding get_edge_delay
  IsLoaded-linked gm l a b d h =
      let (e, found, _) = >>=-eq-ok (edge_data a b gm.graph) _ h in
      let (x, y) = edge_data-nodes gm.graph a b e (IsLoaded-IsGraph gm l) found in
      (IsLoaded-IsNode gm a l x, IsLoaded-IsNode gm b l y)

module _ {F R : Type 0} ⦃fl : Float F⦄ ⦃rand : Random F R⦄ where
  -- Nothing is drawn on top of a fresh run.
  clean-IsDrawable :
      {s : Sim F R}
      → Session s
      → s.in_flight_packets ≡ []
      → s.packet_events ≡ []
      → IsDrawable IsNode s.graph_manager s
  clean-IsDrawable {s} h no_flights no_marks = (
    (
      refl,
      subst (All (IsMark IsNode)) (sym no_marks) tt,
      All-mono (IsServing IsNode s.graph_manager) (IsNamed IsNode) s.routers (λ e k. k.3)
          (Session-IsReady h).serving,
    ),
    subst (All (IsBetween IsNode)) (sym no_flights) tt,
  )

  reset-IsDrawable :
      {s : Sim F R}
      → Session s
      → (u : Sim F R) × (s ≡ reset_run_state true u)
      → IsDrawable IsNode s.graph_manager s
  unfolding reset_run_state
  reset-IsDrawable h (u, e) =
      clean-IsDrawable h (ap (λ (s : Sim F R). s.in_flight_packets) e)
        (ap (λ (s : Sim F R). s.packet_events) e)

  started-IsDrawable :
      {t : Sim F R} (s : Sim F R)
      → Session t
      → t ≡ start_run s
      → IsDrawable IsNode t.graph_manager t
  unfolding reset_run_state schedule
  started-IsDrawable {t} s h e = elim (start_run_cases s t e) [
    | inl (_, e) ↦
        clean-IsDrawable h (ap (λ (s : Sim F R). s.in_flight_packets) e)
          (ap (λ (s : Sim F R). s.packet_events) e)
    | inr (_, e) ↦
        clean-IsDrawable h (ap (λ (s : Sim F R). s.in_flight_packets) e)
          (ap (λ (s : Sim F R). s.packet_events) e)
  ]

  Session-IsDrawable : {s : Sim F R} → Session s → IsDrawable IsNode s.graph_manager s
  Session-IsDrawable (begin {s} h) = reset-IsDrawable (begin h) (setup_topology-Resets _ _ s h)
  Session-IsDrawable (next {s} {t} before (frame dt h)) =
      let i =
        update-IsDrawable IsNode s.graph_manager
          (IsLoaded-linked s.graph_manager (Session-IsLoaded before)) dt s t h
          (Session-IsDrawable before) in
      subst (λ gm. IsDrawable IsNode gm t) (sym i.0.0) i
  Session-IsDrawable (next {s} {t} before (press key h)) = elim (handle_keydown_cases key s t h) [
    | inl (inl same) ↦
        subst (λ (t : Sim F R). IsDrawable IsNode t.graph_manager t) (sym same)
          (Session-IsDrawable before)
    | inl (inr started) ↦ started-IsDrawable s (next before (press key h)) started
    | inr resets ↦ reset-IsDrawable (next before (press key h)) resets
  ]

  -- At any moment of a session, `draw` raises no exception: every node, link, packet and mark has a
  -- position.
  pub draw_never_fails :
      ⦃round : Rounding F⦄ ⦃format : Format F⦄ {s : Sim F R}
      → Session s
      → (r : Renderer) → is_ok (draw r s) ≡ true
  unfolding draw draw_graph
  draw_never_fails {s = s} h r =
      let gm = s.graph_manager in
      let loaded = Session-IsLoaded h in
      let ((_, marks, _), flights) = Session-IsDrawable h in
      let has : (n : ℕ) → IsNode n → (at : F × F) × (lookup n gm.pos ≡ some at) =
        λ n k. IsLoaded-pos gm n loaded k in
      let nodes : All IsNode gm.graph.nodes =
        All-member IsNode gm.graph.nodes (λ n m. IsLoaded-IsNode gm n loaded m) in
      let ends : All (Ends IsNode) (edges gm.graph) =
        All-mono (Ends (Shortest.IsNode gm.graph)) (Ends IsNode) (edges gm.graph)
          (λ e k. (IsLoaded-IsNode gm e.low loaded k.0, IsLoaded-IsNode gm e.high loaded k.1))
          (edges-Ends (Shortest.IsNode gm.graph) gm.graph
            (IsNode-rows gm.graph (IsLoaded-IsGraph gm loaded))) in
      Returns-is_ok {P = λ ds. Unit {0}} (
        Returns-bind {P = λ ds. Unit {0}}
          (Returns-bind (each-Draws (Ends IsNode) _ _ (draw_edge-Draws r gm.pos IsNode has) ends)
            (λ links _.
              Returns-bind
                (each-Draws (IsMark IsNode) _ _ (draw_drop-Draws r gm.pos IsNode has) marks)
                (λ drops _.
                  Returns-bind
                    (each-Draws (IsBetween IsNode) _ _ (draw_flight-Draws r gm.pos IsNode has)
                      flights)
                    (λ packets _.
                      Returns-bind
                        (each-Draws IsNode _ _
                          (draw_node-Draws r gm.pos IsNode has s.source s.destination) nodes)
                        (λ circles _.
                          Returns-bind
                            (each-Draws (IsMark IsNode) _ _
                              (draw_delivery-Draws r gm.pos IsNode has) marks)
                            (λ deliveries _. returned tt))))))
          (λ scene _. returned tt))
