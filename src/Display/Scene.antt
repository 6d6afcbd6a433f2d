-- ===== src/Display/Scene.antt =====
-- renderer.py: the left part of the window, with the topology, the packets and the marks.
use cps344finalproject.Base.{
  ℕ, ◌+◌, Bool, ◌||◌, none, some, List, [], ◌∷◌, ◌++◌, Dict, lookup, Result, ok, or_raise,
  key_error, ◌>>=◌, if◌then◌else◌, ◌==◌,
}
use cps344finalproject.Base.Integers.{ℤ, pos, ◌+ℤ◌, ◌-ℤ◌, half, max_ℤ}
use cps344finalproject.Base.Float.{Float}
use cps344finalproject.Packet.{
  Packet, data_packet, ack_packet, udp, tcp, InFlightPacket, progress, PacketEvent, drop_event,
  delivered_event,
}
use cps344finalproject.Graph.{Edge, edges}
use cps344finalproject.Engine.{Sim}
use cps344finalproject.Display.{
  title_font, body_font, small_font, Color, Point, Drawing, rect, line, disc, ring, text, each,
}
use cps344finalproject.Display.Texts.{join, decimal, label, label_text}

-- `int(x)`, and the value of an integer among floats.
pub record Rounding (F : Type 0) : Type 0 where
  pub int : F → ℤ
  pub of_int : ℤ → F

-- The sizes that `Renderer` keeps.
pub record Renderer : Type 0 where
  pub width : ℤ
  pub height : ℤ
  pub graph_width : ℤ

abbrev pub node_radius : ℕ
node_radius = 22

-- The midpoint of a line.
abbrev pub midpoint : Point → Point → Point
midpoint (x, y) (x', y') = (half (x +ℤ x'), half (y +ℤ y'))

-- `_packet_color`
unfoldable pub packet_color : Packet → Bool → Color
packet_color packet delayed = elim packet.packet_type [
  | ack_packet ↦ (120, 205, 255)
  | data_packet ↦
      if packet.duplicate
      then (206, 145, 255)
      else if packet.retransmission
      then (255, 205, 124)
      else if delayed
      then (255, 221, 112)
      else elim packet.protocol [ udp ↦ (255, 156, 94) | tcp ↦ (112, 220, 160) ]
]

-- `_draw_cross`
abbrev pub draw_cross : Point → Color → List Drawing
draw_cross (x, y) color =
    line color (x -ℤ pos 9, y -ℤ pos 9) (x +ℤ pos 9, y +ℤ pos 9) 3
    ∷ line color (x -ℤ pos 9, y +ℤ pos 9) (x +ℤ pos 9, y -ℤ pos 9) 3
    ∷ []

module _ {F : Type 0} ⦃fl : Float F⦄ ⦃round : Rounding F⦄ where
  -- The sizes of a window on a display of the given size.
  unfoldable pub new_renderer : F → F → Renderer
  new_renderer current_w current_h =
      let width = max_ℤ (pos 1280) (round.int (fl.mul current_w (fl.lit 94 2))) in
      record {
        width = width;
        height = max_ℤ (pos 800) (round.int (fl.mul current_h (fl.lit 92 2)));
        graph_width = round.int (fl.mul (round.of_int width) (fl.lit 68 2));
      }

  -- `_to_screen`
  unfoldable pub to_screen : Renderer → F × F → Point
  to_screen r (x, y) = (
    round.int
        (fl.mul (fl.add x (fl.lit 115 2)) (fl.div (round.of_int r.graph_width) (fl.lit 24 1))),
    round.int (fl.mul (fl.add y (fl.lit 105 2)) (fl.div (round.of_int r.height) (fl.lit 21 1))),
  )

  -- `self._to_screen(self.graph_manager.pos[node])`
  unfoldable pub place : Renderer → Dict (F × F) → ℕ → Result Point
  place r positions node = do at ← or_raise (lookup node positions) key_error; ok (to_screen r at)

  unfoldable pub draw_edge : Renderer → Dict (F × F) → Edge → Result (List Drawing)
  draw_edge r positions edge = do
    a ← place r positions edge.low
    b ← place r positions edge.high
    let (x, y) = midpoint a b
    ok (
        line (92, 110, 130) a b 3
        ∷ text small_font (join (decimal edge.payload.delay_ms ∷ " ms" ∷ [])) (160, 173, 190)
            (x -ℤ pos 20, y -ℤ pos 12)
        ∷ [])

  -- The first loop over the marks: packets that were dropped on a link, or at a router.
  unfoldable pub draw_drop : Renderer → Dict (F × F) → PacketEvent F → Result (List Drawing)
  draw_drop r positions event = elim event.kind [
    | delivered_event ↦ ok []
    | drop_event ↦ elim event.start_node [
      | none ↦ ok []
      | some start_node ↦ elim event.end_node [
        | some end_node ↦ place r positions start_node >>= λ start.
            place r positions end_node >>= λ end.
            let (x, y) = midpoint start end in
            ok (
              draw_cross (x, y) (225, 90, 90)
              ++ text small_font (label_text event.label) (236, 158, 158) (x -ℤ pos 28, y -ℤ pos 26)
                ∷ [])
        | none ↦ place r positions start_node >>= λ (x, y). ok (
            draw_cross (x, y) (225, 90, 90)
            ++ text small_font (label_text event.label) (236, 158, 158) (x -ℤ pos 28, y -ℤ pos 42)
              ∷ [])
      ]
    ]
  ]

  -- `int(start + (end - start) * progress)`
  unfoldable pub between : F → ℤ → ℤ → ℤ
  between share start end =
      round.int (fl.add (round.of_int start) (fl.mul (round.of_int (end -ℤ start)) share))

  unfoldable pub draw_flight : Renderer → Dict (F × F) → InFlightPacket F → Result (List Drawing)
  draw_flight r positions flight = do
    start ← place r positions flight.start_node
    end ← place r positions flight.end_node
    let x = between (progress flight) start.0 end.0
    let y = between (progress flight) start.1 end.1
    ok (
        disc (packet_color flight.packet flight.delayed) (x, y) 10
          ∷ (if flight.packet.retransmission then ring (255, 225, 150) (x, y) 13 2 ∷ [] else [])
        ++ text small_font (label flight.packet) (240, 240, 240) (x +ℤ pos 12, y -ℤ pos 8) ∷ [])

  unfoldable pub draw_node : Renderer → Dict (F × F) → ℕ → ℕ → ℕ → Result (List Drawing)
  draw_node r positions source destination node = do
    at ← place r positions node
    let is_endpoint = node == source || node == destination
    ok (
        disc (if is_endpoint then (90, 170, 255) else (88, 114, 140)) at node_radius
        ∷ ring (230, 240, 255) at node_radius 2
        ∷ text body_font (join ("R" ∷ decimal node ∷ [])) (12, 18, 24)
            (at.0 -ℤ pos 14, at.1 -ℤ pos 10)
        ∷ [])

  -- The second loop over the marks: packets that were delivered.
  unfoldable pub draw_delivery : Renderer → Dict (F × F) → PacketEvent F → Result (List Drawing)
  draw_delivery r positions event = elim event.kind [
    | drop_event ↦ ok []
    | delivered_event ↦ elim event.node [
      | none ↦ ok []
      | some node ↦ place r positions node >>= λ at. ok (
          ring (100, 225, 150) at (node_radius + 8) 3
          ∷ text small_font (label_text event.label) (165, 235, 188)
              (at.0 -ℤ pos 18, at.1 -ℤ pos 42)
          ∷ [])
    ]
  ]

  -- `_draw_graph`
  unfoldable pub draw_graph : {R : Type 0} → Renderer → Sim F R → Result (List Drawing)
  draw_graph r s = do
    let gm = s.graph_manager
    links ← each (draw_edge r gm.pos) (edges gm.graph)
    drops ← each (draw_drop r gm.pos) s.packet_events
    flights ← each (draw_flight r gm.pos) s.in_flight_packets
    nodes ← each (draw_node r gm.pos s.source s.destination) gm.graph.nodes
    deliveries ← each (draw_delivery r gm.pos) s.packet_events
    ok (
        rect (24, 31, 42)
            (record { left = pos 0; top = pos 0; width = r.graph_width; height = r.height })
          ∷ links
        ++ drops
        ++ flights
        ++ nodes
        ++ deliveries
        ++ text title_font "Network Topology" (240, 244, 250) (pos 24, pos 18)
          ∷ text small_font gm.description (176, 188, 204) (pos 24, pos 52)
          ∷ [])
