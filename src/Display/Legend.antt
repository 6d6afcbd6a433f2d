-- ===== src/Display/Legend.antt =====
-- renderer.py: the legend and the colours of packets, and what the side panel writes.
use Prim.Native.String.{String}
use cps344finalproject.Base.{
  ℕ, ◌+◌, ◌++◌, ◌≡◌, refl, Bool, true, false, ◌&&◌, ◌||◌, Option, none, some, List, [], ◌∷◌, ◌==◌,
  if◌then◌else◌,
}
use cps344finalproject.Base.Float.{Float}
use cps344finalproject.Packet.{Packet, PacketType, data_packet, ack_packet, Mode, udp, tcp}
use cps344finalproject.Engine.{Sim}
use cps344finalproject.Base.Integers.{ℤ, pos, le_ℤ, ◌+ℤ◌}
use cps344finalproject.Display.{Color, Drawing, fill, rect, line, disc, ring, text, font_size}
use cps344finalproject.Display.Texts.{Format, get_status_lines, get_stat_lines, get_controls}
use cps344finalproject.Display.Scene.{Renderer, packet_color}
use cps344finalproject.Display.Panel.{legend_items, draw_side_panel}

-- What the legend says of a colour.
abbrev pub meaning : Color → List (Color × String) → Option String
meaning color [] = none
meaning (r, g, b) (((r', g', b'), name) ∷ items) =
    if r == r' && g == g' && b == b' then some name else meaning (r, g, b) items

-- The legend names the colour of every packet rightly, except that of a retransmission and that of
-- a delayed packet, which it does not show at all.
pub packet_color-meaning :
    (packet : Packet) (delayed : Bool)
    → meaning (packet_color packet delayed) legend_items ≡ elim packet.packet_type [
      | ack_packet ↦ some "ACK packet"
      | data_packet ↦
          if packet.duplicate
          then some "Duplicate packet"
          else if packet.retransmission || delayed
          then none
          else elim packet.protocol [ udp ↦ some "UDP data" | tcp ↦ some "TCP data" ]
    ]
unfolding packet_color
packet_color-meaning packet delayed =
    go packet.packet_type packet.duplicate packet.retransmission delayed packet.protocol
  where
    go :
        (kind : PacketType) (duplicate again delayed : Bool) (protocol : Mode)
        → meaning
            (packet_color
              (record packet {
                packet_type = kind;
                duplicate = duplicate;
                retransmission = again;
                protocol = protocol;
              })
              delayed)
            legend_items
          ≡ elim kind [
            | ack_packet ↦ some "ACK packet"
            | data_packet ↦
                if duplicate
                then some "Duplicate packet"
                else if again || delayed
                then none
                else elim protocol [ udp ↦ some "UDP data" | tcp ↦ some "TCP data" ]
          ]
    go ack_packet d a l p = refl
    go data_packet true a l p = refl
    go data_packet false true l p = refl
    go data_packet false false true p = refl
    go data_packet false false false udp = refl
    go data_packet false false false tcp = refl

-- A text that is drawn, the size of its font, and its top.
abbrev pub Written : Type 0
Written = String × ℕ × ℤ

abbrev pub written : List Drawing → List Written
written [] = []
written (d ∷ ds) = elim d [
  | text font name color (x, y) ↦ (name, font_size font, y) ∷ written ds
  | fill color ↦ written ds
  | rect color box ↦ written ds
  | line color a b width ↦ written ds
  | disc color centre radius ↦ written ds
  | ring color centre radius width ↦ written ds
]

-- From each text to the next there is room for its font and `gap` pixels more.
abbrev pub below : ℕ → Written → List Written → Bool
below gap above [] = true
below gap (_, size, y) ((name, next_size, z) ∷ rest) =
    le_ℤ (y +ℤ pos (size + gap)) z && below gap (name, next_size, z) rest

abbrev pub lines_of : List Written → List String
lines_of [] = []
lines_of ((name, _, _) ∷ rest) = name ∷ lines_of rest

abbrev pub last_top : ℤ → List Written → ℤ
last_top y [] = y
last_top y ((_, _, z) ∷ rest) = last_top z rest

abbrev pub labels : List (Color × String) → List String
labels [] = []
labels ((_, label) ∷ items) = label ∷ labels items

module _ {F R : Type 0} ⦃fl : Float F⦄ ⦃format : Format F⦄ where
  -- What the side panel writes, in every state and for every size of the window, are its title and
  -- the four sections with their headings, in this order; each text is below the one before it, with
  -- room for the size of that one's font and 9 pixels more; and the last text starts 866 pixels
  -- below the top of the window.
  pub draw_side_panel-written :
      (r : Renderer) (s : Sim F R)
      → (lines_of (written (draw_side_panel r s)) ≡ (
          "Protocol Simulator" ∷ get_status_lines s
          ++ "Run Stats" ∷ get_stat_lines s
          ++ "Legend" ∷ labels legend_items
          ++ "Controls" ∷ get_controls))
        × (below 9 ("", 0, pos 0) (written (draw_side_panel r s)) ≡ true)
        × (last_top (pos 0) (written (draw_side_panel r s)) ≡ pos 866)
  unfolding draw_side_panel get_status_lines get_stat_lines
  draw_side_panel-written r s = (refl, refl, refl)
