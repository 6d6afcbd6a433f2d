-- ===== src/Display/Tests.antt =====
-- The drawing of sample states, with stand-ins for the formats and for rounding.
use cps344finalproject.Base.{◌*◌, ◌++◌, ◌/◌, ◌≡◌, refl, true, false, none, [], ◌∷◌, is_ok}
use cps344finalproject.Base.Integers.{ℤ, pos, pos_part, neg_part, sub_ℕ}
use cps344finalproject.Base.Fixed.{fixed, congruential}
use cps344finalproject.Packet.{Packet, data_packet, tcp}
use cps344finalproject.Engine.Samples.{udp_done}
use cps344finalproject.Engine.Reached.{udp_done-Session}
use cps344finalproject.Display.Texts.{Format, join, decimal, label}
use cps344finalproject.Display.Scene.{Renderer, Rounding, packet_color}
use cps344finalproject.Display.Panel.{legend_items, draw, draw_side_panel}
use cps344finalproject.Display.Legend.{
  meaning, packet_color-meaning, draw_side_panel-written, written, below, lines_of, last_top,
  labels,
}
use cps344finalproject.Display.Texts.{get_status_lines, get_stat_lines, get_controls}
use cps344finalproject.Display.Shown.{draw_never_fails}

instance abbrev sample_format : Format ℤ
sample_format = record {
  percent = λ x. join (decimal (pos_part x / 10) ∷ "%" ∷ []);
  one_place = λ x. decimal (pos_part x / 100);
  two_places = λ x. decimal (pos_part x / 10);
}

instance abbrev sample_rounding : Rounding ℤ
sample_rounding = record {
  int = λ x. sub_ℕ (pos_part x / 1000) (neg_part x / 1000);
  of_int = λ n. sub_ℕ (pos_part n * 1000) (neg_part n * 1000);
}

abbrev window : Renderer
window = record { width = pos 1280; height = pos 800; graph_width = pos 870 }

-- A delayed packet of the TCP-like mode.
abbrev delayed_packet : Packet
delayed_packet = record {
  packet_id = 7;
  session_id = 1;
  source = 0;
  destination = 5;
  current_node = 2;
  protocol = tcp;
  packet_type = data_packet;
  sequence = 12;
  dst_port = 443;
  ack_for = none;
  retransmission = false;
  duplicate = false;
  duplicated_from = none;
  route_history = 0 ∷ 2 ∷ [];
}

label-delayed : label delayed_packet ≡ "TCP 12"
unfolding label decimal
label-delayed = refl

draw_never_fails_example : is_ok (draw window udp_done) ≡ true
draw_never_fails_example = draw_never_fails udp_done-Session window

packet_color-meaning_example : meaning (packet_color delayed_packet true) legend_items ≡ none
packet_color-meaning_example = packet_color-meaning delayed_packet true

draw_side_panel-written_example :
    (lines_of (written (draw_side_panel window udp_done)) ≡ (
      "Protocol Simulator" ∷ get_status_lines udp_done
      ++ "Run Stats" ∷ get_stat_lines udp_done
      ++ "Legend" ∷ labels legend_items
      ++ "Controls" ∷ get_controls))
    × (below 9 ("", 0, pos 0) (written (draw_side_panel window udp_done)) ≡ true)
    × (last_top (pos 0) (written (draw_side_panel window udp_done)) ≡ pos 866)
draw_side_panel-written_example = draw_side_panel-written window udp_done
