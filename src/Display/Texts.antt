-- ===== src/Display/Texts.antt =====
-- The texts that simulation.py and packet.py write for the display.
use Prim.Native.String.{String, slice, ◌++◌ as append}
use cps344finalproject.Base.{
  ℕ, zero, suc, ◌/◌, ◌%◌, Bool, true, false, Option, none, some, List, [], ◌∷◌, if◌then◌else◌, ◌==◌,
  ltb,
}
use cps344finalproject.Base.Float.{Float, num}
use cps344finalproject.Packet.{
  Packet, data_packet, ack_packet, Mode, udp, tcp, Label, sdn_drop, link_loss, ack_label, seq_label,
}
use cps344finalproject.Stats.{completion_time_ms}
use cps344finalproject.Engine.{Sim}

-- The parts of an f-string, one after the other.
abbrev pub join : List String → String
join [] = ""
join (s ∷ rest) = append s (join rest)

abbrev digit : ℕ → String
digit d = slice "0123456789" d (suc d)

decimal_within : ℕ → ℕ → String
decimal_within zero n = ""
decimal_within (suc fuel) n = elim (ltb n 10) [
  | true ↦ digit n
  | false ↦ append (decimal_within fuel (n / 10)) (digit (n % 10))
]

-- `str(n)`: a number has fewer digits than its successor counts.
unfoldable pub decimal : ℕ → String
unfolding decimal_within
decimal n = decimal_within (suc n) n

-- The formats `:.0%`, `:.1f` and `:.2f` of `float`.
pub record Format (F : Type 0) : Type 0 where
  pub percent : F → String
  pub one_place : F → String
  pub two_places : F → String

abbrev pub on_off : Bool → String
on_off b = if b then "on" else "off"

-- `mode`, and a packet's `protocol`
abbrev pub mode_text : Mode → String
mode_text udp = "UDP"
mode_text tcp = "TCP"

-- `str(ack_for)`
abbrev pub optional : Option ℕ → String
optional none = "None"
optional (some n) = decimal n

-- `Packet.label`
unfoldable pub label : Packet → String
label packet = elim packet.packet_type [
  | ack_packet ↦ join ("ACK " ∷ optional packet.ack_for ∷ [])
  | data_packet ↦ join (mode_text packet.protocol ∷ " " ∷ decimal packet.sequence ∷ [])
]

-- The label of a mark, as it is written.
abbrev pub label_text : Label → String
label_text sdn_drop = "SDN drop"
label_text link_loss = "Link loss"
label_text ack_label = "ACK"
label_text (seq_label n) = join ("SEQ " ∷ decimal n ∷ [])

module _ {F R : Type 0} ⦃fl : Float F⦄ ⦃format : Format F⦄ where
  unfoldable pub get_status_lines : Sim F R → List String
  get_status_lines s =
      let traffic_label = if s.traffic_port == 80 then "HTTP/80" else "HTTPS/443" in
      let run_state = if s.running then "Running" else "Idle" in
      join ("Mode: " ∷ mode_text s.mode ∷ "-like" ∷ "   State: " ∷ run_state ∷ [])
      ∷ join ("Topology: " ∷ s.graph_manager.current_topology_name ∷ [])
      ∷ join (
          "Conditions: "
          ∷ "loss="
          ∷ format.percent s.conditions.loss_rate
          ∷ ", "
          ∷ "delay x"
          ∷ format.one_place s.conditions.delay_multiplier
          ∷ ", "
          ∷ "duplicate="
          ∷ on_off (fl.lt (num 0) s.conditions.duplicate_rate)
          ∷ ", "
          ∷ "chaos="
          ∷ on_off s.conditions.chaos_mode
          ∷ [])
      ∷ join (
          "Traffic: "
          ∷ traffic_label
          ∷ ", SDN="
          ∷ on_off s.use_sdn
          ∷ ", "
          ∷ "source="
          ∷ decimal s.source
          ∷ ", destination="
          ∷ decimal s.destination
          ∷ [])
      ∷ []

  abbrev pub elapsed_ms : Sim F R → F
  elapsed_ms s = if s.running then s.current_time_ms else completion_time_ms s.stats

  unfoldable pub get_stat_lines : Sim F R → List String
  get_stat_lines s =
      join ("Packets sent: " ∷ decimal s.stats.packets_sent ∷ [])
      ∷ join (
          "Packets delivered: "
          ∷ decimal s.stats.packets_delivered
          ∷ "/"
          ∷ decimal s.packet_goal
          ∷ [])
      ∷ join ("Packets dropped: " ∷ decimal s.stats.packets_dropped ∷ [])
      ∷ join ("Retransmissions: " ∷ decimal s.stats.retransmissions ∷ [])
      ∷ join ("Duplicates: " ∷ decimal s.stats.duplicate_packets ∷ [])
      ∷ join ("Acknowledgements: " ∷ decimal s.stats.acknowledgements ∷ [])
      ∷ join ("Completion time: " ∷ format.two_places (fl.div (elapsed_ms s) (num 1000)) ∷ "s" ∷ [])
      ∷ []

abbrev pub get_controls : List String
get_controls =
    "SPACE start run" ∷ "M switch UDP/TCP" ∷ "T cycle topology" ∷ "C toggle chaos"
    ∷ "D toggle duplicates" ∷ "S toggle SDN firewall" ∷ "P toggle traffic port 443/80"
    ∷ "[ / ] adjust loss" ∷ "- / = adjust delay" ∷ "R reset" ∷ []
