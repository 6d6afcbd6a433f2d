-- ===== src/Packet.antt =====
-- packet.py: packets, packets on a link, and the marks that the display shows for a while.
use cps344finalproject.Base.{
  ◌≡◌, refl, ◌⊎◌, inl, inr, ℕ, Bool, Option, List, [], ◌∷◌, if◌then◌else◌,
}
use cps344finalproject.Base.Float.{Float, num, maxf, minf}

-- `SimulationEngine.mode`, which is also a packet's `protocol`.
pub data Mode : Type 0 where
  udp tcp : Mode

pub Mode-cases : (m : Mode) → (m ≡ udp) ⊎ (m ≡ tcp)
Mode-cases udp = inl refl
Mode-cases tcp = inr refl

-- `packet_type`: "data" or "ack".
pub data PacketType : Type 0 where
  data_packet ack_packet : PacketType

pub record Packet : Type 0 where
  pub packet_id : ℕ
  pub session_id : ℕ
  pub source : ℕ
  pub destination : ℕ
  pub current_node : ℕ
  pub protocol : Mode
  pub packet_type : PacketType
  pub sequence : ℕ
  pub dst_port : ℕ
  pub ack_for : Option ℕ
  pub retransmission : Bool
  pub duplicate : Bool
  pub duplicated_from : Option ℕ
  pub route_history : List ℕ

-- `__post_init__`
abbrev pub post_init : Packet → Packet
post_init p = elim p.route_history [
  | [] ↦ record p { route_history = p.current_node ∷ [] }
  | _ ∷ _ ↦ p
]

pub record InFlightPacket (F : Type 0) : Type 0 where
  pub packet : Packet
  pub start_node : ℕ
  pub end_node : ℕ
  pub total_time_ms : F
  pub remaining_time_ms : F
  pub delayed : Bool
  pub dropped : Bool

-- `PacketEvent.kind`
pub data EventKind : Type 0 where
  drop_event delivered_event : EventKind

-- The labels that `simulation.py` writes: a drop's reason, or what was delivered.
pub data Label : Type 0 where
  sdn_drop link_loss ack_label : Label
  seq_label : ℕ → Label

pub record PacketEvent (F : Type 0) : Type 0 where
  pub kind : EventKind
  pub node : Option ℕ
  pub start_node : Option ℕ
  pub end_node : Option ℕ
  pub label : Label
  pub ttl_ms : F

module _ {F : Type 0} ⦃fl : Float F⦄ where
  -- `InFlightPacket.progress`
  unfoldable pub progress : InFlightPacket F → F
  progress f =
      if fl.le f.total_time_ms (num 0)
      then num 1
      else maxf (num 0) (minf (num 1) (fl.sub (num 1) (fl.div f.remaining_time_ms f.total_time_ms)))
