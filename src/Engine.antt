-- ===== src/Engine.antt =====
-- simulation.py: the state of `SimulationEngine`, which one record holds.
pub mod Send
pub mod Link
pub mod Receive
pub mod Run
pub mod Commands
pub mod Effects
pub mod Rounds
pub mod Rule
pub mod Session
pub mod Samples
pub mod Balance
pub mod Reliable
pub mod Datagram
pub mod Modes
pub mod Settings
pub mod Clock
pub mod Due
pub mod Conditions
pub mod Topologies
pub mod Keys
pub mod Sound
pub mod Landing
pub mod Frames
pub mod Checked
pub mod Serving
pub mod Ready
pub mod Routing
pub mod Drawable
pub mod Queue
pub mod Overdue
pub mod Once
pub mod Reached
mod Tests
mod Trials
use Prim.Native.String.{String}
use cps344finalproject.Base.{
  ℕ, ◌+◌, Bool, true, false, ◌&&◌, ◌||◌, Option, none, some, List, [], ◌∷◌, ◌++◌, map, Dict, insert,
  lookup, Result, ok, err, or_raise, key_error, ◌>>=◌, if◌then◌else◌, ltb,
}
use cps344finalproject.Base.Float.{Float, Random, num}
use cps344finalproject.Packet.{Mode, udp, Packet, InFlightPacket, PacketEvent}
use cps344finalproject.Stats.{RunStats, new_stats}
use cps344finalproject.Router.{Router, enqueue}
use cps344finalproject.Graph.Manager.{GraphManager}

pub record NetworkConditions (F : Type 0) : Type 0 where
  pub loss_rate : F
  pub delay_multiplier : F
  pub duplicate_rate : F
  pub chaos_mode : Bool

-- The closures that are scheduled: `_send_data(seq)` and `_on_timeout(seq, token)`.
pub data Callback : Type 0 where
  call_send : ℕ → Callback
  call_timeout : ℕ → ℕ → Callback

-- An entry of `events`: `(due_time, event_id, callback)`.
pub record Event (F : Type 0) : Type 0 where
  pub due_time : F
  pub event_id : ℕ
  pub callback : Callback

-- `R` is the state of the random generator.
pub record Sim (F R : Type 0) : Type 0 where
  pub graph_manager : GraphManager F
  pub generator : R
  pub conditions : NetworkConditions F
  pub mode : Mode
  pub packet_goal : ℕ
  pub traffic_port : ℕ
  pub use_sdn : Bool
  pub send_interval_ms : F
  pub retransmission_timeout_ms : F
  pub max_runtime_ms : F
  pub processing_delay_ms : F
  pub firewall_nodes : List (String × ℕ)
  pub current_time_ms : F
  pub running : Bool
  pub completed : Bool
  pub source : ℕ
  pub destination : ℕ
  pub session_id : ℕ
  pub next_packet_id : ℕ
  pub next_event_id : ℕ
  pub next_sequence_to_send : ℕ
  pub awaiting_ack : Option ℕ
  pub timeout_token : ℕ
  pub udp_sent_all : Bool
  pub chaos_drop_remaining : ℕ
  pub delivered_sequences : List ℕ
  pub events : List (Event F)
  pub in_flight_packets : List (InFlightPacket F)
  pub packet_events : List (PacketEvent F)
  pub routers : Dict (Router F)
  pub stats : RunStats F

module _ {F R : Type 0} ⦃fl : Float F⦄ ⦃rand : Random F R⦄ where
  -- `SimulationEngine.__init__`
  unfoldable pub new_engine : GraphManager F → Sim F R
  new_engine graph_manager = record {
    graph_manager = graph_manager;
    generator = rand.seed 344;
    conditions = record {
      loss_rate = fl.lit 8 2;
      delay_multiplier = fl.lit 10 1;
      duplicate_rate = fl.lit 4 2;
      chaos_mode = false;
    };
    mode = udp;
    packet_goal = 6;
    traffic_port = 443;
    use_sdn = false;
    send_interval_ms = num 260;
    retransmission_timeout_ms = num 950;
    max_runtime_ms = num 25000;
    processing_delay_ms = num 45;
    firewall_nodes = ("Campus Backbone", 3) ∷ ("Bottleneck Path", 2) ∷ ("Redundant Ring", 4) ∷ [];
    current_time_ms = num 0;
    running = false;
    completed = false;
    source = 0;
    destination = 0;
    session_id = 1;
    next_packet_id = 1;
    next_event_id = 1;
    next_sequence_to_send = 0;
    awaiting_ack = none;
    timeout_token = 0;
    udp_sent_all = false;
    chaos_drop_remaining = 0;
    delivered_sequences = [];
    events = [];
    in_flight_packets = [];
    packet_events = [];
    routers = [];
    stats = new_stats;
  }
