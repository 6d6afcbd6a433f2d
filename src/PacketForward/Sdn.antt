-- ===== src/PacketForward/Sdn.antt =====
-- packet-forward/sdn.py: forwarding by the first rule that matches the packet.
use Prim.Native.String.{String}
use text.Mathlib.Text.{◌==◌ as str_eq}
use cps344finalproject.Base.{
  ℕ, Bool, ◌&&◌, Option, none, some, List, [], ◌∷◌, Result, ok, or_raise, key_error, ◌>>=◌,
  if◌then◌else◌,
}
use cps344finalproject.PacketForward.Texts.{TextDict, get}
use cps344finalproject.PacketForward.Hops.{hop_loop}

pub record Packet : Type 0 where
  pub src_ip : String
  pub dst_ip : String
  pub src_port : String
  pub dst_port : String

-- `Action(action_type, action_value)`: "forward" to the next router, "drop", or another text.
pub data Action : Type 0 where
  forward_to : String → Action
  drop other : Action

pub record SdnRouter : Type 0 where
  pub ip_address : String
  pub rules : List ((Packet → Bool) × Action)

-- `SDNRouter.forward`: the first matching rule that forwards or drops decides, and a packet that
-- no rule decides is dropped.
unfoldable pub forward : List ((Packet → Bool) × Action) → Packet → String
forward [] packet = "drop"
forward ((match_func, action) ∷ rules) packet =
    let rest = forward rules packet in
    if match_func packet
    then elim action [ forward_to next_hop ↦ next_hop | drop ↦ "drop" | other ↦ rest ]
    else rest

-- The next hop, or `none` where the loop finds that `next_hop == 'drop'`.
abbrev pub next_of : TextDict SdnRouter → Packet → String → Result (Option String)
next_of network_map packet current_hop = do
  router ← or_raise (get current_hop network_map) key_error
  let next_hop = forward router.rules packet
  ok (if str_eq next_hop "drop" then none else some next_hop)

unfoldable pub get_packet_route : Packet → TextDict SdnRouter → ℕ → Result (List String)
get_packet_route packet network_map max_hops =
    hop_loop (next_of network_map packet) packet.dst_ip max_hops packet.src_ip (packet.src_ip ∷ [])

-- The match functions.
abbrev pub match_dst_port_22 : Packet → Bool
match_dst_port_22 packet = str_eq packet.dst_port "22"

abbrev pub match_dst_port_80 : Packet → Bool
match_dst_port_80 packet = str_eq packet.dst_port "80"

abbrev pub match_dst_ip_0000 : Packet → Bool
match_dst_ip_0000 packet = str_eq packet.dst_ip "0000"

abbrev pub match_dst_ip_0001 : Packet → Bool
match_dst_ip_0001 packet = str_eq packet.dst_ip "0001"

abbrev pub match_dst_ip_0011 : Packet → Bool
match_dst_ip_0011 packet = str_eq packet.dst_ip "0011"

abbrev pub match_dst_ip_0000_and_dst_port_22 : Packet → Bool
match_dst_ip_0000_and_dst_port_22 packet =
    str_eq packet.dst_ip "0000" && str_eq packet.dst_port "22"

abbrev pub match_dst_ip_0001_and_dst_port_22 : Packet → Bool
match_dst_ip_0001_and_dst_port_22 packet =
    str_eq packet.dst_ip "0001" && str_eq packet.dst_port "22"

-- The network of the demonstration at the end of the file.
abbrev pub demo_network : TextDict SdnRouter
demo_network =
    (
      "0000",
      record {
        ip_address = "0000";
        rules =
            (match_dst_port_22, forward_to "0010") ∷ (match_dst_ip_0001, forward_to "0011") ∷ [];
      },
    )
    ∷ (
      "0001",
      record {
        ip_address = "0001";
        rules =
            (match_dst_port_22, forward_to "0010") ∷ (match_dst_ip_0000, forward_to "0011") ∷ [];
      },
    )
    ∷ (
      "0010",
      record {
        ip_address = "0010";
        rules =
            (match_dst_ip_0000_and_dst_port_22, forward_to "0000")
            ∷ (match_dst_ip_0001_and_dst_port_22, forward_to "0001")
            ∷ [];
      },
    )
    ∷ (
      "0011",
      record {
        ip_address = "0011";
        rules =
            (match_dst_port_80, drop)
            ∷ (match_dst_ip_0000, forward_to "0000")
            ∷ (match_dst_ip_0001, forward_to "0001")
            ∷ [];
      },
    )
    ∷ []
