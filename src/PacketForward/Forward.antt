-- ===== src/PacketForward/Forward.antt =====
-- packet-forward/forward.py: forwarding by destination address, with a default route.
use Prim.Native.String.{String}
use cps344finalproject.Base.{
  ℕ, Option, none, some, List, [], ◌∷◌, Result, ok, or_raise, key_error, ◌>>=◌,
}
use cps344finalproject.PacketForward.Texts.{TextDict, get}
use cps344finalproject.PacketForward.Hops.{hop_loop}

pub record Router : Type 0 where
  pub ip_address : String
  pub forward_table : TextDict String

-- The entry for the address, or else the default route "*".
abbrev pub neighbor : String → TextDict String → Option String
neighbor ip_addr table = elim (get ip_addr table) [ none ↦ get "*" table | some found ↦ some found ]

unfoldable pub forward : String → Router → Result String
forward ip_addr router = or_raise (neighbor ip_addr router.forward_table) key_error

-- `network_map[current_hop].forward(dst_ip)`
abbrev pub next_of : TextDict Router → String → String → Result (Option String)
next_of network_map dst_ip current_hop = do
  router ← or_raise (get current_hop network_map) key_error
  next_hop ← forward dst_ip router
  ok (some next_hop)

unfoldable pub get_packet_route : String → String → TextDict Router → ℕ → Result (List String)
get_packet_route src_ip dst_ip network_map max_hops =
    hop_loop (next_of network_map dst_ip) dst_ip max_hops src_ip (src_ip ∷ [])
