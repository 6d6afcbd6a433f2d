-- ===== src/PacketForward/Tests.antt =====
-- The routes of the demonstrations.
use Prim.Native.String.{String}
use cps344finalproject.Base.{◌≡◌, refl, ◌<◌, ◌+◌, ◌++◌, ◌⊎◌, arith, List, [], ◌∷◌, ok, length}
use cps344finalproject.PacketForward.{TextDict, dropped_mark, hop_loop}
use cps344finalproject.PacketForward.Sdn.{demo_network}
use cps344finalproject.PacketForward.Sdn
use cps344finalproject.PacketForward.Forward
use cps344finalproject.PacketForward.Routes.{
  Walk, Way, there, hop, sdn_route, table_route, route_ends,
}

-- The packet `p1` of sdn.py.
abbrev p1 : Sdn.Packet
p1 = record { src_ip = "0000"; dst_ip = "0001"; src_port = "34213"; dst_port = "8080" }

p1-Walk : Walk (Sdn.next_of demo_network p1) "0001" "0000" ("0011" ∷ "0001" ∷ [])
unfolding Sdn.forward
p1-Walk = hop refl refl (hop refl refl (there refl))

sdn_route_example : Sdn.get_packet_route p1 demo_network 8 ≡ ok ("0000" ∷ "0011" ∷ "0001" ∷ [])
sdn_route_example = sdn_route p1 demo_network 8 ("0011" ∷ "0001" ∷ []) p1-Walk (omega arith)

-- The first network of forward.py.
abbrev network_map : TextDict Forward.Router
network_map =
    ("0000", record { ip_address = "0000"; forward_table = ("*", "0011") ∷ [] })
    ∷ ("0001", record { ip_address = "0001"; forward_table = ("*", "0011") ∷ [] })
    ∷ ("0010", record { ip_address = "0010"; forward_table = ("*", "0100") ∷ [] })
    ∷ (
      "0011",
      record {
        ip_address = "0011";
        forward_table = ("0000", "0000") ∷ ("0001", "0001") ∷ ("*", "0100") ∷ [];
      },
    )
    ∷ (
      "0100",
      record { ip_address = "0100"; forward_table = ("0010", "0010") ∷ ("*", "0011") ∷ [] },
    )
    ∷ []

route-Walk : Walk (Forward.next_of network_map "0000") "0000" "0010" ("0100" ∷ "0011" ∷ "0000" ∷ [])
unfolding Forward.forward
route-Walk = hop refl refl (hop refl refl (hop refl refl (there refl)))

-- With at most four hops the packet is at its destination when it counts as dropped.
table_route_example :
    Forward.get_packet_route "0010" "0000" network_map 4
    ≡ ok ("0010" ∷ "0100" ∷ "0011" ∷ "0000" ∷ dropped_mark ∷ [])
table_route_example =
    table_route "0010" "0000" network_map 4 ("0100" ∷ "0011" ∷ "0000" ∷ []) route-Walk (omega arith)

-- Between "0011" and "0100" a packet for an unknown address goes in a loop.
abbrev loop : List String
loop = "0010" ∷ "0100" ∷ "0011" ∷ "0100" ∷ "0011" ∷ "0100" ∷ "0011" ∷ "0100" ∷ dropped_mark ∷ []

loop-eq-ok : Forward.get_packet_route "0010" "0111" network_map 8 ≡ ok loop
unfolding Forward.get_packet_route Forward.forward hop_loop
loop-eq-ok = refl

route_ends_example :
    (l : List String) × ((loop ≡ "0010" ∷ l
        × Walk (Forward.next_of network_map "0111") "0111" "0010" l
        × (length l + 1 < 8))
      ⊎ (loop ≡ "0010" ∷ (l ++ dropped_mark ∷ [])
          × Way (Forward.next_of network_map "0111") "0111" "0010" l
          × (length l + 1 ≡ 8)))
route_ends_example = route_ends "0010" "0111" network_map 8 loop (omega arith) loop-eq-ok
