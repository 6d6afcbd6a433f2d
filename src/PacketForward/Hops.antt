-- ===== src/PacketForward/Hops.antt =====
-- The loop that `get_packet_route` has in sdn.py and, without the case of a drop, in forward.py.
use Prim.Native.String.{String}
use text.Mathlib.Text.{◌==◌ as str_eq}
use cps344finalproject.Base.{
  ℕ, zero, suc, Option, none, some, List, [], ◌∷◌, ◌++◌, Result, ok, ◌>>=◌, if◌then◌else◌,
}
use cps344finalproject.PacketForward.Texts.{dropped_mark}

-- `for i in range(max_hops)`, by the rounds left: the last round has `i == max_hops - 1`.
-- `current_hop` is `hops[-1]`, and `next` is the router's answer, `none` for a drop.
unfoldable pub hop_loop :
    (next : String → Result (Option String)) (dst : String) (rounds : ℕ) (current_hop : String)
    (hops : List String)
    → Result (List String)
hop_loop next dst zero current_hop hops = ok hops
hop_loop next dst (suc zero) current_hop hops = ok (hops ++ dropped_mark ∷ [])
hop_loop next dst (suc (suc k)) current_hop hops =
    if str_eq current_hop dst
    then ok hops
    else next current_hop >>= λ answer. elim answer [
      | none ↦ ok (hops ++ dropped_mark ∷ [])
      | some next_hop ↦ hop_loop next dst (suc k) next_hop (hops ++ next_hop ∷ [])
    ]
