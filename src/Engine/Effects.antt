-- ===== src/Engine/Effects.antt =====
-- What a call that raises no exception has changed: a packet is in a queue, or on a link.
pub mod Links
pub mod Calls
pub mod Starts
pub mod Kept
use cps344finalproject.Base.{
  ℕ, ◌+◌, ◌≡◌, refl, sym, ap, Bool, true, false, Option, none, some, List, [], ◌∷◌, ◌++◌, lookup,
  insert, Result, ok, err, or_raise, key_error, ◌>>=◌, >>=-eq-ok, or_raise-eq-ok, if◌then◌else◌,
  if-cases, arith, inl, inr, ◌⊎◌, ◌≤◌, leb,
}
use cps344finalproject.Base.Float.{Float}
use cps344finalproject.Packet.{Packet, Mode, udp, tcp}
use cps344finalproject.Router.{Router, enqueue}
use cps344finalproject.Engine.{Sim}
use cps344finalproject.Engine.Send.{
  enqueue_at, inject_packet, one_if, make_packet, PacketSpec, send_ack, send_data, await_ack,
}

module _ {F R : Type 0} where
  -- The state with the packet at the end of the queue of `node`.
  abbrev pub queue_at : ℕ → Packet → Router F → Sim F R → Sim F R
  queue_at node packet router s = record s {
    routers = insert node (enqueue packet router) s.routers;
  }

  pub enqueue_at-eq-ok :
      (node : ℕ) (packet : Packet) (s t : Sim F R)
      → enqueue_at node packet s ≡ ok t
      → (router : Router F) × (lookup node s.routers ≡ some router)
        × (t ≡ queue_at node packet router s)
  unfolding enqueue_at
  enqueue_at-eq-ok node packet s t h =
      let (router, found, e) = >>=-eq-ok (or_raise (lookup node s.routers) key_error) _ h in
      (router, or_raise-eq-ok (lookup node s.routers) key_error found, cc)
