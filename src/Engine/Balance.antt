-- ===== src/Engine/Balance.antt =====
-- The counters account for the packets: none is counted twice, and none appears from nowhere.
pub mod Frame
pub mod Sessions
use cps344finalproject.Base.{
  ℕ, suc, ◌+◌, ◌≤◌, ◌<◌, ◌≡◌, refl, sym, ap, subst, Bool, true, false, Option, none, some, List, [],
  ◌∷◌, ◌++◌, Dict, lookup, insert, ok, if◌then◌else◌, arith, length, length-append, Bool-cases,
  ◌==◌, inl, inr, member, if-cases, leb, >>=-eq-ok, ◌>>=◌,
}
use cps344finalproject.Base.Float.{Float, Random}
use cps344finalproject.Packet.{Packet, InFlightPacket, Mode, udp, tcp, data_packet, ack_packet}
use cps344finalproject.Router.{Router, enqueue}
use cps344finalproject.Engine.{Sim}
use cps344finalproject.Engine.Send.{
  inject_packet, enqueue_at, send_data, send_ack, await_ack, schedule, make_packet,
}
use cps344finalproject.Engine.Receive.{
  note_sequence, on_data_received, on_ack_received, accept_ack, deliver, handle_arrival, arrived,
  record_delivery, record_drop, on_timeout,
}
use cps344finalproject.Engine.Effects.{queue_at, enqueue_at-eq-ok}

-- The packets in the queues of the routers.
abbrev pub queued : {F : Type 0} → Dict (Router F) → ℕ
queued [] = 0
queued ((_, router) ∷ routers) = length router.queue + queued routers

pub queued-insert :
    {F : Type 0} (k : ℕ) (new old : Router F) (m : Dict (Router F))
    → lookup k m ≡ some old
    → queued (insert k new m) + length old.queue ≡ queued m + length new.queue
queued-insert k new old [] h = cc
queued-insert k new old ((j, r) ∷ m) h = ground (arith, queued-insert k new old m)

-- `n` packets are on links; the rest of the state says how many wait in the routers.
pub record IsBalanced {F R : Type 0} (n : ℕ) (s : Sim F R) : Type 0 where
  pub counted :
      s.stats.packets_delivered + s.stats.packets_dropped + queued s.routers + n
      ≤ s.stats.packets_sent
  pub kinds :
      s.stats.retransmissions + s.stats.duplicate_packets + s.stats.acknowledgements
      ≤ s.stats.packets_sent
  pub delivered : s.stats.packets_delivered ≡ length s.delivered_sequences
  pub completed : s.stats.completed_sequences ≡ s.delivered_sequences

module _ {F R : Type 0} where
  -- With `n + 1` counted there is room for one more packet in a queue.
  pub enqueue_at-IsBalanced :
      (n node : ℕ) (packet : Packet) (s t : Sim F R)
      → enqueue_at node packet s ≡ ok t
      → IsBalanced (suc n) s
      → IsBalanced n t
  enqueue_at-IsBalanced n node packet s t h b =
      let (router, found, e) = enqueue_at-eq-ok node packet s t h in
      subst (IsBalanced n) (sym e) (
        ground (
          arith,
          queued-insert node (enqueue packet router) router s.routers found,
          length-append router.queue (packet ∷ []),
        ))

  -- A packet that is sent for the first time, or again, is counted once.
  pub inject_packet-IsBalanced :
      (n : ℕ) (packet : Packet) (s t : Sim F R)
      → packet.duplicate ≡ false
      → inject_packet packet s ≡ ok t
      → IsBalanced n s
      → IsBalanced n t
  unfolding inject_packet
  inject_packet-IsBalanced n packet s t d h b =
      enqueue_at-IsBalanced n packet.source packet _ t h (ground arith)

module _ {F R : Type 0} ⦃fl : Float F⦄ where
  pub await_ack-IsBalanced :
      (n sequence : ℕ) (s : Sim F R) → IsBalanced n s → IsBalanced n (await_ack sequence s)
  unfolding await_ack schedule
  await_ack-IsBalanced n sequence s b = ground arith

  pub send_data-IsBalanced :
      (n sequence : ℕ) (again : Bool) (s t : Sim F R)
      → send_data sequence again s ≡ ok t
      → IsBalanced n s
      → IsBalanced n t
  unfolding send_data make_packet
  send_data-IsBalanced n sequence again s t h b = elim (if-cases (leb s.packet_goal sequence) h) [
    | inl (past, same) ↦ subst (IsBalanced n) (cc) b
    | inr (within, sent) ↦
        let (s', injected, e) = >>=-eq-ok _ (λ t. ok (await_ack sequence t)) sent in
        subst (IsBalanced n) (cc) (
          await_ack-IsBalanced n sequence s'
            (inject_packet-IsBalanced n _ _ s' refl injected (ground arith)))
  ]

  pub send_ack-IsBalanced :
      (n sequence : ℕ) (s t : Sim F R)
      → send_ack sequence s ≡ ok t
      → IsBalanced n s
      → IsBalanced n t
  unfolding send_ack make_packet inject_packet
  send_ack-IsBalanced n sequence s t h b =
      enqueue_at-IsBalanced n s.destination _ _ t h (ground arith)

  pub note_sequence-IsBalanced :
      (n sequence : ℕ) (s : Sim F R)
      → IsBalanced (suc n) s
      → IsBalanced n (note_sequence sequence s)
  unfolding note_sequence
  note_sequence-IsBalanced n sequence s b =
      ground (arith, length-append s.delivered_sequences (sequence ∷ []))

  pub on_data_received-IsBalanced :
      (n : ℕ) (packet : Packet) (s t : Sim F R)
      → on_data_received packet s ≡ ok t
      → IsBalanced (suc n) s
      → IsBalanced n t
  unfolding on_data_received
  on_data_received-IsBalanced n packet s t h b = go s.mode refl h
    where
      s' : Sim F R
      s' = note_sequence packet.sequence s

      noted : IsBalanced n s'
      noted = note_sequence-IsBalanced n packet.sequence s b

      go :
          (m : Mode)
          → s.mode ≡ m
          → elim m [ udp ↦ ok s' | tcp ↦ send_ack packet.sequence s' ] ≡ ok t
          → IsBalanced n t
      go udp e h = subst (IsBalanced n) (cc) noted
      go tcp e h = send_ack-IsBalanced n packet.sequence s' t h noted

  pub on_ack_received-IsBalanced :
      (n : ℕ) (packet : Packet) (s : Sim F R)
      → IsBalanced (suc n) s
      → IsBalanced n (on_ack_received packet s)
  unfolding on_ack_received accept_ack schedule
  on_ack_received-IsBalanced n packet s b = ground arith
