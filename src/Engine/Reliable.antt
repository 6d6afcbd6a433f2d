-- ===== src/Engine/Reliable.antt =====
-- The TCP-like mode is a stop-and-wait protocol: the invariant of its runs. `n` is the sequence
-- number in hand and `m` the count of sequences delivered, which are 0, …, m - 1.
pub mod Sending
pub mod Frame
use cps344finalproject.Base.{
  ℕ, suc, ◌+◌, ◌≤◌, ◌<◌, ◌≡◌, refl, sym, ap, subst, Bool, true, false, Option, none, some, List, [],
  ◌∷◌, ◌++◌, Dict, lookup, insert, ok, if◌then◌else◌, arith, length, All, All-mono, All-concat,
  All-lookup, All-insert, upto, member, member-upto_lt, member-upto_ge, Bool-cases, inl, inr,
}
use cps344finalproject.Base.Float.{Float}
use cps344finalproject.Packet.{
  Packet, InFlightPacket, Mode, tcp, PacketType, data_packet, ack_packet,
}
use cps344finalproject.Router.{Router, enqueue}
use cps344finalproject.Engine.{Sim, Event, Callback, call_send, call_timeout}
use cps344finalproject.Engine.Send.{push_event, event_lt, enqueue_at}
use cps344finalproject.Engine.Effects.{queue_at, enqueue_at-eq-ok}

-- A data packet was sent up to now; an acknowledgement is for a sequence that was delivered.
abbrev pub Fits : ℕ → ℕ → ℕ → Packet → Type 0
Fits goal n m p = elim p.packet_type [
  | data_packet ↦ (p.sequence ≤ n) × (p.sequence < goal)
  | ack_packet ↦ (p.ack_for ≡ some p.sequence) × (p.sequence < m)
]

pub Fits-mono :
    (goal n m n' m' : ℕ) → n ≤ n' → m ≤ m' → (p : Packet) → Fits goal n m p → Fits goal n' m' p
Fits-mono goal n m n' m' hn hm p h = ground arith

-- A scheduled send is for the sequence in hand.
abbrev pub Planned : ℕ → Callback → Type 0
Planned n (call_send sequence) = sequence ≡ n
Planned n (call_timeout _ _) = Unit

abbrev pub Awaits : ℕ → Option ℕ → Type 0
Awaits n none = Unit
Awaits n (some sequence) = sequence ≡ n

abbrev pub is_send : Callback → ℕ
is_send (call_send _) = 1
is_send (call_timeout _ _) = 0

abbrev pub is_waiting : Option ℕ → ℕ
is_waiting none = 0
is_waiting (some _) = 1

-- The scheduled sends.
abbrev pub sends : {F : Type 0} → List (Event F) → ℕ
sends [] = 0
sends (e ∷ es) = is_send e.callback + sends es

Planned-no_send : (n : ℕ) (c : Callback) → is_send c ≡ 0 → Planned n c
Planned-no_send n (call_send _) h = absurd (omega arith)
Planned-no_send n (call_timeout _ _) h = tt

pub Planned-no_sends :
    {F : Type 0} (n : ℕ) (es : List (Event F)) → sends es ≡ 0 → All (λ e. Planned n e.callback) es
Planned-no_sends n [] h = tt
Planned-no_sends n (e ∷ es) h =
    (Planned-no_send n e.callback (omega arith), Planned-no_sends n es (omega arith))

module _ {F : Type 0} ⦃fl : Float F⦄ where
  pub sends-push_event :
      (e : Event F) (es : List (Event F)) → sends (push_event e es) ≡ is_send e.callback + sends es
  unfolding push_event
  sends-push_event e [] = refl
  sends-push_event e (x ∷ es) = ground (arith, sends-push_event e es)

  pub All-push_event :
      (P : Event F → Type 0) (e : Event F) (es : List (Event F))
      → P e
      → All P es
      → All P (push_event e es)
  unfolding push_event
  All-push_event P e [] h a = (h, tt)
  All-push_event P e (x ∷ es) h a = elim (Bool-cases (event_lt e x)) [
    | inl first ↦ rw first (h, a)
    | inr later ↦ rw later (a.0, All-push_event P e es h a.1)
  ]

-- The packets of every queue.
abbrev pub Queues : {F : Type 0} → (Packet → Type 0) → Dict (Router F) → Type 0
Queues P = All (λ e. All P e.1.queue)

abbrev pub Links : {F : Type 0} → (Packet → Type 0) → List (InFlightPacket F) → Type 0
Links P = All (λ f. P f.packet)

-- The invariant, for a state and the packets that are on its links.
pub record IsTcp {F R : Type 0} (flights : List (InFlightPacket F)) (s : Sim F R) : Type 0 where
  pub in_tcp : s.mode ≡ tcp
  pub in_order : s.delivered_sequences ≡ upto s.stats.packets_delivered
  pub low : s.next_sequence_to_send ≤ s.stats.packets_delivered
  pub high : s.stats.packets_delivered ≤ suc s.next_sequence_to_send
  pub bounded : s.stats.packets_delivered ≤ s.packet_goal
  pub awaits : Awaits s.next_sequence_to_send s.awaiting_ack
  pub one_at_a_time : sends s.events + is_waiting s.awaiting_ack ≤ 1
  pub planned : All (λ e. Planned s.next_sequence_to_send e.callback) s.events
  pub all_done : s.running ≡ true → s.completed ≡ true → s.packet_goal ≤ s.stats.packets_delivered
  pub queues :
      Queues (Fits s.packet_goal s.next_sequence_to_send s.stats.packets_delivered) s.routers
  pub links : Links (Fits s.packet_goal s.next_sequence_to_send s.stats.packets_delivered) flights

module _ {F R : Type 0} (flights : List (InFlightPacket F)) where
  -- The packets of this state fit.
  abbrev pub Allowed : Sim F R → Packet → Type 0
  Allowed s = Fits s.packet_goal s.next_sequence_to_send s.stats.packets_delivered

  pub IsTcp-routers :
      (s : Sim F R) (routers : Dict (Router F))
      → Queues (Allowed s) routers
      → IsTcp flights s
      → IsTcp flights (record s { routers = routers })
  IsTcp-routers s routers q h = record {
    in_tcp = h.in_tcp;
    in_order = h.in_order;
    low = h.low;
    high = h.high;
    bounded = h.bounded;
    awaits = h.awaits;
    one_at_a_time = h.one_at_a_time;
    planned = h.planned;
    all_done = h.all_done;
    queues = q;
    links = h.links;
  }

  pub enqueue_at-IsTcp :
      (node : ℕ) (packet : Packet) (s t : Sim F R)
      → enqueue_at node packet s ≡ ok t
      → Allowed s packet
      → IsTcp flights s
      → IsTcp flights t
  enqueue_at-IsTcp node packet s t h fits i =
      let (router, found, e) = enqueue_at-eq-ok node packet s t h in
      let old =
        All-lookup (λ (e : ℕ × Router F). All (Allowed s) e.1.queue) node s.routers i.queues
          found in
      subst (IsTcp flights) (sym e) (
        IsTcp-routers s _
          (All-insert (λ (e : ℕ × Router F). All (Allowed s) e.1.queue) node (enqueue packet router)
            s.routers i.queues (All-concat (Allowed s) router.queue packet old fits))
          i)

pub Queues-mono :
    {F : Type 0} (P Q : Packet → Type 0) (m : Dict (Router F))
    → ((p : Packet) → P p → Q p)
    → Queues P m
    → Queues Q m
Queues-mono P Q [] f h = tt
Queues-mono P Q ((_, r) ∷ m) f h = (All-mono P Q r.queue f h.0, Queues-mono P Q m f h.1)

pub Links-mono :
    {F : Type 0} (P Q : Packet → Type 0) (l : List (InFlightPacket F))
    → ((p : Packet) → P p → Q p)
    → Links P l
    → Links Q l
Links-mono P Q l f h = All-mono (λ f. P f.packet) (λ f. Q f.packet) l (λ x. f x.packet) h
