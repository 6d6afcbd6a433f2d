-- ===== src/PacketForward/Routes.antt =====
-- What `get_packet_route` returns, for the answers of any routers.
use Prim.Native.String.{String}
use text.Mathlib.Text.{◌==◌ as str_eq}
use cps344finalproject.Base.{
  ℕ, zero, suc, ◌+◌, ◌-◌, ◌≤◌, ltb, ltb→lt, Bool-cases, ◌<◌, ◌≡◌, refl, sym, ap, ◌∙◌, true, false,
  Option, none, some, List, [], ◌∷◌, ◌++◌, append_assoc, append-nil, Result, ok, or_raise,
  key_error, ◌⊎◌, if◌then◌else◌, if-true, if-false, arith, length, if-cases, inl, inr, >>=-eq-ok,
  ok-injective,
}
use cps344finalproject.PacketForward.Texts.{dropped_mark, TextDict, get}
use cps344finalproject.PacketForward.Hops.{hop_loop}
use cps344finalproject.PacketForward.Sdn.{Packet, SdnRouter}
use cps344finalproject.PacketForward.Sdn
use cps344finalproject.PacketForward.Forward

-- The first hops of a list.
abbrev pub take : ℕ → List String → List String
take zero l = []
take (suc n) [] = []
take (suc n) (x ∷ l) = x ∷ take n l

module _ (next : String → Result (Option String)) (dst : String) where
  -- The hops by which the routers lead from a node to the destination.
  pub data Walk : String → List String → Type 0 where
    there : {a : String} → str_eq a dst ≡ true → Walk a []
    hop :
        {a b : String} {l : List String}
        → str_eq a dst ≡ false
        → next a ≡ ok (some b)
        → Walk b l
        → Walk a (b ∷ l)

  hop_loop-there :
      (k : ℕ) (a : String) (acc : List String)
      → str_eq a dst ≡ true
      → hop_loop next dst (suc (suc k)) a acc ≡ ok acc
  unfolding hop_loop
  hop_loop-there k a acc e = if-true _ _ _ e

  hop_loop-hop :
      (k : ℕ) (a b : String) (acc : List String)
      → str_eq a dst ≡ false
      → next a ≡ ok (some b)
      → hop_loop next dst (suc (suc k)) a acc ≡ hop_loop next dst (suc k) b (acc ++ b ∷ [])
  unfolding hop_loop
  hop_loop-hop k a b acc e n = if-false _ _ _ e ∙ simp n

  hop_loop-delivers :
      (k : ℕ) (a : String) (l acc : List String)
      → Walk a l
      → length l + 1 < k
      → hop_loop next dst k a acc ≡ ok (acc ++ l)
  hop_loop-delivers zero a l acc w h = absurd (omega arith)
  hop_loop-delivers (suc zero) a l acc w h = absurd (omega arith)
  hop_loop-delivers (suc (suc k)) a l acc (there e) h =
      hop_loop-there k a acc e ∙ ap ok (sym (append-nil acc))
  hop_loop-delivers (suc (suc k)) a l acc (hop {b = b} {l = rest} e n w) h =
      hop_loop-hop k a b acc e n
      ∙ hop_loop-delivers (suc k) b rest (acc ++ b ∷ []) w (omega arith)
      ∙ ap ok (append_assoc acc (b ∷ []) rest)

  hop_loop-drops :
      (k : ℕ) (a : String) (l acc : List String)
      → Walk a l
      → k ≤ length l
      → hop_loop next dst (suc k) a acc ≡ ok (acc ++ (take k l ++ dropped_mark ∷ []))
  unfolding hop_loop
  hop_loop-drops zero a l acc w h = refl
  hop_loop-drops (suc k) a l acc (there e) h = absurd (omega arith)
  hop_loop-drops (suc k) a l acc (hop {b = b} {l = rest} e n w) h =
      hop_loop-hop k a b acc e n
      ∙ hop_loop-drops k b rest (acc ++ b ∷ []) w (omega arith)
      ∙ ap ok (append_assoc acc (b ∷ []) (take k rest ++ dropped_mark ∷ []))

  route_lem :
      (max_hops : ℕ) (a : String) (l : List String)
      → Walk a l
      → 0 < max_hops
      → hop_loop next dst max_hops a (a ∷ []) ≡ (
          if ltb (length l + 1) max_hops
          then ok (a ∷ l)
          else ok (a ∷ (take (max_hops - 1) l ++ dropped_mark ∷ [])))
  route_lem zero a l w h = absurd (omega arith)
  route_lem (suc k) a l w h = elim (Bool-cases (ltb (length l + 1) (suc k))) [
    | inl early ↦
        hop_loop-delivers (suc k) a l (a ∷ []) w (ltb→lt _ _ early) ∙ sym (if-true _ _ _ early)
    | inr late ↦
        let e : suc k - 1 ≡ k = omega arith in
        hop_loop-drops k a l (a ∷ []) w (ground arith)
        ∙ sym (if-false _ _ _ late ∙ ap (λ n. ok (a ∷ (take n l ++ dropped_mark ∷ []))) e)
  ]

  -- Hops along which the routers lead from a node, none of them taken from the destination.
  pub data Way : String → List String → Type 0 where
    stay : {a : String} → Way a []
    onward :
        {a b : String} {l : List String}
        → str_eq a dst ≡ false
        → next a ≡ ok (some b)
        → Way b l
        → Way a (b ∷ l)

  -- A route that has arrived in time, or one that is cut in the last of `k` rounds.
  abbrev pub Ends : ℕ → String → List String → List String → Type 0
  Ends k a acc hops =
      (l : List String) × ((hops ≡ acc ++ l × Walk a l × (length l + 1 < k))
        ⊎ (hops ≡ acc ++ (l ++ dropped_mark ∷ []) × Way a l × (length l + 1 ≡ k)))

  Ends-later :
      (k : ℕ) (a b : String) (acc hops : List String)
      → str_eq a dst ≡ false
      → next a ≡ ok (some b)
      → Ends k b (acc ++ b ∷ []) hops
      → Ends (suc k) a acc hops
  Ends-later k a b acc hops e n (l, ending) = (
    b ∷ l,
    elim ending [
      | inl (same, walk, short) ↦
          inl (same ∙ append_assoc acc (b ∷ []) l, hop e n walk, omega arith)
      | inr (same, way, long) ↦
          inr
            (same ∙ append_assoc acc (b ∷ []) (l ++ dropped_mark ∷ []), onward e n way, omega arith)
    ],
  )

  -- Where no router drops a packet.
  hop_loop-Ends :
      ((a : String) → ¬ (next a ≡ ok none))
      → (k : ℕ) (a : String) (acc hops : List String) → 0 < k
      → hop_loop next dst k a acc ≡ ok hops
      → Ends k a acc hops
  unfolding hop_loop
  hop_loop-Ends passes zero a acc hops h e = absurd (omega arith)
  hop_loop-Ends passes (suc zero) a acc hops h e = ([], inr (sym (ok-injective e), stay, refl))
  hop_loop-Ends passes (suc (suc k)) a acc hops h e = elim (if-cases (str_eq a dst) e) [
    | inl (arrived, same) ↦
        ([], inl (sym (ok-injective same) ∙ sym (append-nil acc), there arrived, omega arith))
    | inr (away, more) ↦
        let (answer, found, rest) = >>=-eq-ok (next a) _ more in
        go away (λ b. hop_loop-Ends passes (suc k) b (acc ++ b ∷ []) hops (omega arith)) answer
          found rest
  ]
    where
      go :
          str_eq a dst ≡ false
          → ((b : String)
              → hop_loop next dst (suc k) b (acc ++ b ∷ []) ≡ ok hops
              → Ends (suc k) b (acc ++ b ∷ []) hops)
          → (answer : Option String) → next a ≡ ok answer
          → elim answer [
            | none ↦ ok (acc ++ dropped_mark ∷ [])
            | some b ↦ hop_loop next dst (suc k) b (acc ++ b ∷ [])
          ]
            ≡ ok hops
          → Ends (suc (suc k)) a acc hops
      go away later none found rest = absurd (passes a found)
      go away later (some b) found rest = Ends-later (suc k) a b acc hops away found (later b rest)

-- sdn.py: when the rules lead from the source to the destination by the hops `l`, the route is the
-- source and these hops if they are fewer than `max_hops - 1`; with that many or more it is cut
-- after `max_hops - 1` hops and marked as dropped, also if the last of them is the destination.
pub sdn_route :
    (packet : Sdn.Packet) (network : TextDict SdnRouter) (max_hops : ℕ) (l : List String)
    → Walk (Sdn.next_of network packet) packet.dst_ip packet.src_ip l
    → 0 < max_hops
    → Sdn.get_packet_route packet network max_hops ≡ (
        if ltb (length l + 1) max_hops
        then ok (packet.src_ip ∷ l)
        else ok (packet.src_ip ∷ (take (max_hops - 1) l ++ dropped_mark ∷ [])))
unfolding Sdn.get_packet_route
sdn_route packet network max_hops l w h =
    route_lem (Sdn.next_of network packet) packet.dst_ip max_hops packet.src_ip l w h

-- forward.py: when the tables lead from the source to the destination by the hops `l`, the route
-- is the source and these hops if they are fewer than `max_hops - 1`; with that many or more it is
-- cut after `max_hops - 1` hops and marked as dropped, also if the last is the destination.
pub table_route :
    (src dst : String) (network : TextDict Forward.Router) (max_hops : ℕ) (l : List String)
    → Walk (Forward.next_of network dst) dst src l
    → 0 < max_hops
    → Forward.get_packet_route src dst network max_hops ≡ (
        if ltb (length l + 1) max_hops
        then ok (src ∷ l)
        else ok (src ∷ (take (max_hops - 1) l ++ dropped_mark ∷ [])))
unfolding Forward.get_packet_route
table_route src dst network max_hops l w h =
    route_lem (Forward.next_of network dst) dst max_hops src l w h

forward-passes :
    (network : TextDict Forward.Router) (dst a : String)
    → ¬ (Forward.next_of network dst a ≡ ok none)
forward-passes network dst a e =
    let (router, _, asked) = >>=-eq-ok (or_raise (get a network) key_error) _ e in
    let (b, _, passed) = >>=-eq-ok (Forward.forward dst router) _ asked in
    absurd (let same : some b ≡ none = ok-injective passed in ground arith)

-- forward.py: whatever the tables are, loops among them included, a route that is returned is either
-- the source and the hops by which the tables lead to the destination, fewer than `max_hops - 1`, or
-- the source, `max_hops - 1` hops along which the tables lead, none of them taken from the
-- destination, and the mark of a dropped packet.
pub route_ends :
    (src dst : String) (network : TextDict Forward.Router) (max_hops : ℕ) (hops : List String)
    → 0 < max_hops
    → Forward.get_packet_route src dst network max_hops ≡ ok hops
    → (l : List String) × ((hops ≡ src ∷ l
          × Walk (Forward.next_of network dst) dst src l
          × (length l + 1 < max_hops))
        ⊎ (hops ≡ src ∷ (l ++ dropped_mark ∷ [])
            × Way (Forward.next_of network dst) dst src l
            × (length l + 1 ≡ max_hops)))
unfolding Forward.get_packet_route
route_ends src dst network max_hops hops h e =
    hop_loop-Ends (Forward.next_of network dst) dst (forward-passes network dst) max_hops src
      (src ∷ []) hops h e
