-- ===== src/Graph/Shortest/Retrace.antt =====
-- graph.py: the way back from the destination in `get_route`, and its fuel.
use cps344finalproject.Base.{
  ℕ, zero, suc, ◌+◌, ◌≤◌, ◌≡◌, refl, sym, ap, ◌∙◌, subst, Bool-cases, true, false, Option, some,
  List, [], ◌∷◌, lookup, ok, or_raise, key_error, ◌>>=◌, ◌==◌, member, All, arith, inl, inr, ◌⊎◌,
  if-true, if◌then◌else◌, length, Returns, returned, Returns-map,
}
use cps344finalproject.Graph.{SimpleGraph}
use cps344finalproject.Graph.Route.{Search, retrace}
use cps344finalproject.Graph.Shortest.{IsNode, IsRoute, arrive, via}
use cps344finalproject.Graph.Shortest.Tree.{Known, In, Distinct, Known_unique, Parent, Chain}
use cps344finalproject.Graph.Shortest.Search.{Settled}

-- A list without repetitions is no longer than one that has all its members.
without : ℕ → List ℕ → List ℕ
without v [] = []
without v (w ∷ ws) = if v == w then without v ws else w ∷ without v ws

without-member :
    (v x : ℕ) (ws : List ℕ) → (x == v) ≡ false → member x ws ≡ true → member x (without v ws) ≡ true
unfolding without
without-member v x [] apart h = h
without-member v x (w ∷ ws) apart h = ground (arith, without-member v x ws apart)

length-without_le : (v : ℕ) (ws : List ℕ) → length (without v ws) ≤ length ws
unfolding without
length-without_le v [] = omega arith
length-without_le v (w ∷ ws) = ground (arith, length-without_le v ws)

length-without :
    (v : ℕ) (ws : List ℕ) → member v ws ≡ true → suc (length (without v ws)) ≤ length ws
unfolding without
length-without v [] h = absurd (ground arith)
length-without v (w ∷ ws) h = ground (arith, length-without v ws, length-without_le v ws)

All-without :
    (v : ℕ) (ws vs : List ℕ)
    → member v vs ≡ false
    → All (λ x. member x ws ≡ true) vs
    → All (λ x. member x (without v ws) ≡ true) vs
All-without v ws [] out a = tt
All-without v ws (x ∷ vs) out a =
    (without-member v x ws (ground arith) a.0, All-without v ws vs (ground arith) a.1)

length-le_of_Distinct :
    (vs ws : List ℕ) → Distinct vs → All (λ x. member x ws ≡ true) vs → length vs ≤ length ws
length-le_of_Distinct [] ws d a = omega arith
length-le_of_Distinct (v ∷ vs) ws d a = omega (
  arith,
  length-le_of_Distinct vs (without v ws) d.1 (All-without v ws vs d.0 a.1),
  length-without v ws a.0,
)

module _ (g : SimpleGraph) (source destination : ℕ) (t : Search)
    (settled : Settled g source destination t) where
  -- A route from the source that is `d` long.
  abbrev pub RouteOf : ℕ → List ℕ → Type 0
  RouteOf d p = IsRoute g source destination d p

  from_source :
      (v d r : ℕ) (route : List ℕ)
      → (v == source) ≡ true
      → Known t v d
      → IsRoute g v destination r (v ∷ route)
      → RouteOf (d + r) (v ∷ route)
  from_source v d r route same k walked =
      let e : v ≡ source = ground arith in
      let z : d ≡ 0 =
        Known_unique t source d 0 (subst (λ v. Known t v d) e k) settled.start_known in
      subst (λ v'. IsRoute g v' destination (d + r) (v ∷ route)) e
        (subst (λ l. IsRoute g v destination l (v ∷ route)) (omega (arith, z)) walked)

  -- The source is reached: its distance is 0.
  at_source :
      (fuel v d r : ℕ) (route : List ℕ)
      → (v == source) ≡ true
      → Known t v d
      → IsRoute g v destination r (v ∷ route)
      → Returns (RouteOf (d + r)) (retrace fuel t.previous source v route)
  unfolding retrace
  at_source zero v d r route same k walked =
      subst (Returns (RouteOf (d + r))) (sym (if-true _ _ _ same))
        (returned (from_source v d r route same k walked))
  at_source (suc fuel) v d r route same k walked =
      subst
        (λ b. Returns (RouteOf (d + r)) (elim b [
          | true ↦ ok (v ∷ route)
          | false ↦ or_raise (lookup v t.previous) key_error >>= λ known.
              or_raise known key_error >>= λ prev_node.
              retrace fuel t.previous source prev_node (v ∷ route)
        ]))
        (sym same) (returned (from_source v d r route same k walked))

  -- One step back, to the parent.
  step_back :
      (fuel v d r : ℕ) (route : List ℕ) (p : Parent g source settled.expanded t v d)
      → (v == source) ≡ false
      → Returns
          (RouteOf (p.before + (p.edge.delay_ms + r)))
          (retrace fuel t.previous source p.parent (v ∷ route))
      → Returns (RouteOf (d + r)) (retrace (suc fuel) t.previous source v route)
  unfolding retrace
  step_back fuel v d r route p other back =
      subst
        (λ b. Returns (RouteOf (d + r)) (elim b [
          | true ↦ ok (v ∷ route)
          | false ↦ or_raise (lookup v t.previous) key_error >>= λ known.
              or_raise known key_error >>= λ prev_node.
              retrace fuel t.previous source prev_node (v ∷ route)
        ]))
        (sym other)
        (subst
          (λ o. Returns (RouteOf (d + r)) (
            or_raise o key_error >>= λ known. or_raise known key_error >>= λ prev_node.
            retrace fuel t.previous source prev_node (v ∷ route)))
          (sym p.points)
          (Returns-map (λ q route_of. subst (λ l. RouteOf l q) (omega (arith, p.sum)) route_of)
            back))

  -- The chain leads from the last node expanded to an earlier one.
  below_root :
      (x v u : ℕ) (expanded : List ℕ)
      → (x ≡ source) ⊎ ((u : ℕ) × (lookup x t.previous ≡ some (some u)) × In u expanded)
      → v ≡ x
      → (v == source) ≡ false
      → lookup v t.previous ≡ some (some u)
      → In u expanded
  below_root x v u expanded (inl root) same other points = absurd (ground arith)
  below_root x v u expanded (inr (w, points', inside)) same other points =
      let e : ◌≡◌ {A = Option (Option ℕ)} (some (some u)) (some (some w)) =
        sym points ∙ ap (λ x. lookup x t.previous) same ∙ points' in
      ground (arith, e, inside)

  up :
      (fuel v d r : ℕ) (x : ℕ) (expanded route : List ℕ)
      (p : Parent g source settled.expanded t v d)
      → (v == source) ≡ false
      → In p.parent expanded
      → ((fuel' : ℕ)
          → length expanded ≤ suc fuel'
          → Returns
              (RouteOf (p.before + (p.edge.delay_ms + r)))
              (retrace fuel' t.previous source p.parent (v ∷ route)))
      → length (x ∷ expanded) ≤ suc fuel
      → Returns (RouteOf (d + r)) (retrace fuel t.previous source v route)
  up zero v d r x [] route p other inside rest room = absurd (ground (arith, inside))
  up zero v d r x (y ∷ ys) route p other inside rest room = absurd (omega (arith, room))
  up (suc fuel) v d r x expanded route p other inside rest room =
      step_back fuel v d r route p other (rest fuel (omega (arith, room)))

  -- From an expanded node.
  walk :
      (expanded : List ℕ) (fuel v d r : ℕ) (route : List ℕ)
      → Chain g source t.previous expanded
      → length expanded ≤ suc fuel
      → In v expanded
      → Known t v d
      → IsRoute g v destination r (v ∷ route)
      → Returns (RouteOf (d + r)) (retrace fuel t.previous source v route)
  walk [] fuel v d r route chain room i k walked = absurd (ground arith)
  walk (x ∷ expanded) fuel v d r route (root, chain) room i k walked =
      elim (Bool-cases (v == source)) [
        | inl same ↦ at_source fuel v d r route same k walked
        | inr other ↦ elim (Bool-cases (member v expanded)) [
          | inl below ↦ walk expanded fuel v d r route chain (omega arith) below k walked
          | inr top ↦ elim (settled.parents v d k) [
            | inl first ↦ absurd (ground arith)
            | inr p ↦
                let inside : In p.parent expanded =
                  below_root x v p.parent expanded root (ground arith) other p.points in
                up fuel v d r x expanded route p other inside
                  (λ fuel' less.
                    walk expanded fuel' p.parent p.before (p.edge.delay_ms + r) (v ∷ route) chain
                      less inside p.known (via p.link walked))
                  room
          ]
        ]
      ]

  -- From the destination, with a round for each node.
  pub retrace-Returns :
      (d : ℕ)
      → Known t destination d
      → IsNode g destination
      → Returns (RouteOf d) (retrace (length g.nodes) t.previous source destination [])
  retrace-Returns d k is_node =
      subst (λ l. Returns (RouteOf l) (retrace (length g.nodes) t.previous source destination []))
        {x = d + 0} (omega arith)
        (go (length g.nodes) refl (Bool-cases (destination == source))
          (settled.parents destination d k))
    where
      bounded : length settled.expanded ≤ length g.nodes
      bounded = length-le_of_Distinct settled.expanded g.nodes settled.distinct settled.nodes

      some_node : (nodes : List ℕ) → In destination nodes → length nodes ≡ 0 → ⊥
      some_node [] i n = ground (arith, i)
      some_node (x ∷ nodes) i n = omega (arith, n)

      go :
          (fuel : ℕ)
          → length g.nodes ≡ fuel
          → ((destination == source) ≡ true) ⊎ ((destination == source) ≡ false)
          → (destination ≡ source) ⊎ Parent g source settled.expanded t destination d
          → Returns (RouteOf (d + 0)) (retrace fuel t.previous source destination [])
      go fuel n (inl same) q = at_source fuel destination d 0 [] same k arrive
      go fuel n (inr other) (inl root) = absurd (ground arith)
      go zero n (inr other) (inr p) = absurd (some_node g.nodes is_node n)
      go (suc fuel) n (inr other) (inr p) = step_back fuel destination d 0 [] p other (
          walk settled.expanded fuel p.parent p.before (p.edge.delay_ms + 0) (destination ∷ [])
            settled.chain (omega (arith, bounded, n)) p.inside p.known (via p.link arrive))
