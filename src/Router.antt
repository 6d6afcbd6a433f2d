-- ===== src/Router.antt =====
-- router.py and sdn_router.py: routers, their forwarding tables, and the firewall rules.
use cps344finalproject.Base.{
  ℕ, Bool, true, false, ◌&&◌, Option, none, some, List, [], ◌∷◌, ◌++◌, map, Dict, lookup, Result,
  or_raise, key_error, if◌then◌else◌, ◌==◌,
}
use cps344finalproject.Base.Float.{Float}
use cps344finalproject.Packet.{Packet, PacketType, data_packet, ack_packet}

-- `action_type`: "drop", "forward", or any other text.
pub data ActionType : Type 0 where
  drop forward other : ActionType

pub record Action : Type 0 where
  pub action_type : ActionType
  pub action_value : Option ℕ

abbrev pub drop_action : Action
drop_action = record { action_type = drop; action_value = none }

abbrev pub Rule : Type 0
Rule = (Packet → Bool) × Action

-- `Router`, and `SDNRouter`, which adds `rules`: `none` is a plain `Router`.
pub record Router (F : Type 0) : Type 0 where
  pub router_id : ℕ
  pub forwarding_table : Dict ℕ
  pub processing_delay_ms : F
  pub queue : List Packet
  pub next_available_time_ms : F
  pub rules : Option (List Rule)

-- `SDNRouter.apply_rules`: the action of the first rule that fits.
unfoldable pub apply_rules : List Rule → Packet → Option Action
apply_rules [] packet = none
apply_rules ((predicate, action) ∷ rules) packet =
    if predicate packet then some action else apply_rules rules packet

abbrev pub is_data : PacketType → Bool
is_data data_packet = true
is_data ack_packet = false

-- The rule of the demonstration firewall.
abbrev pub firewall_rules : ℕ → List Rule
firewall_rules blocked_port =
    ((λ packet. packet.dst_port == blocked_port && is_data packet.packet_type), drop_action) ∷ []

-- The rules of the router `id` when `firewall_router` is the one with the firewall.
abbrev pub demo_rules : Option ℕ → ℕ → ℕ → Option (List Rule)
demo_rules none blocked_port id = none
demo_rules (some firewall) blocked_port id =
    if id == firewall then some (firewall_rules blocked_port) else none

module _ {F : Type 0} where
  abbrev pub enqueue : Packet → Router F → Router F
  enqueue packet router = record router { queue = router.queue ++ packet ∷ [] }

  abbrev pub has_work : Router F → Bool
  has_work router = elim router.queue [ [] ↦ false | _ ∷ _ ↦ true ]

  unfoldable pub next_hop : ℕ → Router F → Result ℕ
  next_hop destination router = or_raise (lookup destination router.forwarding_table) key_error

module _ {F : Type 0} ⦃fl : Float F⦄ where
  abbrev pub new_router : ℕ → Dict ℕ → F → Option (List Rule) → Router F
  new_router id table delay rules = record {
    router_id = id;
    forwarding_table = table;
    processing_delay_ms = delay;
    queue = [];
    next_available_time_ms = fl.lit 0 0;
    rules = rules;
  }

  unfoldable pub build_routers : F → Dict (Dict ℕ) → Dict (Router F)
  build_routers delay = map (λ (id, table). (id, new_router id table delay none))

  unfoldable pub build_demo_sdn_routers : Option ℕ → ℕ → F → Dict (Dict ℕ) → Dict (Router F)
  build_demo_sdn_routers firewall_router blocked_port delay =
      map (λ (id, table).
        (id, new_router id table delay (demo_rules firewall_router blocked_port id)))
