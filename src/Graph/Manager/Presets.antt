-- ===== src/Graph/Manager/Presets.antt =====
-- graph.py: `TopologySpec` and `TOPOLOGY_PRESETS`.
use Prim.Native.String.{String}
use cps344finalproject.Base.{ℕ, List, [], ◌∷◌, Dict}
use cps344finalproject.Base.Float.{Float}

pub record TopologySpec (F : Type 0) : Type 0 where
  pub name : String
  pub positions : Dict (F × F)
  pub edges : List (ℕ × ℕ × ℕ)
  pub default_source : ℕ
  pub default_destination : ℕ
  pub description : String

module _ {F : Type 0} ⦃fl : Float F⦄ where
  -- The literals n / 100 and - n / 100.
  abbrev at : ℕ → F
  at n = fl.lit n 2

  abbrev minus : ℕ → F
  minus n = fl.neg (at n)

  abbrev pub campus_backbone : TopologySpec F
  campus_backbone = record {
    name = "Campus Backbone";
    positions =
        (0, (minus 95, at 5))
        ∷ (1, (minus 45, minus 45))
        ∷ (2, (minus 15, at 35))
        ∷ (3, (at 25, minus 20))
        ∷ (4, (at 65, at 30))
        ∷ (5, (at 95, minus 5))
        ∷ [];
    edges =
        (0, 1, 260)
        ∷ (0, 2, 180)
        ∷ (1, 2, 200)
        ∷ (1, 3, 220)
        ∷ (2, 3, 170)
        ∷ (2, 4, 230)
        ∷ (3, 4, 180)
        ∷ (3, 5, 260)
        ∷ (4, 5, 190)
        ∷ [];
    default_source = 0;
    default_destination = 5;
    description = "Balanced multi-path topology for the default TCP vs UDP demo.";
  }

  abbrev pub bottleneck_path : TopologySpec F
  bottleneck_path = record {
    name = "Bottleneck Path";
    positions =
        (0, (minus 95, at 5))
        ∷ (1, (minus 55, minus 30))
        ∷ (2, (minus 20, at 0))
        ∷ (3, (at 20, at 0))
        ∷ (4, (at 55, at 30))
        ∷ (5, (at 95, minus 5))
        ∷ [];
    edges =
        (0, 1, 180)
        ∷ (1, 2, 220)
        ∷ (2, 3, 360)
        ∷ (3, 4, 220)
        ∷ (4, 5, 180)
        ∷ (1, 3, 420)
        ∷ (2, 4, 420)
        ∷ [];
    default_source = 0;
    default_destination = 5;
    description = "A narrow center link makes packet loss and delay easier to observe.";
  }

  abbrev pub redundant_ring : TopologySpec F
  redundant_ring = record {
    name = "Redundant Ring";
    positions =
        (0, (minus 75, at 0))
        ∷ (1, (minus 35, minus 55))
        ∷ (2, (at 35, minus 55))
        ∷ (3, (at 75, at 0))
        ∷ (4, (at 35, at 55))
        ∷ (5, (minus 35, at 55))
        ∷ [];
    edges =
        (0, 1, 170)
        ∷ (1, 2, 190)
        ∷ (2, 3, 170)
        ∷ (3, 4, 190)
        ∷ (4, 5, 170)
        ∷ (5, 0, 190)
        ∷ (0, 2, 240)
        ∷ (2, 4, 240)
        ∷ (4, 0, 240)
        ∷ [];
    default_source = 5;
    default_destination = 2;
    description = "A looped topology that highlights alternate routes and duplicates.";
  }

  abbrev pub topology_presets : List (String × TopologySpec F)
  topology_presets =
      ("Campus Backbone", campus_backbone)
      ∷ ("Bottleneck Path", bottleneck_path)
      ∷ ("Redundant Ring", redundant_ring)
      ∷ []
