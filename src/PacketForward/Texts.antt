-- ===== src/PacketForward/Texts.antt =====
-- Dictionaries with text keys, and the mark of a dropped packet.
use Prim.Native.String.{String}
use text.Mathlib.Text.{◌==◌ as str_eq}
use cps344finalproject.Base.{Option, none, some, List, [], ◌∷◌, if◌then◌else◌}

abbrev pub TextDict : Type 0 → Type 0
TextDict V = List (String × V)

-- `d.get(key)`
abbrev pub get : {V : Type 0} → String → TextDict V → Option V
get key [] = none
get key ((k, v) ∷ m) = if str_eq k key then some v else get key m

abbrev pub dropped_mark : String
dropped_mark = "x (dropped)"
