-- ===== src/Display/Panel.antt =====
-- renderer.py: the right part of the window, with the texts and the legend, and the whole frame.
use Prim.Native.String.{String}
use cps344finalproject.Base.{ℕ, ◌+◌, List, [], ◌∷◌, ◌++◌, Result, ok, ◌>>=◌}
use cps344finalproject.Base.Integers.{pos, ◌+ℤ◌, ◌-ℤ◌}
use cps344finalproject.Base.Float.{Float}
use cps344finalproject.Engine.{Sim}
use cps344finalproject.Display.{
  Font, title_font, body_font, small_font, Color, Drawing, fill, rect, line, disc, text,
}
use cps344finalproject.Display.Texts.{Format, get_status_lines, get_stat_lines, get_controls}
use cps344finalproject.Display.Scene.{Renderer, Rounding, draw_graph}

-- A loop that draws each element at `y` and then moves `y` down by a step.
abbrev pub column : {A : Type 0} → (ℕ → A → List Drawing) → ℕ → ℕ → List A → List Drawing × ℕ
column draw step y [] = ([], y)
column draw step y (x ∷ xs) =
    let (rest, bottom) = column draw step (y + step) xs in (draw y x ++ rest, bottom)

abbrev pub legend_items : List (Color × String)
legend_items =
    ((255, 156, 94), "UDP data")
    ∷ ((112, 220, 160), "TCP data")
    ∷ ((120, 205, 255), "ACK packet")
    ∷ ((255, 204, 112), "Delayed packet")
    ∷ ((206, 145, 255), "Duplicate packet")
    ∷ ((255, 96, 96), "Dropped packet")
    ∷ []

-- One text of the panel, at its left margin.
abbrev pub panel_text : Renderer → Font → Color → ℕ → String → List Drawing
panel_text r font color y s = text font s color (r.graph_width +ℤ pos 24, pos y) ∷ []

abbrev pub legend_item : Renderer → ℕ → Color × String → List Drawing
legend_item r y (color, label) =
    disc color (r.graph_width +ℤ pos 36, pos (y + 8)) 8
    ∷ text body_font label (225, 230, 238) (r.graph_width +ℤ pos 54, pos y)
    ∷ []

module _ {F R : Type 0} ⦃fl : Float F⦄ ⦃format : Format F⦄ where
  -- `_draw_side_panel`, where `y₁`, `y₂`, … are the values of `y` between its parts.
  unfoldable pub draw_side_panel : Renderer → Sim F R → List Drawing
  draw_side_panel r s =
      let (status, y₁) =
        column (panel_text r body_font (215, 223, 234)) 28 (24 + 44) (get_status_lines s) in
      let y₂ = y₁ + 12 in
      let (stats, y₃) =
        column (panel_text r body_font (225, 230, 238)) 28 (y₂ + 32) (get_stat_lines s) in
      let y₄ = y₃ + 18 in
      let (legend, y₅) = column (legend_item r) 26 (y₄ + 28) legend_items in
      let y₆ = y₅ + 18 in
      let (controls, _) =
        column (panel_text r small_font (199, 208, 220)) 22 (y₆ + 28) get_controls in
      rect (30, 36, 48)
          (record {
            left = r.graph_width;
            top = pos 0;
            width = r.width -ℤ r.graph_width;
            height = r.height;
          })
        ∷ line (75, 86, 105) (r.graph_width, pos 0) (r.graph_width, r.height) 2
        ∷ panel_text r title_font (244, 247, 252) 24 "Protocol Simulator"
      ++ status
      ++ panel_text r body_font (246, 211, 123) y₂ "Run Stats"
      ++ stats
      ++ panel_text r body_font (246, 211, 123) y₄ "Legend"
      ++ legend
      ++ panel_text r body_font (246, 211, 123) y₆ "Controls"
      ++ controls

  -- `draw`: the calls for one frame.
  unfoldable pub draw : ⦃round : Rounding F⦄ → Renderer → Sim F R → Result (List Drawing)
  draw r s = do scene ← draw_graph r s; ok (fill (18, 22, 30) ∷ scene ++ draw_side_panel r s)
