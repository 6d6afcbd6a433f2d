-- ===== src/Display.antt =====
-- renderer.py and the texts of simulation.py: a frame on the screen as the list of what is drawn.
pub mod Texts
pub mod Scene
pub mod Panel
pub mod Positions
pub mod Shown
pub mod Legend
mod Tests
use Prim.Native.String.{String}
use cps344finalproject.Base.{ℕ, List, [], ◌∷◌, ◌++◌, Result, ok, ◌>>=◌}
use cps344finalproject.Base.Integers.{ℤ}

pub data Font : Type 0 where
  title_font body_font small_font : Font

-- The sizes with which `Renderer.__init__` makes them.
abbrev pub font_size : Font → ℕ
font_size title_font = 26
font_size body_font = 16
font_size small_font = 13

-- `(red, green, blue)`
abbrev pub Color : Type 0
Color = ℕ × ℕ × ℕ

abbrev pub Point : Type 0
Point = ℤ × ℤ

-- `pygame.Rect(left, top, width, height)`
pub record Box : Type 0 where
  pub left : ℤ
  pub top : ℤ
  pub width : ℤ
  pub height : ℤ

-- The calls of `pygame.draw` and of the screen, in the order in which they are made. `text` is
-- `blit` of what a font has rendered. The last number of `line` and `ring` is the width.
pub data Drawing : Type 0 where
  fill : Color → Drawing
  rect : Color → Box → Drawing
  line : Color → Point → Point → ℕ → Drawing
  disc : Color → Point → ℕ → Drawing
  ring : Color → Point → ℕ → ℕ → Drawing
  text : Font → String → Color → Point → Drawing

-- What a loop draws, for each of its elements.
abbrev pub each : {A : Type 0} → (A → Result (List Drawing)) → List A → Result (List Drawing)
each f [] = ok []
each f (x ∷ xs) = do ds ← f x; rest ← each f xs; ok (ds ++ rest)
