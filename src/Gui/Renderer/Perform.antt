-- ===== src/Gui/Renderer/Perform.antt =====
-- What the calls of examples/gui/renderer/src/parser.c of the functions of examples/gui/renderer/src/renderer.c make of
-- SDL, on the renderer that gui_renderer_t has.
use tinyrtos.Prelude.{
  ℕ, ◌≡◌, refl, ◌∙◌, ap, arith, List, [], ◌∷◌, ◌++◌, map, Option, none, some, Bool, true, false,
  ◌==◌,
}
use tinyrtos.Gui.Parser.{Draw}
use tinyrtos.Gui.Renderer.{GuiRenderer, SdlCall}
use tinyrtos.Gui.Renderer as Renderer
use tinyrtos.Gui.Renderer.Line as Line
use tinyrtos.Gui.Renderer.Life.{WindowCall, draws_on}
use tinyrtos.Gui.Renderer.Alive.{Alive, allow, and_then, and_then-append, shown_window}

-- Enough for the loop of a line whose ends have coordinates below 256.
abbrev pub line_fuel : ℕ
line_fuel = 511

-- `none` if the loop of a line has not ended.
unfoldable pub sdl_calls : GuiRenderer → Draw → Option (List SdlCall)
unfolding Renderer.clear_color Renderer.draw_pixel Renderer.present Line.draw_line
sdl_calls gui (Draw.clear_color color) = some (Renderer.clear_color color)
sdl_calls gui (Draw.draw_pixel x y color) = some (Renderer.draw_pixel gui x y color)
sdl_calls gui (Draw.draw_line x0 y0 x1 y1 color) = Line.draw_line line_fuel gui x0 y0 x1 y1 color
sdl_calls gui Draw.present = some Renderer.present

-- The calls of one function, if it has ended, and then what the later ones do.
abbrev pub then_rest :
    (renderer : Option ℕ) → Option (List SdlCall) → Bool × List WindowCall → Bool × List WindowCall
then_rest renderer none rest = (false, [])
then_rest renderer (some calls) rest = (rest.0, map (draws_on renderer) calls ++ rest.1)

-- Whether all have ended, and the calls.
unfoldable pub perform : GuiRenderer → (renderer : Option ℕ) → List Draw → Bool × List WindowCall
unfolding sdl_calls
perform gui renderer [] = (true, [])
perform gui renderer (d ∷ ds) = then_rest renderer (sdl_calls gui d) (perform gui renderer ds)

drawing_allowed :
    (w r : ℕ) (c : SdlCall)
    → allow (draws_on (some r) c) (shown_window w (some r)) ≡ some (shown_window w (some r))
drawing_allowed w r c = let same : (r == r) ≡ true = ground arith in rw same refl

-- Drawing on the renderer of a window that is there keeps both.
drawn_on :
    (w r : ℕ) (calls : List SdlCall)
    → and_then (some (shown_window w (some r))) (map (draws_on (some r)) calls)
      ≡ some (shown_window w (some r))
drawn_on w r [] = refl
drawn_on w r (c ∷ calls) =
    ap (λ (o : Option Alive). and_then o (map (draws_on (some r)) calls)) (drawing_allowed w r c)
    ∙ drawn_on w r calls

then_rest-kept :
    (w r : ℕ) (o : Option (List SdlCall)) (rest : Bool × List WindowCall)
    → and_then (some (shown_window w (some r))) rest.1 ≡ some (shown_window w (some r))
    → and_then (some (shown_window w (some r))) (then_rest (some r) o rest).1
      ≡ some (shown_window w (some r))
then_rest-kept w r none rest kept = refl
then_rest-kept w r (some calls) rest kept =
    and_then-append (some (shown_window w (some r))) (map (draws_on (some r)) calls) rest.1
    ∙ ap (λ (o : Option Alive). and_then o rest.1) (drawn_on w r calls)
    ∙ kept

pub perform-kept :
    (gui : GuiRenderer) (w r : ℕ) (ds : List Draw)
    → and_then (some (shown_window w (some r))) (perform gui (some r) ds).1
      ≡ some (shown_window w (some r))
unfolding perform
perform-kept gui w r [] = refl
perform-kept gui w r (d ∷ ds) =
    then_rest-kept w r (sdl_calls gui d) (perform gui (some r) ds) (perform-kept gui w r ds)
