-- ===== src/Gui/Renderer.antt =====
-- Drawing on the host, examples/gui/renderer/src/renderer.c: the calls of SDL that each function makes, in
-- their order. Of gui_renderer_t it has the sizes; Gui/Renderer/Life.antt has the window.
pub mod Colors
pub mod Window
pub mod Line
pub mod Towards
pub mod Straight
pub mod Life
pub mod Alive
pub mod Perform
use Prim.Native.Nat.{bit_and}
use tinyrtos.Prelude.{
  ℕ, ◌-◌, ◌*◌, ◌/◌, ◌%◌, ◌^◌, List, [], ◌∷◌, ◌||◌, ℤ, pos, negsuc, mul32, ltb, leb, if◌then◌else◌,
}

-- gui_renderer_t without its two pointers
pub record GuiRenderer : Type 0 where
  pub width : ℕ
  pub height : ℕ
  pub scale : ℕ

-- SDL_SetRenderDrawColor, SDL_RenderClear, SDL_RenderFillRect, SDL_RenderPresent
pub data SdlCall : Type 0 where
  sets_draw_color : (r g b a : ℕ) → SdlCall
  clears : SdlCall
  fills_rect : (x y w h : ℤ) → SdlCall
  presents : SdlCall

unfoldable pub rgb332_decode : ℕ → ℕ × ℕ × ℕ
rgb332_decode c = (
  bit_and (c / 2 ^ 5) 0x07 * 255 / 7 % 256,
  bit_and (c / 2 ^ 2) 0x07 * 255 / 7 % 256,
  bit_and c 0x03 * 255 / 3 % 256,
)

unfoldable pub clear_color : ℕ → List SdlCall
clear_color color = sets_draw_color color color color 255 ∷ clears ∷ []

unfoldable pub clear : List SdlCall
clear = sets_draw_color 0 0 0 255 ∷ clears ∷ []

unfoldable pub present : List SdlCall
present = presents ∷ []

-- `(int)u`, of 32 bits
abbrev pub int32 : ℕ → ℤ
int32 u = if ltb u (2 ^ 31) then pos u else negsuc (2 ^ 32 - 1 - u)

unfoldable pub draw_pixel : GuiRenderer → (x y color : ℕ) → List SdlCall
unfolding rgb332_decode
draw_pixel gui x y color =
    if leb gui.width x || leb gui.height y
    then []
    else let (r, g, b) = rgb332_decode color in
      sets_draw_color r g b 255
      ∷ fills_rect (int32 (mul32 x gui.scale)) (int32 (mul32 y gui.scale)) (int32 gui.scale)
          (int32 gui.scale)
      ∷ []
