-- ===== src/Gui/Renderer/Window.antt =====
-- Where examples/gui/renderer/src/renderer.c paints the pixels of the framebuffer in its window.
use tinyrtos.Prelude.{
  ℕ, suc, ◌+◌, ◌*◌, ◌^◌, ◌≤◌, ◌<◌, ◌≡◌, ap, ◌∙◌, List, [], ◌∷◌, true, false, ◌⊎◌, inl, inr, pos,
  mul32, leb, arith, dec_lt,
}
use native.Mathlib.Nat.{mul-le-mul_right}
use tinyrtos.Gui.Renderer.{
  GuiRenderer, SdlCall, sets_draw_color, fills_rect, rgb332_decode, int32, draw_pixel,
}

-- The square of a pixel in the window.
abbrev pub square : GuiRenderer → (x y color : ℕ) → List SdlCall
square gui x y color =
    let (r, g, b) = rgb332_decode color in
    sets_draw_color r g b 255
    ∷ fills_rect (pos (x * gui.scale)) (pos (y * gui.scale)) (pos gui.scale) (pos gui.scale)
    ∷ []

pub int32_small : (u : ℕ) → u < 2 ^ 31 → int32 u ≡ pos u
int32_small u h = ground arith

mul32_small : (a b : ℕ) → a * b < 2 ^ 31 → mul32 a b ≡ a * b
mul32_small a b h = omega arith

-- `a` squares of side `s` and one more end within `n` squares, if `a` is below `n`.
square_inside : (a n s : ℕ) → a < n → a * s + s ≤ n * s
square_inside a n s h = let m : suc a * s ≤ n * s = mul-le-mul_right s h in omega (arith, m)

-- A coordinate in the window as SDL is told it.
coordinate : (a s w : ℕ) → a * s + s ≤ w → w < 2 ^ 31 → int32 (mul32 a s) ≡ pos (a * s)
coordinate a s w inside small =
    let p : a * s < 2 ^ 31 = omega arith in ap int32 (mul32_small a s p) ∙ int32_small (a * s) p

-- In a window whose sides are below 2 ^ 31: a pixel of the framebuffer is painted as its square of side `scale`, which
-- lies in the window and starts where the squares of the pixels before it end, and a pixel outside the framebuffer
-- paints nothing.
pub draw_pixel_lem :
    (gui : GuiRenderer) (x y color : ℕ)
    → gui.width * gui.scale < 2 ^ 31
    → gui.height * gui.scale < 2 ^ 31
    → ((x < gui.width)
        × (y < gui.height)
        × (draw_pixel gui x y color ≡ square gui x y color)
        × (x * gui.scale + gui.scale ≤ gui.width * gui.scale)
        × (y * gui.scale + gui.scale ≤ gui.height * gui.scale))
      ⊎ (((gui.width ≤ x) ⊎ (gui.height ≤ y)) × (draw_pixel gui x y color ≡ []))
unfolding draw_pixel
draw_pixel_lem gui x y color hw hh = elim (dec_lt x gui.width) [
  | no wide ↦ let t : leb gui.width x ≡ true = ground arith in inr (inl (omega arith), rw t)
  | yes in_width ↦
      let f : leb gui.width x ≡ false = ground arith in
      elim (dec_lt y gui.height) [
        | no tall ↦
            let t : leb gui.height y ≡ true = ground arith in inr (inr (omega arith), rw (f, t))
        | yes in_height ↦
            let g : leb gui.height y ≡ false = ground arith in
            let px = square_inside x gui.width gui.scale in_width in
            let py = square_inside y gui.height gui.scale in_height in
            let cx = coordinate x gui.scale (gui.width * gui.scale) px hw in
            let cy = coordinate y gui.scale (gui.height * gui.scale) py hh in
            let side = int32_small gui.scale (omega arith) in
            inl (in_width, in_height, rw (f, g, cx, cy, side), px, py)
      ]
]
