-- ===== src/Gui/Renderer/Line.antt =====
-- gui_renderer_draw_line of examples/gui/renderer/src/renderer.c. Its loop runs on fuel.
-- The int32_t arithmetic is exact: C leaves overflow undefined, and with ends of at most 255, as bytes are,
-- `err` is a difference of two numbers below 2 ^ 17.
use tinyrtos.Prelude.{
  ℕ, zero, suc, List, [], ◌∷◌, ◌++◌, Option, none, some, ◌&&◌, ℤ, pos, minus, neg, ◌+ℤ◌, ◌*ℤ◌,
  leb_ℤ, eq_ℤ, uint32, if◌then◌else◌,
}
use tinyrtos.Gui.Renderer.{GuiRenderer, SdlCall, int32, draw_pixel}

-- What the loop leaves as it is: `ix1`, `iy1`, `dx`, `dy`, `sx` and `sy`.
pub record Course : Type 0 where
  pub ix1 : ℤ
  pub iy1 : ℤ
  pub dx : ℤ
  pub dy : ℤ
  pub sx : ℤ
  pub sy : ℤ

-- `ix0`, `iy0` and `err`
pub record Pen : Type 0 where
  pub ix0 : ℤ
  pub iy0 : ℤ
  pub err : ℤ

-- `(a > b) ? (a - b) : (b - a)`
abbrev pub distance : ℤ → ℤ → ℤ
distance a b = if leb_ℤ a b then b +ℤ neg a else a +ℤ neg b

-- `(a < b) ? 1 : -1`
abbrev pub direction : ℤ → ℤ → ℤ
direction a b = if leb_ℤ b a then minus 1 else pos 1

abbrev pub course : (ix0 iy0 ix1 iy1 : ℤ) → Course
course ix0 iy0 ix1 iy1 = record {
  ix1 = ix1;
  iy1 = iy1;
  dx = distance ix1 ix0;
  dy = if leb_ℤ iy1 iy0 then iy1 +ℤ neg iy0 else iy0 +ℤ neg iy1;
  sx = direction ix0 ix1;
  sy = direction iy0 iy1;
}

-- The two tests of a round, with `e2` of before both. `err << 1` is taken as the product with 2.
unfoldable pub move : Course → Pen → Pen
move c p =
    let e2 = p.err *ℤ pos 2 in
    let across =
      if leb_ℤ c.dy e2 then record p { err = p.err +ℤ c.dy; ix0 = p.ix0 +ℤ c.sx } else p in
    if leb_ℤ e2 c.dx
    then record across { err = across.err +ℤ c.dx; iy0 = across.iy0 +ℤ c.sy }
    else across

abbrev pub with_point : ℤ × ℤ → Option (List (ℤ × ℤ)) → Option (List (ℤ × ℤ))
with_point q none = none
with_point q (some l) = some (q ∷ l)

-- The points that the loop draws, in their order.
unfoldable pub walk : (fuel : ℕ) → Course → Pen → Option (List (ℤ × ℤ))
unfolding move
walk zero c p = none
walk (suc fuel) c p =
    if eq_ℤ p.ix0 c.ix1 && eq_ℤ p.iy0 c.iy1
    then some ((p.ix0, p.iy0) ∷ [])
    else with_point (p.ix0, p.iy0) (walk fuel c (move c p))

abbrev pub draw_points : GuiRenderer → (color : ℕ) → List (ℤ × ℤ) → List SdlCall
draw_points gui color [] = []
draw_points gui color ((x, y) ∷ points) =
    draw_pixel gui (uint32 x) (uint32 y) color ++ draw_points gui color points

abbrev pub drawn_along : GuiRenderer → (color : ℕ) → Option (List (ℤ × ℤ)) → Option (List SdlCall)
drawn_along gui color none = none
drawn_along gui color (some points) = some (draw_points gui color points)

unfoldable pub draw_line :
    (fuel : ℕ) → GuiRenderer → (x0 y0 x1 y1 color : ℕ) → Option (List SdlCall)
unfolding walk draw_pixel
draw_line fuel gui x0 y0 x1 y1 color =
    let c = course (int32 x0) (int32 y0) (int32 x1) (int32 y1) in
    let start : Pen = record { ix0 = int32 x0; iy0 = int32 y0; err = c.dx +ℤ c.dy } in
    drawn_along gui color (walk fuel c start)
