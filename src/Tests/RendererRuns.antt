-- ===== src/Tests/RendererRuns.antt =====
-- The renderer's window of 255 by 143 pixels at scale 4.
use tinyrtos.Prelude.{
  ℕ, ◌+◌, ◌*◌, ◌≤◌, ◌<◌, ◌≡◌, ◌≢◌, refl, ◌⊎◌, List, [], ◌∷◌, some, ℤ, pos, arith,
}
use tinyrtos.Gui.Renderer.{GuiRenderer, draw_pixel, clear_color}
use tinyrtos.Gui.Renderer.Colors.{color_set, clear_color_undecoded}
use tinyrtos.Gui.Renderer.Line.{course, walk, draw_points, draw_line}
use tinyrtos.Gui.Renderer.Straight.{Runs, draw_line_lem}
use tinyrtos.Gui.Renderer.Window.{square, draw_pixel_lem}

abbrev window : GuiRenderer
window = record { width = 255; height = 143; scale = 4 }

abbrev red : ℕ
red = 224

clear_color_undecoded_example :
    (color_set (clear_color red) ≡ (red, red, red))
    × ((((red ≡ 0) ⊎ (red ≡ 255))
          × (color_set (clear_color red) ≡ color_set (draw_pixel window 3 5 red)))
        ⊎ ((red ≢ 0)
            × (red ≢ 255)
            × (color_set (clear_color red) ≢ color_set (draw_pixel window 3 5 red))))
clear_color_undecoded_example =
    clear_color_undecoded window 3 5 red (omega arith) (omega arith) (omega arith)

draw_pixel_lem_example :
    ((3 < 255)
      × (5 < 143)
      × (draw_pixel window 3 5 7 ≡ square window 3 5 7)
      × (3 * 4 + 4 ≤ 255 * 4)
      × (5 * 4 + 4 ≤ 143 * 4))
    ⊎ (((255 ≤ 3) ⊎ (143 ≤ 5)) × (draw_pixel window 3 5 7 ≡ []))
draw_pixel_lem_example = draw_pixel_lem window 3 5 7 (omega arith) (omega arith)

draw_line_lem_example :
    (l : List (ℤ × ℤ)) × (draw_line 10 window 3 5 7 2 9 ≡ some (draw_points window 9 l))
    × Runs 3 5 7 2 0 0 l
draw_line_lem_example =
    draw_line_lem 10 window 3 5 7 2 9 (omega arith) (omega arith) (omega arith) (omega arith)
      (omega arith)

-- From (3, 5) to (7, 2) the line goes through these points.
walk_run :
    walk 10
      (course (pos 3) (pos 5) (pos 7) (pos 2))
      (record { ix0 = pos 3; iy0 = pos 5; err = pos 1 })
    ≡ some ((pos 3, pos 5) ∷ (pos 4, pos 4) ∷ (pos 5, pos 3) ∷ (pos 6, pos 3) ∷ (pos 7, pos 2) ∷ [])
unfolding walk
walk_run = refl
