-- ===== src/Gui/Renderer/Colors.antt =====
-- The colours that examples/gui/renderer/src/renderer.c makes of a byte.
use tinyrtos.Prelude.{
  ℕ, ◌+◌, ◌*◌, ◌/◌, ◌<◌, ◌≡◌, ◌≢◌, refl, sym, ap, ◌∙◌, subst, leb, false, ◌⊎◌, inl, inr, List, [],
  ◌∷◌, Bool, true, not, ◌&&◌, ◌||◌, checked_lem, ◌==◌, ==_iff, ℕ_discrete, arith,
}
use tinyrtos.Gui.Scene.{rgb332}
use tinyrtos.Gui.Renderer.{
  GuiRenderer, SdlCall, sets_draw_color, rgb332_decode, clear_color, draw_pixel,
}

-- The level, of `levels` above 0, that was spread to `v` out of 255.
abbrev pub level : (levels v : ℕ) → ℕ
level levels v = (v * levels + 254) / 255

-- The byte that the board makes of the three levels.
abbrev pub encoded : ℕ × ℕ × ℕ → ℕ
encoded (r, g, b) = rgb332 (level 7 r) (level 7 g) (level 3 b)

-- The renderer's decoding of a colour loses nothing: the board's RGB332 of the levels that the decoded red, green and
-- blue stand for is the byte itself.
pub rgb332_decode_roundtrip : (c : ℕ) → c < 256 → encoded (rgb332_decode c) ≡ c
unfolding rgb332_decode
rgb332_decode_roundtrip c h =
    (==_iff _ c).0 (checked_lem 256 (λ c. encoded (rgb332_decode c) == c) c h refl)

-- The colour of SDL's last setting in some calls.
abbrev pub color_set : List SdlCall → ℕ × ℕ × ℕ
color_set [] = (0, 0, 0)
color_set (sets_draw_color r g b a ∷ calls) = (r, g, b)
color_set (call ∷ calls) = color_set calls

decoded_to_itself : (c : ℕ) → c < 256 → (c, c, c) ≡ rgb332_decode c → (c ≡ 0) ⊎ (c ≡ 255)
unfolding rgb332_decode
decoded_to_itself c h e =
    let test =
      checked_lem 256
        (λ c.
          not (
            ((rgb332_decode c).0 == c)
            && (((rgb332_decode c).1 == c) && ((rgb332_decode c).2 == c)))
          || (c == 0)
          || (c == 255))
        c h refl in
    let red : ((rgb332_decode c).0 == c) ≡ true =
      (==_iff (rgb332_decode c).0 c).1 (sym (ap (λ t. t.0) e)) in
    let green : ((rgb332_decode c).1 == c) ≡ true =
      (==_iff (rgb332_decode c).1 c).1 (sym (ap (λ t. t.1) e)) in
    let blue : ((rgb332_decode c).2 == c) ≡ true =
      (==_iff (rgb332_decode c).2 c).1 (sym (ap (λ t. t.2) e)) in
    black_or_white ((rgb332_decode c).0 == c) ((rgb332_decode c).1 == c) ((rgb332_decode c).2 == c)
      red green blue test
  where
    black_or_white :
        (r g b : Bool)
        → r ≡ true
        → g ≡ true
        → b ≡ true
        → (not (r && (g && b)) || (c == 0) || (c == 255)) ≡ true
        → (c ≡ 0) ⊎ (c ≡ 255)
    black_or_white r g b hr hg hb t = elim (ℕ_discrete c 0) [
      | yes e ↦ inl e
      | no ne ↦ inr (ground arith)
    ]

color_set-draw_pixel :
    (gui : GuiRenderer) (x y c : ℕ)
    → x < gui.width
    → y < gui.height
    → color_set (draw_pixel gui x y c) ≡ rgb332_decode c
unfolding draw_pixel
color_set-draw_pixel gui x y c hx hy =
    let in_width : leb gui.width x ≡ false = ground arith in
    let in_height : leb gui.height y ≡ false = ground arith in rw (in_width, in_height) refl

decoded_end : (c : ℕ) → (c ≡ 0) ⊎ (c ≡ 255) → (c, c, c) ≡ rgb332_decode c
unfolding rgb332_decode
decoded_end c (inl e) = subst (λ (x : ℕ). (x, x, x) ≡ rgb332_decode x) (sym e) refl
decoded_end c (inr e) = subst (λ (x : ℕ). (x, x, x) ≡ rgb332_decode x) (sym e) refl

black_or_white_lem : (c : ℕ) → ((c ≡ 0) ⊎ (c ≡ 255)) ⊎ ((c ≢ 0) × (c ≢ 255))
black_or_white_lem c = elim (ℕ_discrete c 0) [
  | yes e ↦ inl (inl e)
  | no ne ↦ elim (ℕ_discrete c 255) [ yes e ↦ inl (inr e) | no ne' ↦ inr (ne, ne') ]
]

-- For a byte c and a pixel of the framebuffer: gui_renderer_clear_color sets red, green and blue to c itself, which is
-- the colour that gui_renderer_draw_pixel sets for c if c is 0 or 255, and another one if it is not.
pub clear_color_undecoded :
    (gui : GuiRenderer) (x y c : ℕ)
    → x < gui.width
    → y < gui.height
    → c < 256
    → (color_set (clear_color c) ≡ (c, c, c))
      × ((((c ≡ 0) ⊎ (c ≡ 255)) × (color_set (clear_color c) ≡ color_set (draw_pixel gui x y c)))
          ⊎ ((c ≢ 0) × (c ≢ 255) × (color_set (clear_color c) ≢ color_set (draw_pixel gui x y c))))
unfolding clear_color
clear_color_undecoded gui x y c hx hy h =
    let drawn = color_set-draw_pixel gui x y c hx hy in
    (
      refl,
      elim (black_or_white_lem c) [
        | inl ends ↦ inl (ends, decoded_end c ends ∙ sym drawn)
        | inr (not_black, not_white) ↦ inr (
          not_black,
          not_white,
          λ e. elim (decoded_to_itself c h (e ∙ drawn)) [
            | inl b ↦ not_black b
            | inr w ↦ not_white w
          ],
        )
      ],
    )
