-- ===== src/Gui/Scene/InFrame.antt =====
-- A frame of examples/gui/src/scene.c stays inside the framebuffer, and what the renderer draws of it.
use tinyrtos.Prelude.{
  ℕ, ◌≤◌, ◌<◌, ◌≡◌, refl, sym, ap, subst, ◌∙◌, List, [], ◌∷◌, ◌++◌, map, Bool, true, false, ◌&&◌,
  get_or, for_range, for_range_inv, checked, checked_lem, ℤ, pos, negsuc, uint8, ltb, arith,
}
use tinyrtos.Gui.Parser.{Rx, Draw, clear_color, draw_pixel, draw_line, present, feed_all}
use tinyrtos.Gui.Wire.{
  Call, presents, call_of, drawn, transmitted, EachHasRoom, IsReady, wire_roundtrip,
}
use tinyrtos.Gui.Scene.{
  framebuffer_width, framebuffer_height, Vec2, edges, corner, project, edge_call, scene_render,
}

abbrev inside : ℕ → ℤ → Bool
inside n (pos v) = ltb v n
inside n (negsuc v) = false

inside_lem : (n : ℕ) (z : ℤ) → n ≤ 256 → inside n z ≡ true → uint8 z < n
inside_lem n (pos v) h e = ground arith
inside_lem n (negsuc v) h e = absurd (ground arith)

abbrev corner_test : ℕ → ℕ → Bool
corner_test angle i =
    let p = corner angle i in inside framebuffer_width p.x && inside framebuffer_height p.y

tested : checked 256 (λ angle. checked 8 (corner_test angle)) ≡ true
unfolding project
tested = refl

both : (a b : Bool) → (a && b) ≡ true → (a ≡ true) × (b ≡ true)
both a b e = ground arith

-- Every corner at every angle, as the bytes that are sent.
corner_inside :
    (angle i : ℕ)
    → angle < 256
    → i < 8
    → (uint8 (corner angle i).x < framebuffer_width)
      × (uint8 (corner angle i).y < framebuffer_height)
corner_inside angle i l d =
    let at_angle = checked_lem 256 (λ a. checked 8 (corner_test a)) angle l tested in
    let at : Vec2 = corner angle i in
    let p =
      both (inside framebuffer_width at.x) (inside framebuffer_height at.y)
        (checked_lem 8 (corner_test angle) i d at_angle) in
    (
      inside_lem framebuffer_width at.x (omega arith) p.0,
      inside_lem framebuffer_height at.y (omega arith) p.1,
    )

-- A call of the renderer with its points in the framebuffer.
abbrev pub IsInFrame : Draw → Type 0
IsInFrame (clear_color color) = Unit {0}
IsInFrame (draw_pixel x y color) = (x < framebuffer_width) × (y < framebuffer_height)
IsInFrame (draw_line x0 y0 x1 y1 color) =
    (x0 < framebuffer_width)
    × (y0 < framebuffer_height)
    × (x1 < framebuffer_width)
    × (y1 < framebuffer_height)
IsInFrame present = Unit {0}

abbrev pub AreInFrame : List Draw → Type 0
AreInFrame [] = Unit {0}
AreInFrame (d ∷ ds) = IsInFrame d × AreInFrame ds

AreInFrame-append :
    (l : List Call) (m : List Call)
    → AreInFrame (map drawn l)
    → AreInFrame (map drawn m)
    → AreInFrame (map drawn (l ++ m))
AreInFrame-append [] m p q = q
AreInFrame-append (c ∷ l) m p q = (p.0, AreInFrame-append l m p.1 q)

ends_exist : (i : ℕ) → i < 12 → ((get_or edges i (0, 0)).0 < 8) × ((get_or edges i (0, 0)).1 < 8)
ends_exist i d =
    let t = both (ltb (get_or edges i (0, 0)).0 8) (ltb (get_or edges i (0, 0)).1 8) (
      checked_lem 12 (λ i. ltb (get_or edges i (0, 0)).0 8 && ltb (get_or edges i (0, 0)).1 8) i d
        refl) in
    (below _ t.0, below _ t.1)
  where
    below : (n : ℕ) → ltb n 8 ≡ true → n < 8
    below n h = ground arith

edge_inside : (angle i : ℕ) → angle < 256 → i < 12 → IsInFrame (drawn (edge_call angle i))
unfolding edge_call
edge_inside angle i l d =
    let e = ends_exist i d in
    let from = corner_inside angle (get_or edges i (0, 0)).0 l e.0 in
    let to = corner_inside angle (get_or edges i (0, 0)).1 l e.1 in (from.0, from.1, to.0, to.1)

scene_inside : (angle : ℕ) → angle < 256 → AreInFrame (map drawn (scene_render angle).0)
unfolding scene_render
scene_inside angle l =
    let lines : AreInFrame
        (map drawn (for_range 12 0 (λ i calls. calls ++ edge_call angle i ∷ []) [])) =
      for_range_inv (λ i calls. AreInFrame (map drawn calls))
        (λ i calls. calls ++ edge_call angle i ∷ []) 12 0 12 [] refl
        (λ i calls lo hi p.
          AreInFrame-append calls (edge_call angle i ∷ []) p (edge_inside angle i l hi, tt))
        tt in
    (
      tt,
      AreInFrame-append (for_range 12 0 (λ i calls. calls ++ edge_call angle i ∷ []) [])
          (presents ∷ []) lines (tt, tt),
    )

map-drawn :
    (calls : List (List ℕ × Call))
    → map (λ c. drawn (call_of c)) calls ≡ map drawn (map call_of calls)
map-drawn [] = refl
map-drawn (c ∷ calls) = ap (λ l. drawn (call_of c) ∷ l) (map-drawn calls)

-- One frame on the board, sent over a line that loses no byte to a renderer whose parser is between two frames, has
-- the renderer make just the drawing calls of that frame, in their order, with every point inside the framebuffer,
-- whatever the angle and whatever `packet` held before each call.
pub frame_arrives :
    (angle : ℕ) (calls : List (List ℕ × Call)) (r : Rx)
    → angle < 256
    → map call_of calls ≡ (scene_render angle).0
    → EachHasRoom calls
    → IsReady r
    → ((feed_all (transmitted calls) r).1 ≡ map drawn (scene_render angle).0)
      × AreInFrame (feed_all (transmitted calls) r).1
      × IsReady (feed_all (transmitted calls) r).0
frame_arrives angle calls r l e room ready =
    let w = wire_roundtrip calls r ready room in
    let as_meant = w.0 ∙ map-drawn calls ∙ ap (map drawn) e in
    (as_meant, subst AreInFrame (sym as_meant) (scene_inside angle l), w.1)
