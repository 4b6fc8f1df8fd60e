-- ===== src/Gui/Renderer/Straight.antt =====
-- The line of examples/gui/renderer/src/renderer.c comes to its last point.
use tinyrtos.Prelude.{
  ℕ, zero, suc, ◌+◌, ◌-◌, ◌*◌, ◌≤◌, ◌<◌, ◌≡◌, ap, ap₂, ◌∙◌, List, [], ◌∷◌, some, true, false, ◌&&◌,
  ℤ, pos, minus, ◌+ℤ◌, ◌*ℤ◌, difference, leb_ℤ, eq_ℤ, difference-plus, difference-minus,
  difference-double, difference-at_least, difference-at_most, leb, ◌==◌, dec_lt, ℕ_discrete, arith,
  Bool-cases, ◌⊎◌, inl, inr,
}
use native.Mathlib.Nat.{mul-le-mul_left}
use tinyrtos.Gui.Renderer.{GuiRenderer}
use tinyrtos.Gui.Renderer.Window.{int32_small}
use tinyrtos.Gui.Renderer.Line.{
  Course, Pen, course, move, walk, draw_points, drawn_along, draw_line,
}
use tinyrtos.Gui.Renderer.Towards.{
  gap, towards, sign, distance_lem, direction_lem, towards-sign, at_end, course_dy, both_there,
  not_both_there, first_err, towards-zero,
}

module _ (x0 y0 x1 y1 : ℕ) where
  abbrev across : ℕ
  across = gap x0 x1

  abbrev down : ℕ
  down = gap y0 y1

  -- What the loop leaves as it is, on natural numbers.
  abbrev ahead : Course
  ahead = record {
    ix1 = pos x1;
    iy1 = pos y1;
    dx = pos across;
    dy = minus down;
    sx = sign x0 x1;
    sy = sign y0 y1;
  }

  course_lem : course (pos x0) (pos y0) (pos x1) (pos y1) ≡ ahead
  course_lem = rw (distance_lem x0 x1, course_dy y0 y1, direction_lem x0 x1, direction_lem y0 y1)

  -- The pen after `i` steps across and `j` steps down.
  abbrev pen_at : ℕ → ℕ → Pen
  pen_at i j = record {
    ix0 = towards x0 x1 i;
    iy0 = towards y0 y1 j;
    err = difference (across * (j + 1)) (down * (i + 1));
  }

  -- The two tests, on the terms of `err`.
  across_test :
      (a b : ℕ) → leb_ℤ (minus down) (difference a b *ℤ pos 2) ≡ leb (b * 2) (a * 2 + down)
  across_test a b = rw (difference-double a b) (difference-at_least (a * 2) (b * 2) down)

  down_test :
      (a b : ℕ) → leb_ℤ (difference a b *ℤ pos 2) (pos across) ≡ leb (a * 2) (b * 2 + across)
  down_test a b = rw (difference-double a b) (difference-at_most (a * 2) (b * 2) across)

  err_across : (i j : ℕ) → (pen_at i j).err +ℤ minus down ≡ (pen_at (i + 1) j).err
  err_across i j =
      difference-minus (across * (j + 1)) (down * (i + 1)) down
      ∙ ap (difference (across * (j + 1))) (omega arith)

  err_down : (i j : ℕ) → (pen_at i j).err +ℤ pos across ≡ (pen_at i (j + 1)).err
  err_down i j =
      difference-plus (across * (j + 1)) (down * (i + 1)) across
      ∙ ap (λ a. difference a (down * (i + 1))) (omega arith)

  step_across :
      (i j : ℕ)
      → i < across
      → leb (down * (i + 1) * 2) (across * (j + 1) * 2 + down) ≡ true
      → leb (across * (j + 1) * 2) (down * (i + 1) * 2 + across) ≡ false
      → move ahead (pen_at i j) ≡ pen_at (i + 1) j
  unfolding move
  step_across i j h t f = rw (
    across_test (across * (j + 1)) (down * (i + 1)) ∙ t,
    down_test (across * (j + 1)) (down * (i + 1)) ∙ f,
    err_across i j,
    towards-sign x0 x1 i h,
  )

  step_down :
      (i j : ℕ)
      → j < down
      → leb (down * (i + 1) * 2) (across * (j + 1) * 2 + down) ≡ false
      → leb (across * (j + 1) * 2) (down * (i + 1) * 2 + across) ≡ true
      → move ahead (pen_at i j) ≡ pen_at i (j + 1)
  unfolding move
  step_down i j h f t = rw (
    across_test (across * (j + 1)) (down * (i + 1)) ∙ f,
    down_test (across * (j + 1)) (down * (i + 1)) ∙ t,
    err_down i j,
    towards-sign y0 y1 j h,
  )

  step_both :
      (i j : ℕ)
      → i < across
      → j < down
      → leb (down * (i + 1) * 2) (across * (j + 1) * 2 + down) ≡ true
      → leb (across * (j + 1) * 2) (down * (i + 1) * 2 + across) ≡ true
      → move ahead (pen_at i j) ≡ pen_at (i + 1) (j + 1)
  unfolding move
  step_both i j hi hj t u = rw (
    across_test (across * (j + 1)) (down * (i + 1)) ∙ t,
    down_test (across * (j + 1)) (down * (i + 1)) ∙ u,
    err_across i j,
    err_down (i + 1) j,
    towards-sign x0 x1 i hi,
    towards-sign y0 y1 j hj,
  )

  le_of_leb : (a b : ℕ) → leb a b ≡ true → a ≤ b
  le_of_leb a b h = ground arith

  -- A step across is made only before the last column, a step down only before the last row.
  room_across :
      (i j : ℕ)
      → i ≤ across
      → j ≤ down
      → i + j < across + down
      → leb (down * (i + 1) * 2) (across * (j + 1) * 2 + down) ≡ true
      → i < across
  room_across i j hi hj more t = elim (dec_lt i across) [
    | yes h ↦ h
    | no ne ↦
        let last : i ≡ across = omega arith in
        let row : j + 1 ≤ down = omega arith in
        let m : across * (j + 1) ≤ across * down = mul-le-mul_left across row in
        let e : down * (i + 1) ≡ down * (across + 1) = ap (λ i. down * (i + 1)) last in
        let le : down * (i + 1) * 2 ≤ across * (j + 1) * 2 + down = le_of_leb _ _ t in
        absurd (omega (arith, m, e, le, row))
  ]

  room_down :
      (i j : ℕ)
      → i ≤ across
      → j ≤ down
      → i + j < across + down
      → leb (across * (j + 1) * 2) (down * (i + 1) * 2 + across) ≡ true
      → j < down
  room_down i j hi hj more t = elim (dec_lt j down) [
    | yes h ↦ h
    | no ne ↦
        let last : j ≡ down = omega arith in
        let column : i + 1 ≤ across = omega arith in
        let m : down * (i + 1) ≤ down * across = mul-le-mul_left down column in
        let e : across * (j + 1) ≡ across * (down + 1) = ap (λ j. across * (j + 1)) last in
        let le : across * (j + 1) * 2 ≤ down * (i + 1) * 2 + across = le_of_leb _ _ t in
        absurd (omega (arith, m, e, le, column))
  ]

  -- A list of points from `i` steps across and `j` steps down to the last point: each is one step across, one step
  -- down, or both, from the one before.
  pub data Runs : ℕ → ℕ → List (ℤ × ℤ) → Type 0 where
    arrives : Runs across down ((towards x0 x1 across, towards y0 y1 down) ∷ [])
    goes :
        (i j di dj : ℕ) (l : List (ℤ × ℤ))
        → di ≤ 1
        → dj ≤ 1
        → 1 ≤ di + dj
        → i + di ≤ across
        → j + dj ≤ down
        → Runs (i + di) (j + dj) l
        → Runs i j ((towards x0 x1 i, towards y0 y1 j) ∷ l)

  record Next (i j : ℕ) : Type 0 where
    di : ℕ
    dj : ℕ
    one_across : di ≤ 1
    one_down : dj ≤ 1
    moves : 1 ≤ di + dj
    in_columns : i + di ≤ across
    in_rows : j + dj ≤ down
    made : move ahead (pen_at i j) ≡ pen_at (i + di) (j + dj)

  next : (i j : ℕ) → i ≤ across → j ≤ down → i + j < across + down → Next i j
  next i j hi hj more =
      choose (Bool-cases (leb (down * (i + 1) * 2) (across * (j + 1) * 2 + down)))
        (Bool-cases (leb (across * (j + 1) * 2) (down * (i + 1) * 2 + across)))
    where
      choose :
          (leb (down * (i + 1) * 2) (across * (j + 1) * 2 + down) ≡ true)
            ⊎ (leb (down * (i + 1) * 2) (across * (j + 1) * 2 + down) ≡ false)
          → (leb (across * (j + 1) * 2) (down * (i + 1) * 2 + across) ≡ true)
            ⊎ (leb (across * (j + 1) * 2) (down * (i + 1) * 2 + across) ≡ false)
          → Next i j
      choose (inl t) (inl u) =
          let h = room_across i j hi hj more t in
          let v = room_down i j hi hj more u in
          record {
            di = 1;
            dj = 1;
            one_across = omega arith;
            one_down = omega arith;
            moves = omega arith;
            in_columns = omega arith;
            in_rows = omega arith;
            made = step_both i j h v t u;
          }
      choose (inl t) (inr f) =
          let h = room_across i j hi hj more t in
          record {
            di = 1;
            dj = 0;
            one_across = omega arith;
            one_down = omega arith;
            moves = omega arith;
            in_columns = omega arith;
            in_rows = omega arith;
            made = step_across i j h t f ∙ ap (pen_at (i + 1)) (omega arith);
          }
      choose (inr f) (inl u) =
          let v = room_down i j hi hj more u in
          record {
            di = 0;
            dj = 1;
            one_across = omega arith;
            one_down = omega arith;
            moves = omega arith;
            in_columns = omega arith;
            in_rows = omega arith;
            made = step_down i j v f u ∙ ap (λ i. pen_at i (j + 1)) (omega arith);
          }
      choose (inr f) (inr g) = absurd (ground arith)

  -- What the loop starts from.
  abbrev begins : Course → Pen
  begins c = record { ix0 = pos x0; iy0 = pos y0; err = c.dx +ℤ c.dy }

  begins_lem : begins ahead ≡ pen_at 0 0
  begins_lem = rw (first_err across down, towards-zero x0 x1, towards-zero y0 y1)

  walk_lem :
      (fuel i j : ℕ)
      → i ≤ across
      → j ≤ down
      → (across - i) + (down - j) < fuel
      → (l : List (ℤ × ℤ)) × (walk fuel ahead (pen_at i j) ≡ some l) × Runs i j l
  unfolding walk
  walk_lem zero i j hi hj enough = absurd (omega arith)
  walk_lem (suc fuel) i j hi hj enough = elim (ℕ_discrete (i + j) (across + down)) [
    | yes e ↦
        let ei : i ≡ across = omega arith in
        let ej : j ≡ down = omega arith in
        let done : ((i == across) && (j == down)) ≡ true = both_there i j across down ei ej in
        let stop : (eq_ℤ (towards x0 x1 i) (pos x1) && eq_ℤ (towards y0 y1 j) (pos y1)) ≡ true =
          ap₂ ◌&&◌ (at_end x0 x1 i hi) (at_end y0 y1 j hj) ∙ done in
        let runs : Runs i j ((towards x0 x1 i, towards y0 y1 j) ∷ []) = rw (ei, ej) arrives in
        ((towards x0 x1 i, towards y0 y1 j) ∷ [], rw stop, runs)
    | no ne ↦
        let n = next i j hi hj (omega arith) in
        let ih =
          walk_lem fuel (i + n.di) (j + n.dj) n.in_columns n.in_rows
            (omega (arith, n.moves, n.in_columns, n.in_rows)) in
        let going : ((i == across) && (j == down)) ≡ false =
          not_both_there i j across down hi hj ne in
        let stop : (eq_ℤ (towards x0 x1 i) (pos x1) && eq_ℤ (towards y0 y1 j) (pos y1)) ≡ false =
          ap₂ ◌&&◌ (at_end x0 x1 i hi) (at_end y0 y1 j hj) ∙ going in
        (
          (towards x0 x1 i, towards y0 y1 j) ∷ ih.0,
          rw (stop, n.made, ih.1),
          goes i j n.di n.dj ih.0 n.one_across n.one_down n.moves n.in_columns n.in_rows ih.2,
        )
  ]

-- A line whose ends have coordinates below 256, as bytes are, comes to its last point: on any fuel above the two
-- distances together, the loop ends, and draws the pixels of points that run from the first end to the last, each
-- one step across, one step down, or both, towards the end from the one before.
pub draw_line_lem :
    (fuel : ℕ) (gui : GuiRenderer) (x0 y0 x1 y1 color : ℕ)
    → x0 < 256
    → y0 < 256
    → x1 < 256
    → y1 < 256
    → gap x0 x1 + gap y0 y1 < fuel
    → (l : List (ℤ × ℤ)) × (draw_line fuel gui x0 y0 x1 y1 color ≡ some (draw_points gui color l))
      × Runs x0 y0 x1 y1 0 0 l
unfolding draw_line
draw_line_lem fuel gui x0 y0 x1 y1 color hx0 hy0 hx1 hy1 enough =
    let w = walk_lem x0 y0 x1 y1 fuel 0 0 (omega arith) (omega arith) (omega arith) in
    (
      w.0,
      rw
          (
            int32_small x0 (omega arith),
            int32_small y0 (omega arith),
            int32_small x1 (omega arith),
            int32_small y1 (omega arith),
          )
          (ap (drawn_along gui color) (
            ap (λ c. walk fuel c (begins x0 y0 x1 y1 c)) (course_lem x0 y0 x1 y1)
            ∙ ap (walk fuel (ahead x0 y0 x1 y1)) (begins_lem x0 y0 x1 y1)
            ∙ w.1)),
      w.2,
    )
