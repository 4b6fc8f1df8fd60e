-- ===== src/Gui/Renderer/Towards.antt =====
-- Distances and steps of the line of examples/gui/renderer/src/renderer.c, one coordinate at a time.
use tinyrtos.Prelude.{
  ℕ, zero, suc, ◌+◌, ◌-◌, ◌*◌, ◌≤◌, ◌<◌, ◌≡◌, true, false, ◌&&◌, ℤ, pos, minus, neg, ◌+ℤ◌,
  difference, leb_ℤ, eq_ℤ, ltb, ◌==◌, if◌then◌else◌, arith,
}
use tinyrtos.Gui.Renderer.Line.{distance, direction}

-- How far apart two numbers are.
abbrev pub gap : ℕ → ℕ → ℕ
gap a b = (a - b) + (b - a)

-- The number `i` steps from `a` towards `b`.
abbrev pub towards : (a b i : ℕ) → ℤ
towards a b i = if ltb a b then pos (a + i) else pos (a - i)

abbrev pub sign : ℕ → ℕ → ℤ
sign a b = if ltb a b then pos 1 else minus 1

pub distance_lem : (a b : ℕ) → distance (pos b) (pos a) ≡ pos (gap a b)
distance_lem a b = elim a [
  | zero ↦ elim b [ zero ↦ ground arith | suc d ↦ ground arith ]
  | suc c ↦ elim b [ zero ↦ ground arith | suc d ↦ ground arith ]
]

pub direction_lem : (a b : ℕ) → direction (pos a) (pos b) ≡ sign a b
direction_lem a b = ground arith

pub towards-sign : (a b i : ℕ) → i < gap a b → towards a b i +ℤ sign a b ≡ towards a b (i + 1)
towards-sign a b i h = ground arith

pub at_end : (a b i : ℕ) → i ≤ gap a b → eq_ℤ (towards a b i) (pos b) ≡ (i == gap a b)
at_end a b i h = ground arith

pub course_dy :
    (a b : ℕ)
    → (if leb_ℤ (pos b) (pos a) then pos b +ℤ neg (pos a) else pos a +ℤ neg (pos b))
      ≡ minus (gap a b)
course_dy a b = elim a [
  | zero ↦ elim b [ zero ↦ ground arith | suc d ↦ ground arith ]
  | suc c ↦ elim b [ zero ↦ ground arith | suc d ↦ ground arith ]
]

pub both_there : (i j a d : ℕ) → i ≡ a → j ≡ d → ((i == a) && (j == d)) ≡ true
both_there i j a d hi hj = ground arith

pub not_both_there :
    (i j a d : ℕ) → i ≤ a → j ≤ d → ¬ (i + j ≡ a + d) → ((i == a) && (j == d)) ≡ false
not_both_there i j a d hi hj ne = ground arith

pub first_err : (a d : ℕ) → pos a +ℤ minus d ≡ difference (a * (0 + 1)) (d * (0 + 1))
first_err a d = elim d [ zero ↦ ground arith | suc e ↦ ground arith ]

pub towards-zero : (a b : ℕ) → towards a b 0 ≡ pos a
towards-zero a b = ground arith
