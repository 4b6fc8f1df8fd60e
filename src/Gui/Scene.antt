-- ===== src/Gui/Scene.antt =====
-- The turning cube of examples/gui/src/scene.c: its projection, and the drawing calls of one frame.
pub mod InFrame
use Prim.Native.Nat.{bit_and, bit_or}
use tinyrtos.Prelude.{
  ℕ, ◌+◌, ◌*◌, ◌/◌, ◌%◌, ◌^◌, List, [], ◌∷◌, ◌++◌, get_or, for_range, ℤ, pos, minus, neg, ◌+ℤ◌,
  ◌*ℤ◌, shift_right, div_ℤ, int16, uint8,
}
use tinyrtos.Gui.Wire.{Call, clears, draws_line, presents}

-- TINYRTOS_FRAMEBUFFER_WIDTH, TINYRTOS_FRAMEBUFFER_HEIGHT
abbrev pub framebuffer_width : ℕ
framebuffer_width = 0xff

abbrev pub framebuffer_height : ℕ
framebuffer_height = framebuffer_width * 9 / 16

-- vec3_t and vec2_t
pub record Vec3 : Type 0 where
  pub x : ℤ
  pub y : ℤ
  pub z : ℤ

pub record Vec2 : Type 0 where
  pub x : ℤ
  pub y : ℤ

abbrev pub vec3 : (x y z : ℤ) → Vec3
vec3 x y z = record { x = x; y = y; z = z }

abbrev pub origin : Vec3
origin = vec3 (pos 0) (pos 0) (pos 0)

-- CUBE
abbrev pub cube : List Vec3
cube =
    vec3 (minus 16) (minus 16) (minus 16)
    ∷ vec3 (pos 16) (minus 16) (minus 16)
    ∷ vec3 (pos 16) (pos 16) (minus 16)
    ∷ vec3 (minus 16) (pos 16) (minus 16)
    ∷ vec3 (minus 16) (minus 16) (pos 16)
    ∷ vec3 (pos 16) (minus 16) (pos 16)
    ∷ vec3 (pos 16) (pos 16) (pos 16)
    ∷ vec3 (minus 16) (pos 16) (pos 16)
    ∷ []

-- EDGES
abbrev pub edges : List (ℕ × ℕ)
edges =
    (0, 1)
    ∷ (1, 2)
    ∷ (2, 3)
    ∷ (3, 0)
    ∷ (4, 5)
    ∷ (5, 6)
    ∷ (6, 7)
    ∷ (7, 4)
    ∷ (0, 4)
    ∷ (1, 5)
    ∷ (2, 6)
    ∷ (3, 7)
    ∷ []

-- SIN_LUT
abbrev pub sin_lut : List ℤ
sin_lut =
    pos 0
    ∷ pos 12
    ∷ pos 25
    ∷ pos 37
    ∷ pos 49
    ∷ pos 60
    ∷ pos 71
    ∷ pos 81
    ∷ pos 90
    ∷ pos 98
    ∷ pos 106
    ∷ pos 112
    ∷ pos 118
    ∷ pos 122
    ∷ pos 125
    ∷ pos 127
    ∷ pos 127
    ∷ pos 127
    ∷ pos 125
    ∷ pos 122
    ∷ pos 118
    ∷ pos 112
    ∷ pos 106
    ∷ pos 98
    ∷ pos 90
    ∷ pos 81
    ∷ pos 71
    ∷ pos 60
    ∷ pos 49
    ∷ pos 37
    ∷ pos 25
    ∷ pos 12
    ∷ pos 0
    ∷ minus 12
    ∷ minus 25
    ∷ minus 37
    ∷ minus 49
    ∷ minus 60
    ∷ minus 71
    ∷ minus 81
    ∷ minus 90
    ∷ minus 98
    ∷ minus 106
    ∷ minus 112
    ∷ minus 118
    ∷ minus 122
    ∷ minus 125
    ∷ minus 127
    ∷ minus 127
    ∷ minus 127
    ∷ minus 125
    ∷ minus 122
    ∷ minus 118
    ∷ minus 112
    ∷ minus 106
    ∷ minus 98
    ∷ minus 90
    ∷ minus 81
    ∷ minus 71
    ∷ minus 60
    ∷ minus 49
    ∷ minus 37
    ∷ minus 25
    ∷ minus 12
    ∷ []

-- RGB332
abbrev pub rgb332 : (r g b : ℕ) → ℕ
rgb332 r g b =
    bit_or (bit_or (bit_and r 0x07 * 2 ^ 5) (bit_and g 0x07 * 2 ^ 2)) (bit_and b 0x03) % 256

-- EDGE_COLORS
abbrev pub edge_colors : List ℕ
edge_colors =
    rgb332 7 0 0
    ∷ rgb332 0 7 0
    ∷ rgb332 0 0 3
    ∷ rgb332 7 7 0
    ∷ rgb332 7 0 3
    ∷ rgb332 0 7 3
    ∷ rgb332 7 3 0
    ∷ rgb332 3 7 0
    ∷ rgb332 3 0 3
    ∷ rgb332 0 3 3
    ∷ rgb332 7 7 7
    ∷ rgb332 4 4 7
    ∷ []

abbrev pub fsin : ℕ → ℤ
fsin a = get_or sin_lut (bit_and a 63) (pos 0)

abbrev pub fcos : ℕ → ℤ
fcos a = get_or sin_lut (bit_and (a + 16) 63) (pos 0)

unfoldable pub project : Vec3 → (ax ay : ℕ) → Vec2
project p ax ay =
    let sx = fsin ax in
    let cx = fcos ax in
    let sy = fsin ay in
    let cy = fcos ay in
    let y1 = int16 (shift_right (p.y *ℤ cx +ℤ neg (p.z *ℤ sx)) 7) in
    let z1 = int16 (shift_right (p.y *ℤ sx +ℤ p.z *ℤ cx) 7) in
    let x2 = int16 (shift_right (p.x *ℤ cy +ℤ z1 *ℤ sy) 7) in
    let z2 = int16 (shift_right (neg p.x *ℤ sy +ℤ z1 *ℤ cy) 7) in
    let d = pos 96 in
    let s = int16 (div_ℤ (d *ℤ pos 64) (z2 +ℤ d)) in
    record {
      x = int16 (pos (framebuffer_width / 2) +ℤ int16 (shift_right (x2 *ℤ s) 6));
      y = int16 (pos (framebuffer_height / 2) +ℤ int16 (shift_right (y1 *ℤ s) 6));
    }

-- `p[i]`, with the second angle a uint8_t
abbrev pub corner : (angle i : ℕ) → Vec2
corner angle i = project (get_or cube i origin) angle ((angle + 11) % 256)

-- The call of round `i` of the second loop.
unfoldable pub edge_call : (angle i : ℕ) → Call
unfolding project
edge_call angle i =
    let (a, b) = get_or edges i (0, 0) in
    let from = corner angle a in
    let to = corner angle b in
    draws_line (uint8 from.x) (uint8 from.y) (uint8 to.x) (uint8 to.y) (get_or edge_colors i 0)

-- The calls of scene_render in their order, and the new angle.
unfoldable pub scene_render : ℕ → List Call × ℕ
unfolding edge_call
scene_render angle = (
  clears 0 ∷ for_range 12 0 (λ i calls. calls ++ edge_call angle i ∷ []) [] ++ presents ∷ [],
  (angle + 1) % 256,
)
