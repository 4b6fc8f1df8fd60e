-- ===== src/Prelude/Signed.antt =====
-- Signed numbers as C computes with them, before they are cut to a width.
use Prim.Native.Nat.{ℕ, zero, suc, ◌+◌, ◌-◌, ◌*◌, ◌/◌, ◌%◌, ◌^◌}
use mathlib.Core.Path.{◌≡◌}
use mathlib.Core.Bool.{Bool, true, false}
use native.Mathlib.Omega.{arith}
use tinyrtos.Prelude.Tests.{ltb, leb, ◌==◌, if◌then◌else◌}

infixl 6 ◌+ℤ◌
infixl 7 ◌*ℤ◌
pub data ℤ : Type 0 where
  pos : ℕ → ℤ
  negsuc : ℕ → ℤ

abbrev pub minus : ℕ → ℤ
minus zero = pos zero
minus (suc n) = negsuc n

-- The difference of two natural numbers.
abbrev pub difference : ℕ → ℕ → ℤ
difference a b = if leb b a then pos (a - b) else negsuc (b - a - 1)

abbrev pub neg : ℤ → ℤ
neg (pos n) = minus n
neg (negsuc n) = pos (n + 1)

abbrev pub ◌+ℤ◌ : ℤ → ℤ → ℤ
pos a +ℤ pos b = pos (a + b)
pos a +ℤ negsuc b = difference a (b + 1)
negsuc a +ℤ pos b = difference b (a + 1)
negsuc a +ℤ negsuc b = negsuc (a + b + 1)

abbrev pub ◌*ℤ◌ : ℤ → ℤ → ℤ
pos a *ℤ pos b = pos (a * b)
pos a *ℤ negsuc b = minus (a * (b + 1))
negsuc a *ℤ pos b = minus ((a + 1) * b)
negsuc a *ℤ negsuc b = pos ((a + 1) * (b + 1))

-- `z >> k`, which keeps the sign
abbrev pub shift_right : ℤ → ℕ → ℤ
shift_right (pos n) k = pos (n / 2 ^ k)
shift_right (negsuc n) k = negsuc (n / 2 ^ k)

-- `a / b`, towards 0
abbrev pub div_ℤ : ℤ → ℤ → ℤ
div_ℤ (pos a) (pos b) = pos (a / b)
div_ℤ (pos a) (negsuc b) = minus (a / (b + 1))
div_ℤ (negsuc a) (pos b) = minus ((a + 1) / b)
div_ℤ (negsuc a) (negsuc b) = pos ((a + 1) / (b + 1))

abbrev pub signed_16 : ℕ → ℤ
signed_16 u = if ltb u 32_768 then pos u else negsuc (65_535 - u)

-- `(int16_t)z`
abbrev pub int16 : ℤ → ℤ
int16 (pos n) = signed_16 (n % 65_536)
int16 (negsuc n) = signed_16 (65_535 - n % 65_536)

-- `(uint8_t)z`
abbrev pub uint8 : ℤ → ℕ
uint8 (pos n) = n % 256
uint8 (negsuc n) = 255 - n % 256

-- `a <= b`
abbrev pub leb_ℤ : ℤ → ℤ → Bool
leb_ℤ (pos a) (pos b) = leb a b
leb_ℤ (pos a) (negsuc b) = false
leb_ℤ (negsuc a) (pos b) = true
leb_ℤ (negsuc a) (negsuc b) = leb b a

-- `a == b`
abbrev pub eq_ℤ : ℤ → ℤ → Bool
eq_ℤ (pos a) (pos b) = a == b
eq_ℤ (pos a) (negsuc b) = false
eq_ℤ (negsuc a) (pos b) = false
eq_ℤ (negsuc a) (negsuc b) = a == b

-- `(uint32_t)z`
abbrev pub uint32 : ℤ → ℕ
uint32 (pos n) = n % 2 ^ 32
uint32 (negsuc n) = 2 ^ 32 - 1 - n % 2 ^ 32

pub difference-plus : (a b d : ℕ) → difference a b +ℤ pos d ≡ difference (a + d) b
difference-plus a b d = ground arith

pub difference-minus : (a b d : ℕ) → difference a b +ℤ minus d ≡ difference a (b + d)
difference-minus a b d = elim d [ zero ↦ ground arith | suc e ↦ ground arith ]

pub difference-double : (a b : ℕ) → difference a b *ℤ pos 2 ≡ difference (a * 2) (b * 2)
difference-double a b = ground arith

pub difference-at_least : (a b d : ℕ) → leb_ℤ (minus d) (difference a b) ≡ leb b (a + d)
difference-at_least a b d = elim d [ zero ↦ ground arith | suc e ↦ ground arith ]

pub difference-at_most : (a b d : ℕ) → leb_ℤ (difference a b) (pos d) ≡ leb a (b + d)
difference-at_most a b d = ground arith
