-- ===== src/Prelude/Bits.antt =====
-- Laws of the bitwise operations at variables: a lowest-digit law for each, and what follows from it.
use Prim.Native.Nat.{
  ℕ, zero, suc, ◌+◌, ◌*◌, ◌/◌, ◌%◌, ◌≤◌, ◌<◌, min, max, bit_and, bit_or, bit_xor, differ, digits,
  bitwise, bit_or-bitwise, bit_and-bitwise, bit_xor-bitwise,
}
use mathlib.Core.Path.{◌≡◌, refl, sym, ap, ◌∙◌}
use native.Mathlib.Omega.{arith}

-- `1 << k`
abbrev pub bit_mask : ℕ → ℕ
bit_mask zero = 1
bit_mask (suc k) = bit_mask k * 2

-- Digit `k` of `a`.
abbrev pub bit : ℕ → ℕ → ℕ
bit zero a = a % 2
bit (suc k) a = bit k (a / 2)

differ_digits : (x y : ℕ) → x < 2 → y < 2 → differ x y ≡ (x + y) % 2
differ_digits zero y h k = omega arith
differ_digits (suc zero) zero h k = refl
differ_digits (suc zero) (suc zero) h k = refl
differ_digits (suc zero) (suc (suc y)) h k = absurd (omega arith)
differ_digits (suc (suc x)) y h k = absurd (omega arith)

-- A digitwise operation `f`, with `z` for the digits past the end of the first number.
module _ (z : ℕ → ℕ) (f : ℕ → ℕ → ℕ) where
  -- A count of digits that covers the first number is as good as any other.
  count_irrelevant : (a b n m : ℕ) → a ≤ n → a ≤ m → digits z f n a b ≡ digits z f m a b
  count_irrelevant zero b zero zero p q = refl
  count_irrelevant zero b zero (suc m) p q = refl
  count_irrelevant zero b (suc n) zero p q = refl
  count_irrelevant zero b (suc n) (suc m) p q = refl
  count_irrelevant (suc a) b zero m p q = absurd (omega arith)
  count_irrelevant (suc a) b (suc n) zero p q = absurd (omega arith)
  count_irrelevant (suc a) b (suc n) (suc m) p q =
      ap (λ (d : ℕ). d * 2 + f (suc a % 2) (b % 2))
        (count_irrelevant (suc a / 2) (b / 2) n m (omega arith) (omega arith))

  -- The lowest digit, and the operation on the rest.
  bitwise_step :
      ((b : ℕ) → z b ≡ z (b / 2) * 2 + f 0 (b % 2))
      → (a b : ℕ) → bitwise z f a b ≡ bitwise z f (a / 2) (b / 2) * 2 + f (a % 2) (b % 2)
  bitwise_step past zero b = past b
  bitwise_step past (suc a) b =
      let rest : digits z f a (suc a / 2) (b / 2) ≡ bitwise z f (suc a / 2) (b / 2) =
        count_irrelevant (suc a / 2) (b / 2) a (suc a / 2) (omega arith) (omega arith) in
      ap (λ (d : ℕ). d * 2 + f (suc a % 2) (b % 2)) rest

pub bit_xor_step : (a b : ℕ) → bit_xor a b ≡ bit_xor (a / 2) (b / 2) * 2 + (a + b) % 2
bit_xor_step a b =
    let step = bitwise_step (λ y. y) differ (λ y. omega arith) a b in
    let low = differ_digits (a % 2) (b % 2) (omega arith) (omega arith) in
    omega (arith, step, low, bit_xor-bitwise a b, bit_xor-bitwise (a / 2) (b / 2))

pub bit_and_step : (a b : ℕ) → bit_and a b ≡ bit_and (a / 2) (b / 2) * 2 + min (a % 2) (b % 2)
bit_and_step a b =
    let step = bitwise_step (λ y. 0) min (λ y. omega arith) a b in
    omega (arith, step, bit_and-bitwise a b, bit_and-bitwise (a / 2) (b / 2))

xor_twice : (n a b : ℕ) → a ≤ n → b ≤ n → bit_xor (bit_xor a b) b ≡ a
xor_twice zero zero zero p q = refl
xor_twice zero (suc a) b p q = absurd (omega arith)
xor_twice zero zero (suc b) p q = absurd (omega arith)
xor_twice (suc n) a b p q =
    let x = bit_xor a b in
    let half : x / 2 ≡ bit_xor (a / 2) (b / 2) = omega (arith, bit_xor_step a b) in
    omega (
      arith,
      bit_xor_step a b,
      bit_xor_step x b,
      ap (λ (h : ℕ). bit_xor h (b / 2)) half,
      xor_twice n (a / 2) (b / 2) (omega arith) (omega arith),
    )

-- Exclusive or with one number, done twice, changes nothing.
pub bit_xor_twice : (a b : ℕ) → bit_xor (bit_xor a b) b ≡ a
bit_xor_twice a b = xor_twice (a + b) a b (omega arith) (omega arith)

xor_comm : (n a b : ℕ) → a ≤ n → b ≤ n → bit_xor a b ≡ bit_xor b a
xor_comm zero zero zero p q = refl
xor_comm zero (suc a) b p q = absurd (omega arith)
xor_comm zero zero (suc b) p q = absurd (omega arith)
xor_comm (suc n) a b p q = omega (
  arith,
  bit_xor_step a b,
  bit_xor_step b a,
  xor_comm n (a / 2) (b / 2) (omega arith) (omega arith),
)

pub bit_xor_comm : (a b : ℕ) → bit_xor a b ≡ bit_xor b a
bit_xor_comm a b = xor_comm (a + b) a b (omega arith) (omega arith)

pub bit_xor_cancel_right : (a b c : ℕ) → bit_xor a c ≡ bit_xor b c → a ≡ b
bit_xor_cancel_right a b c e =
    sym (bit_xor_twice a c) ∙ ap (λ (x : ℕ). bit_xor x c) e ∙ bit_xor_twice b c

pub bit_xor_cancel_left : (a b c : ℕ) → bit_xor c a ≡ bit_xor c b → a ≡ b
bit_xor_cancel_left a b c e = bit_xor_cancel_right a b c (bit_xor_comm a c ∙ e ∙ bit_xor_comm c b)

nothing_set : (n a : ℕ) → a ≤ n → bit_and a 0 ≡ 0
nothing_set n zero h = refl
nothing_set zero (suc a) h = absurd (omega arith)
nothing_set (suc n) (suc a) h =
    let rest = nothing_set n (suc a / 2) (omega arith) in
    omega (arith, rest, bit_and_step (suc a) 0)

-- `a & (1 << k)`
pub bit_and-bit_mask : (a k : ℕ) → bit_and a (bit_mask k) ≡ bit k a * bit_mask k
bit_and-bit_mask a zero = omega (arith, bit_and_step a 1, nothing_set (a / 2) (a / 2) (omega arith))
bit_and-bit_mask a (suc k) =
    let half : bit_mask (suc k) / 2 ≡ bit_mask k = omega arith in
    omega (
      arith,
      bit_and_step a (bit_mask (suc k)),
      ap (bit_and (a / 2)) half,
      bit_and-bit_mask (a / 2) k,
    )

pub bit_mask_pos : (k : ℕ) → 0 < bit_mask k
bit_mask_pos zero = omega arith
bit_mask_pos (suc k) = omega (arith, bit_mask_pos k)

pub bit-lt : (k a : ℕ) → bit k a < 2
bit-lt zero a = omega arith
bit-lt (suc k) a = bit-lt k (a / 2)

pub bit_or_step : (a b : ℕ) → bit_or a b ≡ bit_or (a / 2) (b / 2) * 2 + max (a % 2) (b % 2)
bit_or_step a b =
    let step = bitwise_step (λ y. y) max (λ y. omega arith) a b in
    omega (arith, step, bit_or-bitwise a b, bit_or-bitwise (a / 2) (b / 2))

-- Digit `k` of the result is the operation on the digits `k`.
pub bit-bit_or : (k a b : ℕ) → bit k (bit_or a b) ≡ max (bit k a) (bit k b)
bit-bit_or zero a b = omega (arith, bit_or_step a b)
bit-bit_or (suc k) a b =
    let half : bit_or a b / 2 ≡ bit_or (a / 2) (b / 2) = omega (arith, bit_or_step a b) in
    ap (bit k) half ∙ bit-bit_or k (a / 2) (b / 2)

pub bit-bit_and : (k a b : ℕ) → bit k (bit_and a b) ≡ min (bit k a) (bit k b)
bit-bit_and zero a b = omega (arith, bit_and_step a b)
bit-bit_and (suc k) a b =
    let half : bit_and a b / 2 ≡ bit_and (a / 2) (b / 2) = omega (arith, bit_and_step a b) in
    ap (bit k) half ∙ bit-bit_and k (a / 2) (b / 2)

pub bit-bit_xor : (k a b : ℕ) → bit k (bit_xor a b) ≡ (bit k a + bit k b) % 2
bit-bit_xor zero a b = omega (arith, bit_xor_step a b)
bit-bit_xor (suc k) a b =
    let half : bit_xor a b / 2 ≡ bit_xor (a / 2) (b / 2) = omega (arith, bit_xor_step a b) in
    ap (bit k) half ∙ bit-bit_xor k (a / 2) (b / 2)
