-- ===== src/Bsp/Led/Effect.antt =====
-- Which digits of the registers src/bsp/f756zg/led.c changes.
use Prim.Native.Nat.{min, max, bit_or}
use tinyrtos.Prelude.{
  ℕ, ◌+◌, ◌-◌, ◌*◌, ◌%◌, ◌^◌, ◌<◌, ◌≡◌, refl, ap, ◌∙◌, Bool, true, false, ◌||◌, bit, bit_mask,
  bit-lt, bit-bit_or, bit-bit_and, bit-bit_xor, bit_xor_twice, checked, checked_lem, ◌==◌, ==_iff,
  if◌then◌else◌, arith,
}
use tinyrtos.Bsp.Led.{
  LedPort, clear_mask, out_of_range, on_board_led_init, set_on_board_led, toggle_on_board_led,
}

-- A test of a LED, of one of 32 digits, and of its value, by evaluation.
abbrev always : (ℕ → ℕ → ℕ → Bool) → Bool
always test = checked 3 (λ led. checked 32 (λ k. checked 2 (test led k)))

always_lem :
    (test : ℕ → ℕ → ℕ → Bool) (led k m : ℕ)
    → always test ≡ true
    → led < 3
    → k < 32
    → m < 2
    → test led k m ≡ true
always_lem test led k m all l d v = checked_lem 2 (test led k) m v (
    checked_lem 32 (λ k. checked 2 (test led k)) k d
      (checked_lem 3 (λ led. checked 32 (λ k. checked 2 (test led k))) led l all))

-- Of the three LEDs, all are in range.
in_range : (led : ℕ) → led < 3 → out_of_range led ≡ false
in_range led l = ground arith

-- Digit `k` of ODR after the LED was set to `state`.
abbrev pub set_digit : (led state k : ℕ) → ℕ → ℕ
set_digit led state k old = if k == led * 7 then state else old

lit :
    (led k m : ℕ)
    → led < 3
    → k < 32
    → m < 2
    → max m (bit k (bit_mask (led * 7))) ≡ set_digit led 1 k m
lit led k m l d v = (==_iff _ _).0 (
    always_lem (λ led k m. max m (bit k (bit_mask (led * 7))) == set_digit led 1 k m) led k m refl l
      d v)

dark :
    (led k m : ℕ)
    → led < 3
    → k < 32
    → m < 2
    → min m (bit k (2 ^ 32 - 1 - bit_mask (led * 7))) ≡ set_digit led 0 k m
dark led k m l d v = (==_iff _ _).0 (
    always_lem (λ led k m. min m (bit k (2 ^ 32 - 1 - bit_mask (led * 7))) == set_digit led 0 k m)
      led k m refl l d v)

flipped :
    (led k m : ℕ)
    → led < 3
    → k < 32
    → m < 2
    → (m + bit k (bit_mask (led * 7))) % 2 ≡ set_digit led (1 - m) k m
flipped led k m l d v = (==_iff _ _).0 (
    always_lem (λ led k m. (m + bit k (bit_mask (led * 7))) % 2 == set_digit led (1 - m) k m) led k
      m refl l d v)

-- For one of the three LEDs: a call with the state 1 or 0 gives the LED's digit of ODR, the 7 n-th for LED n, that
-- state, and leaves the other digits; a toggle gives it the other state and leaves the other digits; two toggles
-- change nothing.
pub set_on_board_led_lem :
    (led k : ℕ) (p : LedPort)
    → led < 3
    → k < 32
    → (bit k (set_on_board_led led 1 p).odr ≡ set_digit led 1 k (bit k p.odr))
      × (bit k (set_on_board_led led 0 p).odr ≡ set_digit led 0 k (bit k p.odr))
      × (bit k (toggle_on_board_led led p).odr ≡ set_digit led (1 - bit k p.odr) k (bit k p.odr))
      × (toggle_on_board_led led (toggle_on_board_led led p) ≡ p)
unfolding set_on_board_led toggle_on_board_led
set_on_board_led_lem led k p l d =
    let v = bit-lt k p.odr in
    let mask = bit_mask (led * 7) in
    (
      rw (in_range led l) (bit-bit_or k p.odr mask ∙ lit led k (bit k p.odr) l d v),
      rw (in_range led l)
          (bit-bit_and k p.odr (2 ^ 32 - 1 - mask) ∙ dark led k (bit k p.odr) l d v),
      rw (in_range led l) (bit-bit_xor k p.odr mask ∙ flipped led k (bit k p.odr) l d v),
      rw (in_range led l, bit_xor_twice p.odr mask),
    )

-- What MODER has after the initialisation: the first digit of each LED's pair set, the second clear.
abbrev pub output_digit : ℕ → ℕ → ℕ
output_digit k old =
    if k == 0 || k == 14 || k == 28 then 1 else if k == 1 || k == 15 || k == 29 then 0 else old

-- One round on one digit of MODER.
abbrev moder_digit : (k i m : ℕ) → ℕ
moder_digit k i m =
    max (min m (bit k (2 ^ 32 - 1 - 3 * bit_mask (i * 7 * 2)))) (bit k (bit_mask (i * 7 * 2)))

abbrev cleared_digit : (k mask m : ℕ) → ℕ
cleared_digit k mask m = min m (bit k (2 ^ 32 - 1 - mask))

moder_round :
    (k i r : ℕ)
    → bit k (bit_or (clear_mask r (3 * bit_mask (i * 7 * 2))) (bit_mask (i * 7 * 2)))
      ≡ moder_digit k i (bit k r)
moder_round k i r =
    let pair = bit_mask (i * 7 * 2) in
    bit-bit_or k (clear_mask r (3 * pair)) pair
    ∙ ap (λ (m : ℕ). max m (bit k pair)) (bit-bit_and k r (2 ^ 32 - 1 - 3 * pair))

moder_rounds :
    (k m : ℕ)
    → k < 32
    → m < 2
    → moder_digit k 2 (moder_digit k 1 (moder_digit k 0 m)) ≡ output_digit k m
moder_rounds k m d v = (==_iff _ _).0 (
    always_lem
      (λ led k m. moder_digit k 2 (moder_digit k 1 (moder_digit k 0 m)) == output_digit k m) 0 k m
      refl (omega arith) d v)

-- After a first initialisation the pins of the three LEDs are outputs (01 in MODER), and MODER keeps the digits of
-- the other pins.
pub on_board_led_init_lem :
    (gpioben k : ℕ) (p : LedPort)
    → p.led_init ≡ false
    → k < 32
    → bit k (on_board_led_init gpioben p).moder ≡ output_digit k (bit k p.moder)
unfolding on_board_led_init
on_board_led_init_lem gpioben k p fresh d = rw fresh (
    moder_round k 2 _
    ∙ ap (moder_digit k 2) (moder_round k 1 _ ∙ ap (moder_digit k 1) (moder_round k 0 p.moder))
    ∙ moder_rounds k (bit k p.moder) d (bit-lt k p.moder))
