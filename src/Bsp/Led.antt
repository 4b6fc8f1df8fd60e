-- ===== src/Bsp/Led.antt =====
-- The three LEDs of src/bsp/f756zg/led.c on port B: LED `n` is bit 7 n of the registers with one bit a
-- pin, and bits 14 n and 14 n + 1 of those with two.
pub mod Effect
use Prim.Native.Nat.{bit_and, bit_or, bit_xor}
use tinyrtos.Prelude.{
  ℕ, ◌-◌, ◌*◌, ◌^◌, Bool, true, ◌||◌, for_range, bit_mask, ltb, ◌==◌, if◌then◌else◌,
}

-- The registers of GPIOB and RCC->AHB1ENR, and RTOSK_BSP_F756ZG_LED_INIT.
pub record LedPort : Type 0 where
  pub ahb1enr : ℕ
  pub moder : ℕ
  pub otyper : ℕ
  pub ospeedr : ℕ
  pub pupdr : ℕ
  pub odr : ℕ
  pub led_init : Bool

-- LED_0, LED_1 and LED_2
abbrev pub led_0 : ℕ
led_0 = 0

abbrev pub led_1 : ℕ
led_1 = 1

abbrev pub led_2 : ℕ
led_2 = 2

-- `led < LED_0 || led > LED_2`, of an unsigned type
abbrev pub out_of_range : ℕ → Bool
out_of_range led = ltb led led_0 || ltb led_2 led

-- `r & ~mask`, of 32 bits
abbrev pub clear_mask : (r mask : ℕ) → ℕ
clear_mask r mask = bit_and r (2 ^ 32 - 1 - mask)

-- One round of the loop of the initialisation.
abbrev pub configure_led : ℕ → LedPort → LedPort
configure_led i p =
    let pair = bit_mask (i * 7 * 2) in
    record p {
      moder = bit_or (clear_mask p.moder (3 * pair)) pair;
      otyper = clear_mask p.otyper (bit_mask (i * 7));
      ospeedr = clear_mask p.ospeedr (3 * pair);
      pupdr = clear_mask p.pupdr (3 * pair);
    }

-- rtosk_bsp_f756zg_on_board_led_init, with RCC_AHB1ENR_GPIOBEN as a parameter
unfoldable pub on_board_led_init : (gpioben : ℕ) → LedPort → LedPort
on_board_led_init gpioben p =
    if p.led_init
    then p
    else let clocked = record p { ahb1enr = bit_or p.ahb1enr gpioben } in
      let configured = for_range 3 led_0 configure_led clocked in
      record configured { led_init = true }

unfoldable pub set_on_board_led : (led state : ℕ) → LedPort → LedPort
set_on_board_led led state p =
    if out_of_range led
    then p
    else if state == 1
    then record p { odr = bit_or p.odr (bit_mask (led * 7)) }
    else if state == 0
    then record p { odr = clear_mask p.odr (bit_mask (led * 7)) }
    else p

unfoldable pub toggle_on_board_led : ℕ → LedPort → LedPort
toggle_on_board_led led p =
    if out_of_range led then p else record p { odr = bit_xor p.odr (bit_mask (led * 7)) }
