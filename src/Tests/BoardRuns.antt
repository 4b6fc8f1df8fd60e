-- ===== src/Tests/BoardRuns.antt =====
-- The LEDs on concrete registers.
use tinyrtos.Prelude.{◌≡◌, refl, false}
use tinyrtos.Bsp.Led.{LedPort, on_board_led_init}

abbrev pub reset_port : LedPort
reset_port = record {
  ahb1enr = 0x0010_0000;
  moder = 0x0000_0280;
  otyper = 0;
  ospeedr = 0x0000_00C0;
  pupdr = 0x0000_0100;
  odr = 0x0000_4002;
  led_init = false;
}

on_board_led_init_run : (on_board_led_init 2 reset_port).moder ≡ 0x1000_4281
unfolding on_board_led_init
on_board_led_init_run = refl
