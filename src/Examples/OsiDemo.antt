-- ===== src/Examples/OsiDemo.antt =====
-- examples/osi/src/main.c: two LED tasks beside the shell. SIMULATE_HARD_FAULT is 0.
pub mod Boot
use tinyrtos.Prelude.{ℕ}
use tinyrtos.Task.{Layout}
use tinyrtos.Kernel.{Kernel, Start, kernel_systick_init, kernel_create_task, kernel_start, sleep_ms}
use tinyrtos.Bsp.Led.{LedPort, led_0, led_1, on_board_led_init, toggle_on_board_led}
use tinyrtos.Bsp.Usart3.{Masks}
use tinyrtos.Osi.Init.{Board, osi_init}

-- The addresses of the tasks' functions.
pub record Functions : Type 0 where
  pub osi_task : ℕ
  pub led0_task : ℕ
  pub led1_task : ℕ

pub record Demo : Type 0 where
  pub board : Board
  pub leds : LedPort

-- One round of the loop of led0_task.
unfoldable pub led0_round : Demo → Demo
unfolding toggle_on_board_led sleep_ms
led0_round d = record d {
  leds = toggle_on_board_led led_0 d.leds;
  board = record (d.board) { kernel = sleep_ms 1000 d.board.kernel };
}

-- One round of the loop of led1_task; its inner loop only takes time.
unfoldable pub led1_round : Demo → Demo
unfolding toggle_on_board_led
led1_round d = record d { leds = toggle_on_board_led led_1 d.leds }

-- The kernel when `main` comes to rtosk_kernel_start.
unfoldable pub prepared : Masks → Layout → Functions → Board → Kernel
unfolding osi_init kernel_systick_init kernel_create_task
prepared m l f b =
    let with_shell = osi_init m l f.osi_task 115_200 3 b in
    let ticking = kernel_systick_init with_shell.kernel in
    let with_led0 = kernel_create_task l f.led0_task 2 "led0" ticking in
    kernel_create_task l f.led1_task 1 "led1" with_led0

-- `main`: the LEDs, and what becomes of the kernel. RCC_AHB1ENR_GPIOBEN is `gpioben`.
unfoldable pub main : Masks → (gpioben : ℕ) → Layout → Functions → Demo → LedPort × Start
unfolding prepared on_board_led_init kernel_start
main m gpioben l f d = (on_board_led_init gpioben d.leds, kernel_start l (prepared m l f d.board))
