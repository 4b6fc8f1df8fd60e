-- ===== src/Gui/Dispatcher.antt =====
-- The board's side of the GUI example besides its drawing: examples/gui/src/dispatcher.c and main.c.
pub mod Line
use tinyrtos.Prelude.{
  ℕ, suc, List, [], ◌∷◌, ◌++◌, Option, some, Bool, true, get_or, for_range, if◌then◌else◌,
}
use tinyrtos.Task.{Layout}
use tinyrtos.Kernel.{Kernel, Start, kernel_systick_init, kernel_create_task, kernel_start, sleep_ms}
use tinyrtos.Queue.{Queue, queue_init, send_from_isr}
use tinyrtos.Mutex.{Mutex, mutex_init}
use tinyrtos.Bsp.Led.{LedPort, led_0, on_board_led_init, toggle_on_board_led}
use tinyrtos.Bsp.Usart3.{Masks, UsartPort, usart3_start, enable_rx_interrupt}
use tinyrtos.Osi.{Action, locks, unlocks, writes_char}
use tinyrtos.Gui.Wire.{Call}
use tinyrtos.Gui.Scene.{scene_render}

-- TINYRTOS_GUI_DISPATCHER_CMD_BUFFER_SIZE
abbrev pub dispatcher_cmd_buffer_size : ℕ
dispatcher_cmd_buffer_size = 128

-- The statics of dispatcher.c; `gui_write` of primitives.c, as whether it is registered; and `angle` of scene.c.
pub record Dispatcher : Type 0 where
  pub dispatcher_init : Bool
  pub rx_queue : Option Queue
  pub tx_mutex : Option Mutex
  pub storage : List ℕ
  pub gui_write : Bool
  pub angle : ℕ

pub record GuiBoard : Type 0 where
  pub dispatcher : Dispatcher
  pub leds : LedPort
  pub port : UsartPort
  pub kernel : Kernel

-- dispatch_bytes, as what it does to the line and its mutex
unfoldable pub dispatch_bytes : (bytes : List ℕ) (len : ℕ) → List Action
dispatch_bytes bytes len =
    for_range len 0 (λ i done. done ++ writes_char (get_or bytes i 0) ∷ []) (locks ∷ [])
    ++ unlocks ∷ []

-- One round of the loop of gui_dispatcher_task: the drawing calls of a frame, and the board after it.
unfoldable pub dispatcher_round : GuiBoard → List Call × GuiBoard
unfolding toggle_on_board_led scene_render sleep_ms
dispatcher_round b =
    let frame = scene_render b.dispatcher.angle in
    (
      frame.0,
      record b {
        leds = toggle_on_board_led led_0 b.leds;
        dispatcher = record (b.dispatcher) { angle = frame.1 };
        kernel = sleep_ms 16 b.kernel;
      },
    )

-- gui_dispatcher_init; `dispatcher_task` is the address of gui_dispatcher_task.
unfoldable pub gui_dispatcher_init :
    Masks → (gpioben : ℕ) → Layout → (dispatcher_task baud priority : ℕ) → GuiBoard → GuiBoard
unfolding on_board_led_init usart3_start enable_rx_interrupt queue_init mutex_init
    kernel_create_task
gui_dispatcher_init m gpioben l dispatcher_task baud priority b =
    if b.dispatcher.dispatcher_init then b else record {
      leds = on_board_led_init gpioben b.leds;
      port = enable_rx_interrupt m (usart3_start m b.kernel.cpu.system_core_clock baud b.port);
      dispatcher = record (b.dispatcher) {
        dispatcher_init = true;
        rx_queue =
            queue_init b.dispatcher.rx_queue (some b.dispatcher.storage) 1
              dispatcher_cmd_buffer_size;
        tx_mutex = mutex_init b.dispatcher.tx_mutex;
        gui_write = true;
      };
      kernel = kernel_create_task l dispatcher_task priority "dispatcher" b.kernel;
    }

-- rtosk_bsp_f756zg_usart3_rx_callback_from_isr of this program: nothing ever receives from its queue.
unfoldable pub gui_rx_callback : ℕ → Option Queue × Kernel → Option Queue × Kernel
unfolding send_from_isr
gui_rx_callback c (q, k) = let (taken, q', k') = send_from_isr q (some (c ∷ [])) k in (q', k')

-- `main`: SysTick first, then the dispatcher, then the kernel.
unfoldable pub gui_main : Masks → (gpioben : ℕ) → Layout → (dispatcher_task : ℕ) → GuiBoard → Start
unfolding kernel_systick_init gui_dispatcher_init kernel_start
gui_main m gpioben l dispatcher_task b =
    let ticking = record b { kernel = kernel_systick_init b.kernel } in
    kernel_start l (gui_dispatcher_init m gpioben l dispatcher_task 921_600 3 ticking).kernel
