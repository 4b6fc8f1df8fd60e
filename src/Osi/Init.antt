-- ===== src/Osi/Init.antt =====
-- The start of the shell, and its share of the receive interrupt: rtosk_osi_init and
-- rtosk_bsp_f756zg_usart3_rx_callback_from_isr of src/osi/osi.c.
use tinyrtos.Prelude.{ℕ, List, [], ◌∷◌, Option, some, Bool, true, if◌then◌else◌}
use tinyrtos.Task.{Layout}
use tinyrtos.Kernel.{Kernel, kernel_create_task}
use tinyrtos.Queue.{Queue, queue_init, send_from_isr}
use tinyrtos.Mutex.{Mutex, mutex_init}
use tinyrtos.Bsp.Usart3.{Masks, UsartPort, usart3_start, enable_rx_interrupt}
use tinyrtos.Osi.{osi_cmd_buffer_size}

-- OSI_INIT, OSI_USART3_RX_QUEUE, OSI_USART3_TX_MUTEX and OSI_USART3_RX_QUEUE_STORAGE
pub record Statics : Type 0 where
  pub osi_init : Bool
  pub rx_queue : Option Queue
  pub tx_mutex : Option Mutex
  pub storage : List ℕ

-- What the start works on besides.
pub record Board : Type 0 where
  pub statics : Statics
  pub port : UsartPort
  pub kernel : Kernel

-- rtosk_osi_init; `osi_task` is the address of rtosk_osi_task, and the clock is SystemCoreClock.
unfoldable pub osi_init : Masks → Layout → (osi_task baud priority : ℕ) → Board → Board
unfolding usart3_start enable_rx_interrupt queue_init mutex_init kernel_create_task
osi_init m l osi_task baud priority b =
    if b.statics.osi_init
    then b
    else let started = usart3_start m b.kernel.cpu.system_core_clock baud b.port in
      record {
        statics = record {
          osi_init = true;
          rx_queue = queue_init b.statics.rx_queue (some b.statics.storage) 1 osi_cmd_buffer_size;
          tx_mutex = mutex_init b.statics.tx_mutex;
          storage = b.statics.storage;
        };
        port = enable_rx_interrupt m started;
        kernel = kernel_create_task l osi_task priority "osi" b.kernel;
      }

-- The callback, on the queue and on the kernel that the interrupt finds.
unfoldable pub rx_callback : ℕ → Option Queue × Kernel → Option Queue × Kernel
unfolding send_from_isr
rx_callback c (q, k) = let (taken, q', k') = send_from_isr q (some (c ∷ [])) k in (q', k')
