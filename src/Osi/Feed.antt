-- ===== src/Osi/Feed.antt =====
-- From the receive interrupt to the shell: the bytes that come over USART3, the queue between the interrupt and the
-- task, and the rounds of rtosk_queue_receive in the loop of rtosk_osi_task, src/osi/osi.c and src/kernel/queue.c.
pub mod Log
pub mod Holds
pub mod Delivered
pub mod Started
use tinyrtos.Prelude.{ℕ, ◌+◌, List, [], ◌∷◌, ◌++◌, Option, some, get_or, arith}
use tinyrtos.Kernel.{Kernel}
use tinyrtos.Queue.{Queue, receive_round, Received, refused, received, waits}
use tinyrtos.Bsp.Usart3.{Masks, usart3_irq_handler}
use tinyrtos.Osi.{Action}
use tinyrtos.Osi.Task.{Osi, receive_byte}
use tinyrtos.Osi.Init.{rx_callback}

-- The receive interrupt, on what it reads of ISR and RDR; or a round of the task's receive, into a `c` that
-- holds a byte already, where the command that may run reads the kernels of `reads`. Each finds a kernel. A command that
-- ends the program is the last event of a program: of events after it, a run says only that the shell does nothing.
pub data Event : Type 0 where
  interrupt : (isr rdr : ℕ) → Kernel → Event
  round : (c : ℕ) → Kernel → (reads : ℕ → Kernel) → Event

-- What the task does with the answer of a round.
abbrev pub shell_step : (reads : ℕ → Kernel) → Received → Osi → Osi × List Action
shell_step reads (received item) o = receive_byte reads (get_or item 0 0) o
shell_step reads refused o = (o, [])
shell_step reads waits o = (o, [])

unfoldable pub event_step : Masks → Event → Option Queue × Osi → (Option Queue × Osi) × List Action
unfolding usart3_irq_handler rx_callback
event_step m (interrupt isr rdr k) (q, o) =
    (((usart3_irq_handler m rx_callback isr rdr (q, k)).0, o), [])
event_step m (round c k reads) (q, o) =
    let (r, q', k') = receive_round q (some (c ∷ [])) k in
    let s = shell_step reads r o in ((q', s.0), s.1)

unfoldable pub run_events :
    Masks → List Event → Option Queue × Osi → (Option Queue × Osi) × List Action
unfolding event_step
run_events m [] b = (b, [])
run_events m (e ∷ es) b =
    let now = event_step m e b in let rest = run_events m es now.0 in (rest.0, now.1 ++ rest.1)
