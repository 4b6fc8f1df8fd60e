-- ===== src/Queue/System.antt =====
-- One task that receives from a queue of src/kernel/queue.c, other tasks and interrupts that send to it,
-- and sleeps, ticks and context switches between their calls in any order.
pub mod Sending
pub mod Wakeup
use tinyrtos.Prelude.{ℕ, ◌<◌, ◌≡◌, List, Option, none, some, true}
use tinyrtos.Task.{is_ready, slot}
use tinyrtos.Kernel.{Kernel, sleep_ms, kernel_tick, take_pendsv}
use tinyrtos.Queue.{Queue, send, send_from_isr, receive_round}

pub record System : Type 0 where
  pub kernel : Kernel
  pub queue : Queue

-- A call never takes the object away.
abbrev pub object : Queue → Option Queue → Queue
object q none = q
object q (some q') = q'

unfoldable pub send_step : List ℕ → System → System
send_step item s =
    let (taken, o, k) = send (some s.queue) (some item) s.kernel in
    record { kernel = k; queue = object s.queue o }

unfoldable pub isr_step : List ℕ → System → System
isr_step item s =
    let (taken, o, k) = send_from_isr (some s.queue) (some item) s.kernel in
    record { kernel = k; queue = object s.queue o }

unfoldable pub receive_step : List ℕ → System → System
receive_step item s =
    let (answer, o, k) = receive_round (some s.queue) (some item) s.kernel in
    record { kernel = k; queue = object s.queue o }

-- The current task is a user task that is not blocked.
pub record Runs (s : System) : Type 0 where
  pub user : s.kernel.table.current < s.kernel.table.count
  pub is_ready_now : is_ready (slot s.kernel.table s.kernel.table.current).state ≡ true

-- A round of a receive by task `c`, which is current; a send by the current task; a send from an interrupt; a sleep of
-- the current task; a SysTick interrupt; a context switch, which saves the stack pointer `sp`.
pub data Step (c : ℕ) (s : System) : System → Type 0 where
  receives : (item : List ℕ) → Runs s → s.kernel.table.current ≡ c → Step c s (receive_step item s)
  sends : (item : List ℕ) → Runs s → Step c s (send_step item s)
  interrupts : (item : List ℕ) → Step c s (isr_step item s)
  sleeps : (ms : ℕ) → Runs s → Step c s (record s { kernel = sleep_ms ms s.kernel })
  ticks : Step c s (record s { kernel = kernel_tick s.kernel })
  switches : (sp : ℕ) → Step c s (record s { kernel = take_pendsv sp s.kernel })

pub data Steps (c : ℕ) (s : System) : System → Type 0 where
  here : Steps c s s
  next : {t u : System} → Steps c s t → Step c t u → Steps c s u
