-- ===== src/Semaphore/System.antt =====
-- Tasks that guard something by one semaphore of src/kernel/semaphore.c, with sleeps, ticks and
-- context switches between their calls in any order.
use tinyrtos.Prelude.{ℕ, ◌<◌, ◌≡◌, Option, none, some, true, ltb, ◌==◌, if◌then◌else◌}
use tinyrtos.Task.{is_ready, slot}
use tinyrtos.Kernel.{Kernel, sleep_ms, kernel_tick, take_pendsv}
use tinyrtos.Semaphore.{Semaphore, semaphore_no_waiter, take, give}

-- Where a task is: it has not called rtosk_semaphore_take since it last gave; it is inside a take that
-- found the count 0, and no give has been for it; or its take has come or will come back to it.
pub data Place : Type 0 where
  outside waiting holding : Place

pub record System : Type 0 where
  pub kernel : Kernel
  pub semaphore : Semaphore
  pub place : ℕ → Place

abbrev pub update : (ℕ → Place) → ℕ → Place → ℕ → Place
update f i p j = if i == j then p else f j

-- A call never takes the object away.
abbrev pub object : Semaphore → Option Semaphore → Semaphore
object s none = s
object s (some s') = s'

unfoldable pub take_step : System → System
take_step s =
    let (o, k) = take (some s.semaphore) s.kernel in
    record {
      kernel = k;
      semaphore = object s.semaphore o;
      place =
          update s.place s.kernel.table.current
            (if ltb 0 s.semaphore.count then holding else waiting);
    }

-- The permit goes to the waiting task, if there is one.
unfoldable pub give_step : System → System
give_step s =
    let (o, k) = give (some s.semaphore) s.kernel in
    let given = update s.place s.kernel.table.current outside in
    record {
      kernel = k;
      semaphore = object s.semaphore o;
      place =
          if s.semaphore.waiting_task == semaphore_no_waiter
          then given
          else update given s.semaphore.waiting_task holding;
    }

-- The current task is a user task that is not blocked.
pub record Runs (s : System) : Type 0 where
  pub user : s.kernel.table.current < s.kernel.table.count
  pub is_ready_now : is_ready (slot s.kernel.table s.kernel.table.current).state ≡ true

-- A take by the current task; a give by the current task, which holds; its sleep; a SysTick interrupt; a
-- context switch, which saves the stack pointer `sp`.
pub data Step (s : System) : System → Type 0 where
  takes : Runs s → Step s (take_step s)
  gives : Runs s → s.place s.kernel.table.current ≡ holding → Step s (give_step s)
  sleeps : (ms : ℕ) → Runs s → Step s (record s { kernel = sleep_ms ms s.kernel })
  ticks : Step s (record s { kernel = kernel_tick s.kernel })
  switches : (sp : ℕ) → Step s (record s { kernel = take_pendsv sp s.kernel })

pub data Steps (s : System) : System → Type 0 where
  here : Steps s s
  next : {t u : System} → Steps s t → Step t u → Steps s u
