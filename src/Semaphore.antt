-- ===== src/Semaphore.antt =====
-- The semaphore of src/kernel/semaphore.c. A pointer is an Option, `none` the null pointer; a call
-- returns the object and the kernel that it leaves.
pub mod Calls
pub mod System
pub mod Moves
pub mod Guarded
pub mod Exclusion
use tinyrtos.Prelude.{ℕ, ◌-◌, Option, none, some, not, ltb, ◌==◌, if◌then◌else◌}
use tinyrtos.Task.{set_ready, block_current_on_semaphore}
use tinyrtos.Kernel.{Kernel, on_table, enter_critical, exit_critical, kernel_yield}

-- RTOSK_SEMAPHORE_NO_WAITER
abbrev pub semaphore_no_waiter : ℕ
semaphore_no_waiter = 0xFFFF_FFFF

-- rtosk_semaphore_t
pub record Semaphore : Type 0 where
  pub count : ℕ
  pub waiting_task : ℕ

unfoldable pub semaphore_init : ℕ → Option Semaphore → Option Semaphore
semaphore_init initial_count none = none
semaphore_init initial_count (some s) =
    some (record { count = initial_count; waiting_task = semaphore_no_waiter })

unfoldable pub take : Option Semaphore → Kernel → Option Semaphore × Kernel
take none k = (none, k)
take (some s) k =
    let entered = enter_critical k in
    if ltb 0 s.count then (some (record s { count = s.count - 1 }), exit_critical entered) else (
      some (record s { waiting_task = entered.table.current }),
      kernel_yield (exit_critical (on_table block_current_on_semaphore entered)),
    )

-- The test of rtosk_semaphore_give on `waiting_task`, with its two branches.
unfoldable pub hand_over : Semaphore → Kernel → Semaphore × Kernel
hand_over s k =
    if not (s.waiting_task == semaphore_no_waiter)
    then (record s { waiting_task = semaphore_no_waiter }, on_table (set_ready s.waiting_task) k)
    else (record s { count = 1 }, k)

unfoldable pub give : Option Semaphore → Kernel → Option Semaphore × Kernel
unfolding hand_over
give none k = (none, k)
give (some s) k =
    let (s', k') = hand_over s (enter_critical k) in (some s', kernel_yield (exit_critical k'))

-- rtosk_semaphore_give_from_isr: no critical section, and a yield only when a task was woken.
unfoldable pub give_from_isr : Option Semaphore → Kernel → Option Semaphore × Kernel
give_from_isr none k = (none, k)
give_from_isr (some s) k =
    if not (s.waiting_task == semaphore_no_waiter)
    then (
      some (record s { waiting_task = semaphore_no_waiter }),
      kernel_yield (on_table (set_ready s.waiting_task) k),
    )
    else (some (record s { count = 1 }), k)
