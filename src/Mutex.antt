-- ===== src/Mutex.antt =====
-- The mutex of src/kernel/mutex.c. A pointer is an Option, `none` the null pointer. The loop of
-- rtosk_mutex_lock is taken a round at a time: what runs between two rounds is other tasks' business.
pub mod Calls
pub mod System
use tinyrtos.Prelude.{
  ℕ, zero, suc, Option, none, some, Bool, true, false, not, ltb, ◌==◌, if◌then◌else◌,
}
use tinyrtos.Task.{set_ready, block_current_on_mutex}
use tinyrtos.Kernel.{Kernel, on_table, enter_critical, exit_critical, kernel_yield}

-- RTOSK_MUTEX_NO_OWNER
abbrev pub mutex_no_owner : ℕ
mutex_no_owner = 0xFFFF_FFFF

-- RTOSK_MUTEX_NO_WAITER
abbrev pub mutex_no_waiter : ℕ
mutex_no_waiter = 0xFFFF_FFFF

-- rtosk_mutex_t
pub record Mutex : Type 0 where
  pub owner : ℕ
  pub waiting_task : ℕ

-- How a round of a `for(;;)` ends: the function returns, or it goes round.
pub data Round : Type 0 where
  returns goes_round : Round

unfoldable pub mutex_init : Option Mutex → Option Mutex
mutex_init none = none
mutex_init (some m) = some (record { owner = mutex_no_owner; waiting_task = mutex_no_waiter })

unfoldable pub lock_round : Option Mutex → Kernel → Round × Option Mutex × Kernel
lock_round none k = (returns, none, k)
lock_round (some m) k =
    let entered = enter_critical k in
    let current = entered.table.current in
    if m.owner == mutex_no_owner
    then (returns, some (record m { owner = current }), exit_critical entered)
    else if m.owner == current
    then (returns, some m, exit_critical entered)
    else (
      goes_round,
      some (record m { waiting_task = current }),
      kernel_yield (exit_critical (on_table block_current_on_mutex entered)),
    )

-- The end of rtosk_mutex_unlock, once the owner is cleared: the waiting task is made ready.
unfoldable pub wake_waiter : Mutex → Kernel → Mutex × Kernel
wake_waiter m k =
    if not (m.waiting_task == mutex_no_waiter)
    then (record m { waiting_task = mutex_no_waiter }, on_table (set_ready m.waiting_task) k)
    else (m, k)

unfoldable pub unlock : Option Mutex → Kernel → Option Mutex × Kernel
unfolding wake_waiter
unlock none k = (none, k)
unlock (some m) k =
    let entered = enter_critical k in
    let current = entered.table.current in
    if not (m.owner == current)
    then (some m, exit_critical entered)
    else let (m', k') = wake_waiter (record m { owner = mutex_no_owner }) entered in
      (some m', kernel_yield (exit_critical k'))
