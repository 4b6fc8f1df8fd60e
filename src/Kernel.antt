-- ===== src/Kernel.antt =====
-- The kernel state and the functions of src/kernel/kernel.c. The statics of kernel.c stand beside the
-- task table and the processor.
pub mod Critical
pub mod Frame
pub mod Switch
pub mod Sleep
pub mod Valid
pub mod Slots
pub mod Delay
use tinyrtos.Prelude.{
  ℕ, zero, suc, ◌+◌, ◌-◌, ◌*◌, ◌/◌, ◌%◌, Option, none, some, Bool, true, false, not, ◌&&◌, String,
  ltb, leb, ◌==◌, if◌then◌else◌, add32, sub32,
}
use tinyrtos.Port.{Cpu, irq_save, irq_restore, port_yield, configure_exceptions, configure_faults}
use tinyrtos.Task.{
  TaskTable, TaskInfo, Layout, init_idle, save_stack_pointer, block_current_until, update_blocked,
  create, get_info,
}
use tinyrtos.Scheduler.{select_next}

-- RTOSK_SYSTICKS, RTOSK_KERNEL_SYSTICK_INIT, RTOSK_KERNEL_INIT, RTOSK_CRITICAL_NESTING and
-- RTOSK_CRITICAL_PRIMASK.
pub record Kernel : Type 0 where
  pub table : TaskTable
  pub cpu : Cpu
  pub systicks : ℕ
  pub systick_init : Bool
  pub kernel_init : Bool
  pub critical_nesting : ℕ
  pub critical_primask : ℕ

unfoldable pub on_table : (TaskTable → TaskTable) → Kernel → Kernel
on_table f k = record k { table = f k.table }

-- rtosk_kernel_systick_init. `SystemCoreClock / 1000UL - 1UL` wraps as uint32_t does.
unfoldable pub kernel_systick_init : Kernel → Kernel
unfolding configure_exceptions
kernel_systick_init k =
    if k.systick_init
    then k
    else let cpu = configure_exceptions k.cpu in
      record k {
        cpu = record cpu {
          systick_load = sub32 (cpu.system_core_clock / 1000) 1;
          systick_val = 0;
          systick_enabled = true;
        };
        systick_init = true;
      }

-- rtosk_kernel_start: returns at once on a second call, hangs without a task, or reaches the
-- supervisor call that starts the first task.
pub data Start : Type 0 where
  already_started hangs : Start
  starts : Kernel → Start

unfoldable pub kernel_start : Layout → Kernel → Start
unfolding configure_faults
kernel_start l k =
    if k.kernel_init
    then already_started
    else if k.table.count == 0
    then hangs
    else starts
        (record k { cpu = configure_faults k.cpu; table = init_idle l k.table; kernel_init = true })

-- rtosk_kernel_delay_ms: the busy wait, on the values that successive reads of RTOSK_SYSTICKS give.
-- The result is the number of reads that the loop makes; `none` when it outlasts the fuel.
unfoldable pub delay_loop : ℕ → (ℕ → ℕ) → (start ms round : ℕ) → Option ℕ
delay_loop zero reads start ms round = none
delay_loop (suc fuel) reads start ms round = elim (ltb (sub32 (reads round) start) ms) [
  | true ↦ delay_loop fuel reads start ms (suc round)
  | false ↦ some round
]

unfoldable pub kernel_yield : Kernel → Kernel
unfolding port_yield
kernel_yield k = record k { cpu = port_yield k.cpu }

unfoldable pub enter_critical : Kernel → Kernel
unfolding irq_save
enter_critical k =
    let (primask, cpu) = irq_save k.cpu in
    record k {
      cpu = cpu;
      critical_primask = if k.critical_nesting == 0 then primask else k.critical_primask;
      critical_nesting = add32 k.critical_nesting 1;
    }

unfoldable pub exit_critical : Kernel → Kernel
unfolding irq_restore
exit_critical k =
    if k.critical_nesting == 0
    then k
    else let nesting = sub32 k.critical_nesting 1 in
      record k {
        critical_nesting = nesting;
        cpu = if nesting == 0 then irq_restore k.critical_primask k.cpu else k.cpu;
      }

unfoldable pub sleep_ms : ℕ → Kernel → Kernel
sleep_ms ms k =
    let entered = enter_critical k in
    let wake_tick = add32 entered.systicks ms in
    kernel_yield (exit_critical (on_table (block_current_until wake_tick) entered))

unfoldable pub get_ticks : Kernel → ℕ
get_ticks k = k.systicks

unfoldable pub get_cpu_freq : Kernel → ℕ
get_cpu_freq k = k.cpu.system_core_clock

unfoldable pub kernel_create_task : Layout → (task_func priority : ℕ) → String → Kernel → Kernel
unfolding on_table
kernel_create_task l task_func priority name = on_table (create l task_func priority name)

unfoldable pub kernel_get_task_info : ℕ → Kernel → Option TaskInfo
kernel_get_task_info index k = get_info index k.table

-- rtosk_kernel_tick, the body of SysTick_Handler.
unfoldable pub kernel_tick : Kernel → Kernel
unfolding on_table port_yield
kernel_tick k =
    let systicks = add32 k.systicks 1 in
    let ticked = record k { systicks = systicks } in
    if not k.kernel_init
    then ticked
    else kernel_yield (on_table (λ t. (update_blocked systicks t).0) ticked)

-- The PendSV exception as the kernel state sees it: taken when it is pending and interrupts are on,
-- it clears its pending bit, saves the stack pointer `sp` (the process stack pointer, once R4 to R11
-- are pushed) and runs the scheduler.
unfoldable pub take_pendsv : (sp : ℕ) → Kernel → Kernel
take_pendsv sp k =
    if k.cpu.pendsv && (k.cpu.primask % 2 == 0)
    then record k {
      cpu = record (k.cpu) { pendsv = false };
      table = select_next (save_stack_pointer sp k.table);
    }
    else k
