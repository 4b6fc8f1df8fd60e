-- ===== src/Tests/Fixtures.antt =====
-- The inputs of the tests: a processor, task tables that rtosk_task_create makes, and kernels over them.
use tinyrtos.Prelude.{true, false}
use tinyrtos.Port.{Cpu}
use tinyrtos.Task.{Layout, TaskTable, reset_table, create, init_idle}
use tinyrtos.Task.Valid.{IsValid}
use tinyrtos.Scheduler.Reach.{Reach, start, later, creates, inits_idle, Reach-IsValid}
use tinyrtos.Kernel.{Kernel}

abbrev pub cpu : Cpu
cpu = record {
  primask = 0;
  pendsv = false;
  pendsv_priority = 0xFF;
  systick_priority = 0xFE;
  div_0_trap = true;
  unalign_trap = true;
  system_core_clock = 216_000_000;
  systick_load = 215_999;
  systick_val = 0;
  systick_enabled = true;
}

abbrev pub layout : Layout
layout = record { tasks_address = 0x2000_0000; idle_task = 0x0800_0101; exit_trap = 0x0800_0201 }

-- Three tasks of priorities 3, 2 and 1, and the idle task.
abbrev pub three_tasks : TaskTable
three_tasks = init_idle layout (
    create layout 0x0800_1001 1 "low"
      (create layout 0x0800_0801 2 "mid" (create layout 0x0800_0401 3 "high" reset_table)))

pub three_tasks-Reach : Reach layout three_tasks
three_tasks-Reach =
    later
      (later (later (later start (creates 0x0800_0401 3 "high")) (creates 0x0800_0801 2 "mid"))
        (creates 0x0800_1001 1 "low"))
      inits_idle

pub three_tasks-IsValid : IsValid three_tasks
three_tasks-IsValid = Reach-IsValid three_tasks-Reach

-- A started kernel over them.
abbrev pub started : Kernel
started = record {
  table = three_tasks;
  cpu = cpu;
  systicks = 7;
  systick_init = true;
  kernel_init = true;
  critical_nesting = 0;
  critical_primask = 0;
}
