-- ===== src/Tests/BootRuns.antt =====
-- The demo of examples/osi from reset.
use tinyrtos.Prelude.{◌%◌, ◌≡◌, refl, arith, true, false, replicate}
use tinyrtos.Task.{reset_table}
use tinyrtos.Task.Valid.{IsValid}
use tinyrtos.Kernel.{Kernel, starts}
use tinyrtos.ContextSwitch.{Machine, svc_handler}
use tinyrtos.ContextSwitch.FirstTask.{popped, entry_frame}
use tinyrtos.Examples.OsiDemo.{Functions, Demo, main}
use tinyrtos.Examples.OsiDemo.Boot.{main_enters_shell}
use tinyrtos.Tests.Fixtures.{cpu, layout}
use tinyrtos.Tests.FeedRuns.{masks, board}
use tinyrtos.Tests.BoardRuns.{reset_port}

abbrev off : Kernel
off = record {
  table = reset_table;
  cpu = cpu;
  systicks = 0;
  systick_init = false;
  kernel_init = false;
  critical_nesting = 0;
  critical_primask = 0;
}

abbrev demo : Demo
demo = record { board = record board { kernel = off }; leds = reset_port }

abbrev functions : Functions
functions = record { osi_task = 0x0800_0901; led0_task = 0x0800_0A01; led1_task = 0x0800_0B01 }

abbrev machine : Machine
machine = record { kernel = off; psp = 0; r4_r11 = replicate 8 0; spsel = false }

main_enters_shell_example :
    (k : Kernel) × ((main masks 2 layout functions demo).1 ≡ starts k)
    × IsValid k.table
    × (k.table.count ≡ 3)
    × ((svc_handler layout (record machine { kernel = k })).spsel ≡ true)
    × ((svc_handler layout (record machine { kernel = k })).psp % 8 ≡ 0)
    × (popped layout (svc_handler layout (record machine { kernel = k }))
        ≡ entry_frame layout.exit_trap 0x0800_0901)
main_enters_shell_example =
    main_enters_shell masks 2 layout functions demo machine (omega arith) refl
      (λ e. absurd (omega arith)) (λ e. absurd (omega arith)) (λ e. absurd (omega arith)) refl refl
      refl
