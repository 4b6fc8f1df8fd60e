-- ===== src/Lib.antt =====
-- TinyRTOS: a preemptive priority kernel for ARM Cortex-M, its synchronisation objects, stacks, operator
-- shell, hard fault report and board support, and its GUI example.
--
-- Parts, and the files that model them (paths from the repository's root):
-- src/kernel/task.c, include/tinyrtos/kernel/task.h: Task.antt has the task table (RTOSK_TASKS,
--   RTOSK_TASK_COUNT, RTOSK_CURRENT_TASK, RTOSK_IDLE_READY are the record TaskTable) and one function for
--   each rtosk_task_* function, under its name without the prefix. TaskStack.antt has the stack of a
--   task: rtosk_task_watermark_stack, rtosk_task_get_stack_free_words, rtosk_task_build_stack.
-- src/kernel/scheduler.c: Scheduler.antt, rtosk_scheduler_select_next, its loop round by round.
-- src/kernel/port.c: Port.antt, the functions that read and write processor registers, on a record of
--   these registers; `take_pendsv` of Kernel.antt is what PendSV_Handler does to the kernel state, and
--   ContextSwitch/Abstract.antt compares the two.
-- src/kernel/kernel.c: Kernel.antt, the statics as the record Kernel and the rtosk_kernel_* functions.
-- src/kernel/mutex.c, src/kernel/semaphore.c, src/kernel/queue.c: Mutex.antt, Semaphore.antt and
--   Queue.antt. A call takes the object and the kernel and returns both. Mutex/System.antt,
--   Semaphore/System.antt and Queue/System.antt have the tasks that use one of them.
-- src/kernel/port.c, SVC_Handler and PendSV_Handler: ContextSwitch.antt, instruction by instruction, with
--   the registers that they move and the stacks in the task table as their memory.
-- src/kernel/fault.c: Fault.antt, the hard fault report as the bytes that it sends; Fault/Entry.antt,
--   HardFault_Handler of src/kernel/port.c, which picks the stack of the report.
-- src/osi/osi.c, include/tinyrtos/osi/osi.h: Osi.antt has the commands and the actions of the shell,
--   Osi/Invoke.antt osi_invoke and rtosk_osi_dispatch_command, Osi/Task.antt the loop of rtosk_osi_task;
--   Osi/Typing.antt says what the editor of its line promises, and Osi/Editor.antt that it does so. Osi/Init.antt has rtosk_osi_init and the
--   callback of the receive interrupt, Osi/Feed.antt the interrupt and the task at the two ends of the queue.
-- src/bsp/f756zg: Bsp/Usart3.antt, the start of USART3, its interrupt and the bytes sent; Bsp/Led.antt, the
--   registers of the three LEDs. The two have a record of registers each, and each its own view of
--   RCC->AHB1ENR, in which they set different bits.
-- examples/osi/src/main.c: Examples/OsiDemo.antt, `main` and the two LED tasks.
-- examples/gui: Gui.antt has the constants of common.h, Gui/Primitives.antt the encoder on the board
--   (src/primitives.c), Gui/Scene.antt the turning cube (src/scene.c), Gui/Dispatcher.antt the task that
--   draws it and the start of the board (src/dispatcher.c, src/main.c). Gui/Parser.antt is the parser of the
--   host (renderer/src/parser.c), Gui/Renderer.antt its drawing (renderer/src/renderer.c), with the lines in
--   Gui/Renderer/Line.antt, the window in Gui/Renderer/Life.antt, and what the parser's calls come to in
--   Gui/Renderer/Perform.antt; Gui/Serial.antt its serial port (renderer/src/serial.c), and Gui/Host.antt its
--   `main` (renderer/src/main.c).
-- Prelude.antt has the shared helpers; Tests.antt runs the functions on concrete inputs.
--
-- How the parts interact: the objects call enter_critical and exit_critical of the kernel around each
-- access, block the current task in the task table and ask for a context switch by kernel_yield, which
-- sets the pending bit of PendSV; take_pendsv then runs the scheduler. kernel_tick is the SysTick
-- interrupt: it counts, wakes tasks that slept long enough, and yields. Mutex/System.antt,
-- Semaphore/System.antt and Queue/System.antt put these together: their steps are the calls of the
-- current task, the interrupts and the switch, in any order. The shell and the hard fault report send
-- through USART3, the shell under its mutex. On the board the scene calls the encoder, whose bytes the
-- renderer's parser turns into drawing calls: Gui/Wire.antt puts the two together, and
-- Gui/Host/Drawn.antt the dispatcher, the line, the serial port and the parser. libserialport and SDL
-- are parameters: records of answers, which for libserialport may depend on every call before. The
-- functions return the calls that they make, with the answers that decide what state the library is in.
-- Gui/Serial/Account.antt says which calls libserialport allows, and Gui/Renderer/Alive.antt says it of SDL. The
-- program does not look at the answers to its settings of the port: the account is kept with them and without.
--
-- Numbers: a uint32_t is a natural number, and where the source adds, subtracts or multiplies, the
-- result is taken modulo 2 ^ 32 (add32, sub32, mul32). `queue->count--`, `sem->count--` stand under tests
-- that the count is not 0. A flag that is only tested against 0 is a Bool. A pointer that the source tests
-- against null is an Option. A function pointer or a stack pointer is its address.
--
-- Loops: a counted `for` is `for_range`, by recursion on the number of rounds. The `while` of
-- rtosk_task_get_stack_free_words runs on fuel one above the size of the stack, which it cannot use up;
-- the busy wait of rtosk_kernel_delay_ms runs on the fuel that it is given, and so does the `for(;;)` of
-- gui_renderer_draw_line, for which fuel above the two distances of its ends together is enough; the host's `main`
-- gives it 511, which is enough for ends that are bytes. The loops of
-- gui_serial_reconnect, gui_serial_read and the host's `main` run on the fuel that they are given: how long they
-- wait is up to the target. The `for(;;)` of rtosk_mutex_lock and rtosk_queue_receive is one function per
-- round, which says whether the round returns or goes round: between two rounds other tasks run.
--
-- The shell's kernel goes on while a command runs: `k i` is the kernel that the command's `i`-th read finds.
-- The commands fault and reboot end the program: after them the shell does nothing more (`halted` of Osi).
-- A decimal number is printed on fuel of ten digits, which every uint32_t fits. A buffer of `n` bytes takes
-- the first `n - 1` bytes that snprintf prints. Signed numbers (Prelude/Signed.antt) are cut to int16_t and
-- uint8_t where the source does it.
--
-- Not modelled: the barrier instructions; the wait for an empty transmit register; the volatile loop that only
-- takes time in the LED task; the texts that the host prints; the bodies of the idle task and of the exit trap;
-- the frame that the processor itself pushes and pops around an exception. That an interrupt comes in the middle
-- of a call is not modelled either: the calls run with interrupts off, except for the _from_isr functions, which
-- run in an interrupt. Build files and documentation have no behaviour of the program.
pub mod Prelude
pub mod TaskStack
pub mod Task
pub mod Scheduler
pub mod Port
pub mod Kernel
pub mod ContextSwitch
pub mod Semaphore
pub mod Mutex
pub mod Queue
pub mod Bsp
pub mod Fault
pub mod Osi
pub mod Examples
pub mod Gui
pub mod Tests
