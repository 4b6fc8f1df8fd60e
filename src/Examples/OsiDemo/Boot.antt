-- ===== src/Examples/OsiDemo/Boot.antt =====
-- From the reset of the board to the first instruction of the shell: examples/osi/src/main.c with SVC_Handler of
-- src/kernel/port.c.
use tinyrtos.Prelude.{
  Bool-cases, inr, ℕ, ◌%◌, ◌≡◌, ◌≢◌, refl, sym, subst, ap, ◌∙◌, true, false, length-replicate, inl,
  ◌==◌, arith,
}
use tinyrtos.TaskStack.{task_stack_words}
use tinyrtos.Task.{
  Layout, TaskTable, ready, zero_task, reset_table, slot, set_slot, create, init_idle, fresh_task,
}
use tinyrtos.Task.Valid.{IsValid}
use tinyrtos.Port.{configure_faults}
use tinyrtos.Scheduler.Reach.{start, later, creates, inits_idle, Reach-IsValid}
use tinyrtos.Kernel.{
  Kernel, starts, kernel_start, kernel_systick_init, on_table, kernel_create_task,
}
use tinyrtos.ContextSwitch.{Machine, svc_handler}
use tinyrtos.ContextSwitch.Memory.{Fits}
use tinyrtos.ContextSwitch.FirstTask.{popped, entry_frame, svc_handler_starts}
use tinyrtos.Bsp.Usart3.{Masks}
use tinyrtos.Osi.Init.{Board, osi_init}
use tinyrtos.Examples.OsiDemo.{Functions, Demo, prepared, main}

-- The task table when the first task starts.
abbrev booted : Layout → Functions → TaskTable
booted l f = init_idle l (
    create l f.led1_task 1 "led1"
      (create l f.led0_task 2 "led0" (create l f.osi_task 3 "osi" reset_table)))

booted-IsValid : (l : Layout) (f : Functions) → IsValid (booted l f)
booted-IsValid l f = Reach-IsValid {l = l} (
    later
      (later (later (later start (creates f.osi_task 3 "osi")) (creates f.led0_task 2 "led0"))
        (creates f.led1_task 1 "led1"))
      inits_idle)

module _ (l : Layout) (f : Functions) (some_osi : (f.osi_task == 0) ≡ false)
    (some_led0 : (f.led0_task == 0) ≡ false) (some_led1 : (f.led1_task == 0) ≡ false) where
  booted_counts : ((booted l f).count ≡ 3) × ((booted l f).current ≡ 0)
  unfolding create init_idle set_slot
  booted_counts =
      (rw (some_osi, some_led0, some_led1) refl, rw (some_osi, some_led0, some_led1) refl)

  created_count :
      (create l f.led1_task 1 "led1"
        (create l f.led0_task 2 "led0" (create l f.osi_task 3 "osi" reset_table))).count
      ≡ 3
  unfolding create set_slot
  created_count = rw (some_osi, some_led0, some_led1) refl

  booted_first : slot (booted l f) 0 ≡ fresh_task l 0 f.osi_task ready 3 "osi" zero_task
  unfolding create init_idle set_slot slot
  booted_first = rw (some_osi, some_led0, some_led1) refl

systick_keeps :
    (k : Kernel)
    → ((kernel_systick_init k).table ≡ k.table)
      × ((kernel_systick_init k).kernel_init ≡ k.kernel_init)
unfolding kernel_systick_init
systick_keeps k = elim (Bool-cases k.systick_init) [
  | inl on ↦ (rw on refl, rw on refl)
  | inr off ↦ (rw off refl, rw off refl)
]

-- The kernel in front of rtosk_kernel_start, on a fresh board.
module _ (m : Masks) (l : Layout) (f : Functions) (b : Board) (fresh : b.statics.osi_init ≡ false)
    (reset : b.kernel.table ≡ reset_table) where
  table-prepared :
      (prepared m l f b).table
      ≡ create l f.led1_task 1 "led1"
          (create l f.led0_task 2 "led0" (create l f.osi_task 3 "osi" reset_table))
  unfolding prepared osi_init kernel_create_task on_table
  table-prepared =
      rw (fresh, (systick_keeps (kernel_create_task l f.osi_task 3 "osi" b.kernel)).0, reset) refl

  kernel_init-prepared : (prepared m l f b).kernel_init ≡ b.kernel.kernel_init
  unfolding prepared osi_init kernel_create_task on_table
  kernel_init-prepared =
      rw (fresh, (systick_keeps (kernel_create_task l f.osi_task 3 "osi" b.kernel)).1) refl

-- The kernel that rtosk_kernel_start leaves.
abbrev started_from : Layout → Kernel → Kernel
started_from l k = record k {
  cpu = configure_faults k.cpu;
  table = init_idle l k.table;
  kernel_init = true;
}

kernel_start_lem :
    (l : Layout) (k : Kernel)
    → k.kernel_init ≡ false
    → (k.table.count == 0) ≡ false
    → kernel_start l k ≡ starts (started_from l k)
unfolding kernel_start
kernel_start_lem l k off some_task = rw (off, some_task) refl

-- From the reset of the board, with the task table at a word-aligned address below 2 ^ 32, `main` comes to
-- rtosk_kernel_start with three tasks, the kernel starts on a valid table, and SVC_Handler enters the shell: in Thread
-- mode on the process stack, aligned to eight bytes, with a frame on it from which the processor goes on at
-- rtosk_osi_task.
pub main_enters_shell :
    (m : Masks) (gpioben : ℕ) (l : Layout) (f : Functions) (d : Demo) (machine : Machine)
    → Fits l
    → l.tasks_address % 4 ≡ 0
    → f.osi_task ≢ 0
    → f.led0_task ≢ 0
    → f.led1_task ≢ 0
    → d.board.statics.osi_init ≡ false
    → d.board.kernel.table ≡ reset_table
    → d.board.kernel.kernel_init ≡ false
    → (k : Kernel) × ((main m gpioben l f d).1 ≡ starts k)
      × IsValid k.table
      × (k.table.count ≡ 3)
      × ((svc_handler l (record machine { kernel = k })).spsel ≡ true)
      × ((svc_handler l (record machine { kernel = k })).psp % 8 ≡ 0)
      × (popped l (svc_handler l (record machine { kernel = k }))
          ≡ entry_frame l.exit_trap f.osi_task)
unfolding main
main_enters_shell m gpioben l f d machine fits aligned osi led0 led1 fresh reset off =
    let some_osi : (f.osi_task == 0) ≡ false = ground arith in
    let some_led0 : (f.led0_task == 0) ≡ false = ground arith in
    let some_led1 : (f.led1_task == 0) ≡ false = ground arith in
    let k = started_from l (prepared m l f d.board) in
    let created = table-prepared m l f d.board fresh reset in
    let tab : k.table ≡ booted l f = ap (init_idle l) created in
    let counts = booted_counts l f some_osi some_led0 some_led1 in
    let number : k.table.count ≡ 3 = ap (λ (t : TaskTable). t.count) tab ∙ counts.0 in
    let first : k.table.current ≡ 0 = ap (λ (t : TaskTable). t.current) tab ∙ counts.1 in
    let there : slot k.table k.table.current
        ≡ fresh_task l k.table.current f.osi_task ready 3 "osi" zero_task =
      subst
        (λ (t : TaskTable).
          slot t t.current ≡ fresh_task l t.current f.osi_task ready 3 "osi" zero_task)
        (sym tab)
        (subst (λ (c : ℕ). slot (booted l f) c ≡ fresh_task l c f.osi_task ready 3 "osi" zero_task)
          (sym counts.1) (booted_first l f some_osi some_led0 some_led1)) in
    let valid : IsValid k.table = subst IsValid (sym tab) (booted-IsValid l f) in
    let some_task : ((prepared m l f d.board).table.count == 0) ≡ false =
      rw created (rw (created_count l f some_osi some_led0 some_led1) refl) in
    let svc =
      svc_handler_starts l fits aligned (record machine { kernel = k }) f.osi_task ready 3 "osi"
        zero_task valid (inl (omega (arith, number, first))) (omega (arith, first))
        (length-replicate {A = ℕ} task_stack_words 0) there in
    (
      k,
      kernel_start_lem l (prepared m l f d.board)
          (kernel_init-prepared m l f d.board fresh reset ∙ off) some_task,
      valid,
      number,
      svc.0,
      svc.1,
      svc.3,
    )
